-- ===== src/Server.antt =====
-- cmd/quick_ss/main.go: the ports that the server serves, and how a list of users changes them.
pub mod Loading
pub mod Users
pub mod Lookup
pub mod Walk
pub mod Applied
pub mod Opened
pub mod Failed
pub mod Start
use ssgo.Prelude.{
  ℕ, Bool, true, false, not, ◌&&◌, List, [], ◌∷◌, ◌++◌, Option, none, some, map, ◌==◌,
  if◌then◌else◌, Bytes, length,
}
use ssgo.Io.{
  Error, Result, ok, err, new, wrap, on_error, port_does_not_exist, failed_to_close,
  failed_to_start, failed_to_create_cipher, failed_to_remove, failed_to_start_port,
}
use ssgo.Service.CipherList.{CipherEntry}

-- Key of api/model.go.
pub record Key : Type 0 where
  pub id : Bytes
  pub port : ℕ
  pub cipher : Bytes
  pub secret : Bytes

-- The keys of a port, in the order of its list; its services are the sockets below.
abbrev pub Ports : Type 0
Ports = List (ℕ × List CipherEntry)

-- How opening and closing the sockets of a port ends.
pub record Sockets : Type 0 where
  pub listen_tcp : ℕ → Option Error
  pub listen_udp : ℕ → Option Error
  pub stop_tcp : ℕ → Option Error
  pub stop_udp : ℕ → Option Error

unfoldable pub ciphers_of : ℕ → Ports → Option (List CipherEntry)
ciphers_of port [] = none
ciphers_of port ((p, cs) ∷ ports) = if p == port then some cs else ciphers_of port ports

unfoldable pub delete : ℕ → Ports → Ports
delete port [] = []
delete port ((p, cs) ∷ ports) = if p == port then delete port ports else (p, cs) ∷ delete port ports

-- An assignment to a key of the map.
unfoldable pub assign : ℕ → List CipherEntry → Ports → Ports
assign port cs ports = (port, cs) ∷ delete port ports

module _ (net : Sockets) where
  unfoldable pub start_port : ℕ → Ports → Ports × Option Error
  unfolding assign
  start_port port ports =
      on_error (net.listen_tcp port) (λ e. (ports, some (wrap failed_to_start e)))
        (on_error (net.listen_udp port) (λ e. (ports, some (wrap failed_to_start e)))
          (assign port [] ports, none))

  unfoldable pub remove_port : ℕ → Ports → Ports × Option Error
  unfolding delete ciphers_of
  remove_port port ports = elim (ciphers_of port ports) [
    | none ↦ (ports, some (new port_does_not_exist))
    | some cs ↦
        let rest = delete port ports in
        on_error (net.stop_tcp port) (λ e. (rest, some (wrap failed_to_close e)))
          (on_error (net.stop_udp port) (λ e. (rest, some (wrap failed_to_close e))) (rest, none))
  ]

  -- Stop, on the ports in the order in which the map is walked.
  unfoldable pub stop : List ℕ → Ports → Ports × Option Error
  unfolding remove_port
  stop [] ports = (ports, none)
  stop (port ∷ order) ports =
      let (ports', e) = remove_port port ports in
      let rest = stop order ports' in on_error e (λ x. (ports', some x)) rest

  -- The changes of doRun, on the ports in the order in which portChanges is walked: those that are
  -- served without a key (count -1) are removed, those with a key that are not served (+1) started.
  unfoldable pub change_ports : Ports → Ports → List ℕ → Ports → Ports × Option Error
  unfolding start_port remove_port
  change_ports wanted served [] ports = (ports, none)
  change_ports wanted served (port ∷ order) ports =
      let (removed, e) = remove_port port ports in
      let (started, e') = start_port port ports in
      let after_removed = change_ports wanted served order removed in
      let after_started = change_ports wanted served order started in
      let unchanged = change_ports wanted served order ports in
      elim (ciphers_of port wanted) [
        | none ↦ elim (ciphers_of port served) [
          | none ↦ unchanged
          | some cs ↦ on_error e (λ x. (removed, some (wrap failed_to_remove x))) after_removed
        ]
        | some ks ↦ elim (ciphers_of port served) [
          | none ↦ on_error e' (λ x. (started, some (wrap failed_to_start_port x))) after_started
          | some cs ↦ unchanged
        ]
      ]

-- The last loop of doRun: every port with keys gets its list. A port that is not in the map is a nil
-- pointer, whose use is a panic: `none`.
unfoldable pub update_lists : Ports → Ports → Option Ports
unfolding assign ciphers_of
update_lists [] ports = some ports
update_lists ((port, cs) ∷ wanted) ports =
    let rest = update_lists wanted (assign port cs ports) in
    elim (ciphers_of port ports) [ none ↦ none | some old ↦ rest ]

-- The first loop of doRun: a key is added to the list of its port.
unfoldable pub add_key : ℕ → CipherEntry → Ports → Ports
add_key port entry [] = (port, entry ∷ []) ∷ []
add_key port entry ((p, cs) ∷ wanted) =
    if p == port then (p, cs ++ (entry ∷ [])) ∷ wanted else (p, cs) ∷ add_key port entry wanted

-- `make` is NewCipher and MakeCipherEntry on a key.
unfoldable pub load_keys : (Key → Result CipherEntry) → List Key → Ports → Result Ports
unfolding add_key
load_keys make [] wanted = ok wanted
load_keys make (key ∷ keys) wanted =
    let entry = make key in
    elim entry [
      | err e ↦ err (wrap failed_to_create_cipher e)
      | ok cs ↦ load_keys make keys (add_key key.port cs wanted)
    ]

abbrev pub updated : Option Ports → Option (Ports × Option Error)
updated none = none
updated (some ports) = some (ports, none)

-- doRun; `order` is the order in which portChanges is walked, and `none` a panic.
unfoldable pub do_run :
    Sockets → (Key → Result CipherEntry) → List Key → List ℕ → Ports → Option (Ports × Option Error)
unfolding load_keys change_ports update_lists
do_run net make users order ports = elim (load_keys make users []) [
  | err e ↦ some (ports, some e)
  | ok wanted ↦
      let (changed, e) = change_ports net wanted ports order ports in
      on_error e (λ x. some (changed, some x)) (updated (update_lists wanted changed))
]
