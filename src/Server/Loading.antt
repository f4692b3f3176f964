-- ===== src/Server/Loading.antt =====
-- Every key reaches the list of its port, in order.
use ssgo.Prelude.{
  true, ℕ, ◌≡◌, refl, ap, sym, ◌∙◌, false, Bool-cases, inl, inr, List, [], ◌∷◌, ◌++◌, none, some,
  arith, ◌==◌, if◌then◌else◌, append-nil, append_assoc, ==_iff,
}
use ssgo.Io.{Result, ok, err, Result-cases}
use ssgo.Service.CipherList.{CipherEntry}
use ssgo.Service.Replay.{contains}
use ssgo.Server.{Key, Ports, ciphers_of, add_key, load_keys}

-- The list of a port, empty for a port without keys.
abbrev pub list_of : ℕ → Ports → List CipherEntry
list_of port ports = elim (ciphers_of port ports) [ none ↦ [] | some cs ↦ cs ]

-- The entries that the keys of a port make, in the order of the keys.
unfoldable pub entries : (Key → Result CipherEntry) → ℕ → List Key → List CipherEntry
entries make port [] = []
entries make port (key ∷ keys) =
    let rest = entries make port keys in
    if key.port == port then elim (make key) [ ok e ↦ e ∷ rest | err x ↦ rest ] else rest

list_of-add_key :
    (port p : ℕ) (e : CipherEntry) (w : Ports)
    → list_of p (add_key port e w) ≡ list_of p w ++ (if port == p then e ∷ [] else [])
unfolding ciphers_of add_key
list_of-add_key port p e [] = ground arith
list_of-add_key port p e ((q, cs) ∷ w) = elim (Bool-cases (q == port)) [
  | inl same ↦
      let at : (q == p) ≡ (port == p) = ap (λ k. k == p) ((==_iff q port).0 same) in
      elim (Bool-cases (q == p)) [
        | inl hit ↦ rw (same, add_key) (rw (sym at ∙ hit, hit, list_of, ciphers_of) refl)
        | inr miss ↦
            rw (same, add_key)
              (rw (sym at ∙ miss, miss, list_of, ciphers_of) (sym (append-nil (list_of p w))))
      ]
  | inr other ↦ elim (Bool-cases (q == p)) [
    | inl hit ↦
        let apart : (port == p) ≡ false =
          ground (arith, ==_iff q p, ==_iff q port, ==_iff port p) in
        rw (other, add_key) (rw (apart, hit, list_of, ciphers_of) (sym (append-nil cs)))
    | inr miss ↦ rw (other, add_key) (rw (miss, list_of, ciphers_of) (list_of-add_key port p e w))
  ]
]

-- The first loop of doRun, where it ends without an error, has made every key, and the list of each
-- port is what it was before with the entries of that port's keys behind it, in order.
pub load_keys_lem :
    (make : Key → Result CipherEntry) (keys : List Key) (w w' : Ports) (p : ℕ)
    → load_keys make keys w ≡ ok w'
    → list_of p w' ≡ list_of p w ++ entries make p keys
unfolding load_keys entries
load_keys_lem make [] w w' p h =
    let e : w ≡ w' = ground arith in ap (list_of p) (sym e) ∙ sym (append-nil (list_of p w))
load_keys_lem make (key ∷ keys) w w' p h = elim (Result-cases (make key)) [
  | inr (x, failed) ↦ ground (arith, failed, h)
  | inl (e, made) ↦
      let run : load_keys make (key ∷ keys) w ≡ load_keys make keys (add_key key.port e w) =
        rw (made, load_keys) refl in
      let rest = load_keys_lem make keys (add_key key.port e w) w' p (sym run ∙ h) in
      rest
      ∙ ap (λ l. l ++ entries make p keys) (list_of-add_key key.port p e w)
      ∙ append_assoc (list_of p w) (if key.port == p then e ∷ [] else []) (entries make p keys)
      ∙ ap (◌++◌ (list_of p w)) (ground (arith, made))
]

-- The ports of some keys.
unfoldable pub ports_of : List Key → List ℕ
ports_of [] = []
ports_of (key ∷ keys) = key.port ∷ ports_of keys

ciphers_of-add_key :
    (q p : ℕ) (e : CipherEntry) (w : Ports)
    → (p == q) ≡ false
    → ciphers_of q (add_key p e w) ≡ ciphers_of q w
unfolding add_key ciphers_of
ciphers_of-add_key q p e [] apart = rw apart refl
ciphers_of-add_key q p e ((k, l) ∷ w) apart = elim (Bool-cases (k == p)) [
  | inl same ↦
      let at : (k == q) ≡ false = ap (λ j. j == q) ((==_iff k p).0 same) ∙ apart in
      rw (same, add_key) (rw at refl)
  | inr other ↦
      rw (other, add_key)
        (ap (λ x. if k == q then some l else x) (ciphers_of-add_key q p e w apart))
]

load_keys-others :
    (make : Key → Result CipherEntry) (keys : List Key) (w wanted : Ports) (q : ℕ)
    → load_keys make keys w ≡ ok wanted
    → contains q (ports_of keys) ≡ false
    → ciphers_of q wanted ≡ ciphers_of q w
unfolding load_keys contains ports_of
load_keys-others make [] w wanted q h out =
    let e : w ≡ wanted = ground arith in ap (ciphers_of q) (sym e)
load_keys-others make (key ∷ keys) w wanted q h out = elim (Result-cases (make key)) [
  | inr (x, failed) ↦ ground (arith, failed, h)
  | inl (e, made) ↦
      let run : load_keys make (key ∷ keys) w ≡ load_keys make keys (add_key key.port e w) =
        rw (made, load_keys) refl in
      let apart : (key.port == q) ≡ false = ground arith in
      let later : contains q (ports_of keys) ≡ false = ground arith in
      load_keys-others make keys (add_key key.port e w) wanted q (sym run ∙ h) later
      ∙ ciphers_of-add_key q key.port e w apart
]

-- Every port with keys is the port of a key.
pub load_keys-ports :
    (make : Key → Result CipherEntry) (keys : List Key) (wanted : Ports) (q : ℕ)
    (cs : List CipherEntry)
    → load_keys make keys [] ≡ ok wanted
    → ciphers_of q wanted ≡ some cs
    → contains q (ports_of keys) ≡ true
unfolding ciphers_of
load_keys-ports make keys wanted q cs loaded there =
    elim (Bool-cases (contains q (ports_of keys))) [
      | inl is_one ↦ is_one
      | inr out ↦
          let none_there : ciphers_of q wanted ≡ none =
            load_keys-others make keys [] wanted q loaded out in
          cc (none_there, there)
    ]
