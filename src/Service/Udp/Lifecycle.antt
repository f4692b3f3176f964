-- ===== src/Service/Udp/Lifecycle.antt =====
-- service/udp.go, the life of udpService: Serve with its packet loop, the goroutines that copy the
-- answers of the targets, Stop and GracefulStop, as steps of threads that interleave. A socket of
-- clients is a number. The wait group is the `running` of the NAT table, which shares it; the table is
-- made with the service, for the one call of Serve that uses it.
pub mod Accounted
pub mod Drained
use ssgo.Prelude.{
  ℕ, ◌+◌, ◌-◌, ◌≤◌, ◌≡◌, Bool, true, false, ◌||◌, not, List, [], ◌∷◌, Option, none, some,
  if◌then◌else◌, Bytes,
}
use ssgo.Shadowsocks.Crypto.{Crypto}
use ssgo.Service.Replay.{contains}
use ssgo.Service.CipherList.{Element}
use ssgo.Service.Nat.{Natconn, Natmap, new_nat_map, get, put_conn, on_read, finish, close_all}
use ssgo.Service.Udp.{Env, Shared, Packet, Forwarded, Round, stopping, panicked, done, serve_round}

-- `serving` says that the packet loop runs; `handed` lists the sockets that Serve was called with,
-- `closed` those that were closed.
pub record UdpService : Type 0 where
  pub client_conn : Option ℕ
  pub stopped : Bool
  pub serving : Bool
  pub shared : Shared
  pub handed : List ℕ
  pub closed : List ℕ

abbrev pub with_nat : UdpService → Natmap → UdpService
with_nat s m = record s { shared = record s.shared { nat = m } }

unfoldable pub new_udp_service : ℕ → List Element → UdpService
unfolding new_nat_map
new_udp_service nat_timeout cipher_list = record {
  client_conn = none;
  stopped = false;
  serving = false;
  shared = record {
    ciphers = cipher_list;
    nat = new_nat_map nat_timeout;
    user_traffic = [];
    www_traffic = [];
  };
  handed = [];
  closed = [];
}

abbrev pub is_some {ℓ} : {A : Type ℓ} → Option A → Bool
is_some none = false
is_some (some x) = true

-- Serve up to its loop: a second call, or a call after Stop, only closes its socket.
unfoldable pub serve : ℕ → UdpService → UdpService
serve conn s =
    let m = s.shared.nat in
    if is_some s.client_conn || s.stopped
    then record s { handed = conn ∷ s.handed; closed = conn ∷ s.closed }
    else record s {
      client_conn = some conn;
      serving = true;
      shared = record s.shared { nat = record m { running = m.running + 1 } };
      handed = conn ∷ s.handed;
    }

-- How Serve ends: its deferred Close makes every connection of the table time out.
unfoldable pub serve_ends : ℕ → UdpService → UdpService
unfolding close_all
serve_ends now s =
    let m = s.shared.nat in
    record s {
      serving = false;
      shared = record s.shared {
        nat = record m { key_conn = close_all now m.key_conn; running = m.running - 1 };
      };
    }

-- What a round of the loop makes of the service.
unfoldable pub after_round : ℕ → UdpService → Round → UdpService
unfolding serve_ends
after_round now s stopping = serve_ends now s
after_round now s panicked = s
after_round now s (done f shared) = record s { shared = shared }

-- A target has answered: the read that timedCopy waits for returns.
unfoldable pub answered : ℕ → ℕ → Bytes → Natconn → UdpService → UdpService
unfolding put_conn on_read
answered now port key c s = with_nat s (put_conn s.shared.nat key (on_read now port c))

-- timedCopy has returned, and its goroutine ends.
unfoldable pub copier_ends : Bytes → UdpService → UdpService
unfolding finish
copier_ends key s = with_nat s (finish s.shared.nat key)

abbrev pub close_conn : Option ℕ → List ℕ → List ℕ
close_conn none closed = closed
close_conn (some conn) closed = conn ∷ closed

unfoldable pub stop : UdpService → UdpService
stop s = record s { stopped = true; closed = close_conn s.client_conn s.closed }

-- A closed socket gives no more packets.
abbrev pub receives : UdpService → Bool
receives s = elim s.client_conn [ none ↦ false | some conn ↦ not (contains conn s.closed) ]

module _ (crypto : Crypto) where
  -- What may happen next.
  pub data Step : UdpService → UdpService → Type 0 where
    call_serve :
        (s : UdpService) (conn : ℕ) → contains conn s.closed ≡ false → Step s (serve conn s)
    packet :
        (s : UdpService) (env : Env) (p : Packet)
        → s.serving ≡ true
        → receives s ≡ true
        → Step s (after_round env.now s (serve_round crypto env s.stopped (some p) s.shared))
    read_fails :
        (s : UdpService) (env : Env)
        → s.serving ≡ true
        → Step s (after_round env.now s (serve_round crypto env s.stopped none s.shared))
    answer :
        (s : UdpService) (now port : ℕ) (key : Bytes) (c : Natconn)
        → get s.shared.nat key ≡ some c
        → Step s (answered now port key c s)
    -- timedCopy returns when the read deadline of its connection has come.
    end_copier :
        (s : UdpService) (now : ℕ) (key : Bytes) (c : Natconn) (t : ℕ)
        → get s.shared.nat key ≡ some c
        → c.deadline_set ≡ some t
        → t ≤ now
        → Step s (copier_ends key s)
    call_stop : (s : UdpService) → Step s (stop s)

  pub data Steps (s : UdpService) : UdpService → Type 0 where
    here : Steps s s
    next : {t u : UdpService} → Steps s t → Step t u → Steps s u

-- What GracefulStop waits for.
abbrev pub IsDrained : UdpService → Type 0
IsDrained s = (s.serving ≡ false) × (s.shared.nat.key_conn ≡ []) × (s.shared.nat.running ≡ 0)
