-- ===== src/Tests/Relays.antt =====
-- The relay of net/stream.go, the life of the UDP service, and a doRun that fails, at concrete inputs.
use ssgo.Prelude.{
  ℕ, ◌≡◌, refl, ◌⊎◌, List, [], ◌∷◌, none, some, arith, codes, true, false, ◌==◌, if◌then◌else◌,
}
use ssgo.Io.{Error, Result, ok, err, external, wrap, failed_to_start_port, failed_to_start, Sink}
use ssgo.Net.Stream.{
  DuplexConn, Side, to_left, to_right, relay, relay_steps, relay_end, start_relay,
}
use ssgo.Net.Stream.Relay.{Relayed, relay_steps-relay, relay-Relayed}
use ssgo.Service.CipherList.{CipherEntry, snapshot_for_client_ip}
use ssgo.Service.FindKey.{find_access_key_udp}
use ssgo.Service.Replay.{contains}
use ssgo.Service.Nat.{get, new_nat_map, close_all}
use ssgo.Service.Udp.{Env, Packet, serve_round, report}
use ssgo.Service.Udp.Lifecycle.{
  UdpService, new_udp_service, serve, serve_ends, after_round, stop, receives, Steps, here, next,
  call_serve, packet, read_fails, call_stop, IsDrained,
}
use ssgo.Service.Udp.Lifecycle.Drained.{graceful_stop_udp, stopped_udp_can_drain}
use ssgo.Server.{
  delete, remove_port, Key, Ports, Sockets, ciphers_of, load_keys, add_key, start_port,
  change_ports, do_run,
}
use ssgo.Server.Failed.{Left, do_run_failed}
use ssgo.Tests.Toy.{toy, toy_cipher}
use ssgo.Service.ServerSalt.{random_server_salt_generator}

abbrev sink : Sink
sink = record { written = []; outcomes = [] }

-- The left side sends two pieces, the right side one.
abbrev left : DuplexConn
left = record {
  input = (codes "pi", none) ∷ (codes "ng", none) ∷ [];
  output = sink;
  read_closed = false;
  write_closed = false;
}

abbrev right : DuplexConn
right = record {
  input = (codes "pong", none) ∷ [];
  output = sink;
  read_closed = false;
  write_closed = false;
}

-- The right side's goroutine runs to its end in the middle of the other.
abbrev schedule : List Side
schedule =
    to_left ∷ to_right ∷ to_right ∷ to_right ∷ to_right ∷ to_right ∷ to_right ∷ to_right ∷ to_left
    ∷ to_left ∷ to_left ∷ to_left ∷ to_left ∷ []

relay_steps-relay_example :
    relay_end (relay_steps schedule (start_relay left right)) ≡ relay left right
relay_steps-relay_example =
    relay_steps-relay left right schedule (refl, refl) (refl, refl) (omega arith) (omega arith)

relay-Relayed_example :
    let (n, rn, e, left', right') = relay left right in Relayed left right n rn e left' right'
relay-Relayed_example = relay-Relayed left right (refl, refl) (refl, refl) refl refl

abbrev env : Env
env = record {
  now = 1000;
  validator = λ ip. none;
  split_addr = λ b. none;
  resolve = λ a. err (external 1);
  addr_text = λ o. [];
  get_location = λ a. codes "DE";
  listen = λ a. none;
  write_to = λ payload tgt. (0, none);
}

abbrev stray : Packet
stray = record { data_bytes = codes "x"; client_addr = codes "home"; client_ip = none }

-- Serve, a packet that no key decrypts, and Stop.
abbrev begun : UdpService
begun = new_udp_service 300 []

abbrev up : UdpService
up = serve 3 begun

abbrev served : UdpService
served = after_round 1000 up (serve_round toy env up.stopped (some stray) up.shared)

abbrev stopped : UdpService
stopped = stop served

abbrev ended : UdpService
ended = after_round 1000 stopped (serve_round toy env stopped.stopped none stopped.shared)

life : Steps toy begun stopped
unfolding new_udp_service new_nat_map serve after_round serve_round report contains
life =
    next (next (next here (call_serve begun 3 refl)) (packet up env stray refl refl))
      (call_stop served)

is_stopped : stopped.stopped ≡ true
unfolding stop
is_stopped = refl

whole_life : Steps toy begun ended
unfolding new_udp_service new_nat_map serve after_round serve_round report stop
whole_life = next life (read_fails stopped env refl)

ended_is_stopped : (ended.stopped ≡ true) × (ended.shared.nat.running ≡ 0)
unfolding new_udp_service new_nat_map serve after_round serve_round serve_ends close_all report stop
    get find_access_key_udp snapshot_for_client_ip
ended_is_stopped = (refl, refl)

graceful_stop_udp_example :
    IsDrained ended
    × (ended.shared.nat.added ≡ ended.shared.nat.removed)
    × ((l : ℕ) → contains l ended.handed ≡ true → contains l ended.closed ≡ true)
graceful_stop_udp_example =
    graceful_stop_udp toy 300 [] whole_life (ended_is_stopped.0) (ended_is_stopped.1)

stopped_udp_can_drain_example :
    (receives stopped ≡ false) × ((u : UdpService) × Steps toy stopped u × IsDrained u)
stopped_udp_can_drain_example = stopped_udp_can_drain toy 300 [] env life is_stopped

-- Of the ports 9000, which is served, and 9001 only the first can be opened.
abbrev sockets : Sockets
sockets = record {
  listen_tcp = λ p. if p == 9001 then some (external 1) else none;
  listen_udp = λ p. none;
  stop_tcp = λ p. none;
  stop_udp = λ p. none;
}

abbrev entry : CipherEntry
entry = record {
  id = codes "id";
  cipher = toy_cipher 5;
  salt_generator = random_server_salt_generator;
  last_client_ip = none;
}

abbrev user : ℕ → Key
user port = record { id = codes "a"; port = port; cipher = []; secret = [] }

abbrev users : List Key
users = user 9001 ∷ user 9000 ∷ []

abbrev make : Key → Result CipherEntry
make key = ok entry

abbrev ports : Ports
ports = (9000, entry ∷ []) ∷ (9002, entry ∷ []) ∷ []

abbrev walk : List ℕ
walk = 9002 ∷ 9001 ∷ 9000 ∷ []

abbrev left_ports : Ports
left_ports = (9000, entry ∷ []) ∷ []

fails_there :
    do_run sockets make users walk ports
    ≡ some (left_ports, some (wrap failed_to_start_port (wrap failed_to_start (external 1))))
unfolding do_run load_keys add_key change_ports start_port remove_port delete ciphers_of
fails_there = refl

do_run_failed_example :
    ((x : Error) × (load_keys make users [] ≡ err x) × (left_ports ≡ ports))
    ⊎ ((wanted : Ports) × (load_keys make users [] ≡ ok wanted)
        × ((p : ℕ) → Left ports wanted p (ciphers_of p left_ports)))
do_run_failed_example = do_run_failed sockets make users walk ports left_ports _ fails_there
