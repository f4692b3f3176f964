-- ===== src/Tests/Serving.antt =====
-- Rounds of the packet loop, the life of the TCP service and the private networks at concrete
-- inputs.
use ssgo.Service.Metrics.Totals.{value}
use ssgo.Api.{add_repo}
use ssgo.Prelude.{
  ltb, ◌^◌, ℕ, List, ◌+◌, ◌≡◌, refl, [], ◌∷◌, ◌++◌, Option, none, some, arith, Bytes, codes,
  replicate, bytes_equal, true, false,
}
use ssgo.Io.{ok}
use ssgo.Net.{v4_in_v6_prefix, is_private_address}
use ssgo.Net.Private.{is_private_v4, is_private_address_v4}
use ssgo.Shadowsocks.Cipher.{decrypt_once, tag_size, salt_size, new_aead}
use ssgo.Shadowsocks.Salt.{random_get_salt}
use ssgo.Shadowsocks.Packet.{unpack, pack}
use ssgo.Service.Nat.{delete_conn, put_conn, Natconn, get, lookup_conn, on_write}
use ssgo.Service.Udp.{
  write_target, report, validate_packet, UdpAddr, Env, Shared, Packet, Forwarded, done, serve_round,
}
use ssgo.Service.Udp.Forward.{Forwards, serve_round-Forwards, serve_round-pack}
use ssgo.Service.Metrics.{Metrics, new_shadowsocks_metrics}
use ssgo.Api.Totals.{total_u, total_d}
use ssgo.Service.Udp.Accounting.{Arrival, rounds, IsInt}
use ssgo.Service.Udp.Accounting.Agree.{upward, onward, rounds-Agree}
use ssgo.Service.Replay.{contains}
use ssgo.Service.Lifecycle.{
  TcpService, new_tcp_service, serve, accepted, accept_failed, connection_done, stop, accepts,
  Steps, here, next, call_serve, accept, fail, finish, call_stop, IsDrained,
}
use ssgo.Service.Lifecycle.Drained.{graceful_stop_lem, stopped_can_drain}
use ssgo.Tests.Toy.{
  toy, toy-IsCrypto, toy_tag, toy_cipher, toy_random, toy_random-IsRandom, aes128-IsUsable,
}

abbrev home : Bytes
home = codes "home"

-- An address is one byte, the last of the target's address.
abbrev site : UdpAddr
site = record { ip = 8 ∷ 8 ∷ 8 ∷ 8 ∷ []; port = 53 }

abbrev first_byte : Bytes → Option Bytes
first_byte [] = none
first_byte (b ∷ bs) = some (b ∷ [])

abbrev env : Env
env = record {
  now = 1000;
  validator = λ ip. none;
  split_addr = first_byte;
  resolve = λ a. ok site;
  addr_text = λ o. [];
  get_location = λ a. codes "DE";
  listen = λ a. none;
  write_to = λ payload tgt. (2, none);
}

abbrev conn : Natconn
conn = record {
  cipher = toy_cipher 5;
  key_id = codes "id";
  client_location = codes "DE";
  default_timeout = 300;
  read_deadline = none;
  deadline_set = none;
  fast_done = false;
}

abbrev shared : Shared
shared = record {
  ciphers = [];
  nat = record { key_conn = (home, conn) ∷ []; timeout = 300; added = 1; removed = 0; running = 1 };
  user_traffic = [];
  www_traffic = [];
}

abbrev packet : Packet
packet = record {
  data_bytes = replicate 16 9 ++ (toy_tag 5 ++ (8 ∷ 65 ∷ 66 ∷ []));
  client_addr = home;
  client_ip = none;
}

is_known : get shared.nat home ≡ some conn
unfolding get lookup_conn bytes_equal
is_known = refl

is_packed :
    pack toy toy_random (replicate 40 0) (8 ∷ 65 ∷ 66 ∷ []) (toy_cipher 5) ≡ ok packet.data_bytes
unfolding pack new_aead random_get_salt salt_size
is_packed = refl

sent :
    (f : Forwarded) × (s' : Shared) × (serve_round toy env false (some packet) shared ≡ done f s')
    × (f.sent ≡ some (65 ∷ 66 ∷ [], site))
    × (f.key_id ≡ codes "id")
    × (f.proxy_target_bytes ≡ 2)
    × (get s'.nat home ≡ some (on_write 1000 53 conn))
sent =
    serve_round-pack toy env toy-IsCrypto false packet shared conn toy_random (replicate 40 0)
      (8 ∷ []) (65 ∷ 66 ∷ []) site toy_random-IsRandom aes128-IsUsable is_known is_packed refl refl
      refl

serve_round-Forwards_example : Forwards toy env packet shared sent.0 (65 ∷ 66 ∷ []) site
serve_round-Forwards_example =
    serve_round-Forwards toy env false packet shared sent.1 sent.0 (65 ∷ 66 ∷ []) site sent.2 sent.3

-- Serve, a connection, Stop, the end of the loop, and the end of the connection.
abbrev serving : TcpService
serving = stop (accepted (serve 7 new_tcp_service))

abbrev ended : TcpService
ended = connection_done (accept_failed serving)

running : Steps new_tcp_service serving
unfolding new_tcp_service serve accepted stop contains
running =
    next
      (next (next here (call_serve new_tcp_service 7 refl))
        (accept (serve 7 new_tcp_service) refl refl))
      (call_stop _)

finished : Steps new_tcp_service ended
unfolding new_tcp_service serve accepted stop accept_failed connection_done
finished = next (next running (fail serving refl)) (finish _ (omega arith))

graceful_stop_lem_example :
    IsDrained ended × ((l : ℕ) → contains l ended.handed ≡ true → contains l ended.closed ≡ true)
unfolding new_tcp_service serve accepted stop accept_failed connection_done
graceful_stop_lem_example = graceful_stop_lem finished refl refl

stopped_can_drain_example :
    (accepts serving ≡ false) × ((t : TcpService) × Steps serving t × IsDrained t)
unfolding new_tcp_service serve accepted stop
stopped_can_drain_example = stopped_can_drain running refl

is_private_address_v4_example :
    (is_private_address (172 ∷ 20 ∷ 1 ∷ 2 ∷ []) ≡ is_private_v4 172 20)
    × (is_private_address (v4_in_v6_prefix ++ (172 ∷ 20 ∷ 1 ∷ 2 ∷ [])) ≡ is_private_v4 172 20)
is_private_address_v4_example =
    is_private_address_v4 172 20 1 2 (omega arith) (omega arith) (omega arith) (omega arith)

-- The client's packet, twice.
abbrev arrivals : List Arrival
arrivals =
    record { env = env; packet = packet; time_to_cipher = 1 }
    ∷ record { env = env; packet = packet; time_to_cipher = 2 }
    ∷ []

arrival-IsInt : (time : ℕ) → IsInt (record { env = env; packet = packet; time_to_cipher = time })
arrival-IsInt time = record { packet = omega arith; written = λ payload tgt. omega arith }

abbrev counting : ℕ → ℕ → ℕ
counting n v = n + v

abbrev taken : Shared × Metrics
taken = rounds counting toy arrivals (shared, new_shadowsocks_metrics)

few_bytes :
    (ltb
        (total_u (codes "id") (taken.0).user_traffic + upward (codes "id") new_shadowsocks_metrics)
        (2 ^ 53)
      ≡ true)
    × (ltb
          (total_d (codes "id") (taken.0).user_traffic
            + onward (codes "id") new_shadowsocks_metrics)
          (2 ^ 53)
        ≡ true)
unfolding rounds serve_round get lookup_conn bytes_equal unpack new_aead salt_size tag_size
    validate_packet on_write put_conn delete_conn report write_target add_repo total_u total_d value
    new_shadowsocks_metrics decrypt_once
few_bytes = (refl, refl)

rounds-Agree_example :
    let (s, m) = rounds counting toy arrivals (shared, new_shadowsocks_metrics) in
    (total_u (codes "id") s.user_traffic + upward (codes "id") new_shadowsocks_metrics
      ≡ total_u (codes "id") shared.user_traffic + upward (codes "id") m)
    × (total_d (codes "id") s.user_traffic + onward (codes "id") new_shadowsocks_metrics
        ≡ total_d (codes "id") shared.user_traffic + onward (codes "id") m)
rounds-Agree_example =
    rounds-Agree counting (λ n v h. refl) toy 105 (100 ∷ []) arrivals shared new_shadowsocks_metrics
      (arrival-IsInt 1, (arrival-IsInt 2, tt)) (ground (arith, few_bytes.0))
      (ground (arith, few_bytes.1))
