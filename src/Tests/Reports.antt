-- ===== src/Tests/Reports.antt =====
-- The metrics, the API and the device's report at concrete inputs.
use ssgo.Server.Loading.{ports_of}
use ssgo.Prelude.{
  ◌+◌, ℕ, ◌-◌, ◌/◌, ◌<◌, ◌^◌, ◌≡◌, ◌↔◌, refl, List, [], ◌∷◌, none, some, arith, Bytes, codes, false,
  All, bytes_equal,
}
use ssgo.Io.{Result, ok}
use ssgo.Service.Metrics.{new_shadowsocks_metrics}
use ssgo.Service.Metrics.Calls.{
  Call, tcp_closed, udp_from_client, Dir, from_client, to_target, from_target, to_client, Proto,
  over_tcp, over_udp, amount, IsInRange, calls,
}
use ssgo.Service.Metrics.Totals.{value, total, calls-value, calls-total}
use ssgo.Service.Metrics.{series}
use ssgo.Service.Metrics.Measured.{
  MeasuredConn, Use, reads_bytes, writes_to, writes_bytes, after_uses, all_passed_on, Counted,
  after_uses-Counted,
}
use ssgo.Service.CipherList.{CipherEntry}
use ssgo.Service.ServerSalt.{random_server_salt_generator}
use ssgo.Service.Replay.{new_replay_cache}
use ssgo.Server.{
  Key, Sockets, do_run, load_keys, add_key, change_ports, start_port, update_lists, assign, delete,
  ciphers_of,
}
use ssgo.Server.Start.{IsStart, SsServer, running, run_ss_server, run_ss_server-Serves}
use ssgo.Tests.Toy.{toy_cipher}
use ssgo.Api.Users.{
  Keys, Rows, Database, returned, merge_to_user_entry, add_users, add_nodes, get_users, Joined,
  get_users-Joined,
}
use ssgo.Api.Client.{
  ApiClient, new_client, Calls, IsShuffle, parse_response, str2int, erand_port, init,
}
use ssgo.Api.Init.{Promised, init-Promised}
use ssgo.Utils.Contains.{has_prefix, contains_str, is_list_contains_str}
use ssgo.Utils.NetStat.{
  IoCounters, NetStats, total_recv, total_sent, get_net_stat, get_net_stat_lem,
}

abbrev counting : ℕ → ℕ → ℕ
counting n v = n + v

abbrev itoa : ℕ → Bytes
itoa n = []

-- A connection and a packet of one key, from two places.
abbrev made : List Call
made =
    tcp_closed (codes "DE") (codes "a") (codes "OK")
      (record { client_proxy = 7; proxy_target = 5; target_proxy = 0; proxy_client = 3 }) 1 2
    ∷ udp_from_client (codes "FR") (codes "a") (codes "OK") 9 4 1
    ∷ []

closed-IsInRange :
    (d : Dir) (p : Proto)
    → amount d p (
        tcp_closed
          (codes "DE")
          (codes "a")
          (codes "OK")
          (record { client_proxy = 7; proxy_target = 5; target_proxy = 0; proxy_client = 3 })
          1
          2)
      < 2 ^ 63
closed-IsInRange from_client over_tcp = omega arith
closed-IsInRange to_target over_tcp = omega arith
closed-IsInRange from_target over_tcp = omega arith
closed-IsInRange to_client over_tcp = omega arith
closed-IsInRange d over_udp = omega arith

packet-IsInRange :
    (d : Dir) (p : Proto)
    → amount d p (udp_from_client (codes "FR") (codes "a") (codes "OK") 9 4 1) < 2 ^ 63
packet-IsInRange from_client over_udp = omega arith
packet-IsInRange to_target over_udp = omega arith
packet-IsInRange from_target over_udp = omega arith
packet-IsInRange to_client over_udp = omega arith
packet-IsInRange d over_tcp = omega arith

made-IsInRange : All IsInRange made
made-IsInRange = (closed-IsInRange, (packet-IsInRange, tt))

calls-value_example :
    let m = calls counting itoa made new_shadowsocks_metrics in
    let of_name = series (codes "c>p") (codes "tcp") (codes "a") in
    (value of_name m.data_bytes ≡ 7) × (value of_name m.data_bytes_per_location ≡ 0)
unfolding bytes_equal
calls-value_example =
    calls-value counting (λ n v h. refl) itoa made made-IsInRange from_client over_tcp (omega arith)
      (codes "a")

calls-total_example :
    let m = calls counting itoa made new_shadowsocks_metrics in
    (total (codes "c>p") (codes "udp") m.data_bytes ≡ 9)
    × (total (codes "c>p") (codes "udp") m.data_bytes_per_location ≡ 9)
calls-total_example =
    calls-total counting (λ n v h. refl) itoa made made-IsInRange from_client over_udp (omega arith)

abbrev measured : MeasuredConn
measured = record {
  conn = record {
    input = (codes "hello", none) ∷ [];
    output = record { written = []; outcomes = [] };
    read_closed = false;
    write_closed = false;
  };
  read_count = 0;
  write_count = 10;
}

abbrev uses : List Use
uses =
    writes_bytes (codes "ab")
    ∷ reads_bytes 2
    ∷ writes_to (record { written = []; outcomes = [] })
    ∷ []

after_uses-Counted_example :
    Counted measured (after_uses uses measured) (all_passed_on uses measured)
after_uses-Counted_example = after_uses-Counted uses measured (omega arith, omega arith)

-- One node with one user.
abbrev node : Keys
node = record { port = 1; cipher = codes "aes-128-gcm" }

abbrev db : Database
db = record {
  query1 = λ id. ok (record { scans = ok (7, node) ∷ []; rows_err = none });
  query2 = λ group. ok (record {
    scans = ok (record { nid = codes "a"; wg_key = codes "s"; port = 9000 }) ∷ [];
    rows_err = none;
  });
}

abbrev found : List Key
found =
    record { id = codes "a"; port = 9000; cipher = codes "aes-128-gcm"; secret = codes "s" } ∷ []

get_users-Joined_example : (get_users (ok db) 3 ≡ returned found) ↔ (
    (rows1 : Rows (ℕ × Keys)) × (db.query1 3 ≡ ok rows1)
    × (rows1.rows_err ≡ none)
    × Joined db rows1.scans found)
get_users-Joined_example = get_users-Joined db 3 found

-- The server has no port for the node.
abbrev http : Calls
http = record {
  get = ok (record { status_code = 200; body = [] });
  post = λ n port. none;
  decode = λ b. ok (record { port = none; id = some 4; cipher = some (codes "aes-128-gcm") });
  parse_int = λ b. none;
  shuffle = λ s. s;
}

http-IsShuffle : IsShuffle http.shuffle
http-IsShuffle = record { keeps_length = λ s. refl; keeps = λ s n. refl }

abbrev client : ApiClient
client = new_client (record { api_host = []; log_host = []; node_id = 4; key = codes "k" }) 0

init-Promised_example : let (c', e, posted) = init http client in Promised http client c' e posted
init-Promised_example = init-Promised http http-IsShuffle client

abbrev eth : ℕ → ℕ → IoCounters
eth recv sent = record { name = codes "eth0"; bytes_recv = recv; bytes_sent = sent }

abbrev start : NetStats
start = record { net_in_transfer = 0; net_out_transfer = 0; last_update_net_stats = 0 }

get_net_stat_lem_example :
    let (_, last) = get_net_stat (ok (eth 100 10 ∷ [])) 1000 start in
    let (r, _) = get_net_stat (ok (eth 400 40 ∷ [])) 1010 last in
    (r.in_bytes ≡ total_recv (eth 400 40 ∷ []))
    × (r.out_bytes ≡ total_sent (eth 400 40 ∷ []))
    × (r.in_speed ≡ (total_recv (eth 400 40 ∷ []) - total_recv (eth 100 10 ∷ [])) / 10)
    × (r.out_speed ≡ (total_sent (eth 400 40 ∷ []) - total_sent (eth 100 10 ∷ [])) / 10)
unfolding total_recv total_sent is_list_contains_str contains_str has_prefix
get_net_stat_lem_example =
    get_net_stat_lem (eth 100 10 ∷ []) (eth 400 40 ∷ []) start 1000 1010 (omega arith) (omega arith)
      (omega arith) (omega arith) (omega arith) (omega arith)

-- The node's user is served on its port.
abbrev sockets : Sockets
sockets = record {
  listen_tcp = λ p. none;
  listen_udp = λ p. none;
  stop_tcp = λ p. none;
  stop_udp = λ p. none;
}

abbrev entry : CipherEntry
entry = record {
  id = codes "a";
  cipher = toy_cipher 5;
  salt_generator = random_server_salt_generator;
  last_client_ip = none;
}

abbrev make : Key → Result CipherEntry
make key = ok entry

abbrev server : SsServer
server = record {
  nat_timeout = 300;
  replay_cache = record { capacity = 100; active = []; archive = [] };
  ports = (9000, entry ∷ []) ∷ [];
  api = record client { port = 11451; cipher = codes "aes-128-gcm" };
}

runs : run_ss_server sockets make ports_of http (ok db) 300 100 client ≡ running server
unfolding ports_of run_ss_server new_replay_cache init parse_response str2int erand_port get_users
    add_nodes add_users merge_to_user_entry do_run load_keys add_key change_ports start_port
    update_lists assign delete ciphers_of new_client
runs = refl

run_ss_server-Serves_example :
    IsStart sockets make ports_of http
      (ok db)
      100
      client
      (run_ss_server sockets make ports_of http (ok db) 300 100 client)
run_ss_server-Serves_example =
    run_ss_server-Serves sockets make ports_of (λ users q h. h) http 100 client (ok db) 300
