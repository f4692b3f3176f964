-- ===== src/Tests/Services.antt =====
-- The replay cache, the key list, the search for keys, the NAT table and the report at concrete
-- inputs.
use ssgo.Server.Lookup.{IsIn}
use ssgo.Prelude.{
  ◌^◌, ◌%◌, ℕ, ◌+◌, ◌≤◌, ◌<◌, ◌≡◌, refl, ◌⊎◌, inl, true, false, not, List, [], ◌∷◌, ◌++◌, Option,
  none, some, arith, if◌then◌else◌, Bytes, codes, length, take, replicate, All,
}
use mathlib.Core.List.{Perm}
use ssgo.Io.{Result, ok, err, new, salt_is_too_short}
use ssgo.Service.Replay.{ReplayCache, add_hash, contains}
use ssgo.Service.Replay.History.{Tracks, add_all, replay_detected}
use ssgo.Service.ServerSalt.{
  marked_get_salt, marked_is_server_salt, marked_get_salt_lem, random_server_salt_generator,
}
use ssgo.Service.CipherList.{
  Element, snapshot_for_client_ip, mark_used_by_client_ip, matches_ip, find, remove,
}
use ssgo.Service.CipherList.Order.{keep, snapshot_for_client_ip_lem, mark_used_by_client_ip_lem}
use ssgo.Service.FindKey.{decrypts_length, find_entry}
use ssgo.Service.FindKey.Search.{find_entry_lem}
use ssgo.Service.Nat.{Natconn, is_dns, dns_port, dns_timeout, on_write}
use ssgo.Service.Nat.Deadlines.{NotBefore, IsGranted, on_write_lem}
use ssgo.Api.{UserTraffic, report_user_traffic}
use ssgo.Api.Totals.{IsInt64, IsDistinct, total_u, total_d, report_user_traffic_lem}
use ssgo.Server.{
  Key, Ports, Sockets, ciphers_of, load_keys, add_key, delete, assign, start_port, remove_port,
  change_ports, update_lists, do_run,
}
use ssgo.Server.Loading.{ports_of}
use ssgo.Server.Applied.{Applied, do_run_lem}
use ssgo.Service.CipherList.{CipherEntry}
use ssgo.Tests.Toy.{
  toy, toy-IsCrypto, toy_tag, aes128-IsUsable, toy_cipher, toy_random, toy_random-IsRandom,
}

abbrev empty_cache : ReplayCache
empty_cache = record { capacity = 2; active = []; archive = [] }

empty-Tracks : Tracks empty_cache []
empty-Tracks = record {
  positive = omega arith;
  bounded = omega arith;
  archived = inl refl;
  older = [];
  history = refl;
  nothing_older = λ h. refl;
}

replay_detected_example : (add_hash (add_all (add_hash empty_cache 7).0 (8 ∷ [])) 7).1 ≡ false
unfolding add_hash
replay_detected_example = replay_detected empty_cache [] 7 (8 ∷ []) empty-Tracks refl (omega arith)

marked_get_salt_lem_example :
    (16 < 4
      → (marked_get_salt toy (codes "key") toy_random (replicate 16 0)
          ≡ err (new salt_is_too_short))
        × (marked_is_server_salt toy (codes "key") (replicate 16 0) ≡ false))
    × (4 ≤ 16
        → (s : Bytes) → marked_get_salt toy (codes "key") toy_random (replicate 16 0) ≡ ok s
        → (marked_is_server_salt toy (codes "key") s ≡ true)
          × (length s ≡ 16)
          × (toy_random 12 ≡ ok (take 12 s)))
marked_get_salt_lem_example =
    marked_get_salt_lem toy (codes "key") toy_random (replicate 16 0) toy-IsCrypto
      toy_random-IsRandom

abbrev key_of : ℕ → ℕ → Option Bytes → Element
key_of key k ip = record {
  key = key;
  entry = record {
    id = key ∷ [];
    cipher = toy_cipher k;
    salt_generator = random_server_salt_generator;
    last_client_ip = ip;
  };
}

abbrev home : Bytes
home = 10 ∷ 0 ∷ 0 ∷ 1 ∷ []

abbrev keys : List Element
keys = key_of 1 5 none ∷ key_of 2 6 (some home) ∷ []

snapshot_for_client_ip_lem_example :
    (snapshot_for_client_ip keys (some home)
      ≡ keep (λ e. matches_ip e (some home)) keys
        ++ keep (λ e. not (matches_ip e (some home))) keys)
    × Perm keys (snapshot_for_client_ip keys (some home))
snapshot_for_client_ip_lem_example = snapshot_for_client_ip_lem keys (some home)

mark_used_by_client_ip_lem_example :
    (mark_used_by_client_ip keys 2 (some home) ≡ key_of 2 6 (some home) ∷ remove 2 keys)
    × Perm keys (key_of 2 6 (some home) ∷ remove 2 keys)
    × ((rest : List Element) × (snapshot_for_client_ip
            (mark_used_by_client_ip keys 2 (some home))
            (some home)
          ≡ key_of 2 6 (some home) ∷ rest))
unfolding find
mark_used_by_client_ip_lem_example =
    mark_used_by_client_ip_lem keys 2 home (key_of 2 6 (some home)) refl

-- A salt, a length sealed under the session key 6, and the tag of the payload.
abbrev start : Bytes
start = replicate 16 9 ++ (toy_tag 6 ++ (0 ∷ 1 ∷ toy_tag 6))

find_entry_lem_example :
    ((find_entry toy start keys ≡ ok none)
      × All (λ e. decrypts_length toy start e.entry.cipher ≡ false) keys)
    ⊎ ((before : List Element) × (e : Element) × (behind : List Element) × (find_entry toy start
            keys
          ≡ ok (some e))
        × (keys ≡ before ++ (e ∷ behind))
        × All (λ e. decrypts_length toy start e.entry.cipher ≡ false) before
        × (decrypts_length toy start e.entry.cipher ≡ true))
find_entry_lem_example = find_entry_lem toy start keys refl (aes128-IsUsable, (aes128-IsUsable, tt))

abbrev conn : Natconn
conn = record {
  cipher = toy_cipher 5;
  key_id = codes "id";
  client_location = codes "DE";
  default_timeout = 300;
  read_deadline = none;
  deadline_set = none;
  fast_done = false;
}

on_write_lem_example :
    NotBefore (on_write 1000 53 conn).read_deadline none
    × NotBefore
        (on_write 1000 53 conn).read_deadline
        (some (1000 + (if is_dns 53 then dns_timeout else 300)))
    × ((on_write 1000 53 conn).fast_done ≡ false
        → (53 ≡ dns_port) × (conn.read_deadline ≡ none) × (conn.fast_done ≡ false))
    × IsGranted conn (on_write 1000 53 conn)
on_write_lem_example = on_write_lem 1000 53 conn

abbrev queue : List UserTraffic
queue =
    record { uid = codes "a"; u = 1; d = 2 }
    ∷ record { uid = codes "b"; u = 4; d = 0 }
    ∷ record { uid = codes "a"; u = 0; d = 8 }
    ∷ []

queue-IsInt64 : All IsInt64 queue
queue-IsInt64 =
    ((omega arith, omega arith), ((omega arith, omega arith), ((omega arith, omega arith), tt)))

report_user_traffic_lem_example :
    IsDistinct (report_user_traffic queue)
    × (total_u (codes "a") (report_user_traffic queue) ≡ total_u (codes "a") queue % 2 ^ 64)
    × (total_d (codes "a") (report_user_traffic queue) ≡ total_d (codes "a") queue % 2 ^ 64)
report_user_traffic_lem_example = report_user_traffic_lem (codes "a") queue queue-IsInt64

abbrev make : Key → Result CipherEntry
make key = ok (record {
  id = key.id;
  cipher = toy_cipher 5;
  salt_generator = random_server_salt_generator;
  last_client_ip = none;
})

abbrev users : List Key
users =
    record { id = codes "a"; port = 9000; cipher = codes "aes-128-gcm"; secret = codes "1" }
    ∷ record { id = codes "b"; port = 9001; cipher = codes "aes-128-gcm"; secret = codes "2" }
    ∷ record { id = codes "c"; port = 9000; cipher = codes "aes-128-gcm"; secret = codes "3" }
    ∷ []

-- Port 9001 goes on, 9002 is closed and 9000 opened.
abbrev before : Ports
before = (9001, []) ∷ (9002, []) ∷ []

abbrev sockets : Sockets
sockets = record {
  listen_tcp = λ p. none;
  listen_udp = λ p. none;
  stop_tcp = λ p. none;
  stop_udp = λ p. none;
}

abbrev walk : List ℕ
walk = 9000 ∷ 9001 ∷ 9002 ∷ []

walk_covers : (q : ℕ) → IsIn q before → contains q walk ≡ true
unfolding ciphers_of contains
walk_covers q (cs, h) = ground arith

walk_meets_users : (q : ℕ) → contains q (ports_of users) ≡ true → contains q walk ≡ true
unfolding contains ports_of
walk_meets_users q h = ground arith

do_run_lem_example : Applied sockets make users walk before (do_run sockets make users walk before)
do_run_lem_example = do_run_lem sockets make users walk before walk_covers walk_meets_users

-- It ends without an error.
no_error : (m : Ports) × (do_run sockets make users walk before ≡ some (m, none))
unfolding do_run load_keys add_key change_ports ciphers_of start_port remove_port delete assign
    update_lists
no_error = (_, refl)
