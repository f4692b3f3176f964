-- ===== src/Tests/Clients.antt =====
-- The client with the server, the NAT table as a map, and the users' list at concrete inputs.
use ssgo.Prelude.{
  Bool, ℕ, ◌≡◌, refl, List, [], ◌∷◌, Option, none, some, arith, Bytes, codes, length, take,
  replicate, length-replicate, bytes_equal, append-nil, true, false,
}
use ssgo.Io.{Error, Result, ok, err, external, short_buffer, Source, Sink}
use ssgo.Shadowsocks.Cipher.{salt_size, new_aead}
use ssgo.Shadowsocks.Salt.{random_get_salt}
use ssgo.Shadowsocks.Writer.{Writer, read_from}
use ssgo.Shadowsocks.Reader.{ReadConverter, new_chunk_reader, write_to}
use ssgo.Shadowsocks.Client.PacketConn.{client_udp_buffer_size}
use ssgo.Shadowsocks.Client.PacketConn
use ssgo.Shadowsocks.Client.Dialer.{StreamDialer, connection, dial}
use ssgo.Shadowsocks.Client.Dialer.Delivers.{IsDelivery, dial-delivers}
use ssgo.Service.CipherList.{CipherEntry}
use ssgo.Service.Nat.{Natconn, Natmap, get, lookup_conn}
use ssgo.Service.Nat.View.{
  Call, add_conn, write_conn, end_conn, close_conns, calls, view_calls, get-calls,
}
use ssgo.Service.CopyBack.{received, copy_round, send_response}
use ssgo.Service.Udp.{UdpAddr, Env, Shared, Forwarded, done, serve_round}
use ssgo.Service.Udp.EndToEnd.{serve_round-write_to, read_from-copy_round}
use ssgo.Server.{load_keys, do_run, Key, Sockets}
use ssgo.Server.Users.{Hashes, key_equal, check_users, with_users, check_user}
use ssgo.Server.Users.Settles.{IsDistinct, check_user_settles}
use ssgo.Tests.Toy.{
  toy, toy-IsCrypto, toy_aead, toy_aead-IsStandard, toy_cipher, toy_random, toy_random-IsRandom,
  aes128-IsUsable,
}

-- An address is one byte.
abbrev parse_addr : Bytes → Option Bytes
parse_addr a = some (8 ∷ [])

abbrev first_byte : Bytes → Option Bytes
first_byte [] = none
first_byte (b ∷ bs) = some (b ∷ [])

abbrev sink : Sink
sink = record { written = []; outcomes = [] }

abbrev dialer : StreamDialer
dialer = record { endpoint = ok ([], sink); cipher = toy_cipher 5; salter = none }

abbrev deliver : Bytes → Source
deliver bs = (bs, none) ∷ []

deliver-IsDelivery : IsDelivery deliver
deliver-IsDelivery bs = (tt, append-nil bs, refl)

-- Two bytes that come in two pieces.
abbrev pieces : Source
pieces = (65 ∷ [], none) ∷ (66 ∷ [], none) ∷ []

dial-delivers_example :
    (ssr : ReadConverter) × (ssw : Writer) × (ssw' : Writer) × (r' : Source) × (d : ReadConverter)
    × (dial toy toy_random 16 parse_addr dialer (codes "site") ≡ some (connection ssr ssw))
    × (ssw.writer ≡ sink)
    × (read_from toy toy_random true ssw pieces ≡ some (ssw', 2, none, r'))
    × (write_to toy 9
          (record {
            cr = new_chunk_reader (deliver ssw'.writer.written) (toy_cipher 5) 16;
            leftover = [];
          })
          sink
          0
        ≡ some (d, record { written = 8 ∷ 65 ∷ 66 ∷ []; outcomes = [] }, 3, none))
unfolding new_aead random_get_salt salt_size
dial-delivers_example =
    dial-delivers toy toy_random (toy_aead 5) (replicate 16 9) dialer sink (8 ∷ []) parse_addr
      (codes "site") [] true pieces deliver 9 sink refl (omega arith) (omega arith) refl refl refl
      refl refl refl (toy_aead-IsStandard 5) deliver-IsDelivery (omega arith) (omega arith) refl

abbrev site : UdpAddr
site = record { ip = 8 ∷ 8 ∷ 8 ∷ 8 ∷ []; port = 53 }

abbrev env : Env
env = record {
  now = 1000;
  validator = λ ip. none;
  split_addr = first_byte;
  resolve = λ a. ok site;
  addr_text = λ o. [];
  get_location = λ a. codes "DE";
  listen = λ a. none;
  write_to = λ payload tgt. (2, none);
}

abbrev home : Bytes
home = codes "home"

abbrev conn : Natconn
conn = record {
  cipher = toy_cipher 5;
  key_id = codes "id";
  client_location = codes "DE";
  default_timeout = 300;
  read_deadline = none;
  deadline_set = none;
  fast_done = false;
}

abbrev table : Natmap
table = record { key_conn = (home, conn) ∷ []; timeout = 300; added = 1; removed = 0; running = 1 }

abbrev shared : Shared
shared = record { ciphers = []; nat = table; user_traffic = []; www_traffic = [] }

is_known : get table home ≡ some conn
unfolding get lookup_conn bytes_equal
is_known = refl

abbrev sent_to : Bytes → Option Error
sent_to b = none

serve_round-write_to_example :
    (buf : Bytes) × (f : Forwarded) × (s' : Shared) × (PacketConn.write_to toy
        (toy_cipher 5)
        toy_random
        parse_addr
        sent_to
        (replicate client_udp_buffer_size 0)
        (65 ∷ 66 ∷ [])
        (codes "site")
      ≡ (2, none, some buf))
    × (serve_round toy env false
          (some (record { data_bytes = buf; client_addr = home; client_ip = none }))
          shared
        ≡ done f s')
    × (f.sent ≡ some (65 ∷ 66 ∷ [], site))
    × (f.key_id ≡ codes "id")
    × (f.proxy_target_bytes ≡ 2)
unfolding salt_size
serve_round-write_to_example =
    serve_round-write_to toy toy-IsCrypto toy_random toy_random-IsRandom env false home none shared
      conn parse_addr sent_to (replicate client_udp_buffer_size 0) (65 ∷ 66 ∷ []) (codes "site")
      (8 ∷ []) (replicate 16 9) site aes128-IsUsable is_known
      (length-replicate {A = ℕ} client_udp_buffer_size 0) (omega arith) refl refl refl refl refl

abbrev to_header : Bytes → Bytes
to_header a = 8 ∷ []

abbrev send_all : Bytes → ℕ × Option Error
send_all b = (length b, none)

read_from-copy_round_example :
    (buf : Bytes) × (copy_round toy to_header 19 toy_random send_all
        (toy_cipher 5)
        (replicate 80 0)
        (received (codes "hi") (codes "site"))
      ≡ send_response toy to_header 19 toy_random send_all 2 (ok buf))
    × (PacketConn.read_from toy (toy_cipher 5) first_byte 1 (ok buf)
        ≡ (take 1 (codes "hi"), some (8 ∷ []), some short_buffer))
unfolding salt_size
read_from-copy_round_example =
    read_from-copy_round toy toy-IsCrypto toy_random toy_random-IsRandom to_header 19 first_byte
      send_all (toy_cipher 5) (replicate 80 0) (codes "hi") (codes "site") (replicate 16 9) 1
      aes128-IsUsable (omega arith) (omega arith) (omega arith) refl refl

abbrev some_calls : List Call
some_calls =
    write_conn 1000 53 home
    ∷ add_conn (codes "b") (toy_cipher 6) [] (codes "id2")
    ∷ end_conn home
    ∷ close_conns 1001
    ∷ []

get-calls_example : get (calls some_calls table) home ≡ view_calls 300 some_calls (get table) home
get-calls_example = get-calls some_calls table home

abbrev user : Bytes → Key
user id = record { id = id; port = 9000; cipher = codes "aes-128-gcm"; secret = codes "s" }

abbrev users : List Key
users = user (codes "a") ∷ user (codes "b") ∷ []

abbrev sockets : Sockets
sockets = record {
  listen_tcp = λ p. none;
  listen_udp = λ p. none;
  stop_tcp = λ p. none;
  stop_udp = λ p. none;
}

abbrev make : Key → Result CipherEntry
make key = err (external 1)

-- The hashes of the users, in the other order.
abbrev noted : Hashes
noted = (user (codes "b"), 2) ∷ (user (codes "a"), 2) ∷ []

users-IsDistinct : IsDistinct users
unfolding key_equal bytes_equal
users-IsDistinct = ((refl, tt), (tt, tt))

-- No key can be made, so that no port changes.
a_tick :
    (hash : Hashes)
    → check_user length sockets make [] (ok users) hash []
      ≡ some ((check_users length users hash).0, [])
unfolding check_user do_run load_keys
a_tick hash = by_reload (check_users length users hash)
  where
    by_reload : (x : Hashes × Bool) → with_users length sockets make [] [] users x ≡ some (x.0, [])
    by_reload (m, true) = refl
    by_reload (m, false) = refl

check_user_settles_example :
    let h1 = (check_users length users []).0 in
    let h2 = (check_users length users h1).0 in
    check_user length sockets make [] (ok users) h2 [] ≡ some (h2, [])
check_user_settles_example =
    check_user_settles length sockets make [] [] [] users [] _ _ [] [] [] users-IsDistinct
      (a_tick []) (a_tick _)
