-- ===== src/Service/Nat.antt =====
-- service/udp.go: the UDP NAT table, and the deadlines and the fast close of its connections. Times
-- are in seconds; the zero time is `none`.
pub mod Deadlines
pub mod Counted
pub mod Timed
pub mod View
use ssgo.Prelude.{
  ℕ, ◌+◌, ◌-◌, Bool, true, false, not, ◌&&◌, ◌||◌, List, [], ◌∷◌, ◌++◌, Option, none, some, ◌==◌,
  ltb, if◌then◌else◌, Bytes, bytes_equal,
}
use ssgo.Shadowsocks.Cipher.{Cipher}

-- `deadline_set` is what SetReadDeadline was last called with on the connection itself; `fast_done`
-- says that the sync.Once has run.
pub record Natconn : Type 0 where
  pub cipher : Cipher
  pub key_id : Bytes
  pub client_location : Bytes
  pub default_timeout : ℕ
  pub read_deadline : Option ℕ
  pub deadline_set : Option ℕ
  pub fast_done : Bool

abbrev pub dns_timeout : ℕ
dns_timeout = 17

abbrev pub dns_port : ℕ
dns_port = 53

-- isDNS, on the port of the address.
abbrev pub is_dns : ℕ → Bool
is_dns port = port == dns_port

abbrev is_unset : Option ℕ → Bool
is_unset none = true
is_unset (some t) = false

-- newDeadline.After(c.readDeadline)
abbrev after : ℕ → Option ℕ → Bool
after t none = true
after t (some old) = ltb old t

unfoldable pub on_write : ℕ → ℕ → Natconn → Natconn
on_write now port c =
    let fast_done' =
      if not (is_dns port) || not (is_unset c.read_deadline) then true else c.fast_done in
    let new_deadline = now + (if is_dns port then dns_timeout else c.default_timeout) in
    if after new_deadline c.read_deadline
    then record c {
      fast_done = fast_done';
      read_deadline = some new_deadline;
      deadline_set = some new_deadline;
    }
    else record c { fast_done = fast_done' }

unfoldable pub on_read : ℕ → ℕ → Natconn → Natconn
on_read now port c =
    if c.fast_done
    then c
    else if is_dns port
    then record c { fast_done = true; deadline_set = some now }
    else record c { fast_done = true }

-- The table: client addresses and their connections.
pub record Natmap : Type 0 where
  pub key_conn : List (Bytes × Natconn)
  pub timeout : ℕ
  pub added : ℕ
  pub removed : ℕ
  pub running : ℕ

unfoldable pub new_nat_map : ℕ → Natmap
new_nat_map timeout = record {
  key_conn = [];
  timeout = timeout;
  added = 0;
  removed = 0;
  running = 0;
}

unfoldable pub lookup_conn : Bytes → List (Bytes × Natconn) → Option Natconn
lookup_conn key [] = none
lookup_conn key ((k, c) ∷ m) = if bytes_equal k key then some c else lookup_conn key m

unfoldable pub delete_conn : Bytes → List (Bytes × Natconn) → List (Bytes × Natconn)
delete_conn key [] = []
delete_conn key ((k, c) ∷ m) =
    if bytes_equal k key then delete_conn key m else (k, c) ∷ delete_conn key m

-- What onWrite and onRead change is the entry that the table holds, as it is shared by pointer.
unfoldable pub put_conn : Natmap → Bytes → Natconn → Natmap
unfolding delete_conn
put_conn m key c = record m { key_conn = (key, c) ∷ delete_conn key m.key_conn }

unfoldable pub get : Natmap → Bytes → Option Natconn
unfolding lookup_conn
get m key = lookup_conn key m.key_conn

unfoldable pub set : Natmap → Bytes → Cipher → Bytes → Bytes → Natmap × Natconn
unfolding delete_conn
set m key cipher key_id client_location =
    let entry : Natconn = record {
      cipher = cipher;
      key_id = key_id;
      client_location = client_location;
      default_timeout = m.timeout;
      read_deadline = none;
      deadline_set = none;
      fast_done = false;
    } in
    (record m { key_conn = (key, entry) ∷ delete_conn key m.key_conn }, entry)

unfoldable pub del : Natmap → Bytes → Natmap × Option Natconn
unfolding lookup_conn delete_conn
del m key = elim (lookup_conn key m.key_conn) [
  | none ↦ (m, none)
  | some c ↦ (record m { key_conn = delete_conn key m.key_conn }, some c)
]

-- Add: the entry, the metric, and the goroutine that will copy back.
unfoldable pub add : Natmap → Bytes → Cipher → Bytes → Bytes → Natmap × Natconn
unfolding set
add m client_addr cipher client_location key_id =
    let (m', entry) = set m client_addr cipher key_id client_location in
    (record m' { added = m'.added + 1; running = m'.running + 1 }, entry)

-- The end of that goroutine, when timedCopy returns.
unfoldable pub finish : Natmap → Bytes → Natmap
unfolding del
finish m client_addr =
    let (m', _) = del (record m { removed = m.removed + 1 }) client_addr in
    record m' { running = m'.running - 1 }

-- Close: every connection's next read times out at once.
unfoldable pub close_all : ℕ → List (Bytes × Natconn) → List (Bytes × Natconn)
close_all now [] = []
close_all now ((k, c) ∷ m) = (k, record c { deadline_set = some now }) ∷ close_all now m
