-- ===== src/Service/Nat/View.antt =====
-- The NAT table as a map: what a client's entry is, whatever the order and the length of the list
-- that stands for it.
use mathlib.Core.Path.{fun_ext}
use ssgo.Prelude.{
  ℕ, ◌+◌, ◌≡◌, refl, sym, ap, ◌∙◌, inl, inr, false, List, [], ◌∷◌, Option, none, some, arith,
  if◌then◌else◌, Bool-cases, Option-cases, Bytes, bytes_equal, bytes_equal_iff,
}
use ssgo.Shadowsocks.Cipher.{Cipher}
use ssgo.Service.Nat.{
  Natconn, Natmap, on_write, on_read, lookup_conn, get, put_conn, set, del, add, finish, close_all,
}
use ssgo.Service.Nat.Deadlines.{lookup-delete, get-add, get-del}

-- The calls on a table: Add and the end of its goroutine, a write and a read on a client's
-- connection, and Close.
pub data Call : Type 0 where
  add_conn : Bytes → Cipher → Bytes → Bytes → Call
  end_conn : Bytes → Call
  write_conn read_conn : ℕ → ℕ → Bytes → Call
  close_conns : ℕ → Call

abbrev changed : Natmap → Bytes → (Natconn → Natconn) → Option Natconn → Natmap
changed m key f none = m
changed m key f (some c) = put_conn m key (f c)

unfoldable pub call : Call → Natmap → Natmap
unfolding add finish
call (add_conn key cipher location key_id) m = (add m key cipher location key_id).0
call (end_conn key) m = finish m key
call (write_conn now port key) m = changed m key (on_write now port) (get m key)
call (read_conn now port key) m = changed m key (on_read now port) (get m key)
call (close_conns now) m = record m { key_conn = close_all now m.key_conn }

unfoldable pub calls : List Call → Natmap → Natmap
unfolding call
calls [] m = m
calls (x ∷ xs) m = calls xs (call x m)

-- The abstract table.
abbrev pub View : Type 0
View = Bytes → Option Natconn

abbrev pub at_client : Bytes → Option Natconn → View → View
at_client key o v = λ j. if bytes_equal key j then o else v j

abbrev pub map_conn : (Natconn → Natconn) → Option Natconn → Option Natconn
map_conn f none = none
map_conn f (some c) = some (f c)

abbrev pub new_conn : ℕ → Cipher → Bytes → Bytes → Natconn
new_conn timeout cipher location key_id = record {
  cipher = cipher;
  key_id = key_id;
  client_location = location;
  default_timeout = timeout;
  read_deadline = none;
  deadline_set = none;
  fast_done = false;
}

-- Every call changes one entry, but for Close, which makes every connection time out.
unfoldable pub view_call : ℕ → Call → View → View
view_call timeout (add_conn key cipher location key_id) v =
    at_client key (some (new_conn timeout cipher location key_id)) v
view_call timeout (end_conn key) v = at_client key none v
view_call timeout (write_conn now port key) v =
    at_client key (map_conn (on_write now port) (v key)) v
view_call timeout (read_conn now port key) v = at_client key (map_conn (on_read now port) (v key)) v
view_call timeout (close_conns now) v =
    λ j. map_conn (λ c. record c { deadline_set = some now }) (v j)

unfoldable pub view_calls : ℕ → List Call → View → View
unfolding view_call
view_calls timeout [] v = v
view_calls timeout (x ∷ xs) v = view_calls timeout xs (view_call timeout x v)

get-put_conn :
    (m : Natmap) (key : Bytes) (c : Natconn) (j : Bytes)
    → get (put_conn m key c) j ≡ at_client key (some c) (get m) j
unfolding get put_conn lookup_conn
get-put_conn m key c j = ground (arith, lookup-delete key j m.key_conn)

unchanged : (m : Natmap) (key j : Bytes) → get m key ≡ none → get m j ≡ at_client key none (get m) j
unchanged m key j absent = elim (Bool-cases (bytes_equal key j)) [
  | inl same ↦ rw same (ap (get m) (sym ((bytes_equal_iff key j).0 same)) ∙ absent)
  | inr other ↦ rw other refl
]

get-changed :
    (m : Natmap) (key : Bytes) (f : Natconn → Natconn) (o : Option Natconn) (j : Bytes)
    → get m key ≡ o
    → get (changed m key f o) j ≡ at_client key (map_conn f o) (get m) j
get-changed m key f none j e = unchanged m key j e
get-changed m key f (some c) j e = get-put_conn m key (f c) j

lookup-close_all :
    (now : ℕ) (l : List (Bytes × Natconn)) (j : Bytes)
    → lookup_conn j (close_all now l)
      ≡ map_conn (λ c. record c { deadline_set = some now }) (lookup_conn j l)
unfolding lookup_conn close_all
lookup-close_all now [] j = refl
lookup-close_all now ((k, c) ∷ l) j = elim (Bool-cases (bytes_equal k j)) [
  | inl same ↦ rw same refl
  | inr other ↦ rw other (lookup-close_all now l j)
]

get-call : (x : Call) (m : Natmap) (j : Bytes) → get (call x m) j ≡ view_call m.timeout x (get m) j
unfolding call view_call get add set finish lookup_conn
get-call (add_conn key cipher location key_id) m j = get-add m key j cipher location key_id
get-call (end_conn key) m j = (get-del (record m { removed = m.removed + 1 }) key j).0
get-call (write_conn now port key) m j = get-changed m key (on_write now port) (get m key) j refl
get-call (read_conn now port key) m j = get-changed m key (on_read now port) (get m key) j refl
get-call (close_conns now) m j = lookup-close_all now m.key_conn j

changed-timeout :
    (m : Natmap) (key : Bytes) (f : Natconn → Natconn) (o : Option Natconn)
    → (changed m key f o).timeout ≡ m.timeout
unfolding put_conn
changed-timeout m key f none = refl
changed-timeout m key f (some c) = refl

del-timeout : (m : Natmap) (key : Bytes) → (del m key).0.timeout ≡ m.timeout
unfolding del
del-timeout m key = elim (Option-cases (lookup_conn key m.key_conn)) [
  | inl gone ↦ rw (gone, del) refl
  | inr (c, found) ↦ rw (found, del) refl
]

call-timeout : (x : Call) (m : Natmap) → (call x m).timeout ≡ m.timeout
unfolding call add set finish
call-timeout (add_conn key cipher location key_id) m = refl
call-timeout (end_conn key) m = del-timeout (record m { removed = m.removed + 1 }) key
call-timeout (write_conn now port key) m = changed-timeout m key (on_write now port) (get m key)
call-timeout (read_conn now port key) m = changed-timeout m key (on_read now port) (get m key)
call-timeout (close_conns now) m = refl

-- The table implements the map: after any sequence of calls every client has the entry that the
-- same calls give it in the map, from whatever table they start.
pub get-calls :
    (xs : List Call) (m : Natmap) (j : Bytes)
    → get (calls xs m) j ≡ view_calls m.timeout xs (get m) j
unfolding calls view_calls
get-calls [] m j = refl
get-calls (x ∷ xs) m j =
    get-calls xs (call x m) j
    ∙ ap (λ t. view_calls t xs (get (call x m)) j) (call-timeout x m)
    ∙ ap (λ v. view_calls m.timeout xs v j) (fun_ext (get-call x m))
