-- ===== src/Service/Nat/Timed.antt =====
-- Every connection of the NAT table has a read deadline, which ends its goroutine.
use ssgo.Prelude.{
  ℕ, ◌+◌, ◌-◌, ◌≡◌, refl, sym, subst, inl, inr, true, List, [], ◌∷◌, none, some, arith, Bool-cases,
  Option-cases, Bytes, bytes_equal, bytes_equal_refl, All,
}
use ssgo.Shadowsocks.Cipher.{Cipher}
use ssgo.Service.Nat.{
  Natconn, Natmap, on_write, on_read, lookup_conn, delete_conn, get, put_conn, set, del, add,
  finish, close_all,
}
use ssgo.Service.Nat.Counted.{is_timed, Moved, kept, wrote, began}

abbrev pub IsTimed : Bytes × Natconn → Type 0
IsTimed kc = is_timed kc.1 ≡ true

abbrev pub AllTimed : Natmap → Type 0
AllTimed m = All IsTimed m.key_conn

-- A write sets the deadline of a connection that had none.
on_write-new :
    (now port : ℕ) (c : Natconn) → c.read_deadline ≡ none → is_timed (on_write now port c) ≡ true
unfolding on_write
on_write-new now port c h = ground arith

pub on_write-added :
    (now port : ℕ) (m : Natmap) (key : Bytes) (cipher : Cipher) (location id : Bytes)
    → is_timed (on_write now port (add m key cipher location id).1) ≡ true
unfolding add set
on_write-added now port m key cipher location id = on_write-new now port _ refl

pub on_write-timed :
    (now port : ℕ) (c : Natconn) → is_timed c ≡ true → is_timed (on_write now port c) ≡ true
unfolding on_write
on_write-timed now port c h = ground arith

pub on_read-timed :
    (now port : ℕ) (c : Natconn) → is_timed c ≡ true → is_timed (on_read now port c) ≡ true
unfolding on_read
on_read-timed now port c h = ground arith

All-delete :
    (key : Bytes) (l : List (Bytes × Natconn)) → All IsTimed l → All IsTimed (delete_conn key l)
unfolding delete_conn
All-delete key [] h = tt
All-delete key ((k, c) ∷ l) h = elim (Bool-cases (bytes_equal k key)) [
  | inl same ↦ rw (same, delete_conn) (All-delete key l h.1)
  | inr other ↦ rw (other, delete_conn) (h.0, All-delete key l h.1)
]

pub lookup-timed :
    (key : Bytes) (l : List (Bytes × Natconn)) (c : Natconn)
    → All IsTimed l
    → lookup_conn key l ≡ some c
    → is_timed c ≡ true
unfolding lookup_conn
lookup-timed key [] c h e = ground arith
lookup-timed key ((k, x) ∷ l) c h e = elim (Bool-cases (bytes_equal k key)) [
  | inl same ↦ ground (arith, h)
  | inr other ↦ lookup-timed key l c h.1 (ground arith)
]

pub Moved-AllTimed : {key : Bytes} {m m' : Natmap} → Moved key m m' → AllTimed m → AllTimed m'
unfolding put_conn add set get delete_conn
Moved-AllTimed kept h = h
Moved-AllTimed {key} {m} (wrote c c' found timed) h =
    (timed (lookup-timed key m.key_conn c h found), All-delete key m.key_conn h)
Moved-AllTimed {key} {m} (began cipher location id c' absent timed) h =
    (timed, rw (bytes_equal_refl key) (All-delete key _ (All-delete key m.key_conn h)))

pub finish-AllTimed : (m : Natmap) (key : Bytes) → AllTimed m → AllTimed (finish m key)
unfolding finish del
finish-AllTimed m key h = elim (Option-cases (lookup_conn key m.key_conn)) [
  | inl gone ↦
      let made : Natmap = record m { removed = m.removed + 1; running = m.running - 1 } in
      let lem : finish m key ≡ made = rw (gone, del) refl in subst AllTimed (sym lem) h
  | inr (c, found) ↦
      let made : Natmap = record m {
        key_conn = delete_conn key m.key_conn;
        removed = m.removed + 1;
        running = m.running - 1;
      } in
      let lem : finish m key ≡ made = rw (found, del) refl in
      subst AllTimed (sym lem) (All-delete key m.key_conn h)
]

pub close_all-IsTimed : (now : ℕ) (l : List (Bytes × Natconn)) → All IsTimed (close_all now l)
unfolding close_all
close_all-IsTimed now [] = tt
close_all-IsTimed now ((k, c) ∷ l) = (refl, close_all-IsTimed now l)
