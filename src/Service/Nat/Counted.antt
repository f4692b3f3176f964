-- ===== src/Service/Nat/Counted.antt =====
-- The NAT table and its counts: one entry for each client, and one goroutine for each entry.
use ssgo.Prelude.{
  Bool, true, false, ℕ, suc, ◌+◌, ◌-◌, ◌≡◌, refl, sym, ap, subst, ◌∙◌, inl, inr, List, [], ◌∷◌,
  none, some, arith, if◌then◌else◌, Bool-cases, Bytes, length, bytes_equal, bytes_equal_iff,
  bytes_equal_refl,
}
use ssgo.Shadowsocks.Cipher.{Cipher}
use ssgo.Service.Nat.{
  Natconn, Natmap, lookup_conn, delete_conn, get, put_conn, set, del, add, finish, close_all,
}
use ssgo.Service.Nat.Deadlines.{lookup-delete, get-add}

-- No client has two entries.
abbrev pub IsDistinct : List (Bytes × Natconn) → Type 0
IsDistinct [] = Unit
IsDistinct ((k, c) ∷ m) = (lookup_conn k m ≡ none) × IsDistinct m

-- Whether SetReadDeadline has been called on a connection.
abbrev pub is_timed : Natconn → Bool
is_timed c = elim c.deadline_set [ none ↦ false | some t ↦ true ]

-- `others` counts what else the wait group waits for.
pub record IsCounted (others : ℕ) (m : Natmap) : Type 0 where
  pub distinct : IsDistinct m.key_conn
  pub counted : m.running ≡ others + length m.key_conn
  pub balanced : m.added ≡ m.removed + length m.key_conn

delete-absent :
    (k : Bytes) (m : List (Bytes × Natconn)) → lookup_conn k m ≡ none → delete_conn k m ≡ m
unfolding lookup_conn delete_conn
delete-absent k [] h = refl
delete-absent k ((i, c) ∷ m) h = elim (Bool-cases (bytes_equal i k)) [
  | inl same ↦ ground arith
  | inr other ↦ rw (other, delete_conn) (ap (◌∷◌ (i, c)) (delete-absent k m (ground arith)))
]

length-delete :
    (k : Bytes) (m : List (Bytes × Natconn)) (c : Natconn)
    → IsDistinct m
    → lookup_conn k m ≡ some c
    → suc (length (delete_conn k m)) ≡ length m
unfolding lookup_conn delete_conn
length-delete k [] c d h = ground arith
length-delete k ((i, x) ∷ m) c d h = elim (Bool-cases (bytes_equal i k)) [
  | inl same ↦
      rw (same, delete_conn)
        (ap (λ l. suc (length l))
          (delete-absent k m
            (ap (λ j. lookup_conn j m) (sym ((bytes_equal_iff i k).0 same)) ∙ d.0)))
  | inr other ↦ rw (other, delete_conn) (ap suc (length-delete k m c d.1 (ground arith)))
]

delete-IsDistinct :
    (k : Bytes) (m : List (Bytes × Natconn)) → IsDistinct m → IsDistinct (delete_conn k m)
unfolding delete_conn
delete-IsDistinct k [] d = tt
delete-IsDistinct k ((i, x) ∷ m) d = elim (Bool-cases (bytes_equal i k)) [
  | inl same ↦ rw (same, delete_conn) (delete-IsDistinct k m d.1)
  | inr other ↦
      rw (other, delete_conn) (ground (arith, lookup-delete k i m, d.0), delete-IsDistinct k m d.1)
]

deleted : (k : Bytes) (m : List (Bytes × Natconn)) → lookup_conn k (delete_conn k m) ≡ none
deleted k m =
    lookup-delete k k m ∙ ap (λ b. if b then none else lookup_conn k m) (bytes_equal_refl k)

-- What a round of the packet loop may make of the table: nothing, a write to the client's connection,
-- or a new connection for a client that had none.
pub data Moved (key : Bytes) (m : Natmap) : Natmap → Type 0 where
  kept : Moved key m m
  wrote :
      (c c' : Natconn)
      → get m key ≡ some c
      → (is_timed c ≡ true → is_timed c' ≡ true)
      → Moved key m (put_conn m key c')
  began :
      (cipher : Cipher) (location id : Bytes) (c' : Natconn)
      → get m key ≡ none
      → is_timed c' ≡ true
      → Moved key m (put_conn (add m key cipher location id).0 key c')

put_conn-IsCounted :
    (n : ℕ) (m : Natmap) (key : Bytes) (c c' : Natconn)
    → get m key ≡ some c
    → IsCounted n m
    → IsCounted n (put_conn m key c')
unfolding put_conn get
put_conn-IsCounted n m key c c' h i =
    let e = length-delete key m.key_conn c i.distinct h in
    record {
      distinct = (deleted key m.key_conn, delete-IsDistinct key m.key_conn i.distinct);
      counted = omega (arith, e, i.counted);
      balanced = omega (arith, e, i.balanced);
    }

add-IsCounted :
    (n : ℕ) (m : Natmap) (key : Bytes) (cipher : Cipher) (location id : Bytes)
    → get m key ≡ none
    → IsCounted n m
    → IsCounted n (add m key cipher location id).0
unfolding add set get
add-IsCounted n m key cipher location id h i =
    let e = ap length (delete-absent key m.key_conn h) in
    record {
      distinct = (deleted key m.key_conn, delete-IsDistinct key m.key_conn i.distinct);
      counted = omega (arith, e, i.counted);
      balanced = omega (arith, e, i.balanced);
    }

get-add_same :
    (m : Natmap) (key : Bytes) (cipher : Cipher) (location id : Bytes)
    → get (add m key cipher location id).0 key ≡ some (add m key cipher location id).1
get-add_same m key cipher location id =
    get-add m key key cipher location id
    ∙ ap (λ b. if b then some (add m key cipher location id).1 else get m key)
        (bytes_equal_refl key)

pub Moved-IsCounted :
    {key : Bytes} {m m' : Natmap} (n : ℕ) → Moved key m m' → IsCounted n m → IsCounted n m'
Moved-IsCounted n kept i = i
Moved-IsCounted {key} {m} n (wrote c c' h timed) i = put_conn-IsCounted n m key c c' h i
Moved-IsCounted {key} {m} n (began cipher location id c' h timed) i =
    put_conn-IsCounted n (add m key cipher location id).0 key _ c'
      (get-add_same m key cipher location id) (add-IsCounted n m key cipher location id h i)

-- The end of a goroutine takes its entry away.
pub finish-IsCounted :
    (n : ℕ) (m : Natmap) (key : Bytes) (c : Natconn)
    → get m key ≡ some c
    → IsCounted n m
    → IsCounted n (finish m key) × (suc (length (finish m key).key_conn) ≡ length m.key_conn)
unfolding finish get del
finish-IsCounted n m key c h i =
    let e = length-delete key m.key_conn c i.distinct h in
    let made : Natmap = record m {
      key_conn = delete_conn key m.key_conn;
      removed = m.removed + 1;
      running = m.running - 1;
    } in
    let lem : finish m key ≡ made = rw (h, del) refl in
    subst (λ m'. IsCounted n m' × (suc (length m'.key_conn) ≡ length m.key_conn)) (sym lem)
      (
        record {
          distinct = delete-IsDistinct key m.key_conn i.distinct;
          counted = omega (arith, e, i.counted);
          balanced = omega (arith, e, i.balanced);
        },
        e,
      )

close_all-length : (now : ℕ) (l : List (Bytes × Natconn)) → length (close_all now l) ≡ length l
unfolding close_all
close_all-length now [] = refl
close_all-length now ((k, c) ∷ l) = ap suc (close_all-length now l)

lookup-close_all :
    (now : ℕ) (k : Bytes) (l : List (Bytes × Natconn))
    → lookup_conn k l ≡ none
    → lookup_conn k (close_all now l) ≡ none
unfolding lookup_conn close_all
lookup-close_all now k [] h = refl
lookup-close_all now k ((i, c) ∷ l) h = elim (Bool-cases (bytes_equal i k)) [
  | inl same ↦ ground arith
  | inr other ↦ rw other (lookup-close_all now k l (ground arith))
]

close_all-IsDistinct :
    (now : ℕ) (l : List (Bytes × Natconn)) → IsDistinct l → IsDistinct (close_all now l)
unfolding close_all
close_all-IsDistinct now [] d = tt
close_all-IsDistinct now ((k, c) ∷ l) d =
    (lookup-close_all now k l d.0, close_all-IsDistinct now l d.1)

-- The end of Serve.
pub close-IsCounted :
    (n now : ℕ) (m : Natmap)
    → IsCounted (suc n) m
    → IsCounted n (record m { key_conn = close_all now m.key_conn; running = m.running - 1 })
close-IsCounted n now m i =
    let e = close_all-length now m.key_conn in
    record {
      distinct = close_all-IsDistinct now m.key_conn i.distinct;
      counted = omega (arith, e, i.counted);
      balanced = omega (arith, e, i.balanced);
    }
