-- ===== src/Server/Users/Settles.antt =====
-- A tick that does not reload has found the users of the map, and the same users are reloaded at most
-- twice.
use ssgo.Prelude.{
  ℕ, suc, ◌+◌, ◌≡◌, refl, sym, ap, ap₂, ◌∙◌, ◌↔◌, subst, inl, inr, Bool, true, false, ◌||◌, List,
  [], ◌∷◌, Option, none, some, ◌==◌, if◌then◌else◌, arith, Bytes, bytes_equal_iff, length, All,
  Bool-cases,
}
use ssgo.Io.{Error, Result, ok}
use ssgo.Service.CipherList.{CipherEntry}
use ssgo.Server.{Key, Ports, Sockets}
use ssgo.Server.Users.{
  key_equal, Hashes, hash_of, put_hash, differs, key_hash, check_keys, check_users, with_users,
  check_user, reloaded,
}

same_key :
    (i j : Bytes) (p q : ℕ) (c d : Bytes) (s t : Bytes)
    → i ≡ j
    → p ≡ q
    → c ≡ d
    → s ≡ t
    → (◌≡◌ {A = Key}
        (record { id = i; port = p; cipher = c; secret = s })
        (record { id = j; port = q; cipher = d; secret = t }))
same_key i j p q c d s t e f g h = cc

key_equal_iff : (a b : Key) → (key_equal a b ≡ true) ↔ (a ≡ b)
unfolding key_equal
key_equal_iff a b = (
  λ h.
      same_key a.id b.id a.port b.port a.cipher b.cipher a.secret b.secret
        (ground (arith, bytes_equal_iff a.id b.id)) (ground arith)
        (ground (arith, bytes_equal_iff a.cipher b.cipher))
        (ground (arith, bytes_equal_iff a.secret b.secret)),
  λ e. ground (
    arith,
    ap (λ k. k.id) e,
    ap (λ k. k.port) e,
    ap (λ k. k.cipher) e,
    ap (λ k. k.secret) e,
    bytes_equal_iff a.id b.id,
    bytes_equal_iff a.cipher b.cipher,
    bytes_equal_iff a.secret b.secret,
  ),
)

hash_of-put_hash :
    (key j : Key) (v : ℕ) (m : Hashes)
    → hash_of j (put_hash key v m) ≡ (if key_equal key j then some v else hash_of j m)
unfolding hash_of put_hash
hash_of-put_hash key j v [] = refl
hash_of-put_hash key j v ((k, old) ∷ m) =
    ground (
      arith,
      key_equal_iff key j,
      key_equal_iff k key,
      key_equal_iff k j,
      hash_of-put_hash key j v m,
    )

put_hash-same : (key : Key) (v : ℕ) (m : Hashes) → hash_of key m ≡ some v → put_hash key v m ≡ m
unfolding hash_of put_hash
put_hash-same key v [] h = ground arith
put_hash-same key v ((k, old) ∷ m) h = elim (Bool-cases (key_equal k key)) [
  | inl hit ↦
      let kept : hash_of key ((k, old) ∷ m) ≡ some old = rw (hit, hash_of) refl in
      let same : old ≡ v = ground arith in rw (hit, put_hash) (ap (λ x. (k, x) ∷ m) (sym same))
  | inr miss ↦
      let on : hash_of key ((k, old) ∷ m) ≡ hash_of key m = rw (miss, hash_of) refl in
      rw (miss, put_hash) (ap (◌∷◌ (k, old)) (put_hash-same key v m (sym on ∙ h)))
]

length-put_hash :
    (key : Key) (v : ℕ) (m : Hashes)
    → hash_of key m ≡ none
    → length (put_hash key v m) ≡ suc (length m)
unfolding hash_of put_hash
length-put_hash key v [] h = refl
length-put_hash key v ((k, old) ∷ m) h = elim (Bool-cases (key_equal k key)) [
  | inl hit ↦ let kept : hash_of key ((k, old) ∷ m) ≡ some old = rw (hit, hash_of) refl in cc
  | inr miss ↦
      let on : hash_of key ((k, old) ∷ m) ≡ hash_of key m = rw (miss, hash_of) refl in
      rw (miss, put_hash) (ap suc (length-put_hash key v m (sym on ∙ h)))
]

-- No two keys of a list are equal.
abbrev pub IsDistinct : List Key → Type 0
IsDistinct [] = Unit
IsDistinct (k ∷ ks) = All (λ j. key_equal k j ≡ false) ks × IsDistinct ks

All-map : (P Q : Key → Type 0) (ks : List Key) → ((k : Key) → P k → Q k) → All P ks → All Q ks
All-map P Q [] f h = tt
All-map P Q (k ∷ ks) f h = (f k h.0, All-map P Q ks f h.1)

-- Two facts of every key of a list give a third.
All-zip :
    (P Q R : Key → Type 0) (ks : List Key)
    → ((k : Key) → P k → Q k → R k)
    → All P ks
    → All Q ks
    → All R ks
All-zip P Q R [] f h g = tt
All-zip P Q R (k ∷ ks) f h g = (f k h.0 g.0, All-zip P Q R ks f h.1 g.1)

module _ (fnv : Bytes → ℕ) where
  -- A key that the map has with its hash.
  abbrev pub IsNoted : Hashes → Key → Type 0
  IsNoted m k = hash_of k m ≡ some (key_hash fnv k)

  differs-none : (h : ℕ) (o : Option ℕ) → differs h o ≡ false → o ≡ some h
  differs-none h none e = ground arith
  differs-none h (some v) e = ground arith

  noted-same :
      (b : Bool) (k : Key) (m : Hashes)
      → IsNoted m k
      → (b || differs (key_hash fnv k) (hash_of k m)) ≡ b
  noted-same true k m h = refl
  noted-same false k m h = ap (differs (key_hash fnv k)) h ∙ ground arith

  check_keys-quiet :
      (keys : List Key) (m : Hashes) (b : Bool)
      → All (IsNoted m) keys
      → check_keys fnv keys m b ≡ (m, b)
  unfolding check_keys
  check_keys-quiet [] m b h = refl
  check_keys-quiet (k ∷ keys) m b h =
      ap₂ (check_keys fnv keys) (put_hash-same k (key_hash fnv k) m h.0) (noted-same b k m h.0)
      ∙ check_keys-quiet keys m b h.1

  -- The loop finds nothing new only where every user is noted.
  check_keys_silent :
      (keys : List Key) (m : Hashes) (b : Bool)
      → (check_keys fnv keys m b).1 ≡ false
      → (b ≡ false) × All (IsNoted m) keys
  unfolding check_keys
  check_keys_silent [] m b h = (h, tt)
  check_keys_silent (k ∷ keys) m b h =
      let (quiet, noted) = check_keys_silent keys (put_hash k (key_hash fnv k) m) _ h in
      let old : differs (key_hash fnv k) (hash_of k m) ≡ false = ground arith in
      let here = differs-none (key_hash fnv k) (hash_of k m) old in
      (
        ground arith,
        (here, subst (λ m'. All (IsNoted m') keys) (put_hash-same k (key_hash fnv k) m here) noted),
      )

  put_hash-IsNoted :
      (k j : Key) (m : Hashes) → IsNoted m j → IsNoted (put_hash k (key_hash fnv k) m) j
  put_hash-IsNoted k j m h =
      hash_of-put_hash k j (key_hash fnv k) m ∙ (elim (Bool-cases (key_equal k j)) [
        | inl same ↦ rw same (ap (λ x. some (key_hash fnv x)) ((key_equal_iff k j).0 same))
        | inr other ↦ rw other h
      ])

  put_hash-here : (k : Key) (m : Hashes) → IsNoted (put_hash k (key_hash fnv k) m) k
  put_hash-here k m =
      hash_of-put_hash k k (key_hash fnv k) m
      ∙ ap (λ b. if b then some (key_hash fnv k) else hash_of k m) ((key_equal_iff k k).1 refl)

  check_keys-keeps :
      (keys : List Key) (m : Hashes) (b : Bool) (j : Key)
      → IsNoted m j
      → IsNoted (check_keys fnv keys m b).0 j
  unfolding check_keys
  check_keys-keeps [] m b j h = h
  check_keys-keeps (k ∷ keys) m b j h =
      check_keys-keeps keys (put_hash k (key_hash fnv k) m) _ j (put_hash-IsNoted k j m h)

  -- After the loop every user is noted.
  check_keys-IsNoted :
      (keys : List Key) (m : Hashes) (b : Bool) → All (IsNoted (check_keys fnv keys m b).0) keys
  unfolding check_keys
  check_keys-IsNoted [] m b = tt
  check_keys-IsNoted (k ∷ keys) m b = (
    check_keys-keeps keys (put_hash k (key_hash fnv k) m) _ k (put_hash-here k m),
    check_keys-IsNoted keys (put_hash k (key_hash fnv k) m) _,
  )

  length-check_keys :
      (keys : List Key) (m : Hashes) (b : Bool)
      → IsDistinct keys
      → All (λ k. hash_of k m ≡ none) keys
      → length (check_keys fnv keys m b).0 ≡ length m + length keys
  unfolding check_keys
  length-check_keys [] m b d new = omega arith
  length-check_keys (k ∷ keys) m b d new =
      let m' = put_hash k (key_hash fnv k) m in
      let still =
        All-zip (λ j. key_equal k j ≡ false) (λ j. hash_of j m ≡ none) (λ j. hash_of j m' ≡ none)
          keys (λ j e n. hash_of-put_hash k j (key_hash fnv k) m ∙ rw e n) d.0 new.1 in
      omega (
        arith,
        length-check_keys keys m' (b || differs (key_hash fnv k) (hash_of k m)) d.1 still,
        length-put_hash k (key_hash fnv k) m new.0,
      )

  -- A map that holds exactly these users.
  abbrev IsSettled : List Key → Hashes → Type 0
  IsSettled keys m = (length m ≡ length keys) × All (IsNoted m) keys

  settled_quiet :
      (keys : List Key) (m : Hashes) → IsSettled keys m → check_users fnv keys m ≡ (m, false)
  unfolding check_users
  settled_quiet keys m (size, noted) =
      let same : (length keys == length m) ≡ true = ground arith in
      rw same (check_keys-quiet keys m false noted)

  none_noted : (keys : List Key) → All (λ k. hash_of k [] ≡ none) keys
  unfolding hash_of
  none_noted [] = tt
  none_noted (k ∷ keys) = (refl, none_noted keys)

  fresh-IsSettled :
      (keys : List Key) → IsDistinct keys → IsSettled keys (check_keys fnv keys [] true).0
  fresh-IsSettled keys d = (
    omega (arith, length-check_keys keys [] true d (none_noted keys)),
    check_keys-IsNoted keys [] true,
  )

  -- A tick leaves every user noted.
  check_users-IsNoted :
      (keys : List Key) (m : Hashes) → All (IsNoted (check_users fnv keys m).0) keys
  unfolding check_users
  check_users-IsNoted keys m = elim (Bool-cases (length keys == length m)) [
    | inl same ↦ rw same (check_keys-IsNoted keys m false)
    | inr other ↦ rw other (check_keys-IsNoted keys [] true)
  ]

  -- A tick on such a map has nothing to do, or starts from an empty one.
  noted_settles :
      (keys : List Key) (m : Hashes)
      → IsDistinct keys
      → All (IsNoted m) keys
      → IsSettled keys (check_users fnv keys m).0
  unfolding check_users
  noted_settles keys m d noted = elim (Bool-cases (length keys == length m)) [
    | inl same ↦
        subst (λ x. IsSettled keys x.0) (sym (settled_quiet keys m (ground arith, noted)))
          (ground arith, noted)
    | inr other ↦ rw other (fresh-IsSettled keys d)
  ]

  -- A tick that does not reload has found as many users as in the map, each of them there with
  -- its hash, and leaves the map as it is.
  check_users-quiet :
      (keys : List Key) (m : Hashes)
      → (check_users fnv keys m).1 ≡ false
      → (length keys ≡ length m) × All (IsNoted m) keys × ((check_users fnv keys m).0 ≡ m)
  unfolding check_users
  check_users-quiet keys m = elim (Bool-cases (length keys == length m)) [
    | inl same ↦ rw same (λ h.
        let noted = (check_keys_silent keys m false h).1 in
        (ground arith, noted, ap (λ x. x.0) (check_keys-quiet keys m false noted)))
    | inr other ↦ rw other (λ h. absurd (ground (arith, (check_keys_silent keys [] true h).0)))
  ]

  -- After two ticks that find the same users, no two of them equal, a further tick that finds
  -- them changes neither the map nor the ports, whatever the map was before.
  pub check_user_settles :
      (net : Sockets) (make : Key → Result CipherEntry) (order order' order'' : List ℕ)
      (keys : List Key) (hash h1 h2 : Hashes) (ports p1 p2 : Ports)
      → IsDistinct keys
      → check_user fnv net make order (ok keys) hash ports ≡ some (h1, p1)
      → check_user fnv net make order' (ok keys) h1 p1 ≡ some (h2, p2)
      → check_user fnv net make order'' (ok keys) h2 p2 ≡ some (h2, p2)
  unfolding check_user
  check_user_settles net make order order' order'' keys hash h1 h2 ports p1 p2 d tick tick' =
      let first : h1 ≡ (check_users fnv keys hash).0 =
        map_kept order ports h1 p1 (check_users fnv keys hash) tick in
      let second : h2 ≡ (check_users fnv keys h1).0 =
        map_kept order' p1 h2 p2 (check_users fnv keys h1) tick' in
      let noted = subst (λ m. All (IsNoted m) keys) (sym first) (check_users-IsNoted keys hash) in
      let settled = subst (IsSettled keys) (sym second) (noted_settles keys h1 d noted) in
      ap (with_users fnv net make order'' p2 keys) (settled_quiet keys h2 settled)
    where
      reloaded_map :
          (m m' : Hashes) (p : Ports) (r : Option (Ports × Option Error))
          → reloaded fnv m r ≡ some (m', p)
          → m' ≡ m
      reloaded_map m m' p none h = ground arith
      reloaded_map m m' p (some (ports, e)) h = ground arith

      map_kept :
          (order : List ℕ) (ports : Ports) (m' : Hashes) (p : Ports) (x : Hashes × Bool)
          → with_users fnv net make order ports keys x ≡ some (m', p)
          → m' ≡ x.0
      map_kept order ports m' p (m, false) h = ground arith
      map_kept order ports m' p (m, true) h = reloaded_map m m' p _ h
