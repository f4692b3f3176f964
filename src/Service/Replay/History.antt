-- ===== src/Service/Replay/History.antt =====
-- The cache against the full history of hashes.
use ssgo.Prelude.{
  ℕ, zero, suc, ◌+◌, ◌≤◌, ◌<◌, ◌≡◌, refl, ap, ◌∙◌, ◌⊎◌, inl, inr, true, false, not, ◌||◌, List, [],
  ◌∷◌, ◌++◌, arith, ◌==◌, if◌then◌else◌, Bool-cases, length, take, length-append, take-append_le,
  append-nil, append_assoc, sym,
}
use ssgo.Service.Replay.{ReplayCache, contains, add_hash, max_capacity, new_replay_cache}
use ssgo.Io.{ok, err, panic}
use mathlib.Core.Bool.{false≢true}

-- The hashes that were accepted into the active set, the newest first, with the cache's two sets.
-- The active set is the newest part of the history; if anything was ever archived, the archive is
-- the `capacity` hashes before that.
pub record Tracks (c : ReplayCache) (h : List ℕ) : Type 0 where
  pub positive : 0 < c.capacity
  pub bounded : length c.active ≤ c.capacity
  pub archived : (c.archive ≡ []) ⊎ (length c.archive ≡ c.capacity)
  pub older : List ℕ
  pub history : h ≡ c.active ++ (c.archive ++ older)
  pub nothing_older : c.archive ≡ [] → older ≡ []

-- What Add notes in the history: every hash that is not in the active set.
unfoldable pub note : ReplayCache → ℕ → List ℕ → List ℕ
note c hash h = if contains hash c.active then h else hash ∷ h

pub contains-append :
    (x : ℕ) (xs ys : List ℕ) → contains x (xs ++ ys) ≡ (contains x xs || contains x ys)
unfolding contains
contains-append x [] ys = refl
contains-append x (k ∷ xs) ys = ground (arith, contains-append x xs ys)

contains-take : (x n : ℕ) (xs : List ℕ) → contains x (take n xs) ≡ true → contains x xs ≡ true
unfolding contains
contains-take x zero xs h = cc
contains-take x (suc n) [] h = h
contains-take x (suc n) (k ∷ xs) h = ground (arith, contains-take x n xs)

-- Everything among the last `capacity` accepted hashes is in one of the two sets.
recent :
    (c : ReplayCache) (h : List ℕ) (x : ℕ)
    → Tracks c h
    → contains x (take c.capacity h) ≡ true
    → (contains x c.active || contains x c.archive) ≡ true
recent c h x t seen = sym (contains-append x c.active c.archive) ∙ elim t.archived [
  | inl empty ↦
      let whole : c.active ++ (c.archive ++ t.older) ≡ c.active ++ c.archive =
        ap (◌++◌ c.active) (ap (◌++◌ c.archive) (t.nothing_older empty) ∙ append-nil c.archive) in
      contains-take x c.capacity (c.active ++ c.archive) (rw (← whole, ← t.history) seen)
  | inr full ↦
      let regroup : h ≡ (c.active ++ c.archive) ++ t.older =
        t.history ∙ sym (append_assoc c.active c.archive t.older) in
      let cut : take c.capacity h ≡ take c.capacity (c.active ++ c.archive) =
        ap (take c.capacity) regroup
        ∙ take-append_le c.capacity (c.active ++ c.archive) t.older
            (omega (arith, length-append c.active c.archive, full)) in
      contains-take x c.capacity (c.active ++ c.archive) (rw (← cut) seen)
]

add_hash-known : (c : ReplayCache) (x : ℕ) → contains x c.active ≡ true → add_hash c x ≡ (c, false)
unfolding add_hash
add_hash-known c x h = rw (h, add_hash) refl

add_hash-full :
    (c : ReplayCache) (x : ℕ)
    → contains x c.active ≡ false
    → (length c.active == c.capacity) ≡ true
    → add_hash c x ≡ (record c { active = x ∷ []; archive = c.active }, not (contains x c.archive))
unfolding add_hash
add_hash-full c x h f = rw (h, f, add_hash) refl

add_hash-room :
    (c : ReplayCache) (x : ℕ)
    → contains x c.active ≡ false
    → (length c.active == c.capacity) ≡ false
    → add_hash c x ≡ (record c { active = x ∷ c.active }, not (contains x c.archive))
unfolding add_hash
add_hash-room c x h f = rw (h, f, add_hash) refl

-- One Add keeps the account of the history: neither set outgrows the capacity, and together they
-- are the newest part of the history.
add_hash-Tracks :
    (c : ReplayCache) (h : List ℕ) (x : ℕ)
    → Tracks c h
    → Tracks (add_hash c x).0 (note c x h) × ((add_hash c x).0.capacity ≡ c.capacity)
unfolding note
add_hash-Tracks c h x t = elim (Bool-cases (contains x c.active)) [
  | inl known ↦ rw (known, add_hash-known c x known) (t, refl)
  | inr fresh ↦ elim (Bool-cases (length c.active == c.capacity)) [
    | inl full ↦
        rw (fresh, add_hash-full c x fresh full)
          (
            record {
              positive = t.positive;
              bounded = omega (arith, t.positive);
              archived = inr (ground arith);
              older = c.archive ++ t.older;
              history = ap (◌∷◌ x) t.history;
              nothing_older = λ e. absurd (ground (arith, t.positive, ap length e));
            },
            refl,
          )
    | inr room ↦
        rw (fresh, add_hash-room c x fresh room)
          (
            record {
              positive = t.positive;
              bounded = ground (arith, t.bounded);
              archived = t.archived;
              older = t.older;
              history = ap (◌∷◌ x) t.history;
              nothing_older = t.nothing_older;
            },
            refl,
          )
  ]
]

-- The answer of one Add: a hash among the last `capacity` noted ones is a replay, and one that was
-- never noted is new.
add_hash_answer :
    (c : ReplayCache) (h : List ℕ) (x : ℕ)
    → Tracks c h
    → (contains x (take c.capacity h) ≡ true → (add_hash c x).1 ≡ false)
      × (contains x h ≡ false → (add_hash c x).1 ≡ true)
unfolding add_hash
add_hash_answer c h x t =
    let parts : contains x h
        ≡ (contains x c.active || (contains x c.archive || contains x t.older)) =
      ap (contains x) t.history
      ∙ contains-append x c.active (c.archive ++ t.older)
      ∙ ap (◌||◌ (contains x c.active)) (contains-append x c.archive t.older) in
    (λ seen. ground (arith, recent c h x t seen), λ unseen. ground (arith, parts))

-- A run of Adds.
unfoldable pub add_all : ReplayCache → List ℕ → ReplayCache
add_all c [] = c
add_all c (x ∷ xs) = add_all (add_hash c x).0 xs

contains_later :
    (c : ReplayCache) (h : List ℕ) (x y n : ℕ)
    → contains x (take n h) ≡ true
    → contains x (take (suc n) (note c y h)) ≡ true
unfolding note contains
contains_later c h x y n seen = elim (Bool-cases (contains y c.active)) [
  | inl known ↦ rw (known, note) (wider n h seen)
  | inr fresh ↦ rw (fresh, note) (ground arith)
]
  where
    wider : (n : ℕ) (h : List ℕ) → contains x (take n h) ≡ true → contains x (take (suc n) h) ≡ true
    wider zero h e = cc
    wider (suc n) [] e = e
    wider (suc n) (k ∷ h) e = ground (arith, wider n h)

contains-take_mono :
    (x m n : ℕ) (h : List ℕ) → m ≤ n → contains x (take m h) ≡ true → contains x (take n h) ≡ true
unfolding contains
contains-take_mono x zero n h le e = cc
contains-take_mono x (suc m) zero h le e = absurd (omega arith)
contains-take_mono x (suc m) (suc n) [] le e = e
contains-take_mono x (suc m) (suc n) (k ∷ h) le e =
    ground (arith, contains-take_mono x m n h (omega arith))

add_all-detects :
    (c : ReplayCache) (h : List ℕ) (x n : ℕ) (xs : List ℕ)
    → Tracks c h
    → contains x (take n h) ≡ true
    → n + length xs ≤ c.capacity
    → (add_hash (add_all c xs) x).1 ≡ false
unfolding add_all
add_all-detects c h x n [] t seen m =
    (add_hash_answer c h x t).0 (contains-take_mono x n c.capacity h (omega (arith, m)) seen)
add_all-detects c h x n (y ∷ ys) t seen m =
    let (t', same) = add_hash-Tracks c h y t in
    add_all-detects (add_hash c y).0 (note c y h) x (suc n) ys t' (contains_later c h x y n seen)
      (omega (arith, same, m))

head :
    (c : ReplayCache) (x : ℕ) (h : List ℕ)
    → contains x c.active ≡ false
    → contains x (take 1 (note c x h)) ≡ true
unfolding note contains
head c x h fresh = rw (fresh, note) (ground arith)

-- A handshake that was accepted is refused as a replay if it comes again before `capacity` other
-- handshakes have been added, whatever these are.
pub replay_detected :
    (c : ReplayCache) (h : List ℕ) (x : ℕ) (xs : List ℕ)
    → Tracks c h
    → (add_hash c x).1 ≡ true
    → length xs < c.capacity
    → (add_hash (add_all (add_hash c x).0 xs) x).1 ≡ false
replay_detected c h x xs t accepted m =
    let (t', same) = add_hash-Tracks c h x t in
    add_all-detects (add_hash c x).0 (note c x h) x 1 xs t' (noted c x h accepted)
      (omega (arith, same, m))
  where
    noted :
        (c : ReplayCache) (x : ℕ) (h : List ℕ)
        → (add_hash c x).1 ≡ true
        → contains x (take 1 (note c x h)) ≡ true
    noted c x h accepted = elim (Bool-cases (contains x c.active)) [
      | inl known ↦ absurd (false≢true (sym (ap (λ y. y.1) (add_hash-known c x known)) ∙ accepted))
      | inr fresh ↦ head c x h fresh
    ]

-- A cache of an allowed, positive capacity starts with an empty history; a larger one is refused.
new_replay_cache-Tracks :
    (capacity : ℕ)
    → 0 < capacity
    → (capacity ≤ max_capacity
        → (c : ReplayCache) × (new_replay_cache capacity ≡ ok c)
          × (c.capacity ≡ capacity)
          × Tracks c [])
      × (max_capacity < capacity → new_replay_cache capacity ≡ err panic)
unfolding new_replay_cache
new_replay_cache-Tracks capacity pos = (
  λ h. (
    record { capacity = capacity; active = []; archive = [] },
    ground arith,
    refl,
    record {
      positive = pos;
      bounded = omega arith;
      archived = inl refl;
      older = [];
      history = refl;
      nothing_older = λ e. refl;
    },
  ),
  λ h. ground arith,
)
