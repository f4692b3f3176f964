-- ===== src/Slicepool.antt =====
-- internal/slicepool/slicepool.go: slices that are taken from a pool and given back. A slice is its
-- identity, its length and its capacity; which free slice sync.Pool hands out is a choice.
pub mod Boxes
pub mod Ownership
use ssgo.Prelude.{
  ℕ, zero, suc, ◌+◌, Bool, true, false, ◌&&◌, List, [], ◌∷◌, Option, none, some, ◌==◌,
  if◌then◌else◌,
}

pub record Slice : Type 0 where
  pub id : ℕ
  pub size : ℕ
  pub capacity : ℕ

-- `made` counts the slices that were made.
pub record Pool : Type 0 where
  pub free : List Slice
  pub len : ℕ
  pub made : ℕ

unfoldable pub make_pool : ℕ → Pool
make_pool slice_len = record { free = []; len = slice_len; made = 0 }

abbrev pub nth {ℓ} : {A : Type ℓ} → ℕ → List A → Option A
nth n [] = none
nth zero (x ∷ xs) = some x
nth (suc n) (x ∷ xs) = nth n xs

abbrev pub without {ℓ} : {A : Type ℓ} → ℕ → List A → List A
without n [] = []
without zero (x ∷ xs) = xs
without (suc n) (x ∷ xs) = x ∷ without n xs

abbrev pub new_slice : Pool → Slice × Pool
new_slice p =
    (record { id = p.made; size = p.len; capacity = p.len }, record p { made = p.made + 1 })

abbrev pub pooled : Pool → ℕ → Option Slice → Slice × Pool
pooled p k none = new_slice p
pooled p k (some b) = (b, record p { free = without k p.free })

-- get, with the free slice that sync.Pool chooses, if it chooses one.
unfoldable pub get : Option ℕ → Pool → Slice × Pool
get none p = new_slice p
get (some k) p = pooled p k (nth k p.free)

-- put; `none` is a panic.
unfoldable pub put : Slice → Pool → Option Pool
put b p =
    if b.size == p.len && b.capacity == p.len then some (record p { free = b ∷ p.free }) else none

-- A LazySlice of a pool: the slice it holds, if any.
abbrev pub LazySlice : Type 0
LazySlice = Option Slice

-- Acquire, which panics where the slice is acquired already.
unfoldable pub acquire : Option ℕ → LazySlice → Pool → Option (LazySlice × Pool)
unfolding get
acquire choice (some b) p = none
acquire choice none p = let (b, p') = get choice p in some (some b, p')

abbrev pub released : Option Pool → Option (LazySlice × Pool)
released none = none
released (some p) = some (none, p)

unfoldable pub release : LazySlice → Pool → Option (LazySlice × Pool)
unfolding put
release none p = some (none, p)
release (some b) p = released (put b p)
