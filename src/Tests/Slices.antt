-- ===== src/Tests/Slices.antt =====
-- The pool of slices at a concrete input.
use ssgo.Prelude.{ℕ, ◌≡◌, ◌≢◌, refl, List, [], ◌∷◌, none, some, arith, replicate}
use ssgo.Slicepool.{Slice, Pool, make_pool, get, put, acquire, release, LazySlice}
use ssgo.Slicepool.Boxes.{Call, acquires, releases, drops, call, calls}
use ssgo.Slicepool.Ownership.{no_shared_slice}

-- The first box gives its slice back, and the second takes it again while the first takes a new one.
abbrev uses : List Call
uses = acquires 0 none ∷ releases 0 ∷ acquires 1 (some 0) ∷ acquires 0 none ∷ drops 3 ∷ []

abbrev slice : ℕ → Slice
slice i = record { id = i; size = 8; capacity = 8 }

abbrev boxes : List LazySlice
boxes = some (slice 1) ∷ some (slice 0) ∷ []

abbrev pool : Pool
pool = record { free = []; len = 8; made = 2 }

uses_run : calls uses (replicate 2 none, make_pool 8) ≡ some (boxes, pool)
unfolding calls call acquire release get put make_pool
uses_run = refl

no_shared_slice_example :
    ((slice 0).id ≢ (slice 1).id)
    × ((slice 0).size ≡ pool.len)
    × (release (some (slice 0)) pool ≡ some (none, record pool { free = slice 0 ∷ [] }))
no_shared_slice_example =
    no_shared_slice 2 8 uses boxes pool 1 0 (slice 0) (slice 1) uses_run
      (λ h. absurd (ground arith)) refl refl
