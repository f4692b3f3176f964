-- ===== src/Service/Replay.antt =====
-- service/replay.go: the replay cache, two sets of 32-bit handshake hashes. A Go map with empty
-- values is a list of its keys without repetition; the mutex makes each Add one step.
pub mod History
use Prim.Native.Nat.{bit_xor}
use ssgo.Prelude.{
  ℕ, zero, suc, ◌+◌, ◌*◌, ◌%◌, Bool, true, false, not, ◌||◌, List, [], ◌∷◌, Option, none, some,
  ◌==◌, ltb, if◌then◌else◌, Bytes, length,
}
use ssgo.Io.{Result, ok, err, panic}

abbrev pub max_capacity : ℕ
max_capacity = 20_000

pub record ReplayCache : Type 0 where
  pub capacity : ℕ
  pub active : List ℕ
  pub archive : List ℕ

unfoldable pub new_replay_cache : ℕ → Result ReplayCache
new_replay_cache capacity =
    if ltb max_capacity capacity
    then err panic
    else ok (record { capacity = capacity; active = []; archive = [] })

unfoldable pub contains : ℕ → List ℕ → Bool
contains h [] = false
contains h (k ∷ ks) = k == h || contains h ks

-- The four bytes of preHash's buffer.
pub record Fold : Type 0 where
  pub b0 : ℕ
  pub b1 : ℕ
  pub b2 : ℕ
  pub b3 : ℕ

abbrev empty_fold : Fold
empty_fold = record { b0 = 0; b1 = 0; b2 = 0; b3 = 0 }

-- buf[i&0x3] ^= v
unfoldable pub fold_byte : ℕ → ℕ → Fold → Fold
fold_byte i v f =
    if i % 4 == 0
    then record f { b0 = bit_xor f.b0 v }
    else if i % 4 == 1
    then record f { b1 = bit_xor f.b1 v }
    else if i % 4 == 2
    then record f { b2 = bit_xor f.b2 v }
    else record f { b3 = bit_xor f.b3 v }

unfoldable pub fold_bytes : ℕ → Bytes → Fold → Fold
unfolding fold_byte
fold_bytes i [] f = f
fold_bytes i (v ∷ vs) f = fold_bytes (i + 1) vs (fold_byte i v f)

-- The ID and the salt are folded into four bytes, which are read as a big-endian number.
unfoldable pub pre_hash : Bytes → Bytes → ℕ
unfolding fold_bytes
pre_hash id salt =
    let f = fold_bytes 0 salt (fold_bytes 0 id empty_fold) in
    ((f.b0 * 256 + f.b1) * 256 + f.b2) * 256 + f.b3

-- The locked part of Add, on the hash.
unfoldable pub add_hash : ReplayCache → ℕ → ReplayCache × Bool
unfolding contains
add_hash c hash =
    if contains hash c.active
    then (c, false)
    else let in_archive = contains hash c.archive in
      let kept : ReplayCache =
        if length c.active == c.capacity then record c { archive = c.active; active = [] } else c in
      (record kept { active = hash ∷ kept.active }, not in_archive)

-- Add; `none` is a nil cache. True means that the handshake is new.
unfoldable pub add : Option ReplayCache → Bytes → Bytes → Option ReplayCache × Bool
unfolding pre_hash add_hash
add none id salt = (none, true)
add (some c) id salt =
    if c.capacity == 0
    then (some c, true)
    else (let (c', new) = add_hash c (pre_hash id salt) in (some c', new))
