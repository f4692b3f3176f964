-- ===== src/Shadowsocks/Salt.antt =====
-- shadowsocks/salt.go and shadowsocks/client/salt.go: the interface SaltGenerator and two of its
-- implementations. crypto/rand is a parameter of each call.
use ssgo.Prelude.{
  ℕ, ◌-◌, ◌≤◌, ◌<◌, ◌≡◌, ◌⊎◌, inl, inr, min, ◌++◌, arith, ltb, if◌then◌else◌, ◌==◌, not, Bytes,
  length, take, length-append, Bool-cases, take_all, ltb→lt,
}
use ssgo.Io.{Error, Result, ok, err, ◌>>=◌, Result-cases, new, prefix_is_too_long}

-- rand.Read on a slice of n bytes: n random bytes, or an error.
abbrev pub Random : Type 0
Random = ℕ → Result Bytes

-- The documented contract: without an error, the slice is full.
abbrev pub IsRandom : Random → Type 0
IsRandom rnd = (n : ℕ) (bs : Bytes) → rnd n ≡ ok bs → length bs ≡ n

-- GetSalt fills the slice it is given; the result is what the slice then holds.
pub record SaltGenerator : Type 0 where
  pub get_salt : Random → Bytes → Result Bytes

-- A generator keeps the length of the slice.
pub record IsSaltGenerator (g : SaltGenerator) : Type 0 where
  pub length-get_salt :
      (rnd : Random) (salt s : Bytes)
      → IsRandom rnd
      → g.get_salt rnd salt ≡ ok s
      → length s ≡ length salt

unfoldable pub random_get_salt : Random → Bytes → Result Bytes
random_get_salt rnd salt = rnd (length salt)

abbrev pub random_salt_generator : SaltGenerator
random_salt_generator = record { get_salt = random_get_salt }

-- copy(salt, prefix), then random bytes behind it.
unfoldable pub prefix_get_salt : Bytes → Random → Bytes → Result Bytes
prefix_get_salt prefix rnd salt =
    let n = min (length salt) (length prefix) in
    if not (n == length prefix)
    then err (new prefix_is_too_long)
    else (rnd (length salt - n) >>= λ rest. ok (take n prefix ++ rest))

abbrev pub new_prefix_salt_generator : Bytes → SaltGenerator
new_prefix_salt_generator prefix = record { get_salt = prefix_get_salt prefix }

pub random_salt_generator-IsSaltGenerator : IsSaltGenerator random_salt_generator
unfolding random_get_salt
random_salt_generator-IsSaltGenerator = record {
  length-get_salt = λ rnd salt s full h. full (length salt) s h;
}

behind :
    (prefix : Bytes) (rnd : Random) (salt : Bytes) (r : Result Bytes)
    → length prefix ≤ length salt
    → rnd (length salt - length prefix) ≡ r
    → prefix_get_salt prefix rnd salt ≡ (r >>= λ rest. ok (prefix ++ rest))
unfolding prefix_get_salt
behind prefix rnd salt r h e =
    let n : min (length salt) (length prefix) ≡ length prefix = omega arith in
    rw n (rw (take_all (length prefix) prefix (omega arith), e) (ground arith))

-- A prefix generator fails exactly when the prefix is longer than the salt or the random source
-- fails, and else gives a salt of the size asked for that begins with the prefix.
prefix_get_salt_lem :
    (prefix : Bytes) (rnd : Random) (salt : Bytes)
    → IsRandom rnd
    → ((length salt < length prefix)
        × (prefix_get_salt prefix rnd salt ≡ err (new prefix_is_too_long)))
      ⊎ ((length prefix ≤ length salt)
          × (((rest : Bytes) × (rnd (length salt - length prefix) ≡ ok rest)
                × (prefix_get_salt prefix rnd salt ≡ ok (prefix ++ rest))
                × (length (prefix ++ rest) ≡ length salt))
              ⊎ ((e : Error) × (rnd (length salt - length prefix) ≡ err e)
                  × (prefix_get_salt prefix rnd salt ≡ err e))))
unfolding prefix_get_salt
prefix_get_salt_lem prefix rnd salt full = elim (Bool-cases (ltb (length salt) (length prefix))) [
  | inl long ↦ inl (ltb→lt _ _ long, ground arith)
  | inr fits ↦ inr (
    ground arith,
    elim (Result-cases (rnd (length salt - length prefix))) [
      | inl (rest, e) ↦ inl (
        rest,
        e,
        behind prefix rnd salt (ok rest) (ground arith) e,
        ground (arith, length-append prefix rest, full _ rest e),
      )
      | inr (e, h) ↦ inr (e, h, behind prefix rnd salt (err e) (ground arith) h)
    ],
  )
]
