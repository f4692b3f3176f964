-- ===== src/Shadowsocks/Nonce.antt =====
-- shadowsocks/stream.go, the counter of AEAD messages: `increment` and `isZero` on a little-endian
-- number of bytes.
use native.Mathlib.Nat.{pow-suc}
use ssgo.Prelude.{
  ℕ, ◌+◌, ◌*◌, ◌%◌, ◌^◌, ◌<◌, ◌≡◌, refl, ◌↔◌, Bool, true, false, not, [], ◌∷◌, arith, ◌==◌,
  if◌then◌else◌, Bytes, length, All,
}

unfoldable pub increment : Bytes → Bytes
increment [] = []
increment (b ∷ bs) =
    let b' = (b + 1) % 256 in
    let carried = increment bs in if not (b' == 0) then b' ∷ bs else b' ∷ carried

unfoldable pub is_zero : Bytes → Bool
is_zero [] = true
is_zero (v ∷ vs) = if not (v == 0) then false else is_zero vs

abbrev pub IsBytes : Bytes → Type 0
IsBytes = All (λ b. b < 256)

-- The number that the bytes stand for, least significant byte first.
unfoldable pub value : Bytes → ℕ
value [] = 0
value (b ∷ bs) = b + 256 * value bs

pub length-increment : (bs : Bytes) → length (increment bs) ≡ length bs
unfolding increment
length-increment [] = refl
length-increment (b ∷ bs) = ground (arith, length-increment bs)

pub increment-IsBytes : (bs : Bytes) → IsBytes bs → IsBytes (increment bs)
unfolding increment
increment-IsBytes [] h = tt
increment-IsBytes (b ∷ bs) h = ground (arith, increment-IsBytes bs h.1)

pub value_lt : (bs : Bytes) → IsBytes bs → value bs < 256 ^ length bs
unfolding value
value_lt [] h = omega arith
value_lt (b ∷ bs) h = omega (arith, value_lt bs h.1, pow-suc 256 (length bs), h.0)

-- `increment` adds one to the number that the bytes stand for; after the largest it wraps to zero.
pub value-increment :
    (bs : Bytes)
    → IsBytes bs
    → (value bs + 1 < 256 ^ length bs → value (increment bs) ≡ value bs + 1)
      × (value bs + 1 ≡ 256 ^ length bs → value (increment bs) ≡ 0)
unfolding value increment
value-increment [] h = (λ p. absurd (omega arith), λ p. omega arith)
value-increment (b ∷ bs) h =
    let p = pow-suc 256 (length bs) in
    let ih = value-increment bs h.1 in
    let lt = value_lt bs h.1 in
    (λ q. ground (arith, p, ih, lt, h.0), λ q. ground (arith, p, ih, lt, h.0))

pub is_zero_iff : (bs : Bytes) → (is_zero bs ≡ true) ↔ (value bs ≡ 0)
unfolding is_zero value
is_zero_iff [] = (λ h. refl, λ h. refl)
is_zero_iff (v ∷ vs) = let ih = is_zero_iff vs in (λ h. ground (arith, ih), λ h. ground (arith, ih))
