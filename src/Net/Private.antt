-- ===== src/Net/Private.antt =====
-- The private addresses, by their numbers.
use Prim.Native.Nat.{bit_and}
use ssgo.Prelude.{
  ℕ, zero, suc, ◌<◌, ◌≡◌, refl, ap, ap₂, sym, ◌∙◌, Bool, true, false, ◌&&◌, ◌||◌, List, [], ◌∷◌,
  ◌++◌, arith, ◌==◌, leb, ltb, if◌then◌else◌, Bytes, length, take, bytes_equal, bytes_equal_refl,
  replicate, All,
}
use ssgo.Net.{
  Ip, v4_in_v6_prefix, Network, shortest, masked_equal, in_network, in_some, is_private_address,
  private_networks, private_10, private_172, private_192, unique_local, shared_100,
}

same : Bool → Bool → Bool
same true true = true
same false false = true
same x y = false

same_sound : (x y : Bool) → same x y ≡ true → x ≡ y
unfolding same
same_sound true true h = refl
same_sound false false h = refl
same_sound true false h = cc
same_sound false true h = cc

-- Two tests agree on every byte below `n`, one by one.
agree : (ℕ → Bool) → (ℕ → Bool) → ℕ → Bool
agree p q zero = true
agree p q (suc n) = if same (p n) (q n) then agree p q n else false

agree_each : (p q : ℕ → Bool) (x n : ℕ) → x < n → agree p q n ≡ true → p x ≡ q x
unfolding agree
agree_each p q x zero h all = absurd (omega arith)
agree_each p q x (suc n) h all = ground (arith, same_sound (p x) (q x), agree_each p q x n)

abbrev masked : ℕ → ℕ → ℕ → Bool
masked m b i = bit_and b m == bit_and i m

whole :
    (b i : ℕ) → agree (masked 255 b) (λ i. i == b) 256 ≡ true → i < 256 → masked 255 b i ≡ (i == b)
whole b i table h = agree_each (masked 255 b) (λ i. i == b) i 256 h table

nothing : (i : ℕ) → i < 256 → masked 0 0 i ≡ true
unfolding agree same
nothing i h = agree_each (masked 0 0) (λ i. true) i 256 h refl

in_some-shortest :
    (ns : List Network) (ip j : Ip) → shortest ip ≡ shortest j → in_some ns ip ≡ in_some ns j
unfolding in_some
in_some-shortest [] ip j h = refl
in_some-shortest (n ∷ ns) ip j h =
    ap₂ ◌||◌ (ap (masked_equal n.mask n.base) h) (in_some-shortest ns ip j h)

masked_equal-longer :
    (ms bs is : Bytes)
    → length ms ≡ length bs
    → length bs < length is
    → masked_equal ms bs is ≡ false
unfolding masked_equal
masked_equal-longer [] [] [] e h = absurd (omega arith)
masked_equal-longer [] [] (i ∷ is) e h = refl
masked_equal-longer [] (b ∷ bs) is e h = absurd (omega arith)
masked_equal-longer (m ∷ ms) [] is e h = absurd (omega arith)
masked_equal-longer (m ∷ ms) (b ∷ bs) [] e h = absurd (omega arith)
masked_equal-longer (m ∷ ms) (b ∷ bs) (i ∷ is) e h = ground (arith, masked_equal-longer ms bs is)

-- The four networks of IPv4 addresses, by their first two bytes.
abbrev pub is_private_v4 : ℕ → ℕ → Bool
is_private_v4 a b =
    a == 10
    || (a == 172 && (leb 16 b && ltb b 32))
    || (a == 192 && b == 168)
    || (a == 100 && (leb 64 b && ltb b 128))

-- IsPrivateAddress, on an IPv4 address of four bytes and on its form in 16 bytes, tells exactly the
-- networks 10/8, 172.16/12, 192.168/16 and 100.64/10.
pub is_private_address_v4 :
    (a b c d : ℕ)
    → a < 256
    → b < 256
    → c < 256
    → d < 256
    → (is_private_address (a ∷ b ∷ c ∷ d ∷ []) ≡ is_private_v4 a b)
      × (is_private_address (v4_in_v6_prefix ++ (a ∷ b ∷ c ∷ d ∷ [])) ≡ is_private_v4 a b)
unfolding is_private_address agree same
is_private_address_v4 a b c d ha hb hc hd =
    let b16 = agree_each (masked 240 16) (λ i. leb 16 i && ltb i 32) b 256 hb refl in
    let b64 = agree_each (masked 192 64) (λ i. leb 64 i && ltb i 128) b 256 hb refl in
    let w10 = whole 10 a refl ha in
    let w172 = whole 172 a refl ha in
    let w192 = whole 192 a refl ha in
    let w100 = whole 100 a refl ha in
    let w168 = whole 168 b refl hb in
    let nb = nothing b hb in
    let nc = nothing c hc in
    let nd = nothing d hd in
    let four : is_private_address (a ∷ b ∷ c ∷ d ∷ []) ≡ is_private_v4 a b =
      rw
        (
          w10, w172, w192, w100, w168, nb, nc, nd, b16, b64, is_private_address, in_some,
          in_network, masked_equal,
        )
        (ground arith) in
    let short : shortest (v4_in_v6_prefix ++ (a ∷ b ∷ c ∷ d ∷ [])) ≡ a ∷ b ∷ c ∷ d ∷ [] =
      rw (bytes_equal_refl v4_in_v6_prefix, shortest) refl in
    (
      four,
      in_some-shortest private_networks (v4_in_v6_prefix ++ (a ∷ b ∷ c ∷ d ∷ []))
            (a ∷ b ∷ c ∷ d ∷ []) short
          ∙ four,
    )

masked_zeros :
    (n : ℕ) (is : Bytes)
    → All (λ i. i < 256) is
    → masked_equal (replicate n 0) (replicate n 0) is ≡ (length is == n)
unfolding masked_equal
masked_zeros zero [] h = refl
masked_zeros zero (i ∷ is) h = ground arith
masked_zeros (suc n) [] h = ground arith
masked_zeros (suc n) (i ∷ is) h = rw (nothing i h.0) (masked_zeros n is h.1 ∙ ground arith)

-- On an address of 16 bytes that is not the form of an IPv4 address, it tells exactly fc00::/7.
pub is_private_address_v6 :
    (i : ℕ) (is : Bytes)
    → i < 256
    → All (λ i. i < 256) is
    → length is ≡ 15
    → bytes_equal (take 12 (i ∷ is)) v4_in_v6_prefix ≡ false
    → is_private_address (i ∷ is) ≡ (i == 252 || i == 253)
unfolding is_private_address agree same
is_private_address_v6 i is h hs size own =
    let long : length (i ∷ is) ≡ 16 = omega (arith, size) in
    let keeps : shortest (i ∷ is) ≡ i ∷ is = rw (shortest, own) (ground arith) in
    let top = agree_each (masked 254 252) (λ i. i == 252 || i == 253) i 256 h refl in
    let rest = masked_zeros 15 is hs in
    let v4 : (n : Network) → length n.mask ≡ 4 → length n.base ≡ 4 → in_network n (i ∷ is) ≡ false =
      λ n m b.
        ap (masked_equal n.mask n.base) keeps
        ∙ masked_equal-longer n.mask n.base (i ∷ is) (m ∙ sym b) (omega (arith, size, b)) in
    let v6 : in_network unique_local (i ∷ is) ≡ (i == 252 || i == 253) =
      ap (masked_equal (254 ∷ replicate 15 0) (252 ∷ replicate 15 0)) keeps
      ∙ ap₂ ◌&&◌ top (rest ∙ ap (λ k. k == 15) size)
      ∙ ground arith in
    let all : is_private_address (i ∷ is)
        ≡ (false || (false || (false || ((i == 252 || i == 253) || (false || false))))) =
      ap₂ ◌||◌ (v4 private_10 refl refl) (
        ap₂ ◌||◌ (v4 private_172 refl refl) (
          ap₂ ◌||◌ (v4 private_192 refl refl)
            (ap₂ ◌||◌ v6 (ap₂ ◌||◌ (v4 shared_100 refl refl) refl)))) in
    all ∙ ground arith
