-- ===== src/Prelude/Lists.antt =====
-- Lists measured and cut by native numbers, as Go slices are: `xs[:n]` is `take n xs`, `xs[n:]` is
-- `drop n xs`, and `copy(dst, src)` overwrites a prefix.
use Prim.Native.Nat.{ℕ, zero, suc, ◌+◌, ◌-◌, ◌≤◌, min}
use mathlib.Core.Path.{◌≡◌, refl, sym, ap, ◌∙◌}
use mathlib.Core.List.{List, [], ◌∷◌, ◌++◌, append_assoc}
use native.Mathlib.Omega.{arith}

module _ {ℓ} {A : Type ℓ} where
  abbrev pub length : List A → ℕ
  length [] = 0
  length (x ∷ xs) = suc (length xs)

  abbrev pub take : ℕ → List A → List A
  take zero xs = []
  take (suc n) [] = []
  take (suc n) (x ∷ xs) = x ∷ take n xs

  abbrev pub drop : ℕ → List A → List A
  drop zero xs = xs
  drop (suc n) [] = []
  drop (suc n) (x ∷ xs) = drop n xs

  abbrev pub replicate : ℕ → A → List A
  replicate zero a = []
  replicate (suc n) a = a ∷ replicate n a

  pub length-append : (xs ys : List A) → length (xs ++ ys) ≡ length xs + length ys
  length-append [] ys = omega arith
  length-append (x ∷ xs) ys = omega (arith, length-append xs ys)

  pub take-append-drop : (n : ℕ) (xs : List A) → take n xs ++ drop n xs ≡ xs
  take-append-drop zero xs = refl
  take-append-drop (suc n) [] = refl
  take-append-drop (suc n) (x ∷ xs) = rw (take-append-drop n xs)

  pub length-take : (n : ℕ) (xs : List A) → length (take n xs) ≡ min n (length xs)
  length-take zero xs = omega arith
  length-take (suc n) [] = omega arith
  length-take (suc n) (x ∷ xs) = omega (arith, length-take n xs)

  pub length-drop : (n : ℕ) (xs : List A) → length (drop n xs) ≡ length xs - n
  length-drop zero xs = omega arith
  length-drop (suc n) [] = omega arith
  length-drop (suc n) (x ∷ xs) = omega (arith, length-drop n xs)

  pub length-replicate : (n : ℕ) (a : A) → length (replicate n a) ≡ n
  length-replicate zero a = refl
  length-replicate (suc n) a = ap suc (length-replicate n a)

  pub take-append_le : (n : ℕ) (xs ys : List A) → n ≤ length xs → take n (xs ++ ys) ≡ take n xs
  take-append_le zero xs ys h = refl
  take-append_le (suc n) [] ys h = absurd (omega arith)
  take-append_le (suc n) (x ∷ xs) ys h = ap (◌∷◌ x) (take-append_le n xs ys (omega arith))

  pub drop-append_le :
      (n : ℕ) (xs ys : List A) → n ≤ length xs → drop n (xs ++ ys) ≡ drop n xs ++ ys
  drop-append_le zero xs ys h = refl
  drop-append_le (suc n) [] ys h = absurd (omega arith)
  drop-append_le (suc n) (x ∷ xs) ys h = drop-append_le n xs ys (omega arith)

  pub take_all : (n : ℕ) (xs : List A) → length xs ≤ n → take n xs ≡ xs
  take_all zero [] h = refl
  take_all zero (x ∷ xs) h = absurd (omega arith)
  take_all (suc n) [] h = refl
  take_all (suc n) (x ∷ xs) h = ap (◌∷◌ x) (take_all n xs (omega arith))

  pub drop_all : (n : ℕ) (xs : List A) → length xs ≤ n → drop n xs ≡ []
  drop_all zero [] h = refl
  drop_all zero (x ∷ xs) h = absurd (omega arith)
  drop_all (suc n) [] h = refl
  drop_all (suc n) (x ∷ xs) h = drop_all n xs (omega arith)

  -- The two halves of a concatenation, cut where it was joined.
  pub take-append : (n : ℕ) (xs ys : List A) → length xs ≡ n → take n (xs ++ ys) ≡ xs
  take-append zero [] ys h = refl
  take-append zero (x ∷ xs) ys h = absurd (omega arith)
  take-append (suc n) [] ys h = absurd (omega arith)
  take-append (suc n) (x ∷ xs) ys h = ap (◌∷◌ x) (take-append n xs ys (omega arith))

  pub drop-append : (n : ℕ) (xs ys : List A) → length xs ≡ n → drop n (xs ++ ys) ≡ ys
  drop-append zero [] ys h = refl
  drop-append zero (x ∷ xs) ys h = absurd (omega arith)
  drop-append (suc n) [] ys h = absurd (omega arith)
  drop-append (suc n) (x ∷ xs) ys h = drop-append n xs ys (omega arith)

  pub drop-append_ge :
      (m : ℕ) (xs ys : List A) → length xs ≤ m → drop m (xs ++ ys) ≡ drop (m - length xs) ys
  drop-append_ge m [] ys h = ap (λ k. drop k ys) (omega arith)
  drop-append_ge zero (x ∷ xs) ys h = absurd (omega arith)
  drop-append_ge (suc m) (x ∷ xs) ys h =
      drop-append_ge m xs ys (omega arith) ∙ ap (λ k. drop k ys) (omega arith)

  pub take-append_ge :
      (m : ℕ) (xs ys : List A) → length xs ≤ m → take m (xs ++ ys) ≡ xs ++ take (m - length xs) ys
  take-append_ge m [] ys h = ap (λ k. take k ys) (omega arith)
  take-append_ge zero (x ∷ xs) ys h = absurd (omega arith)
  take-append_ge (suc m) (x ∷ xs) ys h =
      let e : m - length xs ≡ suc m - suc (length xs) = omega arith in
      ap (◌∷◌ x) (take-append_ge m xs ys (omega arith) ∙ ap (λ k. xs ++ take k ys) e)

  drop-nil : (n : ℕ) → drop n [] ≡ []
  drop-nil zero = refl
  drop-nil (suc n) = refl

  pub drop-drop : (m n : ℕ) (xs : List A) → drop m (drop n xs) ≡ drop (n + m) xs
  drop-drop m zero xs = ap (λ k. drop k xs) (omega arith)
  drop-drop m (suc n) [] = drop-nil m ∙ sym (drop-nil (suc n + m))
  drop-drop m (suc n) (x ∷ xs) =
      let e : suc (n + m) ≡ suc n + m = omega arith in
      drop-drop m n xs ∙ ap (λ k. drop k (x ∷ xs)) e

  -- A write of `ys` over `xs` from position `n` on: Go's `copy(xs[n:], ys)` where `ys` fits.
  pub splice : ℕ → List A → List A → List A
  splice n ys xs = take n xs ++ (ys ++ drop (n + length ys) xs)

  pub length-splice :
      (n : ℕ) (ys xs : List A) → n + length ys ≤ length xs → length (splice n ys xs) ≡ length xs
  unfolding splice
  length-splice n ys xs h = omega (
    arith,
    length-append (take n xs) (ys ++ drop (n + length ys) xs),
    length-append ys (drop (n + length ys) xs),
    length-take n xs,
    length-drop (n + length ys) xs,
  )

  pub drop-splice_at :
      (n : ℕ) (ys xs : List A)
      → n ≤ length xs
      → drop n (splice n ys xs) ≡ ys ++ drop (n + length ys) xs
  unfolding splice
  drop-splice_at n ys xs h =
      drop-append n (take n xs) (ys ++ drop (n + length ys) xs) (omega (arith, length-take n xs))

  -- What was written can be read back.
  pub take-drop-splice :
      (n k : ℕ) (ys xs : List A)
      → n ≤ length xs
      → length ys ≡ k
      → take k (drop n (splice n ys xs)) ≡ ys
  unfolding splice
  take-drop-splice n k ys xs h e =
      rw
        (drop-append n (take n xs) (ys ++ drop (n + length ys) xs)
          (omega (arith, length-take n xs)))
        (take-append k ys (drop (n + length ys) xs) e)

  -- What stands before the write stays.
  pub take-splice :
      (m n : ℕ) (ys xs : List A) → m ≤ n → n ≤ length xs → take m (splice n ys xs) ≡ take m xs
  unfolding splice
  take-splice m n ys xs h b =
      take-append_le m (take n xs) (ys ++ drop (n + length ys) xs) (omega (arith, length-take n xs))
      ∙ take-take m n xs h
    where
      take-take : (m n : ℕ) (xs : List A) → m ≤ n → take m (take n xs) ≡ take m xs
      take-take zero n xs h = refl
      take-take (suc m) zero xs h = absurd (omega arith)
      take-take (suc m) (suc n) [] h = refl
      take-take (suc m) (suc n) (x ∷ xs) h = ap (◌∷◌ x) (take-take m n xs (omega arith))

  -- Up to the end of the write: what stood before, and what was written.
  pub take-splice_end :
      (n k : ℕ) (ys xs : List A)
      → n ≤ length xs
      → k ≡ n + length ys
      → take k (splice n ys xs) ≡ take n xs ++ ys
  unfolding splice
  take-splice_end n k ys xs h e =
      ap (take k) (sym (append_assoc (take n xs) ys (drop (n + length ys) xs)))
      ∙ take-append k (take n xs ++ ys) (drop (n + length ys) xs)
          (omega (arith, length-append (take n xs) ys, length-take n xs, e))

  -- What stands behind the write stays.
  pub drop-splice :
      (m n : ℕ) (ys xs : List A)
      → n + length ys ≤ m
      → n ≤ length xs
      → drop m (splice n ys xs) ≡ drop m xs
  unfolding splice
  drop-splice m n ys xs h b =
      drop-append_ge m (take n xs) _ (omega (arith, length-take n xs))
      ∙ drop-append_ge (m - length (take n xs)) ys _ (omega (arith, length-take n xs))
      ∙ drop-drop _ (n + length ys) xs
      ∙ ap (λ k. drop k xs) (omega (arith, length-take n xs))

module _ {ℓ} {A : Type ℓ} where
  take-nil : (k : ℕ) → take {A = A} k [] ≡ []
  take-nil zero = refl
  take-nil (suc k) = refl

  drop-take : (m n : ℕ) (xs : List A) → drop m (take n xs) ≡ take (n - m) (drop m xs)
  drop-take zero n xs = ap (λ k. take k xs) (omega arith)
  drop-take (suc m) zero xs =
      let e : 0 ≡ 0 - suc m = omega arith in ap (λ k. take k (drop (suc m) xs)) e
  drop-take (suc m) (suc n) [] = sym (take-nil (suc n - suc m))
  drop-take (suc m) (suc n) (x ∷ xs) =
      let e : n - m ≡ suc n - suc m = omega arith in
      drop-take m n xs ∙ ap (λ k. take k (drop m xs)) e

  -- What was appended in place reads as an append.
  pub take-drop-splice_append :
      (m k n : ℕ) (ys xs : List A)
      → m + k ≤ length xs
      → n ≡ k + length ys
      → take n (drop m (splice (m + k) ys xs)) ≡ take k (drop m xs) ++ ys
  take-drop-splice_append m k n ys xs h e =
      let e1 : m + k + length ys - m ≡ n = omega (arith, e) in
      let e2 : m + k - m ≡ k = omega arith in
      ap (λ j. take j (drop m (splice (m + k) ys xs))) (sym e1)
      ∙ sym (drop-take m (m + k + length ys) (splice (m + k) ys xs))
      ∙ ap (drop m) (take-splice_end (m + k) (m + k + length ys) ys xs h refl)
      ∙ drop-append_le m (take (m + k) xs) ys (omega (arith, length-take (m + k) xs))
      ∙ ap (λ b. b ++ ys) (drop-take m (m + k) xs ∙ ap (λ j. take j (drop m xs)) e2)

  -- A write behind a slice leaves it alone.
  pub take-drop-splice_before :
      (k m n : ℕ) (ys xs : List A)
      → m + k ≤ n
      → n ≤ length xs
      → take k (drop m (splice n ys xs)) ≡ take k (drop m xs)
  take-drop-splice_before k m n ys xs h b =
      let cut : (zs : List A) → take k (drop m zs) ≡ drop m (take (m + k) zs) = λ zs.
        let e : k ≡ m + k - m = omega arith in
        ap (λ j. take j (drop m zs)) e ∙ sym (drop-take m (m + k) zs) in
      cut (splice n ys xs) ∙ ap (drop m) (take-splice (m + k) n ys xs h b) ∙ sym (cut xs)

  abbrev pub concat : List (List A) → List A
  concat [] = []
  concat (xs ∷ xss) = xs ++ concat xss

  pub concat-append : (xss yss : List (List A)) → concat (xss ++ yss) ≡ concat xss ++ concat yss
  concat-append [] yss = refl
  concat-append (xs ∷ xss) yss =
      ap (◌++◌ xs) (concat-append xss yss) ∙ sym (append_assoc xs (concat xss) (concat yss))

-- A predicate of every entry, as a tuple that the tactics read.
abbrev pub All {ℓ κ} : {A : Type ℓ} → (A → Type κ) → List A → Type κ
All P [] = Unit
All P (x ∷ xs) = P x × All P xs

pub All-append {ℓ κ} :
    {A : Type ℓ} (P : A → Type κ) (xs ys : List A) → All P xs → All P ys → All P (xs ++ ys)
All-append P [] ys hx hy = hy
All-append P (x ∷ xs) ys hx hy = (hx.0, All-append P xs ys hx.1 hy)
