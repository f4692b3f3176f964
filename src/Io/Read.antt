-- ===== src/Io/Read.antt =====
-- Reading moves along a reader's content: nothing is lost, repeated or reordered, however the reads
-- are cut.
use ssgo.Prelude.{
  ℕ, zero, suc, ◌-◌, ◌+◌, ◌≤◌, ◌<◌, ◌≡◌, refl, sym, ap, ◌∙◌, inl, inr, Option, none, some, [], ◌∷◌,
  ◌++◌, arith, append_assoc, leb, ltb, ◌==◌, Bool-cases, Bytes, length, take, drop, length-take,
  length-drop, length-append, take-append-drop, take-append_le, drop-append_le, take-append,
  drop-append, take-append_ge, drop-append_ge, false,
}
use ssgo.Io.{
  Error, Result, ok, err, Source, content, ending, reads, read, read_full, full_error, got_more,
}

-- What one Read returns, with an error and without.
pub data Reads (n : ℕ) (r : Source) (bs : Bytes) (e : Option Error) (r' : Source) : Type 0 where
  more :
      e ≡ none
      → content r ≡ bs ++ content r'
      → ending r ≡ ending r'
      → (0 < n → reads r' < reads r)
      → Reads n r bs e r'
  last : e ≡ some (ending r) → content r ≡ bs → Reads n r bs e r'

pub read-Reads :
    (n : ℕ) (r : Source)
    → Reads n r (read n r).0 (read n r).1 (read n r).2 × (length (read n r).0 ≤ n)
unfolding read
read-Reads n [] = (last refl refl, omega arith)
read-Reads n ((bs, none) ∷ r) = elim (Bool-cases (leb (length bs) n)) [
  | inl fits ↦ rw (fits, read) (more refl refl refl (λ h. omega arith), ground arith)
  | inr long ↦
      rw (long, read)
        (
          more refl
              (sym (ap (λ b. b ++ content r) (take-append-drop n bs))
                ∙ append_assoc (take n bs) (drop n bs) (content r))
              refl (λ h. ground (arith, length-drop n bs)),
          omega (arith, length-take n bs),
        )
]
read-Reads n ((bs, some e) ∷ r) = elim (Bool-cases (leb (length bs) n)) [
  | inl fits ↦ rw (fits, read) (last refl refl, ground arith)
  | inr long ↦
      rw (long, read)
        (
          more refl (sym (take-append-drop n bs)) refl (λ h. ground (arith, length-drop n bs)),
          omega (arith, length-take n bs),
        )
]

pub reads_pos : (r : Source) → 0 < reads r
reads_pos [] = omega arith
reads_pos ((bs, e) ∷ r) = omega arith

-- The reader's errors come by themselves, as a connection's do, never together with bytes.
abbrev pub IsPlain : Source → Type 0
IsPlain [] = Unit {0}
IsPlain ((bs, none) ∷ r) = IsPlain r
IsPlain ((bs, some e) ∷ r) = (bs ≡ []) × IsPlain r

-- io.ReadFull succeeds where the content is long enough, whatever the sizes of the pieces it comes
-- in, and takes exactly that much off it.
pub read_full-ok :
    (n : ℕ) (r : Source)
    → IsPlain r
    → n ≤ length (content r)
    → (r' : Source) × (read_full n r ≡ (ok (take n (content r)), r'))
      × (content r' ≡ drop n (content r))
      × (ending r' ≡ ending r)
      × IsPlain r'
unfolding read_full
read_full-ok zero [] p h = ([], refl, refl, refl, tt)
read_full-ok (suc n) [] p h = absurd (omega arith)
read_full-ok n ((bs, some e) ∷ r) p h =
    let z : n ≡ 0 = omega (arith, ap length p.0) in
    ((bs, some e) ∷ r, rw (z, read_full) refl, rw z refl, refl, p)
read_full-ok n ((bs, none) ∷ r) p h = elim (Bool-cases (n == 0)) [
  | inl done ↦
      let z : n ≡ 0 = ground arith in ((bs, none) ∷ r, rw (z, read_full) refl, rw z refl, refl, p)
  | inr some_bytes ↦ elim (Bool-cases (ltb n (length bs))) [
    | inl inside ↦ (
      (drop n bs, none) ∷ r,
      rw (some_bytes, inside, read_full)
          (ap (λ b. (ok b, (drop n bs, none) ∷ r))
            (sym (take-append_le n bs (content r) (ground arith)))),
      sym (drop-append_le n bs (content r) (ground arith)),
      refl,
      p,
    )
    | inr outside ↦ elim (Bool-cases (length bs == n)) [
      | inl whole ↦ (
        r,
        rw (some_bytes, outside, whole, read_full)
            (ap (λ b. (ok b, r)) (sym (take-append n bs (content r) (ground arith)))),
        sym (drop-append n bs (content r) (ground arith)),
        refl,
        p,
      )
      | inr part ↦
          let (r', e, c, d, q) =
            read_full-ok (n - length bs) r p (ground (arith, length-append bs (content r))) in
          (
            r',
            rw (some_bytes, outside, part, read_full)
                (rw e
                  (ap (λ b. (ok b, r')) (sym (take-append_ge n bs (content r) (ground arith))))),
            c ∙ sym (drop-append_ge n bs (content r) (ground arith)),
            d,
            q,
          )
    ]
  ]
]

full_error-append :
    (bs cs : Bytes) (e : Error) → full_error bs (full_error cs e) ≡ full_error (bs ++ cs) e
full_error-append [] cs e = refl
full_error-append (b ∷ bs) [] e = refl
full_error-append (b ∷ bs) (c ∷ cs) e = ground arith

-- Where the content is too short it fails with the reader's error, which at the end of the stream is
-- unexpected unless nothing at all was left.
pub read_full-err :
    (n : ℕ) (r : Source)
    → IsPlain r
    → length (content r) < n
    → (read_full n r).0 ≡ err (full_error (content r) (ending r))
unfolding read_full
read_full-err zero r p h = absurd (omega arith)
read_full-err (suc n) [] p h = ground arith
read_full-err (suc n) ((bs, some e) ∷ r) p h = rw p.0 (ground arith)
read_full-err (suc n) ((bs, none) ∷ r) p h =
    let h' = length-append bs (content r) in
    let nonempty : (suc n == 0) ≡ false = ground arith in
    let outside : ltb (suc n) (length bs) ≡ false = ground arith in
    let part : (length bs == suc n) ≡ false = ground arith in
    let more : (read_full (suc n - length bs) r).0 ≡ err (full_error (content r) (ending r)) =
      read_full-err (suc n - length bs) r p (omega (arith, h')) in
    rw (nonempty, outside, part, read_full) (fails (read_full (suc n - length bs) r) more)
  where
    fails :
        (x : Result Bytes × Source)
        → x.0 ≡ err (full_error (content r) (ending r))
        → (got_more bs x).0 ≡ err (full_error (bs ++ content r) (ending r))
    fails (ok b, s) e = ground arith
    fails (err x, s) e = ground (arith, full_error-append bs (content r) (ending r))

got_more-ok :
    (bs : Bytes) (x : Result Bytes × Source) {b : Bytes}
    → (got_more bs x).0 ≡ ok b
    → (c : Bytes) × (x.0 ≡ ok c)
got_more-ok bs (ok c, r) h = (c, refl)
got_more-ok bs (err e, r) h = ground arith

got_more-rest : (bs : Bytes) (x : Result Bytes × Source) → (got_more bs x).1 ≡ x.1
got_more-rest bs (ok c, r) = refl
got_more-rest bs (err e, r) = refl

-- io.ReadFull, where it succeeds, leaves that much less to read.
pub read_full_shrinks :
    (n : ℕ) (r : Source) {bs : Bytes}
    → (read_full n r).0 ≡ ok bs
    → reads (read_full n r).1 + n ≤ reads r
unfolding read_full
read_full_shrinks n [] h = ground arith
read_full_shrinks n ((bs, some e) ∷ r) h = ground (arith, length-drop n bs)
read_full_shrinks n ((bs, none) ∷ r) h = elim (Bool-cases (n == 0)) [
  | inl zero_long ↦ rw zero_long (ground arith)
  | inr some_long ↦ elim (Bool-cases (ltb n (length bs))) [
    | inl inside ↦ rw (some_long, inside) (ground (arith, length-drop n bs))
    | inr beyond ↦ elim (Bool-cases (length bs == n)) [
      | inl exact ↦ rw (some_long, beyond, exact) (ground arith)
      | inr on ↦
          let step : read_full n ((bs, none) ∷ r) ≡ got_more bs (read_full (n - length bs) r) =
            rw (some_long, beyond, on, read_full) refl in
          let (b, got) =
            got_more-ok bs (read_full (n - length bs) r) (sym (ap (λ x. x.0) step) ∙ h) in
          omega (
            arith,
            ap (λ x. reads x.1) step,
            ap reads (got_more-rest bs (read_full (n - length bs) r)),
            read_full_shrinks (n - length bs) r got,
          )
    ]
  ]
]
