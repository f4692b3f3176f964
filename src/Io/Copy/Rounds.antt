-- ===== src/Io/Copy/Rounds.antt =====
-- How often io.Copy goes round, and what it copies.
use ssgo.Prelude.{
  ℕ, zero, suc, ◌+◌, ◌≤◌, ◌<◌, ◌≡◌, refl, sym, ap, ap₂, ◌∙◌, inl, inr, Option, none, some, [], ◌∷◌,
  ◌++◌, arith, append_assoc, append-nil, Bytes, length, length-append, Option-cases,
}
use ssgo.Io.{
  Error, Source, content, ending, reads, read, Sink, IsReliable, write_reliable, write-written,
}
use ssgo.Io.Read.{more, last, read-Reads, reads_pos}
use ssgo.Io.Copy.{
  copy_error, copy_buffer, Copy, start_copy, write_some, result_of, after_read, round_unless,
  copy_round, copy_rounds, copy,
}

copy_round_lem : (c : Copy) → c.result ≡ none → copy_round c ≡ after_read c (read copy_buffer c.src)
unfolding copy_round
copy_round_lem c running = ap (round_unless c) running

result_of-none : (ew er : Option Error) → result_of ew er ≡ none → (ew ≡ none) × (er ≡ none)
result_of-none (some ew) er h = ground arith
result_of-none none (some er) h = ground arith
result_of-none none none h = (refl, refl)

-- A round that goes on leaves less to read.
copy_round_less :
    (c : Copy)
    → c.result ≡ none
    → (copy_round c).result ≡ none
    → reads (copy_round c).src < reads c.src
copy_round_less c running goes =
    let e = copy_round_lem c running in
    let (_, more_left) = result_of-none _ _ (sym (ap (λ x. x.result) e) ∙ goes) in
    elim (read-Reads copy_buffer c.src).0 [
      | more _ _ _ less ↦ omega (arith, ap (λ x. reads x.src) e, less (omega arith))
      | last ended _ ↦ cc
    ]

-- A call that has returned changes no more.
pub copy_rounds_stop :
    (n : ℕ) (c : Copy) (r : Option Error) → c.result ≡ some r → copy_rounds n c ≡ c
unfolding copy_rounds copy_round
copy_rounds_stop zero c r h = refl
copy_rounds_stop (suc n) c r h =
    ap (copy_rounds n) (ap (round_unless c) h) ∙ copy_rounds_stop n c r h

-- As many rounds as there are reads are enough,
pub copy_rounds_end :
    (n : ℕ) (c : Copy) → reads c.src ≤ n → (r : Option Error) × ((copy_rounds n c).result ≡ some r)
unfolding copy_rounds
copy_rounds_end zero c h = absurd (omega (arith, reads_pos c.src))
copy_rounds_end (suc n) c h = elim (Option-cases (copy_round c).result) [
  | inr (r, ended) ↦ (r, ap (λ x. x.result) (copy_rounds_stop n (copy_round c) r ended) ∙ ended)
  | inl goes ↦ elim (Option-cases c.result) [
    | inl running ↦
        copy_rounds_end n (copy_round c) (omega (arith, h, copy_round_less c running goes))
    | inr (r, over) ↦ cc (stays c r over)
  ]
]
  where
    stays : (c : Copy) (r : Option Error) → c.result ≡ some r → (copy_round c).result ≡ some r
    stays c r over = ap (λ x. x.result) (copy_rounds_stop 1 c r over) ∙ over

-- and more change nothing.
pub copy_rounds_enough :
    (n m : ℕ) (c : Copy) → reads c.src ≤ n → reads c.src ≤ m → copy_rounds n c ≡ copy_rounds m c
unfolding copy_rounds
copy_rounds_enough zero m c h k = absurd (omega (arith, reads_pos c.src))
copy_rounds_enough (suc n) zero c h k = absurd (omega (arith, reads_pos c.src))
copy_rounds_enough (suc n) (suc m) c h k = elim (Option-cases (copy_round c).result) [
  | inr (r, ended) ↦
      copy_rounds_stop n (copy_round c) r ended ∙ sym (copy_rounds_stop m (copy_round c) r ended)
  | inl goes ↦ elim (Option-cases c.result) [
    | inl running ↦
        let less = copy_round_less c running goes in
        copy_rounds_enough n m (copy_round c) (omega (arith, h, less)) (omega (arith, k, less))
    | inr (r, over) ↦ copy_rounds_stop (suc n) c r over ∙ sym (copy_rounds_stop (suc m) c r over)
  ]
]

write_some_reliable :
    (w : Sink) (bs : Bytes)
    → IsReliable w
    → write_some w bs ≡ (record { written = w.written ++ bs; outcomes = [] }, length bs, none)
write_some_reliable w [] h =
    ap₂ (λ x o. (record { written = x; outcomes = o }, 0, none)) (sym (append-nil w.written)) h
write_some_reliable w (b ∷ bs) h = write_reliable w (b ∷ bs) h

module _ (c : Copy) (running : c.result ≡ none) (rel : IsReliable c.dst) where
  -- One round into a reliable connection.
  round_reliable :
      let (bs, er, src) = read copy_buffer c.src in
      copy_round c ≡ record {
        src = src;
        dst = record { written = c.dst.written ++ bs; outcomes = [] };
        copied = c.copied + length bs;
        result = result_of none er;
      }
  round_reliable =
      let (bs, er, src) = read copy_buffer c.src in
      copy_round_lem c running
      ∙ ap
          (λ (w : Sink × ℕ × Option Error).
            let made : Copy = record {
              src = src;
              dst = w.0;
              copied = c.copied + w.1;
              result = result_of w.2 er;
            } in
            made)
          (write_some_reliable c.dst bs rel)

-- Into a reliable connection everything up to the first error is copied.
pub record Copied (c c' : Copy) : Type 0 where
  pub written : c'.dst.written ≡ c.dst.written ++ content c.src
  pub reliable : IsReliable c'.dst
  pub copied : c'.copied ≡ c.copied + length (content c.src)
  pub result : c'.result ≡ some (copy_error (ending c.src))

pub copy_rounds-Copied :
    (n : ℕ) (c : Copy)
    → c.result ≡ none
    → IsReliable c.dst
    → reads c.src ≤ n
    → Copied c (copy_rounds n c)
unfolding copy_rounds
copy_rounds-Copied zero c running rel h = absurd (omega (arith, reads_pos c.src))
copy_rounds-Copied (suc n) c running rel h =
    let e = round_reliable c running rel in
    let bs = (read copy_buffer c.src).0 in
    elim (read-Reads copy_buffer c.src).0 [
      | last ended whole ↦
          let over = ap (λ x. x.result) e ∙ ap (result_of none) ended in
          let stop = copy_rounds_stop n (copy_round c) _ over ∙ e in
          record {
            written = ap (λ x. x.dst.written) stop ∙ ap (◌++◌ c.dst.written) (sym whole);
            reliable = ap (λ x. x.dst.outcomes) stop;
            copied = ap (λ x. x.copied) stop ∙ ap (λ b. c.copied + length b) (sym whole);
            result = ap (λ x. x.result) stop ∙ ap (result_of none) ended;
          }
      | more goes cut end less ↦
          let on = ap (λ x. x.result) e ∙ ap (result_of none) goes in
          let rest =
            copy_rounds-Copied n (copy_round c) on (ap (λ x. x.dst.outcomes) e)
              (omega (arith, h, less (omega arith), ap (λ x. reads x.src) e)) in
          record {
            written =
                rest.written
                ∙ ap (λ x. x.dst.written ++ content x.src) e
                ∙ append_assoc c.dst.written bs _
                ∙ ap (◌++◌ c.dst.written) (sym cut);
            reliable = rest.reliable;
            copied = omega (
              arith,
              rest.copied,
              ap (λ x. x.copied) e,
              ap (λ x. length (content x.src)) e,
              ap length cut,
              length-append bs (content (read copy_buffer c.src).2),
            );
            result =
                rest.result
                ∙ ap (λ x. some (copy_error (ending x.src))) e
                ∙ ap (λ x. some (copy_error x)) (sym end);
          }
    ]

write_some-written :
    (w : Sink) (p : Bytes)
    → (let (w', n, e) = write_some w p in length w'.written ≡ length w.written + n)
write_some-written w [] = omega arith
write_some-written w (b ∷ bs) = write-written w (b ∷ bs)

copy_round-copied :
    (c : Copy)
    → length (copy_round c).dst.written + c.copied ≡ length c.dst.written + (copy_round c).copied
unfolding copy_rounds
copy_round-copied c = elim (Option-cases c.result) [
  | inl running ↦
      let (bs, er, src) = read copy_buffer c.src in
      let e = copy_round_lem c running in
      omega
        (arith, write_some-written c.dst bs, ap (λ x. length x.dst.written) e, ap (λ x. x.copied) e)
  | inr (r, over) ↦
      let e : copy_round c ≡ c = copy_rounds_stop 1 c r over in
      omega (arith, ap (λ x. length x.dst.written) e, ap (λ x. x.copied) e)
]

-- What a Copy says that it has copied is what has reached the writer, however it ends.
pub copy_rounds-copied :
    (n : ℕ) (c : Copy)
    → length (copy_rounds n c).dst.written + c.copied
      ≡ length c.dst.written + (copy_rounds n c).copied
unfolding copy_rounds
copy_rounds-copied zero c = refl
copy_rounds-copied (suc n) c =
    omega (arith, copy_rounds-copied n (copy_round c), copy_round-copied c)

pub copy-copied :
    (src : Source) (dst : Sink)
    → length (copy src dst).dst.written ≡ length dst.written + (copy src dst).copied
unfolding copy
copy-copied src dst = omega (arith, copy_rounds-copied (reads src) (start_copy src dst))
