-- ===== src/Shadowsocks/Reader/Total.antt =====
-- WriteTo ends: every chunk takes bytes off the underlying reader.
use ssgo.Prelude.{
  ℕ, zero, suc, ◌+◌, ◌≤◌, ◌<◌, ◌≡◌, refl, ap, sym, ◌∙◌, inl, inr, Option, none, some, List, [], ◌∷◌,
  arith, Bytes, length, drop, drop_all, Option-cases, ltb, Bool-cases,
}
use ssgo.Io.{
  Error, eof, unexpected_eof, short_buffer, short_packet, panic, external, new, wrap, Result, ok,
  err, Source, reads, read_full, Sink, write, write_next, Outcome, all, fails, on_error-go,
  on_error-stop,
}
use ssgo.Io.Read.{read_full_shrinks}
use ssgo.Shadowsocks.Crypto.{Aead, Crypto}
use ssgo.Shadowsocks.Cipher.{salt_size, new_aead}
use ssgo.Shadowsocks.Reader.{
  ChunkReader, ReadConverter, init, init_with, init_salt, init_aead, open_message, read_message,
  read_payload, mid_chunk, after_size, read_chunk_with, after_init, read_chunk, keep_chunk,
  ensure_leftover, write_to, decode_size,
}

-- What reading does to the amount left to read.
abbrev pub left : ChunkReader → ℕ
left cr = reads cr.reader

open_message-left :
    (a : Aead) (cr : ChunkReader) (x : Result Bytes × Source) (n : ℕ)
    → ((bs : Bytes) → x.0 ≡ ok bs → reads x.1 + n ≤ left cr)
    → {p : Bytes} → (open_message a cr x).1 ≡ ok p
    → left (open_message a cr x).0 + n ≤ left cr
open_message-left a cr (err e, r) n h p = ground arith
open_message-left a cr (ok c, r) n h p = h c refl

read_message-left :
    (a : Aead) (cr : ChunkReader) (n : ℕ) {p : Bytes}
    → (read_message a cr n).1 ≡ ok p
    → left (read_message a cr n).0 + n ≤ left cr
unfolding read_message
read_message-left a cr n h =
    open_message-left a cr (read_full n cr.reader) n (λ bs e. read_full_shrinks n cr.reader e) h

mid_chunk_ok : (r : Result Bytes) {p : Bytes} → mid_chunk r ≡ ok p → r ≡ ok p
mid_chunk_ok (ok c) h = h
mid_chunk_ok (err eof) h = ground arith
mid_chunk_ok (err unexpected_eof) h = ground arith
mid_chunk_ok (err short_buffer) h = ground arith
mid_chunk_ok (err short_packet) h = ground arith
mid_chunk_ok (err panic) h = ground arith
mid_chunk_ok (err (external n)) h = ground arith
mid_chunk_ok (err (new t)) h = ground arith
mid_chunk_ok (err (wrap t e)) h = ground arith

read_payload-left :
    (a : Aead) (cr : ChunkReader) (size : ℕ) {p : Bytes}
    → (read_payload a cr size).1 ≡ ok p
    → left (read_payload a cr size).0 ≤ left cr
read_payload-left a cr size h = elim (Bool-cases (ltb cr.payload_capacity (size + a.overhead))) [
  | inl small ↦ rw small (omega arith)
  | inr fits ↦
      let step : read_payload a cr size ≡ (
        (read_message a cr (size + a.overhead)).0,
        mid_chunk (read_message a cr (size + a.overhead)).1,
      ) =
        rw fits refl in
      omega (
        arith,
        ap (λ x. left x.0) step,
        read_message-left a cr (size + a.overhead) (mid_chunk_ok _ (sym (ap (λ x. x.1) step) ∙ h)),
      )
]

after_size-left :
    (a : Aead) (x : ChunkReader × Result Bytes) {p : Bytes}
    → (after_size a x).1 ≡ ok p
    → (b : Bytes) × (x.1 ≡ ok b) × (left (after_size a x).0 ≤ left x.0)
after_size-left a (cr, err e) h = ground arith
after_size-left a (cr, ok b) h = (b, refl, read_payload-left a cr (decode_size b) h)

read_chunk_with-left :
    (cr : ChunkReader) (o : Option Aead) {p : Bytes}
    → (read_chunk_with cr o).1 ≡ ok p
    → left (read_chunk_with cr o).0 + 2 ≤ left cr
read_chunk_with-left cr none h = ground arith
read_chunk_with-left cr (some a) h =
    let (b, size, less) = after_size-left a (read_message a cr (2 + a.overhead)) h in
    omega (arith, less, read_message-left a cr (2 + a.overhead) size)

init_aead-left :
    (crypto : Crypto) (cr : ChunkReader) (r : Result Aead)
    → (init_aead crypto cr r).1 ≡ none
    → left (init_aead crypto cr r).0 ≡ left cr
init_aead-left crypto cr (err e) h = refl
init_aead-left crypto cr (ok a) h = refl

init_salt-left :
    (crypto : Crypto) (cr : ChunkReader) (x : Result Bytes × Source)
    → ((bs : Bytes) → x.0 ≡ ok bs → reads x.1 ≤ left cr)
    → (init_salt crypto cr x).1 ≡ none
    → left (init_salt crypto cr x).0 ≤ left cr
init_salt-left crypto cr (err e, r) h p = ground arith
init_salt-left crypto cr (ok salt, r) h p = omega (
  arith,
  h salt refl,
  init_aead-left crypto (record cr { reader = r }) (new_aead crypto cr.cipher salt) p,
)

init-left :
    (crypto : Crypto) (cr : ChunkReader) (o : Option Aead)
    → (init_with crypto cr o).1 ≡ none
    → left (init_with crypto cr o).0 ≤ left cr
init-left crypto cr (some a) h = omega arith
init-left crypto cr none h =
    init_salt-left crypto cr (read_full (salt_size cr.cipher) cr.reader)
      (λ bs e. omega (arith, read_full_shrinks (salt_size cr.cipher) cr.reader e)) h

after_init-left :
    (x : ChunkReader × Option Error) (n : ℕ) {p : Bytes}
    → (x.1 ≡ none → left x.0 ≤ n)
    → (after_init x).1 ≡ ok p
    → left (after_init x).0 + 2 ≤ n
after_init-left (cr, some e) n h p = ground arith
after_init-left (cr, none) n h p = omega (arith, h refl, read_chunk_with-left cr cr.aead p)

-- ReadChunk, where it succeeds, leaves less to read.
read_chunk-left :
    (crypto : Crypto) (cr : ChunkReader) {p : Bytes}
    → (read_chunk crypto cr).1 ≡ ok p
    → left (read_chunk crypto cr).0 + 2 ≤ left cr
unfolding read_chunk
read_chunk-left crypto cr h =
    after_init-left (init crypto cr) (left cr) (init-left crypto cr cr.aead) h

keep_chunk-left :
    (x : ChunkReader × Result Bytes) (n : ℕ)
    → ((p : Bytes) → x.1 ≡ ok p → left x.0 + 2 ≤ n)
    → (keep_chunk x).1 ≡ none
    → left (keep_chunk x).0.cr + 2 ≤ n
keep_chunk-left (cr, ok p) n h e = h p refl
keep_chunk-left (cr, err x) n h e = ground arith

-- A round of WriteTo writes what is left over, or reads a chunk.
abbrev pub rest : ReadConverter → ℕ
rest c = left c.cr + (elim c.leftover [ [] ↦ 0 | b ∷ bs ↦ 1 ])

pub rest-le : (cr : ChunkReader) (l : Bytes) → rest (record { cr = cr; leftover = l }) ≤ left cr + 1
rest-le cr [] = omega arith
rest-le cr (b ∷ bs) = omega arith

write_whole : (w : Sink) (p : Bytes) → (write w p).2 ≡ none → (write w p).1 ≡ length p
unfolding write
write_whole w p h = by_outcome w.outcomes h
  where
    by_outcome :
        (os : List Outcome)
        → (write_next os w.written p).2 ≡ none
        → (write_next os w.written p).1 ≡ length p
    by_outcome [] h = refl
    by_outcome (all ∷ os) h = refl
    by_outcome (fails k e ∷ os) h = ground arith

-- After a round without an error there is less to do.
round_less :
    (crypto : Crypto) (cr : ChunkReader) (l : Bytes) (w : Sink)
    → let c : ReadConverter = record { cr = cr; leftover = l } in
      let c' = (ensure_leftover crypto c).0 in
      (ensure_leftover crypto c).1 ≡ none
      → (write w c'.leftover).2 ≡ none
      → rest (record c' { leftover = drop (write w c'.leftover).1 c'.leftover }) < rest c
unfolding ensure_leftover
round_less crypto cr (b ∷ bs) w e sent =
    let gone : drop (write w (b ∷ bs)).1 (b ∷ bs) ≡ [] =
      ap (λ k. drop k (b ∷ bs)) (write_whole w (b ∷ bs) sent)
      ∙ drop_all (length (b ∷ bs)) (b ∷ bs) (omega arith) in
    rw gone (omega arith)
round_less crypto cr [] w e sent =
    let c' = (keep_chunk (read_chunk crypto cr)).0 in
    omega (
      arith,
      keep_chunk-left (read_chunk crypto cr) (left cr) (λ p h. read_chunk-left crypto cr h) e,
      rest-le (c'.cr) (drop (write w c'.leftover).1 c'.leftover),
    )

-- WriteTo ends, whatever the connection does and whatever the writer: each chunk takes at least two
-- bytes off the reader, so that as much fuel as the reader holds, and two rounds more, is enough.
pub write_to_total :
    (crypto : Crypto) (fuel : ℕ) (c : ReadConverter) (w : Sink) (n : ℕ)
    → rest c < fuel
    → (x : ReadConverter × Sink × ℕ × Option Error) × (write_to crypto fuel c w n ≡ some x)
unfolding write_to
write_to_total crypto zero c w n h = absurd (omega arith)
write_to_total crypto (suc fuel) c w n h =
    let (c', e) = ensure_leftover crypto c in
    elim (Option-cases e) [
      | inr (x, failed) ↦ (_, on_error-stop _ x _ _ failed)
      | inl fine ↦
          let (w', k, we) = write w c'.leftover in
          elim (Option-cases we) [
            | inr (x, failed) ↦ (_, on_error-go _ _ _ fine ∙ on_error-stop _ x _ _ failed)
            | inl sent ↦
                let c'' : ReadConverter = record c' { leftover = drop k c'.leftover } in
                let (x, ends) =
                  write_to_total crypto fuel c'' w' (n + k)
                    (omega (arith, h, round_less crypto c.cr c.leftover w fine sent)) in
                (x, on_error-go _ _ _ fine ∙ on_error-go _ _ _ sent ∙ ends)
          ]
    ]
