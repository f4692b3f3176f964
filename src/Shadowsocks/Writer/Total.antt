-- ===== src/Shadowsocks/Writer/Total.antt =====
-- ReadFrom ends: every Read of the transfer loop leaves less to read.
use ssgo.Prelude.{
  ℕ, zero, suc, ◌+◌, ◌≤◌, ◌<◌, ◌≡◌, refl, ap, ◌∙◌, inl, inr, Bool, true, false, Option, none, some,
  arith, length, splice, Option-cases, if◌then◌else◌,
}
use ssgo.Io.{Error, Source, ending, reads, read, on_error-go, on_error-stop}
use ssgo.Io.Read.{more, last, read-Reads, reads_pos}
use ssgo.Shadowsocks.Cipher.{salt_size}
use ssgo.Shadowsocks.Crypto.{Crypto}
use ssgo.Shadowsocks.Salt.{Random}
use ssgo.Shadowsocks.Writer.{
  Writer, payload_size_mask, overhead, init, flush, prefer, transfer, finish_read_from,
  after_beside, read_beside_flush, read_from_ready, read_from,
}

prefer-some : (o : Option Error) (e : Error) → (x : Error) × (prefer o (some e) ≡ some x)
prefer-some none e = (e, refl)
prefer-some (some x) e = (x, refl)

-- Without an error, neither of the flush nor of the read, less is left to read.
read_on :
    (flush_err : Option Error) (r : Source)
    → prefer flush_err (read payload_size_mask r).1 ≡ none
    → reads (read payload_size_mask r).2 < reads r
read_on flush_err r goes = elim (read-Reads payload_size_mask r).0 [
  | more end c same less ↦ less (omega arith)
  | last end c ↦ let (x, stops) = prefer-some flush_err (ending r) in cc (ap (prefer flush_err) end)
]

transfer_total :
    (fuel : ℕ) (sw : Writer) (written : ℕ) (r : Source)
    → reads r ≤ fuel
    → (x : Writer × ℕ × Error × Source) × (transfer fuel sw written r ≡ some x)
unfolding transfer
transfer_total zero sw written r h = absurd (omega (arith, reads_pos r))
transfer_total (suc fuel) sw written r h =
    let (bs, e, r') = read payload_size_mask r in
    let start = salt_size sw.cipher + 2 + overhead sw.aead in
    let filled : Writer = record sw { buf = splice start bs sw.buf; pending = length bs } in
    let (sw', flush_err) = flush filled in
    elim (Option-cases (prefer flush_err e)) [
      | inr (x, stops) ↦ (_, on_error-stop _ x _ _ stops)
      | inl goes ↦
          let (x, ends) =
            transfer_total fuel sw' (written + length bs) r'
              (omega (arith, h, read_on flush_err r goes)) in
          (x, on_error-go _ _ _ goes ∙ ends)
    ]

finish_total :
    (sw : Writer) (written : ℕ) (r : Source)
    → (x : Writer × ℕ × Option Error × Source) × (finish_read_from (transfer (reads r) sw written r)
        ≡ some x)
finish_total sw written r =
    let (x, ends) = transfer_total (reads r) sw written r (omega arith) in
    (_, ap finish_read_from ends)

after_beside_total :
    (y : Writer × ℕ × Option Error × Source)
    → (x : Writer × ℕ × Option Error × Source) × (after_beside y ≡ some x)
unfolding after_beside
after_beside_total (sw, written, none, r) = finish_total sw written r
after_beside_total (sw, written, some e, r) = (_, refl)

either_total :
    {A : Type 0} (b : Bool) (o o' : Option A)
    → ((x : A) × (o ≡ some x))
    → ((x : A) × (o' ≡ some x))
    → (x : A) × ((if b then o else o') ≡ some x)
either_total true o o' h h' = h
either_total false o o' h h' = h'

ready_total :
    (flushed : Bool) (sw : Writer) (r : Source)
    → (x : Writer × ℕ × Option Error × Source) × (read_from_ready flushed sw r ≡ some x)
unfolding read_from_ready
ready_total flushed sw r =
    either_total sw.need_flush _ _ (after_beside_total (read_beside_flush flushed sw r))
      (finish_total sw 0 r)

-- ReadFrom ends, whatever the state of the writer, its connection and the reader: a Read without
-- an error leaves less to read.
pub read_from_total :
    (crypto : Crypto) (rnd : Random) (flushed : Bool) (sw : Writer) (r : Source)
    → (x : Writer × ℕ × Option Error × Source) × (read_from crypto rnd flushed sw r ≡ some x)
unfolding read_from
read_from_total crypto rnd flushed sw r = elim (Option-cases (init crypto rnd sw).1) [
  | inr (e, failed) ↦ (_, on_error-stop _ e _ _ failed)
  | inl fine ↦
      let (x, ends) = ready_total flushed (init crypto rnd sw).0 r in
      (x, on_error-go _ _ _ fine ∙ ends)
]
