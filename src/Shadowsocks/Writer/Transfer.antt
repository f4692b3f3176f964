-- ===== src/Shadowsocks/Writer/Transfer.antt =====
-- ReadFrom: all that the reader gives until its first error is sent, behind what was queued.
use ssgo.Prelude.{
  ℕ, zero, suc, ◌+◌, ◌≤◌, ◌≡◌, refl, sym, ap, ap₂, ◌∙◌, Option, some, List, [], ◌∷◌, ◌++◌, arith,
  Bytes, length, splice, length-append, concat, concat-append,
}
use ssgo.Io.{Error, on_error, on_error-go, on_error-stop, Source, read, reads, content, ending}
use ssgo.Io.Read.{more, last, read-Reads}
use ssgo.Shadowsocks.Crypto.{Aead}
use ssgo.Shadowsocks.Cipher.{salt_size}
use ssgo.Shadowsocks.Writer.{
  Writer, payload_size_mask, payload_start, overhead, flush, transfer, prefer,
}
use ssgo.Shadowsocks.Writer.Flush.{IsReady}
use ssgo.Shadowsocks.Writer.Sends.{Sends, messages, advance, Sends-append, Flushes, flush-Flushes}
use ssgo.Shadowsocks.Writer.Enqueue.{fill-IsReady, held-fill}

-- The writer, count, error and reader with which the transfer loop ends.
pub record Transfers (a : Aead) (salt : Bytes) (sw : Writer) (n : ℕ) (r : Source)
    (result : Option (Writer × ℕ × Error × Source)) : Type 0 where
  pub sw' : Writer
  pub r' : Source
  pub payloads : List Bytes
  pub returns : result ≡ some (sw', n + length (content r), ending r, r')
  pub all : concat payloads ≡ content r
  pub sends : Sends a salt sw sw' payloads
  pub pending : sw'.pending ≡ 0
  pub need_flush : sw'.need_flush ≡ sw.need_flush

-- The payload buffer after a read of `bs`.
abbrev filled : Aead → Writer → Bytes → Writer
filled a sw bs = record sw { buf = splice (payload_start sw a) bs sw.buf; pending = length bs }

-- One round of the loop, with the AEAD in place.
transfer_lem :
    (fuel : ℕ) (a : Aead) (sw : Writer) (n : ℕ) (r : Source)
    → sw.aead ≡ some a
    → let (bs, e, r') = read payload_size_mask r in
      transfer (suc fuel) sw n r
      ≡ on_error
          (prefer (flush (filled a sw bs)).1 e)
          (λ x. some ((flush (filled a sw bs)).0, n + length bs, x, r'))
          (transfer fuel (flush (filled a sw bs)).0 (n + length bs) r')
unfolding transfer
transfer_lem fuel a sw n r h =
    let (bs, e, r') = read payload_size_mask r in
    ap
      (λ k.
        let f : Writer = record sw {
          buf = splice (salt_size sw.cipher + 2 + k) bs sw.buf;
          pending = length bs;
        } in
        on_error (prefer (flush f).1 e) (λ x. some ((flush f).0, n + length bs, x, r'))
          (transfer fuel (flush f).0 (n + length bs) r'))
      (ap overhead h)

filled-IsReady :
    (a : Aead) (salt : Bytes) (sw : Writer) (bs : Bytes)
    → IsReady a salt sw
    → length bs ≤ payload_size_mask
    → IsReady a salt (filled a sw bs)
filled-IsReady a salt sw bs r h =
    fill-IsReady a salt sw (payload_start sw a) (length bs) bs r (omega arith)
      (omega (arith, r.buf_length, r.standard.overhead, h)) h

filled-Flushes :
    (a : Aead) (salt : Bytes) (sw : Writer) (bs : Bytes)
    → IsReady a salt sw
    → length bs ≤ payload_size_mask
    → Flushes a salt (filled a sw bs) (flush (filled a sw bs))
filled-Flushes a salt sw bs r h = flush-Flushes a salt _ (filled-IsReady a salt sw bs r h)

-- Chunks from a writer whose buffer was refilled are chunks from the writer.
pub Sends-refilled :
    (a : Aead) (salt : Bytes) (sw sw1 sw' : Writer) (ps : List Bytes)
    → sw1.writer ≡ sw.writer
    → sw1.counter ≡ sw.counter
    → sw1.cipher ≡ sw.cipher
    → Sends a salt sw1 sw' ps
    → Sends a salt sw sw' ps
Sends-refilled a salt sw sw1 sw' ps w c k s = record {
  written = s.written ∙ ap₂ (λ w c. w.written ++ messages a salt c ps) w c;
  counter = s.counter ∙ ap (advance ps) c;
  cipher = s.cipher ∙ k;
  payloads = s.payloads;
  ready = s.ready;
}

-- The transfer loop ends, having sent the reader's whole content in order, in valid payloads.
pub transfer-Transfers :
    (fuel : ℕ) (a : Aead) (salt : Bytes) (sw : Writer) (n : ℕ) (r : Source)
    → reads r ≤ fuel
    → IsReady a salt sw
    → Transfers a salt sw n r (transfer fuel sw n r)
transfer-Transfers zero a salt sw n [] h ready = absurd (omega arith)
transfer-Transfers zero a salt sw n ((bs, e) ∷ r) h ready = absurd (omega arith)
transfer-Transfers (suc fuel) a salt sw n r h ready =
    let (bs, e, r') = read payload_size_mask r in
    let (cases, size) = read-Reads payload_size_mask r in
    let f = filled-Flushes a salt sw bs ready size in
    let sw1 = (flush (filled a sw bs)).0 in
    let all : concat f.payloads ≡ bs = f.all ∙ held-fill a salt sw bs ready size in
    let sends = Sends-refilled a salt sw (filled a sw bs) sw1 f.payloads refl refl refl f.sends in
    let step = transfer_lem fuel a sw n r ready.aead in
    elim cases [
      | last end c ↦ record {
        sw' = sw1;
        r' = r';
        payloads = f.payloads;
        returns =
            step
            ∙ on_error-stop _ (ending r) _ _ (ap₂ prefer f.no_error end)
            ∙ ap (λ k. some (sw1, n + length k, ending r, r')) (sym c);
        all = all ∙ sym c;
        sends = sends;
        pending = f.pending;
        need_flush = f.need_flush;
      }
      | more go c end fewer ↦
          let rest =
            transfer-Transfers fuel a salt sw1 (n + length bs) r'
              (omega (arith, h, fewer (omega arith))) f.sends.ready in
          record {
            sw' = rest.sw';
            r' = rest.r';
            payloads = f.payloads ++ rest.payloads;
            returns =
                step
                ∙ on_error-go _ _ _ (ap₂ prefer f.no_error go)
                ∙ rest.returns
                ∙ ap₂ (λ k x. some (rest.sw', k, x, rest.r'))
                    (omega (arith, ap length c, length-append bs (content r'))) (sym end);
            all = concat-append f.payloads rest.payloads ∙ ap₂ ◌++◌ all rest.all ∙ sym c;
            sends = Sends-append a salt sw sw1 rest.sw' f.payloads rest.payloads sends rest.sends;
            pending = rest.pending;
            need_flush = rest.need_flush ∙ f.need_flush;
          }
    ]
