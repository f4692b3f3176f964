-- ===== src/Shadowsocks/Writer/Sends.antt =====
-- What a writer has sent, as a sequence of chunks: the common account of flush, LazyWrite and
-- ReadFrom.
use ssgo.Prelude.{
  ℕ, ◌+◌, ◌≤◌, ◌<◌, ◌≡◌, refl, sym, ap, ◌∙◌, inl, inr, true, false, Option, none, some, List, [],
  ◌∷◌, ◌++◌, ◌==◌, arith, append_assoc, append-nil, if◌then◌else◌, Bytes, length, drop, Bool-cases,
  All, All-append, concat,
}
use ssgo.Io.{Error}
use ssgo.Shadowsocks.Crypto.{Aead}
use ssgo.Shadowsocks.Nonce.{increment}
use ssgo.Shadowsocks.Writer.{
  Writer, payload_size_mask, payload_start, flush, flush_pending, flush_with,
}
use ssgo.Shadowsocks.Writer.Flush.{
  message, IsReady, held, length-held, Flushed, flush_pending-Flushed,
}

-- The counter after some chunks: two steps for each.
unfoldable pub advance : List Bytes → Bytes → Bytes
advance [] counter = counter
advance (p ∷ ps) counter = advance ps (increment (increment counter))

-- The messages of some chunks, in order.
unfoldable pub messages : Aead → Bytes → Bytes → List Bytes → Bytes
messages a salt counter [] = []
messages a salt counter (p ∷ ps) =
    message a salt counter p ++ messages a salt (increment (increment counter)) ps

-- The payloads that the protocol allows: not empty, and within the size mask.
abbrev pub IsPayload : Bytes → Type 0
IsPayload p = (0 < length p) × (length p ≤ payload_size_mask)

pub record Sends (a : Aead) (salt : Bytes) (sw sw' : Writer) (ps : List Bytes) : Type 0 where
  pub written : sw'.writer.written ≡ sw.writer.written ++ messages a salt sw.counter ps
  pub counter : sw'.counter ≡ advance ps sw.counter
  pub cipher : sw'.cipher ≡ sw.cipher
  pub payloads : All IsPayload ps
  pub ready : IsReady a salt sw'

pub Sends-none : (a : Aead) (salt : Bytes) (sw : Writer) → IsReady a salt sw → Sends a salt sw sw []
unfolding messages advance
Sends-none a salt sw r = record {
  written = sym (append-nil sw.writer.written);
  counter = refl;
  cipher = refl;
  payloads = tt;
  ready = r;
}

messages-append :
    (a : Aead) (salt counter : Bytes) (ps qs : List Bytes)
    → messages a salt counter (ps ++ qs)
      ≡ messages a salt counter ps ++ messages a salt (advance ps counter) qs
unfolding messages advance
messages-append a salt counter [] qs = refl
messages-append a salt counter (p ∷ ps) qs =
    ap (◌++◌ (message a salt counter p))
      (messages-append a salt (increment (increment counter)) ps qs)
    ∙ sym (append_assoc (message a salt counter p) _ _)

advance-append :
    (ps qs : List Bytes) (counter : Bytes)
    → advance (ps ++ qs) counter ≡ advance qs (advance ps counter)
unfolding advance
advance-append [] qs counter = refl
advance-append (p ∷ ps) qs counter = advance-append ps qs (increment (increment counter))

pub Sends-append :
    (a : Aead) (salt : Bytes) (sw sw' sw'' : Writer) (ps qs : List Bytes)
    → Sends a salt sw sw' ps
    → Sends a salt sw' sw'' qs
    → Sends a salt sw sw'' (ps ++ qs)
Sends-append a salt sw sw' sw'' ps qs s t = record {
  written =
      t.written
      ∙ ap (λ w. w ++ messages a salt sw'.counter qs) s.written
      ∙ append_assoc sw.writer.written (messages a salt sw.counter ps)
          (messages a salt sw'.counter qs)
      ∙ ap (λ c. sw.writer.written ++ (messages a salt sw.counter ps ++ messages a salt c qs))
          s.counter
      ∙ ap (◌++◌ sw.writer.written) (sym (messages-append a salt sw.counter ps qs));
  counter = t.counter ∙ ap (advance qs) s.counter ∙ sym (advance-append ps qs sw.counter);
  cipher = t.cipher ∙ s.cipher;
  payloads = All-append IsPayload ps qs s.payloads t.payloads;
  ready = t.ready;
}

message_alone :
    (a : Aead) (salt counter p : Bytes)
    → message a salt counter p ≡ messages a salt counter (p ∷ [])
unfolding messages
message_alone a salt counter p = sym (append-nil (message a salt counter p))

advance_one : (p counter : Bytes) → increment (increment counter) ≡ advance (p ∷ []) counter
unfolding advance
advance_one p counter = refl

-- A flush that succeeds: what was held went out, in one chunk if there was any.
pub record Flushes (a : Aead) (salt : Bytes) (sw : Writer) (x : Writer × Option Error)
    : Type 0 where
  pub payloads : List Bytes
  pub all : concat payloads ≡ held sw a
  pub sends : Sends a salt sw x.0 payloads
  pub no_error : x.1 ≡ none
  pub pending : x.0.pending ≡ 0
  pub need_flush : x.0.need_flush ≡ sw.need_flush
  pub rest :
      (n : ℕ) → payload_start sw a + sw.pending + a.overhead ≤ n → drop n x.0.buf ≡ drop n sw.buf

flush_empty : (sw : Writer) → (sw.pending == 0) ≡ true → flush sw ≡ (sw, none)
unfolding flush
flush_empty sw h = ap (λ b. if b then (sw, none) else flush_with sw sw.aead) h

flush_full :
    (a : Aead) (sw : Writer)
    → (sw.pending == 0) ≡ false
    → sw.aead ≡ some a
    → flush sw ≡ flush_pending a sw
unfolding flush
flush_full a sw h e =
    ap (λ b. if b then (sw, none) else flush_with sw sw.aead) h ∙ ap (flush_with sw) e

-- A flush of a ready writer succeeds, and sends what is held.
pub flush-Flushes :
    (a : Aead) (salt : Bytes) (sw : Writer) → IsReady a salt sw → Flushes a salt sw (flush sw)
flush-Flushes a salt sw r = elim (Bool-cases (sw.pending == 0)) [
  | inl empty ↦
      let z : sw.pending ≡ 0 = ground arith in
      rw (flush_empty sw empty) (record {
        payloads = [];
        all = rw z refl;
        sends = Sends-none a salt sw r;
        no_error = refl;
        pending = z;
        need_flush = refl;
        rest = λ n h. refl;
      })
  | inr full ↦
      let f = flush_pending-Flushed a salt sw r in
      rw (flush_full a sw full r.aead) (record {
        payloads = held sw a ∷ [];
        all = append-nil (held sw a);
        sends =
            one f (ground (arith, length-held a salt sw r))
              (omega (arith, length-held a salt sw r, r.pending));
        no_error = f.no_error;
        pending = f.pending;
        need_flush = f.need_flush;
        rest = f.rest;
      })
]
  where
    one :
        Flushed a salt sw (flush_pending a sw).0 (flush_pending a sw).1
        → 0 < length (held sw a)
        → length (held sw a) ≤ payload_size_mask
        → Sends a salt sw (flush_pending a sw).0 (held sw a ∷ [])
    one f lo hi = record {
      written =
          f.written ∙ ap (◌++◌ sw.writer.written) (message_alone a salt sw.counter (held sw a));
      counter = f.counter ∙ advance_one (held sw a) sw.counter;
      cipher = f.cipher;
      payloads = ((lo, hi), tt);
      ready = f.ready;
    }
