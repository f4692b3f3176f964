-- ===== src/Shadowsocks/Writer/ReadFrom.antt =====
-- ReadFrom as a whole: the read beside a delayed flush, and then the transfer loop. Whether another
-- thread flushes during that read or not, the same plaintext goes out.
use ssgo.Prelude.{
  ℕ, ◌+◌, ◌-◌, ◌≤◌, ◌≡◌, refl, sym, ap, ap₂, ◌∙◌, Bool, true, false, not, Option, none, some, List,
  [], ◌++◌, arith, append-nil, append_assoc, if◌then◌else◌, Bytes, length, take, drop, splice,
  length-append, concat, concat-append, take-drop-splice, take-drop-splice_before, take_all, subst,
  inl, inr, Bool-cases, replicate, length-replicate, take-append,
}
use ssgo.Io.{
  IsReliable, ok, Error, on_error, on_error-go, on_error-stop, Source, read, reads, content, ending,
}
use ssgo.Io.Read.{more, last, read-Reads}
use ssgo.Shadowsocks.Crypto.{Aead, Crypto, IsStandard}
use ssgo.Shadowsocks.Cipher.{salt_size, new_aead}
use ssgo.Shadowsocks.Salt.{Random, SaltGenerator}
use ssgo.Shadowsocks.Writer.{
  Writer, payload_size_mask, payload_start, overhead, flush, transfer, read_from_error, read_from,
  init, init_with, draw_salt, salted, read_beside_flush, after_beside, read_from_ready,
  finish_read_from, prefer, flush_if_needed, enqueue,
}
use ssgo.Shadowsocks.Writer.Flush.{IsReady, held}
use ssgo.Shadowsocks.Writer.Sends.{Sends, Sends-append, Sends-none, flush-Flushes}
use ssgo.Shadowsocks.Writer.Enqueue.{fill-IsReady, enqueue-Enqueued}
use ssgo.Shadowsocks.Writer.Transfer.{Sends-refilled, transfer-Transfers}

-- Where the read beside a flush puts its bytes: behind everything that a flush can touch.
abbrev beside_start : Aead → Writer → ℕ
beside_start a sw = payload_start sw a + sw.pending + a.overhead

abbrev beside : Aead → Writer → Bytes → Writer
beside a sw bs = record sw { buf = splice (beside_start a sw) bs sw.buf }

-- The rest of `read_beside_flush`, once the other thread has or has not run.
abbrev beside_rest : Aead → Writer → Bytes → Writer → Writer × Option Error
beside_rest a sw bs sw1 =
    flush (enqueue sw1 (take (length bs) (drop (beside_start a sw) sw1.buf))).0

read_beside_flush_lem :
    (flushed : Bool) (a : Aead) (sw : Writer) (r : Source)
    → sw.aead ≡ some a
    → let (bs, e, r') = read (length sw.buf - beside_start a sw) r in
      let sw1 = (if flushed then flush_if_needed (beside a sw bs) else (beside a sw bs, none)).0 in
      let x = beside_rest a sw bs sw1 in
      read_beside_flush flushed sw r
      ≡ (record (x.0) { need_flush = false }, length bs, prefer x.1 e, r')
unfolding read_beside_flush
read_beside_flush_lem flushed a sw r h =
    ap
      (λ k.
        let start = salt_size sw.cipher + 2 + k + sw.pending + k in
        let (bs, e, r') = read (length sw.buf - start) r in
        let filled : Writer = record sw { buf = splice start bs sw.buf } in
        let (sw1, _) = if flushed then flush_if_needed filled else (filled, none) in
        let (sw2, _) = enqueue sw1 (take (length bs) (drop start sw1.buf)) in
        let (sw3, flush_err) = flush sw2 in
        (record sw3 { need_flush = false }, length bs, prefer flush_err e, r'))
      (ap overhead h)

-- The writer just before the read's bytes are queued: some chunks have gone out, the rest of what
-- was held is held, and the bytes read are still in place.
record Waits (a : Aead) (salt : Bytes) (sw : Writer) (bs : Bytes) (sw1 : Writer) : Type 0 where
  payloads : List Bytes
  sends : Sends a salt sw sw1 payloads
  all : concat payloads ++ held sw1 a ≡ held sw a
  room : sw1.pending ≤ sw.pending
  intact : take (length bs) (drop (beside_start a sw) sw1.buf) ≡ bs

module _ (a : Aead) (salt : Bytes) (sw : Writer) (bs : Bytes) (ready : IsReady a salt sw)
    (fits : beside_start a sw + length bs ≤ length sw.buf) where
  beside-IsReady : IsReady a salt (beside a sw bs)
  beside-IsReady =
      fill-IsReady a salt sw (beside_start a sw) sw.pending bs ready (omega arith) fits
        ready.pending

  held-beside : held (beside a sw bs) a ≡ held sw a
  held-beside =
      take-drop-splice_before sw.pending (payload_start sw a) (beside_start a sw) bs sw.buf
        (omega arith) (omega (arith, fits))

  intact_beside : take (length bs) (drop (beside_start a sw) (beside a sw bs).buf) ≡ bs
  intact_beside =
      take-drop-splice (beside_start a sw) (length bs) bs sw.buf (omega (arith, fits)) refl

  undisturbed : Waits a salt sw bs (beside a sw bs)
  undisturbed = record {
    payloads = [];
    sends =
        Sends-refilled a salt sw (beside a sw bs) (beside a sw bs) [] refl refl refl
          (Sends-none a salt (beside a sw bs) beside-IsReady);
    all = held-beside;
    room = omega arith;
    intact = intact_beside;
  }

  -- The other thread's flush does not touch the bytes being read.
  disturbed : sw.need_flush ≡ true → Waits a salt sw bs (flush_if_needed (beside a sw bs)).0
  unfolding flush_if_needed
  disturbed needed =
      let f = flush-Flushes a salt (beside a sw bs) beside-IsReady in
      let same : flush_if_needed (beside a sw bs) ≡ flush (beside a sw bs) =
        ap (λ b. if not b then (beside a sw bs, none) else flush (beside a sw bs)) needed in
      rw same (record {
        payloads = f.payloads;
        sends =
            Sends-refilled a salt sw (beside a sw bs) (flush (beside a sw bs)).0 f.payloads refl
              refl refl f.sends;
        all = rw f.pending (append-nil (concat f.payloads) ∙ f.all ∙ held-beside);
        room = omega (arith, f.pending);
        intact = ap (take (length bs)) (f.rest (beside_start a sw) (omega arith)) ∙ intact_beside;
      })

  -- Then the bytes are queued and flushed.
  queued :
      (sw1 : Writer)
      → Waits a salt sw bs sw1
      → (ps : List Bytes) × (concat ps ≡ held sw a ++ bs)
        × Sends a salt sw (beside_rest a sw bs sw1).0 ps
        × ((beside_rest a sw bs sw1).1 ≡ none)
        × ((beside_rest a sw bs sw1).0.pending ≡ 0)
  queued sw1 w =
      let q = enqueue-Enqueued a salt sw1 bs w.sends.ready in
      let sw2 = (enqueue sw1 bs).0 in
      let f = flush-Flushes a salt sw2 q.ready in
      let whole : take (enqueue sw1 bs).1 bs ≡ bs = take_all (enqueue sw1 bs).1 bs (
        omega (
          arith, q.count, w.room, fits, ready.buf_length, ready.pending, ready.standard.overhead,
        )) in
      rw w.intact (
        w.payloads ++ f.payloads,
        concat-append w.payloads f.payloads
            ∙ ap (◌++◌ (concat w.payloads)) (f.all ∙ q.held_eq ∙ ap (◌++◌ (held sw1 a)) whole)
            ∙ sym (append_assoc (concat w.payloads) (held sw1 a) bs)
            ∙ ap (λ b. b ++ bs) w.all,
        Sends-append a salt sw sw1 (flush sw2).0 w.payloads f.payloads w.sends (
            Sends-refilled a salt sw1 sw2 (flush sw2).0 f.payloads q.writer q.counter q.cipher
              f.sends),
        f.no_error,
        f.pending,
      )

-- How ReadFrom ends on a ready writer: what was held and the reader's whole content went out, in
-- order and in valid payloads, the count is of what was read, and the error is the reader's, but for
-- EOF.
pub record ReadsFrom (a : Aead) (salt : Bytes) (sw : Writer) (r : Source)
    (result : Option (Writer × ℕ × Option Error × Source)) : Type 0 where
  pub sw' : Writer
  pub r' : Source
  pub payloads : List Bytes
  pub returns : result ≡ some (sw', length (content r), read_from_error (ending r), r')
  pub all : concat payloads ≡ held sw a ++ content r
  pub sends : Sends a salt sw sw' payloads
  pub pending : sw'.pending ≡ 0
  pub need_flush : sw'.need_flush ≡ false

cleared-Sends :
    (a : Aead) (salt : Bytes) (sw sw' : Writer) (ps : List Bytes)
    → Sends a salt sw sw' ps
    → Sends a salt sw (record sw' { need_flush = false }) ps
cleared-Sends a salt sw sw' ps s = record {
  written = s.written;
  counter = s.counter;
  cipher = s.cipher;
  payloads = s.payloads;
  ready = record {
    aead = s.ready.aead;
    standard = s.ready.standard;
    salt_length = s.ready.salt_length;
    buf_length = s.ready.buf_length;
    buf_salt = s.ready.buf_salt;
    pending = s.ready.pending;
    counter = s.ready.counter;
    counter_length = s.ready.counter_length;
    reliable = s.ready.reliable;
  };
}

module _ (flushed : Bool) (a : Aead) (salt : Bytes) (sw : Writer) (r : Source)
    (ready : IsReady a salt sw) where
  waits :
      (bs : Bytes)
      → beside_start a sw + length bs ≤ length sw.buf
      → sw.need_flush ≡ true
      → Waits a salt sw bs
          (if flushed then flush_if_needed (beside a sw bs) else (beside a sw bs, none)).0
  waits bs fits needed =
      elim flushed
        as (λ b.
          Waits a salt sw bs
            (if b then flush_if_needed (beside a sw bs) else (beside a sw bs, none)).0) [
              | true ↦ disturbed a salt sw bs ready fits needed
              | false ↦ undisturbed a salt sw bs ready fits
            ]

  beside-ReadsFrom :
      sw.need_flush ≡ true → ReadsFrom a salt sw r (after_beside (read_beside_flush flushed sw r))
  unfolding after_beside
  beside-ReadsFrom needed =
      let (bs, e, r') = read (length sw.buf - beside_start a sw) r in
      let (cases, size) = read-Reads (length sw.buf - beside_start a sw) r in
      let fits : beside_start a sw + length bs ≤ length sw.buf =
        omega (arith, size, ready.buf_length, ready.pending, ready.standard.overhead) in
      let sw1 = (if flushed then flush_if_needed (beside a sw bs) else (beside a sw bs, none)).0 in
      let x = beside_rest a sw bs sw1 in
      let (ps, all, sends, fine, empty) =
        queued a salt sw bs ready fits sw1 (waits bs fits needed) in
      let sw2 : Writer = record (x.0) { need_flush = false } in
      let sends' = cleared-Sends a salt sw x.0 ps sends in
      rw (read_beside_flush_lem flushed a sw r ready.aead) (elim cases [
        | last end c ↦ record {
          sw' = sw2;
          r' = r';
          payloads = ps;
          returns =
              on_error-stop _ (ending r) _ _ (ap₂ prefer fine end)
              ∙ ap (λ k. some (sw2, length k, read_from_error (ending r), r')) (sym c);
          all = all ∙ ap (◌++◌ (held sw a)) (sym c);
          sends = sends';
          pending = empty;
          need_flush = refl;
        }
        | more go c end _ ↦
            let t =
              transfer-Transfers (reads r') a salt sw2 (length bs) r' (omega arith) sends'.ready in
            record {
              sw' = t.sw';
              r' = t.r';
              payloads = ps ++ t.payloads;
              returns =
                  on_error-go _ _ _ (ap₂ prefer fine go)
                  ∙ ap finish_read_from t.returns
                  ∙ ap₂ (λ k x. some (t.sw', k, read_from_error x, t.r'))
                      (omega (arith, ap length c, length-append bs (content r'))) (sym end);
              all =
                  concat-append ps t.payloads
                  ∙ ap₂ ◌++◌ all t.all
                  ∙ append_assoc (held sw a) bs (content r')
                  ∙ ap (◌++◌ (held sw a)) (sym c);
              sends = Sends-append a salt sw sw2 t.sw' ps t.payloads sends' t.sends;
              pending = t.pending;
              need_flush = t.need_flush;
            }
      ])

  plain-ReadsFrom :
      sw.pending ≡ 0
      → sw.need_flush ≡ false
      → ReadsFrom a salt sw r (finish_read_from (transfer (reads r) sw 0 r))
  plain-ReadsFrom empty idle =
      let t = transfer-Transfers (reads r) a salt sw 0 r (omega arith) ready in
      record {
        sw' = t.sw';
        r' = t.r';
        payloads = t.payloads;
        returns =
            ap finish_read_from t.returns
            ∙ ap (λ k. some (t.sw', k, read_from_error (ending r), t.r')) (omega arith);
        all = t.all ∙ rw empty refl;
        sends = t.sends;
        pending = t.pending;
        need_flush = t.need_flush ∙ idle;
      }

  read_from_ready-ReadsFrom :
      (sw.need_flush ≡ false → sw.pending ≡ 0)
      → ReadsFrom a salt sw r (read_from_ready flushed sw r)
  unfolding read_from_ready
  read_from_ready-ReadsFrom idle = elim (Bool-cases sw.need_flush) [
    | inl needed ↦
        subst (ReadsFrom a salt sw r)
          (sym (
            ap
              (λ b.
                if b
                then after_beside (read_beside_flush flushed sw r)
                else finish_read_from (transfer (reads r) sw 0 r))
              needed))
          (beside-ReadsFrom needed)
    | inr quiet ↦
        subst (ReadsFrom a salt sw r)
          (sym (
            ap
              (λ b.
                if b
                then after_beside (read_beside_flush flushed sw r)
                else finish_read_from (transfer (reads r) sw 0 r))
              quiet))
          (plain-ReadsFrom (idle quiet) quiet)
  ]

-- ReadFrom on an initialised writer over a reliable connection ends, and sends everything: what
-- LazyWrite had queued and then the reader's whole content up to its first error, in order, cut
-- into payloads that the protocol allows. It makes no difference to that whether the delayed Flush
-- of another thread comes in the middle.
pub read_from-ReadsFrom :
    (crypto : Crypto) (rnd : Random) (flushed : Bool) (a : Aead) (salt : Bytes) (sw : Writer)
    (r : Source)
    → IsReady a salt sw
    → (sw.need_flush ≡ false → sw.pending ≡ 0)
    → ReadsFrom a salt sw r (read_from crypto rnd flushed sw r)
unfolding read_from init
read_from-ReadsFrom crypto rnd flushed a salt sw r ready idle =
    subst (ReadsFrom a salt sw r)
      (ap
        (λ (x : Writer × Option Error).
          on_error x.1 (λ e. some (x.0, 0, some e, r)) (read_from_ready flushed x.0 r))
        (sym (ap (init_with crypto rnd sw sw.salt_generator) ready.aead)))
      (read_from_ready-ReadsFrom flushed a salt sw r ready idle)

-- The first use of a writer, over a reliable connection, with a generator that gives a salt of the
-- cipher's size and a cipher that makes an AEAD of it: `init` reports no error and leaves a ready
-- writer with that salt and a counter of zero, and has sent nothing.
pub init-IsReady :
    (crypto : Crypto) (rnd : Random) (sw : Writer) (g : SaltGenerator) (a : Aead) (salt : Bytes)
    → sw.aead ≡ none
    → sw.salt_generator ≡ some g
    → sw.pending ≡ 0
    → IsReliable sw.writer
    → g.get_salt rnd (replicate (salt_size sw.cipher) 0) ≡ ok salt
    → length salt ≡ salt_size sw.cipher
    → new_aead crypto sw.cipher salt ≡ ok a
    → IsStandard a
    → ((init crypto rnd sw).1 ≡ none)
      × IsReady a salt (init crypto rnd sw).0
      × ((init crypto rnd sw).0.writer ≡ sw.writer)
      × ((init crypto rnd sw).0.counter ≡ replicate 12 0)
unfolding init
init-IsReady crypto rnd sw g a salt fresh gen empty reliable drawn size made s =
    let made' : init_with crypto rnd sw sw.salt_generator sw.aead ≡ salted crypto sw (ok a) salt =
      ap₂ (init_with crypto rnd sw) gen fresh
      ∙ ap (draw_salt crypto sw) drawn
      ∙ ap (λ x. salted crypto sw x salt) made in
    let zeros = (2 + a.overhead) + (payload_size_mask + a.overhead) in
    rw made' (
      refl,
      record {
        aead = refl;
        standard = s;
        salt_length = size;
        buf_length =
            length-append salt (replicate zeros 0)
            ∙ ap₂ ◌+◌ size (length-replicate zeros 0)
            ∙ omega (arith, s.overhead);
        buf_salt = take-append (salt_size sw.cipher) salt (replicate zeros 0) size;
        pending = omega (arith, empty);
        counter = rw s.nonce_size (omega arith);
        counter_length = length-replicate a.nonce_size 0 ∙ s.nonce_size;
        reliable = reliable;
      },
      refl,
      ap (λ n. replicate n 0) s.nonce_size,
    )
