-- ===== src/Shadowsocks/Writer/Lazy.antt =====
-- LazyWrite on a new writer: what fits one payload is queued and nothing is sent.
use ssgo.Prelude.{
  ℕ, suc, ◌+◌, ◌≤◌, ◌≡◌, refl, ap, ap₂, ◌∙◌, true, none, some, ◌++◌, arith, Bytes, length, take,
  drop, take_all, drop_all, replicate,
}
use ssgo.Io.{ok, on_error-go, IsReliable}
use ssgo.Shadowsocks.Crypto.{Aead, Crypto, IsStandard}
use ssgo.Shadowsocks.Cipher.{salt_size, new_aead}
use ssgo.Shadowsocks.Salt.{Random, SaltGenerator}
use ssgo.Shadowsocks.Writer.{
  Writer, payload_size_mask, payload_start, init, init_with, salted, draw_salt, enqueue, lazy_loop,
  lazy_write,
}
use ssgo.Shadowsocks.Writer.Flush.{IsReady, held}
use ssgo.Shadowsocks.Writer.Enqueue.{enqueue-Enqueued}
use ssgo.Shadowsocks.Writer.ReadFrom.{init-IsReady}

-- A writer that holds `p` and nothing else, to be sent by the next flush.
pub record IsQueued (a : Aead) (salt : Bytes) (sw : Writer) (p : Bytes) (sw' : Writer)
    : Type 0 where
  pub ready : IsReady a salt sw'
  pub held_eq : held sw' a ≡ p
  pub need_flush : sw'.need_flush ≡ true
  pub counter : sw'.counter ≡ replicate 12 0
  pub writer : sw'.writer ≡ sw.writer
  pub cipher : sw'.cipher ≡ sw.cipher

init_keeps :
    (crypto : Crypto) (rnd : Random) (sw : Writer) (g : SaltGenerator) (a : Aead) (salt : Bytes)
    → sw.aead ≡ none
    → sw.salt_generator ≡ some g
    → g.get_salt rnd (replicate (salt_size sw.cipher) 0) ≡ ok salt
    → new_aead crypto sw.cipher salt ≡ ok a
    → ((init crypto rnd sw).0.pending ≡ sw.pending) × ((init crypto rnd sw).0.cipher ≡ sw.cipher)
unfolding init
init_keeps crypto rnd sw g a salt fresh gen drawn made =
    let made' : init_with crypto rnd sw sw.salt_generator sw.aead ≡ salted crypto sw (ok a) salt =
      ap₂ (init_with crypto rnd sw) gen fresh
      ∙ ap (draw_salt crypto sw) drawn
      ∙ ap (λ x. salted crypto sw x salt) made in
    (ap (λ x. x.0.pending) made', ap (λ x. x.0.cipher) made')

marked-IsReady :
    (a : Aead) (salt : Bytes) (sw : Writer)
    → IsReady a salt sw
    → IsReady a salt (record sw { need_flush = true })
marked-IsReady a salt sw r = record {
  aead = r.aead;
  standard = r.standard;
  salt_length = r.salt_length;
  buf_length = r.buf_length;
  buf_salt = r.buf_salt;
  pending = r.pending;
  counter = r.counter;
  counter_length = r.counter_length;
  reliable = r.reliable;
}

-- One round of the loop is enough for what fits.
lazy_loop-fits :
    (a : Aead) (salt : Bytes) (fuel : ℕ) (sw : Writer) (p : Bytes)
    → IsReady a salt sw
    → sw.pending ≡ 0
    → length p ≤ payload_size_mask
    → lazy_loop (suc fuel) sw 0 p
      ≡ some (record ((enqueue sw p).0) { need_flush = true }, length p, none)
unfolding lazy_loop
lazy_loop-fits a salt fuel sw p r empty fits =
    let q = enqueue-Enqueued a salt sw p r in
    let whole : (enqueue sw p).1 ≡ length p = omega (arith, q.count, empty) in
    let nothing : length (drop (enqueue sw p).1 p) ≡ 0 =
      ap (λ k. length (drop k p)) whole ∙ ap length (drop_all (length p) p (omega arith)) in
    let counted : 0 + (enqueue sw p).1 ≡ length p = omega (arith, whole) in
    rw nothing (ap (λ k. some (record ((enqueue sw p).0) { need_flush = true }, k, none)) counted)

pub lazy_write-IsQueued :
    (crypto : Crypto) (rnd : Random) (sw : Writer) (g : SaltGenerator) (a : Aead) (salt p : Bytes)
    → sw.aead ≡ none
    → sw.salt_generator ≡ some g
    → sw.pending ≡ 0
    → IsReliable sw.writer
    → g.get_salt rnd (replicate (salt_size sw.cipher) 0) ≡ ok salt
    → length salt ≡ salt_size sw.cipher
    → new_aead crypto sw.cipher salt ≡ ok a
    → IsStandard a
    → length p ≤ payload_size_mask
    → (sw' : Writer) × (lazy_write crypto rnd sw p ≡ some (sw', length p, none))
      × IsQueued a salt sw p sw'
unfolding lazy_write
lazy_write-IsQueued crypto rnd sw g a salt p fresh gen empty reliable drawn size made s fits =
    let (fine, ready, same, start) =
      init-IsReady crypto rnd sw g a salt fresh gen empty reliable drawn size made s in
    let (pending, cipher) = init_keeps crypto rnd sw g a salt fresh gen drawn made in
    let sw1 = (init crypto rnd sw).0 in
    let q = enqueue-Enqueued a salt sw1 p ready in
    let whole : (enqueue sw1 p).1 ≡ length p = omega (arith, q.count, pending, empty) in
    let fuel : length p + 2 ≡ suc (length p + 1) = omega arith in
    (
      record ((enqueue sw1 p).0) { need_flush = true },
      on_error-go _ _ _ fine
          ∙ ap (λ f. lazy_loop f sw1 0 p) fuel
          ∙ lazy_loop-fits a salt (length p + 1) sw1 p ready (pending ∙ empty) fits,
      record {
        ready = marked-IsReady a salt (enqueue sw1 p).0 q.ready;
        held_eq =
            q.held_eq
            ∙ ap₂ (λ n k. take n (drop (payload_start sw1 a) sw1.buf) ++ take k p) (pending ∙ empty)
                whole
            ∙ take_all (length p) p (omega arith);
        need_flush = refl;
        counter = q.counter ∙ start;
        writer = q.writer ∙ same;
        cipher = q.cipher ∙ cipher;
      },
    )
