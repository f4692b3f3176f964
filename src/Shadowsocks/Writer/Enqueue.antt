-- ===== src/Shadowsocks/Writer/Enqueue.antt =====
-- What `enqueue` and the reads into the buffer do to the plaintext that is held.
use ssgo.Prelude.{
  ℕ, ◌+◌, ◌-◌, ◌≤◌, ◌≡◌, refl, ap, ◌∙◌, some, ◌++◌, arith, min, Bytes, length, take, splice,
  length-splice, length-take, take-splice, take-drop-splice, take-drop-splice_append,
}
use ssgo.Shadowsocks.Crypto.{Aead}
use ssgo.Shadowsocks.Cipher.{salt_size}
use ssgo.Shadowsocks.Writer.{Writer, payload_size_mask, payload_start, enqueue, overhead}
use ssgo.Shadowsocks.Writer.Flush.{IsReady, held}

-- A write of plaintext into the buffer of a ready writer, behind the salt and within bounds, with a
-- new count of pending bytes, leaves it ready.
pub fill-IsReady :
    (a : Aead) (salt : Bytes) (sw : Writer) (start n : ℕ) (bs : Bytes)
    → IsReady a salt sw
    → payload_start sw a ≤ start
    → start + length bs ≤ length sw.buf
    → n ≤ payload_size_mask
    → IsReady a salt (record sw { buf = splice start bs sw.buf; pending = n })
fill-IsReady a salt sw start n bs r lo hi m = record {
  aead = r.aead;
  standard = r.standard;
  salt_length = r.salt_length;
  buf_length = length-splice start bs sw.buf hi ∙ r.buf_length;
  buf_salt =
      take-splice (salt_size sw.cipher) start bs sw.buf (omega (arith, lo)) (omega (arith, hi))
      ∙ r.buf_salt;
  pending = m;
  counter = r.counter;
  counter_length = r.counter_length;
  reliable = r.reliable;
}

pub record Enqueued (a : Aead) (salt : Bytes) (sw : Writer) (p : Bytes) (sw' : Writer) (n : ℕ)
    : Type 0 where
  pub count : n ≡ min (payload_size_mask - sw.pending) (length p)
  pub held_eq : held sw' a ≡ held sw a ++ take n p
  pub pending : sw'.pending ≡ sw.pending + n
  pub writer : sw'.writer ≡ sw.writer
  pub counter : sw'.counter ≡ sw.counter
  pub cipher : sw'.cipher ≡ sw.cipher
  pub need_flush : sw'.need_flush ≡ sw.need_flush
  pub ready : IsReady a salt sw'

-- `enqueue` with the AEAD in place.
enqueue_lem :
    (a : Aead) (sw : Writer) (p : Bytes)
    → sw.aead ≡ some a
    → let n = min (payload_size_mask - sw.pending) (length p) in
      enqueue sw p ≡ (
        record sw {
          buf = splice (payload_start sw a + sw.pending) (take n p) sw.buf;
          pending = sw.pending + n;
        },
        n,
      )
unfolding enqueue
enqueue_lem a sw p e =
    let n = min (payload_size_mask - sw.pending) (length p) in
    ap
      (λ k. (
        record sw {
          buf = splice (salt_size sw.cipher + 2 + k + sw.pending) (take n p) sw.buf;
          pending = sw.pending + n;
        },
        n,
      ))
      (ap overhead e)

pub enqueue-Enqueued :
    (a : Aead) (salt : Bytes) (sw : Writer) (p : Bytes)
    → IsReady a salt sw
    → Enqueued a salt sw p (enqueue sw p).0 (enqueue sw p).1
enqueue-Enqueued a salt sw p r =
    let n = min (payload_size_mask - sw.pending) (length p) in
    let size : length (take n p) ≡ n = omega (arith, length-take n p) in
    let room : payload_start sw a + sw.pending + n ≤ length sw.buf =
      omega (arith, r.buf_length, r.pending, r.standard.overhead) in
    rw (enqueue_lem a sw p r.aead) (record {
      count = refl;
      held_eq =
          take-drop-splice_append (payload_start sw a) sw.pending (sw.pending + n) (take n p) sw.buf
            (omega (arith, room)) (omega (arith, size));
      pending = refl;
      writer = refl;
      counter = refl;
      cipher = refl;
      need_flush = refl;
      ready =
          fill-IsReady a salt sw (payload_start sw a + sw.pending) (sw.pending + n) (take n p) r
            (omega arith) (omega (arith, room, size)) (omega (arith, r.pending));
    })

-- A read into the payload buffer replaces what was held.
pub held-fill :
    (a : Aead) (salt : Bytes) (sw : Writer) (bs : Bytes)
    → IsReady a salt sw
    → length bs ≤ payload_size_mask
    → held (record sw { buf = splice (payload_start sw a) bs sw.buf; pending = length bs }) a ≡ bs
held-fill a salt sw bs r h =
    take-drop-splice (payload_start sw a) (length bs) bs sw.buf
      (omega (arith, r.buf_length, r.standard.overhead)) refl
