-- ===== src/Shadowsocks/Writer/Flush.antt =====
-- What one flush writes: the salt if it is the first message, the sealed length, and the sealed
-- payload, under two successive counters.
use ssgo.Prelude.{
  ℕ, ◌+◌, ◌≤◌, ◌≡◌, refl, ap, ◌∙◌, Bool, true, false, Option, none, some, [], ◌++◌, arith,
  append_assoc, if◌then◌else◌, Bytes, length, take, drop, splice, length-splice, take-drop-splice,
  length-take, length-drop, take-splice, take-splice_end, drop-splice, drop-append,
}
use ssgo.Io.{Error, IsReliable, write_reliable}
use ssgo.Shadowsocks.Crypto.{Aead, IsStandard}
use ssgo.Shadowsocks.Cipher.{salt_size}
use ssgo.Shadowsocks.Nonce.{increment, is_zero, IsBytes, length-increment, increment-IsBytes}
use ssgo.Shadowsocks.Writer.{Writer, payload_size_mask, be16, payload_start, flush_pending}

-- One chunk on the wire, as the protocol describes it: the length of the payload and the payload,
-- sealed under a counter and its successor.
unfoldable pub chunk : Aead → Bytes → Bytes → Bytes
chunk a counter payload =
    a.seal counter (be16 (length payload)) ++ a.seal (increment counter) payload

-- A flush puts the salt before the first chunk.
unfoldable pub message : Aead → Bytes → Bytes → Bytes → Bytes
message a salt counter payload = (if is_zero counter then salt else []) ++ chunk a counter payload

-- A writer that has been initialised.
pub record IsReady (a : Aead) (salt : Bytes) (sw : Writer) : Type 0 where
  pub aead : sw.aead ≡ some a
  pub standard : IsStandard a
  pub salt_length : length salt ≡ salt_size sw.cipher
  pub buf_length : length sw.buf ≡ salt_size sw.cipher + (2 + 16) + (payload_size_mask + 16)
  pub buf_salt : take (salt_size sw.cipher) sw.buf ≡ salt
  pub pending : sw.pending ≤ payload_size_mask
  pub counter : IsBytes sw.counter
  pub counter_length : length sw.counter ≡ 12
  pub reliable : IsReliable sw.writer

-- The plaintext that waits in the buffer.
abbrev pub held : Writer → Aead → Bytes
held sw a = take sw.pending (drop (payload_start sw a) sw.buf)

pub length-held :
    (a : Aead) (salt : Bytes) (sw : Writer) → IsReady a salt sw → length (held sw a) ≡ sw.pending
length-held a salt sw r = omega (
  arith,
  length-take sw.pending (drop (payload_start sw a) sw.buf),
  length-drop (payload_start sw a) sw.buf,
  r.buf_length,
  r.pending,
  r.standard.overhead,
)

-- The buffer of a flush, step by step: `s` and `p` are the sizes of salt and payload.
module _ (a : Aead) (c c' : Bytes) (s p : ℕ) (b0 : Bytes) where
  abbrev sized : Bytes
  sized = splice s (be16 p) b0

  abbrev size_block : Bytes
  size_block = a.seal c (take 2 (drop s sized))

  abbrev with_size : Bytes
  with_size = splice s size_block sized

  abbrev payload_block : Bytes
  payload_block = a.seal c' (take p (drop (s + 2 + a.overhead) with_size))

  abbrev with_payload : Bytes
  with_payload = splice (s + 2 + a.overhead) payload_block with_size

module _ (a : Aead) (st : IsStandard a) (c c' : Bytes) (s p : ℕ) (b0 : Bytes)
    (room : s + 2 + 16 + p + 16 ≤ length b0) where
  length-sized : length (sized a c c' s p b0) ≡ length b0
  length-sized = length-splice s (be16 p) b0 (omega arith)

  size_block_lem : size_block a c c' s p b0 ≡ a.seal c (be16 p)
  size_block_lem = ap (a.seal c) (take-drop-splice s 2 (be16 p) b0 (omega arith) refl)

  length-size_block : length (size_block a c c' s p b0) ≡ 2 + a.overhead
  length-size_block = ap length size_block_lem ∙ st.aead.length-seal c (be16 p)

  length-with_size : length (with_size a c c' s p b0) ≡ length b0
  length-with_size =
      length-splice s (size_block a c c' s p b0) (sized a c c' s p b0)
        (omega (arith, length-size_block, length-sized, st.overhead))
      ∙ length-sized

  payload_block_lem :
      payload_block a c c' s p b0 ≡ a.seal c' (take p (drop (s + 2 + a.overhead) b0))
  payload_block_lem =
      ap (λ b. a.seal c' (take p b))
        (drop-splice (s + 2 + a.overhead) s (size_block a c c' s p b0) (sized a c c' s p b0)
            (omega (arith, length-size_block, length-sized, st.overhead))
            (omega (arith, length-sized))
          ∙ drop-splice (s + 2 + a.overhead) s (be16 p) b0 (omega (arith, st.overhead))
              (omega arith))

  sent :
      (end : ℕ)
      → end ≡ s + length (size_block a c c' s p b0) + length (payload_block a c c' s p b0)
      → take end (with_payload a c c' s p b0)
        ≡ take s b0 ++ (a.seal c (be16 p) ++ a.seal c' (take p (drop (s + 2 + a.overhead) b0)))
  sent end e =
      let ws = with_size a c c' s p b0 in
      let sb = size_block a c c' s p b0 in
      let pb = payload_block a c c' s p b0 in
      let first : take (s + 2 + a.overhead) ws ≡ take s b0 ++ sb =
        take-splice_end s (s + 2 + a.overhead) sb (sized a c c' s p b0)
          (omega (arith, length-sized)) (omega (arith, length-size_block))
        ∙ ap (λ b. b ++ sb) (take-splice s s (be16 p) b0 (omega arith) (omega arith)) in
      take-splice_end (s + 2 + a.overhead) end pb ws (omega (arith, length-with_size, st.overhead))
        (omega (arith, e, length-size_block))
      ∙ ap (λ b. b ++ pb) first
      ∙ append_assoc (take s b0) sb pb
      ∙ ap (λ b. take s b0 ++ (b ++ pb)) size_block_lem
      ∙ ap (λ b. take s b0 ++ (a.seal c (be16 p) ++ b)) payload_block_lem

  length-payload_block : length (payload_block a c c' s p b0) ≡ p + a.overhead
  length-payload_block =
      ap length payload_block_lem
      ∙ st.aead.length-seal c' (take p (drop (s + 2 + a.overhead) b0))
      ∙ omega (
        arith,
        length-take p (drop (s + 2 + a.overhead) b0),
        length-drop (s + 2 + a.overhead) b0,
        st.overhead,
      )

  length-with_payload : length (with_payload a c c' s p b0) ≡ length b0
  length-with_payload =
      length-splice (s + 2 + a.overhead) (payload_block a c c' s p b0) (with_size a c c' s p b0)
        (omega (arith, length-payload_block, length-with_size, st.overhead))
      ∙ length-with_size

  -- The salt at the front of the buffer stays.
  salt_stays : take s (with_payload a c c' s p b0) ≡ take s b0
  salt_stays =
      take-splice s (s + 2 + a.overhead) (payload_block a c c' s p b0) (with_size a c c' s p b0)
        (omega arith) (omega (arith, length-with_size, st.overhead))
      ∙ take-splice s s (size_block a c c' s p b0) (sized a c c' s p b0) (omega arith)
          (omega (arith, length-sized))
      ∙ take-splice s s (be16 p) b0 (omega arith) (omega arith)

  -- Nothing behind the payload and its tag is touched.
  rest_stays :
      (n : ℕ)
      → s + 2 + a.overhead + p + a.overhead ≤ n
      → drop n (with_payload a c c' s p b0) ≡ drop n b0
  rest_stays n h =
      drop-splice n (s + 2 + a.overhead) (payload_block a c c' s p b0) (with_size a c c' s p b0)
        (omega (arith, length-payload_block)) (omega (arith, length-with_size, st.overhead))
      ∙ drop-splice n s (size_block a c c' s p b0) (sized a c c' s p b0)
          (omega (arith, length-size_block)) (omega (arith, length-sized))
      ∙ drop-splice n s (be16 p) b0 (omega arith) (omega arith)

  -- The slice that is written: from the start of the buffer with the salt, or from behind it.
  slice :
      (first : Bool) (salt : Bytes) (end : ℕ)
      → take s b0 ≡ salt
      → length salt ≡ s
      → end ≡ s + length (size_block a c c' s p b0) + length (payload_block a c c' s p b0)
      → drop (if first then 0 else s) (take end (with_payload a c c' s p b0))
        ≡ (if first then salt else [])
          ++ (a.seal c (be16 p) ++ a.seal c' (take p (drop (s + 2 + a.overhead) b0)))
  slice true salt end h l e = rw (← h) (sent end e)
  slice false salt end h l e =
      ap (drop s) (sent end e) ∙ drop-append s (take s b0) _ (ap length h ∙ l)

-- What a flush of a nonempty buffer leaves: the message is on the wire, two counters are used up,
-- nothing is pending, the writer is ready again, and the buffer behind the payload is untouched.
pub record Flushed (a : Aead) (salt : Bytes) (sw sw' : Writer) (e : Option Error) : Type 0 where
  pub no_error : e ≡ none
  pub written : sw'.writer.written ≡ sw.writer.written ++ message a salt sw.counter (held sw a)
  pub counter : sw'.counter ≡ increment (increment sw.counter)
  pub pending : sw'.pending ≡ 0
  pub need_flush : sw'.need_flush ≡ sw.need_flush
  pub cipher : sw'.cipher ≡ sw.cipher
  pub ready : IsReady a salt sw'
  pub rest :
      (n : ℕ) → payload_start sw a + sw.pending + a.overhead ≤ n → drop n sw'.buf ≡ drop n sw.buf

-- A flush of a ready writer leaves exactly that, and reports no error.
pub flush_pending-Flushed :
    (a : Aead) (salt : Bytes) (sw : Writer)
    → IsReady a salt sw
    → Flushed a salt sw (flush_pending a sw).0 (flush_pending a sw).1
unfolding flush_pending message chunk
flush_pending-Flushed a salt sw r =
    let st = r.standard in
    let c = sw.counter in
    let c' = increment sw.counter in
    let s = salt_size sw.cipher in
    let p = sw.pending in
    let room : s + 2 + 16 + p + 16 ≤ length sw.buf = omega (arith, r.buf_length, r.pending) in
    let wire =
      slice a st c c' s p sw.buf room (is_zero c) salt
        (s + length (size_block a c c' s p sw.buf) + length (payload_block a c c' s p sw.buf))
        r.buf_salt r.salt_length refl in
    let outcome = write_reliable sw.writer _ r.reliable in
    record {
      no_error = ap (λ w. w.2) outcome;
      written =
          ap (λ w. w.0.written) outcome
          ∙ ap (◌++◌ sw.writer.written) wire
          ∙ rw (length-held a salt sw r) refl;
      counter = refl;
      pending = refl;
      need_flush = refl;
      cipher = refl;
      ready = record {
        aead = r.aead;
        standard = r.standard;
        salt_length = r.salt_length;
        buf_length = length-with_payload a st c c' s p sw.buf room ∙ r.buf_length;
        buf_salt = salt_stays a st c c' s p sw.buf room ∙ r.buf_salt;
        pending = omega arith;
        counter = increment-IsBytes c' (increment-IsBytes c r.counter);
        counter_length = length-increment c' ∙ length-increment c ∙ r.counter_length;
        reliable = ap (λ w. w.0.outcomes) outcome;
      };
      rest = λ n h. rest_stays a st c c' s p sw.buf room n h;
    }
