-- ===== src/Shadowsocks/Reader/Chunk.antt =====
-- Reading a chunk that a writer sent gives its payload back.
use Prim.Native.Nat.{bit_and}
use ssgo.Prelude.{
  ℕ, zero, suc, ◌+◌, ◌*◌, ◌/◌, ◌%◌, ◌≤◌, ◌<◌, ◌≡◌, refl, sym, ap, ◌∙◌, Bool, true, false, some,
  ◌++◌, arith, ◌==◌, ltb, if◌then◌else◌, Bytes, length, take, drop, take-append, drop-append,
  length-append, append_assoc,
}
use ssgo.Io.{Error, Result, ok, err, Source, content, ending, read_full}
use ssgo.Io.Read.{IsPlain, read_full-ok}
use ssgo.Shadowsocks.Crypto.{Aead, Crypto, IsStandard}
use ssgo.Shadowsocks.Nonce.{increment}
use ssgo.Shadowsocks.Writer.{payload_size_mask, be16}
use ssgo.Shadowsocks.Writer.Flush.{chunk}
use ssgo.Shadowsocks.Writer.Sends.{IsPayload}
use ssgo.Shadowsocks.Reader.{
  ChunkReader, init_with, read_message, open_message, opened, decode_size, read_payload, mid_chunk,
  after_size, after_init, read_chunk_with, read_chunk,
}

-- The sizes up to n that the mask leaves alone, checked one by one.
mask_keeps : ℕ → Bool
mask_keeps zero = true
mask_keeps (suc n) = if bit_and n payload_size_mask == n then mask_keeps n else false

mask_keeps_each :
    (size : ℕ) {bound : ℕ}
    → size < bound
    → mask_keeps bound ≡ true
    → bit_and size payload_size_mask ≡ size
unfolding mask_keeps
mask_keeps_each size {bound = zero} h kept = absurd (omega arith)
mask_keeps_each size {bound = suc n} h kept = ground (arith, mask_keeps_each size {bound = n})

mask_keeps_sizes : mask_keeps 16384 ≡ true
unfolding mask_keeps
mask_keeps_sizes = refl

-- The length on the wire is read back as it was written, for every size that the mask allows.
pub decode_size-be16 : (n : ℕ) → n ≤ payload_size_mask → decode_size (be16 n) ≡ n
unfolding decode_size
decode_size-be16 n h =
    let whole : (n / 256) % 256 * 256 + n % 256 ≡ n = omega (arith, h) in
    ap (λ k. bit_and k 16383) whole ∙ mask_keeps_each n (omega (arith, h)) mask_keeps_sizes

-- A reader in the middle of a stream, whose errors come by themselves, and with the buffers that
-- the pool gives.
pub record IsReading (a : Aead) (cr : ChunkReader) : Type 0 where
  pub aead : cr.aead ≡ some a
  pub standard : IsStandard a
  pub plain : IsPlain cr.reader
  pub capacity : payload_size_mask + 16 ≤ cr.payload_capacity

-- What one message leaves of the reader.
record Opens (cr cr' : ChunkReader) (more : Bytes) : Type 0 where
  counter : cr'.counter ≡ increment cr.counter
  content_eq : content cr'.reader ≡ more
  ending_eq : ending cr'.reader ≡ ending cr.reader
  plain : IsPlain cr'.reader
  aead : cr'.aead ≡ cr.aead
  cipher : cr'.cipher ≡ cr.cipher
  capacity : cr'.payload_capacity ≡ cr.payload_capacity

read_message-sealed :
    (a : Aead) (cr : ChunkReader) (n : ℕ) (p more : Bytes)
    → IsStandard a
    → IsPlain cr.reader
    → n ≡ length p + a.overhead
    → content cr.reader ≡ a.seal cr.counter p ++ more
    → (cr' : ChunkReader) × (read_message a cr n ≡ (cr', ok p)) × Opens cr cr' more
unfolding read_message
read_message-sealed a cr n p more s plain size c =
    let sealed = a.seal cr.counter p in
    let long : length sealed ≡ n = s.aead.length-seal cr.counter p ∙ sym size in
    let (r', read, rest, end, plain') =
      read_full-ok n cr.reader plain
        (omega (arith, ap length c, length-append sealed more, long)) in
    let cr' : ChunkReader = record cr { reader = r'; counter = increment cr.counter } in
    let bytes : take n (content cr.reader) ≡ sealed =
      ap (take n) c ∙ take-append n sealed more long in
    (
      cr',
      ap (open_message a cr) read
          ∙ ap (λ b. (cr', opened (a.unseal cr.counter b))) bytes
          ∙ ap (λ b. (cr', opened b)) (s.aead.unseal-seal cr.counter p),
      record {
        counter = refl;
        content_eq = rest ∙ ap (drop n) c ∙ drop-append n sealed more long;
        ending_eq = end;
        plain = plain';
        aead = refl;
        cipher = refl;
        capacity = refl;
      },
    )

-- ReadChunk, on a stream that goes on with a chunk of a legal payload, returns the payload and
-- leaves a reader that is behind the chunk, with its counter two steps on, and can go on reading.
pub read_chunk-chunk :
    (crypto : Crypto) (a : Aead) (cr : ChunkReader) (p more : Bytes)
    → IsReading a cr
    → IsPayload p
    → content cr.reader ≡ chunk a cr.counter p ++ more
    → (cr' : ChunkReader) × (read_chunk crypto cr ≡ (cr', ok p))
      × IsReading a cr'
      × (content cr'.reader ≡ more)
      × (ending cr'.reader ≡ ending cr.reader)
      × (cr'.counter ≡ increment (increment cr.counter))
unfolding read_chunk chunk
read_chunk-chunk crypto a cr p more r fits c =
    let s = r.standard in
    let size = be16 (length p) in
    let split = c ∙ append_assoc (a.seal cr.counter size) (a.seal (increment cr.counter) p) more in
    let (cr1, first, o1) =
      read_message-sealed a cr (2 + a.overhead) size (a.seal (increment cr.counter) p ++ more) s
        r.plain refl split in
    let decoded = decode_size-be16 (length p) (fits.1) in
    let split1 = o1.content_eq ∙ ap (λ k. a.seal k p ++ more) (sym o1.counter) in
    let (cr2, second, o2) =
      read_message-sealed a cr1 (length p + a.overhead) p more s o1.plain refl split1 in
    let room : ltb cr1.payload_capacity (length p + a.overhead) ≡ false =
      ground (arith, o1.capacity, r.capacity, s.overhead, fits.1) in
    let payload : read_payload a cr1 (length p) ≡ (cr2, ok p) =
      ap
        (λ b. if b then (cr1, err ssgo.Io.short_buffer) else (
          (read_message a cr1 (length p + a.overhead)).0,
          mid_chunk (read_message a cr1 (length p + a.overhead)).1,
        ))
        room
      ∙ ap (λ x. (x.0, mid_chunk x.1)) second in
    (
      cr2,
      ap after_init (ap (init_with crypto cr) r.aead)
          ∙ ap (read_chunk_with cr) r.aead
          ∙ ap (after_size a) first
          ∙ ap (read_payload a cr1) decoded
          ∙ payload,
      record {
        aead = o2.aead ∙ o1.aead ∙ r.aead;
        standard = s;
        plain = o2.plain;
        capacity = omega (arith, r.capacity, o1.capacity, o2.capacity);
      },
      o2.content_eq,
      o2.ending_eq ∙ o1.ending_eq,
      o2.counter ∙ ap increment o1.counter,
    )
