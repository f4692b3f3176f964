-- ===== src/Shadowsocks/Reader.antt =====
-- shadowsocks/stream.go, chunkReader and readConverter: reads the salt, then chunks of a sealed
-- length and a sealed payload, and hands the payloads on as a byte stream.
pub mod Chunk
pub mod Total
use Prim.Native.Nat.{bit_and}
use ssgo.Prelude.{
  ℕ, zero, suc, ◌+◌, ◌*◌, Bool, true, false, Option, none, some, List, [], ◌∷◌, ◌++◌, ltb,
  if◌then◌else◌, Bytes, length, take, drop, replicate, min,
}
use ssgo.Io.{
  Error, Result, ok, err, eof, unexpected_eof, short_buffer, panic, wrap, failed_to_read_salt,
  failed_to_create_aead, failed_to_decrypt, failed_to_read_payload_size, Source, read_full, Sink,
  write, on_error,
}
use ssgo.Shadowsocks.Crypto.{Aead, Crypto}
use ssgo.Shadowsocks.Cipher.{Cipher, salt_size, new_aead}
use ssgo.Shadowsocks.Nonce.{increment}
use ssgo.Shadowsocks.Writer.{payload_size_mask}

-- `payload_capacity` is the size of the buffers in the pool; `none` is a nil AEAD.
pub record ChunkReader : Type 0 where
  pub reader : Source
  pub cipher : Cipher
  pub aead : Option Aead
  pub counter : Bytes
  pub payload_capacity : ℕ

unfoldable pub new_chunk_reader : Source → Cipher → ℕ → ChunkReader
new_chunk_reader reader cipher max_tag_size = record {
  reader = reader;
  cipher = cipher;
  aead = none;
  counter = [];
  payload_capacity = payload_size_mask + max_tag_size;
}

-- The errors that stay as they are; all others are annotated.
abbrev pub unless_eof : (Error → Error) → Error → Error
unless_eof f eof = eof
unless_eof f unexpected_eof = unexpected_eof
unless_eof f e = f e

module _ (crypto : Crypto) where
  abbrev pub init_aead : ChunkReader → Result Aead → ChunkReader × Option Error
  init_aead cr (err e) = (cr, some (wrap failed_to_create_aead e))
  init_aead cr (ok a) = (record cr { aead = some a; counter = replicate a.nonce_size 0 }, none)

  abbrev pub init_salt : ChunkReader → Result Bytes × Source → ChunkReader × Option Error
  init_salt cr (err e, r) =
      (record cr { reader = r }, some (unless_eof (wrap failed_to_read_salt) e))
  init_salt cr (ok salt, r) = init_aead (record cr { reader = r }) (new_aead crypto cr.cipher salt)

  abbrev pub init_with : ChunkReader → Option Aead → ChunkReader × Option Error
  init_with cr (some a) = (cr, none)
  init_with cr none = init_salt cr (read_full (salt_size cr.cipher) cr.reader)

  -- The method init of chunkReader.
  unfoldable pub init : ChunkReader → ChunkReader × Option Error
  init cr = init_with cr cr.aead

abbrev pub opened : Result Bytes → Result Bytes
opened (ok p) = ok p
opened (err e) = err (wrap failed_to_decrypt e)

abbrev pub open_message : Aead → ChunkReader → Result Bytes × Source → ChunkReader × Result Bytes
open_message a cr (err e, r) = (record cr { reader = r }, err e)
open_message a cr (ok c, r) =
    (record cr { reader = r; counter = increment cr.counter }, opened (a.unseal cr.counter c))

-- readMessage with a buffer of n bytes.
unfoldable pub read_message : Aead → ChunkReader → ℕ → ChunkReader × Result Bytes
read_message a cr n = open_message a cr (read_full n cr.reader)

-- int(binary.BigEndian.Uint16(b) & payloadSizeMask)
unfoldable pub decode_size : Bytes → ℕ
decode_size (hi ∷ lo ∷ bs) = bit_and (hi * 256 + lo) payload_size_mask
decode_size bs = 0

-- EOF in the middle of a chunk is unexpected.
abbrev pub mid_chunk : Result Bytes → Result Bytes
mid_chunk (err eof) = err unexpected_eof
mid_chunk (err e) = err e
mid_chunk (ok p) = ok p

abbrev pub read_payload : Aead → ChunkReader → ℕ → ChunkReader × Result Bytes
read_payload a cr size =
    if ltb cr.payload_capacity (size + a.overhead)
    then (cr, err short_buffer)
    else (let (cr', p) = read_message a cr (size + a.overhead) in (cr', mid_chunk p))

abbrev pub after_size : Aead → ChunkReader × Result Bytes → ChunkReader × Result Bytes
after_size a (cr, err e) = (cr, err (unless_eof (wrap failed_to_read_payload_size) e))
after_size a (cr, ok b) = read_payload a cr (decode_size b)

abbrev pub read_chunk_with : ChunkReader → Option Aead → ChunkReader × Result Bytes
read_chunk_with cr none = (cr, err panic)
read_chunk_with cr (some a) = after_size a (read_message a cr (2 + a.overhead))

abbrev pub after_init : ChunkReader × Option Error → ChunkReader × Result Bytes
after_init (cr, some e) = (cr, err e)
after_init (cr, none) = read_chunk_with cr cr.aead

pub record ReadConverter : Type 0 where
  pub cr : ChunkReader
  pub leftover : Bytes

abbrev pub keep_chunk : ChunkReader × Result Bytes → ReadConverter × Option Error
keep_chunk (cr, ok p) = (record { cr = cr; leftover = p }, none)
keep_chunk (cr, err e) = (record { cr = cr; leftover = [] }, some e)

-- EOF ends WriteTo without an error.
abbrev pub write_to_error : Error → Option Error
write_to_error eof = none
write_to_error e = some e

module _ (crypto : Crypto) where
  -- ReadChunk
  unfoldable pub read_chunk : ChunkReader → ChunkReader × Result Bytes
  unfolding init read_message decode_size
  read_chunk cr = after_init (init crypto cr)

  -- ensureLeftover
  unfoldable pub ensure_leftover : ReadConverter → ReadConverter × Option Error
  ensure_leftover c = elim c.leftover [ [] ↦ keep_chunk (read_chunk c.cr) | b ∷ bs ↦ (c, none) ]

  -- Read into n bytes.
  unfoldable pub read_plaintext : ReadConverter → ℕ → ReadConverter × Bytes × Option Error
  unfolding ensure_leftover
  read_plaintext c n =
      let (c', e) = ensure_leftover c in
      let k = min n (length (c'.leftover)) in
      on_error e (λ x. (c', [], some x))
        (record c' { leftover = drop k c'.leftover }, take k c'.leftover, none)

  -- WriteTo, one chunk on each unit of fuel; `none` when it runs out.
  unfoldable pub write_to :
      ℕ → ReadConverter → Sink → ℕ → Option (ReadConverter × Sink × ℕ × Option Error)
  unfolding ensure_leftover
  write_to zero c w written = none
  write_to (suc fuel) c w written =
      let (c', e) = ensure_leftover c in
      let (w', n, write_err) = write w c'.leftover in
      let c'' : ReadConverter = record c' { leftover = drop n c'.leftover } in
      let rest = write_to fuel c'' w' (written + n) in
      on_error e (λ x. some (c', w, written, write_to_error x))
        (on_error write_err (λ x. some (c'', w', written + n, some x)) rest)
