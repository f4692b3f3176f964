-- ===== src/Tests/Streams.antt =====
-- The stream writer and reader at concrete inputs.
use ssgo.Prelude.{◌≡◌, refl, [], ◌∷◌, none, some, arith, Bytes, codes, replicate, true, append-nil}
use ssgo.Io.{ok, Source, content, ending, Sink}
use ssgo.Shadowsocks.Cipher.{salt_size, new_aead}
use ssgo.Shadowsocks.Salt.{random_salt_generator, random_get_salt}
use ssgo.Shadowsocks.Nonce.{increment}
use ssgo.Shadowsocks.Writer.{Writer, new_shadowsocks_writer, set_salt_generator, init, read_from}
use ssgo.Shadowsocks.Writer.Flush.{IsReady, chunk}
use ssgo.Shadowsocks.Writer.ReadFrom.{ReadsFrom, read_from-ReadsFrom, init-IsReady}
use ssgo.Shadowsocks.Reader.{ChunkReader, ReadConverter, new_chunk_reader, read_chunk, write_to}
use ssgo.Shadowsocks.Reader.Chunk.{IsReading, read_chunk-chunk}
use ssgo.Shadowsocks.Stream.Fresh.{write_to-read_from}
use ssgo.Tests.Toy.{toy, toy_aead, toy_aead-IsStandard, toy_cipher, toy_random}

abbrev sink : Sink
sink = record { written = []; outcomes = [] }

abbrev fresh : Writer
fresh = new_shadowsocks_writer sink (toy_cipher 5)

abbrev salt : Bytes
salt = replicate 16 9

abbrev ready : Writer
ready = (init toy toy_random fresh).0

ready-IsReady : IsReady (toy_aead 5) salt ready
unfolding new_shadowsocks_writer new_aead random_get_salt salt_size
ready-IsReady =
    let (_, r, _, _) =
      init-IsReady toy toy_random fresh random_salt_generator (toy_aead 5) salt refl refl refl refl
        refl refl refl (toy_aead-IsStandard 5) in
    r

-- Three bytes that come in two pieces.
abbrev pieces : Source
pieces = (1 ∷ 2 ∷ [], none) ∷ (3 ∷ [], none) ∷ []

read_from-ReadsFrom_example :
    ReadsFrom (toy_aead 5) salt ready pieces (read_from toy toy_random true ready pieces)
unfolding new_shadowsocks_writer new_aead random_get_salt salt_size init
read_from-ReadsFrom_example =
    read_from-ReadsFrom toy toy_random true (toy_aead 5) salt ready pieces ready-IsReady (λ h. refl)

sent : ReadsFrom (toy_aead 5) salt ready pieces (read_from toy toy_random true ready pieces)
unfolding new_shadowsocks_writer new_aead random_get_salt salt_size init
sent =
    read_from-ReadsFrom toy toy_random true (toy_aead 5) salt ready pieces ready-IsReady (λ h. refl)

-- The same from a writer that is not initialised yet.
ran : read_from toy toy_random true fresh pieces ≡ some (sent.sw', 3, none, sent.r')
unfolding new_shadowsocks_writer new_aead random_get_salt salt_size init read_from
ran = sent.returns

write_to-read_from_example :
    (c : ReadConverter) × (write_to toy 4
        (record {
          cr = new_chunk_reader ((sent.sw'.writer.written, none) ∷ []) (toy_cipher 5) 16;
          leftover = [];
        })
        sink
        0
      ≡ some (c, record { written = 1 ∷ 2 ∷ 3 ∷ []; outcomes = [] }, 3, none))
unfolding new_shadowsocks_writer new_aead random_get_salt salt_size init set_salt_generator
write_to-read_from_example =
    write_to-read_from toy toy_random true (toy_aead 5) salt sink (toy_cipher 5)
      random_salt_generator sent.sw' pieces sent.r' ((sent.sw'.writer.written, none) ∷ []) 3 4 none
      sink refl refl refl refl refl (toy_aead-IsStandard 5) ran tt
      (append-nil sent.sw'.writer.written) refl (omega arith) (omega arith) (omega arith) refl

abbrev reading : ChunkReader
reading = record {
  reader = (chunk (toy_aead 5) (replicate 12 0) (codes "hi"), none) ∷ [];
  cipher = toy_cipher 5;
  aead = some (toy_aead 5);
  counter = replicate 12 0;
  payload_capacity = 16399;
}

reading-IsReading : IsReading (toy_aead 5) reading
reading-IsReading = record {
  aead = refl;
  standard = toy_aead-IsStandard 5;
  plain = tt;
  capacity = omega arith;
}

read_chunk-chunk_example :
    (cr' : ChunkReader) × (read_chunk toy reading ≡ (cr', ok (codes "hi")))
    × IsReading (toy_aead 5) cr'
    × (content cr'.reader ≡ [])
    × (ending cr'.reader ≡ ending reading.reader)
    × (cr'.counter ≡ increment (increment reading.counter))
read_chunk-chunk_example =
    read_chunk-chunk toy (toy_aead 5) reading (codes "hi") [] reading-IsReading
      (omega arith, omega arith) refl
