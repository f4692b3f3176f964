-- ===== src/Shadowsocks/Stream/Fresh.antt =====
-- The stream protocol of shadowsocks/stream.go from its first byte: a Writer as NewShadowsocksWriter
-- makes it, with its first call of init, and a Reader as NewShadowsocksReader makes it.
use ssgo.Prelude.{
  ℕ, ◌*◌, ◌^◌, ◌<◌, ◌≡◌, refl, sym, ap, ◌∙◌, Bool, Option, none, some, [], ◌++◌, arith, Bytes,
  length, take, drop, replicate,
}
use ssgo.Io.{Error, eof, ok, Source, content, ending, Sink, IsReliable, on_error}
use ssgo.Io.Read.{IsPlain}
use ssgo.Shadowsocks.Crypto.{Aead, Crypto, IsStandard}
use ssgo.Shadowsocks.Cipher.{Cipher, salt_size, new_aead}
use ssgo.Shadowsocks.Salt.{Random, SaltGenerator}
use ssgo.Shadowsocks.Writer.{
  Writer, new_shadowsocks_writer, set_salt_generator, salted, draw_salt, init_with, init,
  read_from_ready, read_from, payload_start,
}
use ssgo.Shadowsocks.Writer.Flush.{held}
use ssgo.Shadowsocks.Writer.ReadFrom.{init-IsReady}
use ssgo.Shadowsocks.Reader.{ReadConverter, new_chunk_reader, write_to}
use ssgo.Shadowsocks.Stream.{write_to-read_from_ready}

-- A Writer as it is made for a connection and a generator of salts.
abbrev pub fresh_writer : Sink → Cipher → SaltGenerator → Writer
fresh_writer conn cipher g = set_salt_generator (new_shadowsocks_writer conn cipher) g

-- ReadFrom after an init that it does not need again.
read_from-init :
    (crypto : Crypto) (rnd : Random) (flushed : Bool) (a : Aead) (sw : Writer) (r : Source)
    → (init crypto rnd sw).1 ≡ none
    → (init crypto rnd sw).0.aead ≡ some a
    → read_from crypto rnd flushed (init crypto rnd sw).0 r ≡ read_from crypto rnd flushed sw r
unfolding read_from init
read_from-init crypto rnd flushed a sw r fine ready =
    let sw1 = (init crypto rnd sw).0 in
    let run = λ (x : Writer × Option Error).
      on_error x.1 (λ e. some (x.0, 0, some e, r)) (read_from_ready flushed x.0 r) in
    ap run (ap (init_with crypto rnd sw1 sw1.salt_generator) ready)
    ∙ ap (λ e. run (sw1, e)) (sym fine)

-- What the first init does not touch.
init-fresh :
    (crypto : Crypto) (rnd : Random) (conn : Sink) (cipher : Cipher) (g : SaltGenerator) (a : Aead)
    (salt : Bytes)
    → g.get_salt rnd (replicate (salt_size cipher) 0) ≡ ok salt
    → new_aead crypto cipher salt ≡ ok a
    → (let sw1 = (init crypto rnd (fresh_writer conn cipher g)).0 in
        (sw1.pending ≡ 0) × (sw1.cipher ≡ cipher))
unfolding init new_shadowsocks_writer set_salt_generator
init-fresh crypto rnd conn cipher g a salt drawn made =
    let sw = fresh_writer conn cipher g in
    let x = ap (draw_salt crypto sw) drawn ∙ ap (λ x. salted crypto sw x salt) made in
    (ap (λ y. y.0.pending) x, ap (λ y. y.0.cipher) x)

-- The protocol end to end, over reliable connections whose errors come by themselves. A new writer,
-- whose generator gives a salt of the cipher's size of which the cipher makes an AEAD, sends all that
-- a source gives, at least one byte; whatever pieces the connection delivers those bytes in, a new
-- reader of the same cipher hands on exactly the same plaintext, complete and in order, counts it, and
-- ends without an error when the connection ends. The amount is limited only so that the counter
-- cannot wrap.
pub write_to-read_from :
    (crypto : Crypto) (rnd : Random) (flushed : Bool) (a : Aead) (salt : Bytes) (conn : Sink)
    (cipher : Cipher) (g : SaltGenerator) (sw' : Writer) (r r' src : Source) (n fuel : ℕ)
    (e : Option Error) (w : Sink)
    → IsReliable conn
    → conn.written ≡ []
    → g.get_salt rnd (replicate (salt_size cipher) 0) ≡ ok salt
    → length salt ≡ salt_size cipher
    → new_aead crypto cipher salt ≡ ok a
    → IsStandard a
    → read_from crypto rnd flushed (fresh_writer conn cipher g) r ≡ some (sw', n, e, r')
    → IsPlain src
    → content src ≡ sw'.writer.written
    → ending src ≡ eof
    → 0 < length (content r)
    → 2 * length (content r) < 256 ^ 12
    → length (content r) < fuel
    → IsReliable w
    → (c : ReadConverter) × (write_to crypto fuel
          (record { cr = new_chunk_reader src cipher 16; leftover = [] })
          w
          0
        ≡ some (
          c,
          record { written = w.written ++ content r; outcomes = [] },
          length (content r),
          none,
        ))
unfolding new_shadowsocks_writer set_salt_generator
write_to-read_from crypto rnd flushed a salt conn cipher g sw' r r' src n fuel e w reliable silent
      drawn size made s ran plain wire end some_data bound enough rel =
    let sw = fresh_writer conn cipher g in
    let sw1 = (init crypto rnd sw).0 in
    let (fine, ready, same_conn, zeros) =
      init-IsReady crypto rnd sw g a salt refl refl refl reliable drawn size made s in
    let (nothing, same) = init-fresh crypto rnd conn cipher g a salt drawn made in
    let ran1 = read_from-init crypto rnd flushed a sw r fine ready.aead ∙ ran in
    let held_none : held sw1 a ++ content r ≡ content r =
      ap (λ k. take k (drop (payload_start sw1 a) sw1.buf) ++ content r) nothing in
    let made1 = ap (λ k. new_aead crypto k salt) same ∙ made in
    let (c, copied) =
      write_to-read_from_ready crypto rnd flushed a salt sw1 sw' r r' src n fuel e w ready
        (λ h. nothing) zeros (ap (λ k. k.written) same_conn ∙ silent) made1 ran1 plain wire end
        (omega (arith, ap length held_none)) (omega (arith, ap length held_none))
        (omega (arith, ap length held_none)) rel in
    (
      c,
      ap (λ k. write_to crypto fuel (record { cr = new_chunk_reader src k 16; leftover = [] }) w 0)
            (sym same)
          ∙ copied
          ∙ ap (λ t. some (c, record { written = w.written ++ t; outcomes = [] }, length t, none))
              held_none,
    )
