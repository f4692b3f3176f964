-- ===== src/Shadowsocks/Client/Dialer/Delivers.antt =====
-- What a client writes through a dialed connection arrives behind the address of the target.
use ssgo.Prelude.{
  ℕ, ◌*◌, ◌^◌, ◌≤◌, ◌<◌, ◌≡◌, refl, sym, ap, ◌∙◌, subst, Bool, false, Option, none, some, [], ◌++◌,
  arith, Bytes, length, replicate, length-append,
}
use ssgo.Io.{eof, ok, Source, content, ending, Sink, IsReliable}
use ssgo.Io.Read.{IsPlain}
use ssgo.Shadowsocks.Crypto.{Aead, Crypto, IsStandard}
use ssgo.Shadowsocks.Cipher.{Cipher, salt_size, new_aead}
use ssgo.Shadowsocks.Salt.{Random, SaltGenerator, random_salt_generator}
use ssgo.Shadowsocks.Writer.{
  Writer, payload_size_mask, new_shadowsocks_writer, set_salt_generator, lazy_write, read_from,
  read_from_error,
}
use ssgo.Shadowsocks.Writer.Flush.{held}
use ssgo.Shadowsocks.Writer.Lazy.{IsQueued, lazy_write-IsQueued}
use ssgo.Shadowsocks.Writer.ReadFrom.{read_from-ReadsFrom}
use ssgo.Shadowsocks.Reader.{ReadConverter, new_chunk_reader, write_to}
use ssgo.Shadowsocks.Stream.{write_to-read_from_ready}
use ssgo.Shadowsocks.Client.Dialer.{
  StreamDialer, connection, salted_by, after_hello, over, to_address, dial,
}

abbrev pub salter_of : Option SaltGenerator → SaltGenerator
salter_of none = random_salt_generator
salter_of (some g) = g

-- A connection: whatever reaches it is delivered whole, in pieces, and then the end.
abbrev pub IsDelivery : (Bytes → Source) → Type 0
IsDelivery deliver =
    (bs : Bytes) → IsPlain (deliver bs) × (content (deliver bs) ≡ bs) × (ending (deliver bs) ≡ eof)

-- The writer of Dial before its first use.
salted_by_lem :
    (o : Option SaltGenerator) (output : Sink) (cipher : Cipher)
    → let sw = salted_by o (new_shadowsocks_writer output cipher) in
      (sw.aead ≡ none)
      × (sw.salt_generator ≡ some (salter_of o))
      × (sw.pending ≡ 0)
      × (sw.writer ≡ output)
      × (sw.cipher ≡ cipher)
unfolding new_shadowsocks_writer set_salt_generator
salted_by_lem none output cipher = (refl, refl, refl, refl, refl)
salted_by_lem (some g) output cipher = (refl, refl, refl, refl, refl)

module _ (crypto : Crypto) (rnd : Random) (a : Aead) (salt : Bytes) (c : StreamDialer)
    (output : Sink) (tgt_addr : Bytes) where
  hello-IsQueued :
      IsReliable output
      → (salter_of c.salter).get_salt rnd (replicate (salt_size c.cipher) 0) ≡ ok salt
      → length salt ≡ salt_size c.cipher
      → new_aead crypto c.cipher salt ≡ ok a
      → IsStandard a
      → length tgt_addr ≤ payload_size_mask
      → let sw = salted_by c.salter (new_shadowsocks_writer output c.cipher) in
        (ssw : Writer) × (lazy_write crypto rnd sw tgt_addr ≡ some (ssw, length tgt_addr, none))
        × IsQueued a salt sw tgt_addr ssw
  hello-IsQueued reliable drawn size made s fits =
      let sw = salted_by c.salter (new_shadowsocks_writer output c.cipher) in
      let (fresh, gen, empty, to, by) = salted_by_lem c.salter output c.cipher in
      lazy_write-IsQueued crypto rnd sw (salter_of c.salter) a salt tgt_addr fresh gen empty
        (subst IsReliable (sym to) reliable)
        (ap (λ k. (salter_of c.salter).get_salt rnd (replicate (salt_size k) 0)) by ∙ drawn)
        (size ∙ ap salt_size (sym by)) (ap (λ k. new_aead crypto k salt) by ∙ made) s fits

  -- Dial to an address that the address parser accepts and that fits one payload, over a proxy
  -- connection that is made and reliable, with a generator that gives a salt of the cipher's size,
  -- returns a connection on which nothing has been sent. What is then read from `r` into it, up to
  -- the first error and with or without the delayed Flush meanwhile, is sent in such a way that
  -- whatever pieces it is delivered in, a reader of the same cipher gives the address and then
  -- the content of `r`, byte for byte, and ends without an error. The amount is limited only so
  -- that the counter cannot wrap.
  pub dial-delivers :
      (parse_addr : Bytes → Option Bytes) (remote_addr : Bytes) (input : Source) (flushed : Bool)
      (r : Source) (deliver : Bytes → Source) (fuel : ℕ) (w : Sink)
      → parse_addr remote_addr ≡ some tgt_addr
      → 0 < length tgt_addr
      → length tgt_addr ≤ payload_size_mask
      → c.endpoint ≡ ok (input, output)
      → IsReliable output
      → output.written ≡ []
      → (salter_of c.salter).get_salt rnd (replicate (salt_size c.cipher) 0) ≡ ok salt
      → length salt ≡ salt_size c.cipher
      → new_aead crypto c.cipher salt ≡ ok a
      → IsStandard a
      → IsDelivery deliver
      → 2 * length (tgt_addr ++ content r) < 256 ^ 12
      → length (tgt_addr ++ content r) < fuel
      → IsReliable w
      → (ssr : ReadConverter) × (ssw : Writer) × (ssw' : Writer) × (r' : Source)
        × (d : ReadConverter) × (dial crypto rnd 16 parse_addr c remote_addr
            ≡ some (connection ssr ssw))
        × (ssw.writer ≡ output)
        × (read_from crypto rnd flushed ssw r
            ≡ some (ssw', length (content r), read_from_error (ending r), r'))
        × (write_to crypto fuel
              (record {
                cr = new_chunk_reader (deliver ssw'.writer.written) c.cipher 16;
                leftover = [];
              })
              w
              0
            ≡ some (
              d,
              record { written = w.written ++ (tgt_addr ++ content r); outcomes = [] },
              length (tgt_addr ++ content r),
              none,
            ))
  unfolding dial
  dial-delivers parse_addr remote_addr input flushed r deliver fuel w parsed some_addr fits
        made_conn reliable unsent drawn size made s delivery bound enough rel =
      let (ssw, queued, q) = hello-IsQueued reliable drawn size made s fits in
      let (_, _, _, to, by) = salted_by_lem c.salter output c.cipher in
      let idle : ssw.need_flush ≡ false → ssw.pending ≡ 0 = λ h. cc (sym q.need_flush ∙ h) in
      let f = read_from-ReadsFrom crypto rnd flushed a salt ssw r q.ready idle in
      let cipher : ssw.cipher ≡ c.cipher = q.cipher ∙ by in
      let all : held ssw a ++ content r ≡ tgt_addr ++ content r =
        ap (λ b. b ++ content r) q.held_eq in
      let long = ap length all in
      let wire = delivery f.sw'.writer.written in
      let (d, copied) =
        write_to-read_from_ready crypto rnd flushed a salt ssw f.sw' r f.r'
          (deliver f.sw'.writer.written) (length (content r)) fuel (read_from_error (ending r)) w
          q.ready idle q.counter (ap (λ o. o.written) (q.writer ∙ to) ∙ unsent)
          (ap (λ k. new_aead crypto k salt) cipher ∙ made) f.returns wire.0 wire.1 wire.2
          (omega (arith, long, some_addr, length-append tgt_addr (content r)))
          (omega (arith, long, bound)) (omega (arith, long, enough)) rel in
      (
        _,
        ssw,
        f.sw',
        f.r',
        d,
        ap (to_address crypto rnd 16 c) parsed
            ∙ ap (over crypto rnd 16 c tgt_addr) made_conn
            ∙ ap (after_hello c.cipher 16 input) queued,
        q.writer ∙ to,
        f.returns,
        ap
              (λ k.
                write_to crypto fuel
                  (record {
                    cr = new_chunk_reader (deliver f.sw'.writer.written) k 16;
                    leftover = [];
                  })
                  w 0)
              (sym cipher)
            ∙ copied
            ∙ ap (λ t. some (d, record { written = w.written ++ t; outcomes = [] }, length t, none))
                all,
      )
