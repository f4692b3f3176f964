-- ===== src/Shadowsocks/Stream.antt =====
-- The stream protocol end to end: what a Writer sends, a Reader of the same cipher gives back,
-- however the connection cuts the bytes.
pub mod Fresh
use ssgo.Prelude.{
  ℕ, zero, suc, ◌+◌, ◌*◌, ◌^◌, ◌≤◌, ◌<◌, ◌≡◌, refl, sym, ap, ap₂, ◌∙◌, Bool, false, Option, none,
  some, List, [], ◌∷◌, ◌++◌, arith, if◌then◌else◌, Bytes, length, take, drop, take-append,
  drop-append, drop_all, length-append, append_assoc, append-nil, All, concat, replicate,
}
use ssgo.Io.{
  Error, eof, Result, ok, err, Source, content, ending, read_full, Sink, write, IsReliable,
  write_reliable, on_error-go, on_error-stop, on_error,
}
use ssgo.Io.Read.{IsPlain, read_full-ok, read_full-err}
use ssgo.Shadowsocks.Crypto.{Aead, Crypto, IsStandard}
use ssgo.Shadowsocks.Cipher.{Cipher, salt_size, new_aead}
use ssgo.Shadowsocks.Salt.{Random}
use ssgo.Shadowsocks.Writer.{Writer, read_from}
use ssgo.Shadowsocks.Writer.Flush.{IsReady, held}
use ssgo.Shadowsocks.Writer.ReadFrom.{read_from-ReadsFrom}
use ssgo.Shadowsocks.Nonce.{
  increment, is_zero, value, IsBytes, value-increment, increment-IsBytes, length-increment,
  is_zero_iff,
}
use ssgo.Shadowsocks.Writer.Flush.{chunk, message}
use ssgo.Shadowsocks.Writer.Sends.{IsPayload, messages}
use ssgo.Shadowsocks.Reader.{
  ChunkReader, ReadConverter, new_chunk_reader, init_with, init_salt, init_aead, read_message,
  after_init, read_chunk_with, after_size, open_message, read_chunk, keep_chunk, write_to,
  write_to_error,
}
use ssgo.Shadowsocks.Reader.Chunk.{IsReading, read_chunk-chunk}

-- The chunks of a stream behind its salt.
unfoldable pub chunks : Aead → Bytes → List Bytes → Bytes
chunks a counter [] = []
chunks a counter (p ∷ ps) = chunk a counter p ++ chunks a (increment (increment counter)) ps

two_steps :
    (c : Bytes)
    → IsBytes c
    → length c ≡ 12
    → value c + 2 < 256 ^ 12
    → (value (increment (increment c)) ≡ value c + 2)
      × IsBytes (increment (increment c))
      × (length (increment (increment c)) ≡ 12)
two_steps c b l h =
    let n : 256 ^ length c ≡ 256 ^ 12 = ap (λ k. 256 ^ k) l in
    let l1 = length-increment c ∙ l in
    let n1 : 256 ^ length (increment c) ≡ 256 ^ 12 = ap (λ k. 256 ^ k) l1 in
    let b1 = increment-IsBytes c b in
    let v1 = (value-increment c b).0 (omega (arith, n, h)) in
    let v2 = (value-increment (increment c) b1).0 (omega (arith, n1, v1, h)) in
    (omega (arith, v1, v2), increment-IsBytes (increment c) b1, length-increment (increment c) ∙ l1)

nonzero : (c : Bytes) → 0 < value c → is_zero c ≡ false
nonzero c h = ground (arith, is_zero_iff c)

-- The salt is sent at most once, as long as the counter does not wrap.
messages-chunks :
    (a : Aead) (salt c : Bytes) (ps : List Bytes)
    → IsBytes c
    → length c ≡ 12
    → 0 < value c
    → value c + 2 * length ps < 256 ^ 12
    → messages a salt c ps ≡ chunks a c ps
unfolding messages chunks message
messages-chunks a salt c [] b l pos h = refl
messages-chunks a salt c (p ∷ ps) b l pos h =
    let (v, b', l') = two_steps c b l (omega (arith, h)) in
    ap₂ ◌++◌ (ap (λ z. (if z then salt else []) ++ chunk a c p) (nonzero c pos)) (
      messages-chunks a salt (increment (increment c)) ps b' l' (omega (arith, v))
        (omega (arith, v, h)))

zeros-IsBytes : (n : ℕ) → IsBytes (replicate n 0) × (value (replicate n 0) ≡ 0)
unfolding value
zeros-IsBytes zero = (tt, refl)
zeros-IsBytes (suc n) = ((omega arith, (zeros-IsBytes n).0), omega (arith, (zeros-IsBytes n).1))

-- A whole stream from the start is the salt and then the chunks.
pub messages_from_start :
    (a : Aead) (salt p : Bytes) (ps : List Bytes)
    → 2 * length (p ∷ ps) < 256 ^ 12
    → messages a salt (replicate 12 0) (p ∷ ps) ≡ salt ++ chunks a (replicate 12 0) (p ∷ ps)
unfolding messages chunks message is_zero
messages_from_start a salt p ps h =
    let c : Bytes = replicate 12 0 in
    let (b, z) = zeros-IsBytes 12 in
    let (v, b', l') = two_steps c b refl (omega (arith, z)) in
    append_assoc salt (chunk a c p) (messages a salt (increment (increment c)) ps)
    ∙ ap (λ m. salt ++ (chunk a c p ++ m))
        (messages-chunks a salt (increment (increment c)) ps b' l' (omega (arith, v))
          (omega (arith, v, z, h)))

module _ (crypto : Crypto) (a : Aead) where
  -- At the end of the stream ReadChunk reports EOF.
  read_chunk_end :
      (cr : ChunkReader)
      → IsReading a cr
      → content cr.reader ≡ []
      → ending cr.reader ≡ eof
      → (read_chunk crypto cr).1 ≡ err eof
  unfolding read_chunk read_message
  read_chunk_end cr r c e =
      let failed : (read_full (2 + a.overhead) cr.reader).0 ≡ err eof =
        read_full-err (2 + a.overhead) cr.reader r.plain
          (omega (arith, ap length c, r.standard.overhead))
        ∙ ap₂ (λ b x. err (ssgo.Io.full_error b x)) c e in
      ap (λ x. (after_init x).1) (ap (init_with crypto cr) r.aead)
      ∙ ap (λ x. (read_chunk_with cr x).1) r.aead
      ∙ ends (read_full (2 + a.overhead) cr.reader) failed
    where
      ends :
          (x : Result Bytes × Source)
          → x.0 ≡ err eof
          → (after_size a (open_message a cr x)).1 ≡ err eof
      ends (ok b, r) h = ground arith
      ends (err x, r) h = ground arith

  -- One round of WriteTo, after ensureLeftover.
  abbrev round :
      ℕ → Sink → ℕ → ReadConverter × Option Error → Option (ReadConverter × Sink × ℕ × Option Error)
  round fuel w written x =
      let y = write w (x.0).leftover in
      let c'' : ReadConverter = record (x.0) { leftover = drop (y.1) (x.0).leftover } in
      on_error x.1 (λ e. some (x.0, w, written, write_to_error e))
        (on_error y.2 (λ e. some (c'', y.0, written + y.1, some e))
          (write_to crypto fuel c'' y.0 (written + y.1)))

  write_to_lem :
      (fuel : ℕ) (cr : ChunkReader) (w : Sink) (n : ℕ)
      → write_to crypto (suc fuel) (record { cr = cr; leftover = [] }) w n
        ≡ round fuel w n (keep_chunk (read_chunk crypto cr))
  unfolding write_to
  write_to_lem fuel cr w n = refl

  written_chunk :
      (fuel : ℕ) (cr : ChunkReader) (p : Bytes) (w : Sink) (n : ℕ)
      → IsReliable w
      → round fuel w n (record { cr = cr; leftover = p }, none)
        ≡ write_to crypto fuel
            (record { cr = cr; leftover = [] })
            (record { written = w.written ++ p; outcomes = [] })
            (n + length p)
  written_chunk fuel cr p w n rel =
      ap
        (λ (y : Sink × ℕ × Option Error).
          let c'' : ReadConverter = record { cr = cr; leftover = drop y.1 p } in
          on_error y.2 (λ e. some (c'', y.0, n + y.1, some e))
            (write_to crypto fuel c'' y.0 (n + y.1)))
        (write_reliable w p rel)
      ∙ ap
          (λ d.
            write_to crypto fuel (record { cr = cr; leftover = d })
              (record { written = w.written ++ p; outcomes = [] }) (n + length p))
          (drop_all (length p) p (omega arith))

  -- WriteTo copies the payloads of a stream and ends without an error at its end.
  pub write_to-chunks :
      (ps : List Bytes) (fuel : ℕ) (cr : ChunkReader) (w : Sink) (n : ℕ)
      → length ps < fuel
      → IsReading a cr
      → IsReliable w
      → All IsPayload ps
      → content cr.reader ≡ chunks a cr.counter ps
      → ending cr.reader ≡ eof
      → (c : ReadConverter) × (write_to crypto fuel (record { cr = cr; leftover = [] }) w n
          ≡ some (
            c,
            record { written = w.written ++ concat ps; outcomes = [] },
            n + length (concat ps),
            none,
          ))
  unfolding chunks
  write_to-chunks ps zero cr w n h r rel valid c e = absurd (omega arith)
  write_to-chunks [] (suc fuel) cr w n h r rel valid c e =
      ended (read_chunk crypto cr) (read_chunk_end cr r c e) (write_to_lem fuel cr w n)
    where
      same : w ≡ record { written = w.written ++ []; outcomes = [] }
      same = ap₂ (λ x o. record { written = x; outcomes = o }) (sym (append-nil w.written)) rel

      ended :
          (x : ChunkReader × Result Bytes)
          → x.1 ≡ err eof
          → write_to crypto (suc fuel) (record { cr = cr; leftover = [] }) w n
            ≡ round fuel w n (keep_chunk x)
          → (c : ReadConverter) × (write_to crypto
                (suc fuel)
                (record { cr = cr; leftover = [] })
                w
                n
              ≡ some (c, record { written = w.written ++ []; outcomes = [] }, n + 0, none))
      ended (cr', r) end step = (
        record { cr = cr'; leftover = [] },
        step
            ∙ ap (λ r. round fuel w n (keep_chunk (cr', r))) end
            ∙ ap₂ (λ v k. some (record { cr = cr'; leftover = [] }, v, k, none)) same (omega arith),
      )
  write_to-chunks (p ∷ ps) (suc fuel) cr w n h r rel valid c e =
      let (cr', got, r', more, end, counter) =
        read_chunk-chunk crypto a cr p (chunks a (increment (increment cr.counter)) ps) r valid.0
          c in
      let (d, rest) =
        write_to-chunks ps fuel cr' (record { written = w.written ++ p; outcomes = [] })
          (n + length p) (omega arith) r' refl valid.1
          (more ∙ ap (λ k. chunks a k ps) (sym counter)) (end ∙ e) in
      (
        d,
        write_to_lem fuel cr w n
            ∙ ap (λ x. round fuel w n (keep_chunk x)) got
            ∙ written_chunk fuel cr' p w n rel
            ∙ rest
            ∙ ap₂ (λ v k. some (d, record { written = v; outcomes = [] }, k, none))
                (append_assoc w.written p (concat ps)) (omega (arith, length-append p (concat ps))),
      )

payloads_le : (ps : List Bytes) → All IsPayload ps → length ps ≤ length (concat ps)
payloads_le [] v = omega arith
payloads_le (p ∷ ps) v = omega (arith, payloads_le ps v.1, length-append p (concat ps), v.0.0)

-- A fresh reader that finds the salt of its cipher goes on as a reader in the middle of the stream.
fresh-IsReading :
    (crypto : Crypto) (a : Aead) (salt more : Bytes) (src : Source) (cipher : Cipher)
    → IsPlain src
    → length salt ≡ salt_size cipher
    → new_aead crypto cipher salt ≡ ok a
    → IsStandard a
    → content src ≡ salt ++ more
    → (cr : ChunkReader) × (read_chunk crypto (new_chunk_reader src cipher 16)
        ≡ read_chunk crypto cr)
      × IsReading a cr
      × (content cr.reader ≡ more)
      × (ending cr.reader ≡ ending src)
      × (cr.counter ≡ replicate 12 0)
unfolding read_chunk new_chunk_reader
fresh-IsReading crypto a salt more src cipher plain size made s c =
    let fresh = new_chunk_reader src cipher 16 in
    let (r1, read, rest, end, plain1) =
      read_full-ok (salt_size cipher) src plain
        (omega (arith, ap length c, length-append salt more, size)) in
    let cr : ChunkReader = record fresh {
      reader = r1;
      aead = some a;
      counter = replicate a.nonce_size 0;
    } in
    let drawn : take (salt_size cipher) (content src) ≡ salt =
      ap (take (salt_size cipher)) c ∙ take-append (salt_size cipher) salt more size in
    (
      cr,
      ap after_init (
          ap (init_salt crypto fresh) read
          ∙ ap (λ b. init_aead crypto (record fresh { reader = r1 }) (new_aead crypto cipher b))
              drawn
          ∙ ap (init_aead crypto (record fresh { reader = r1 })) made),
      record { aead = refl; standard = s; plain = plain1; capacity = omega arith },
      rest ∙ ap (drop (salt_size cipher)) c ∙ drop-append (salt_size cipher) salt more size,
      end,
      ap (λ n. replicate n 0) s.nonce_size,
    )

abbrev writer_of : Writer → Option (Writer × ℕ × Option Error × Source) → Writer
writer_of sw none = sw
writer_of sw (some x) = x.0

received :
    (crypto : Crypto) (a : Aead) (salt : Bytes) (src : Source) (cipher : Cipher) (ps : List Bytes)
    (text : Bytes) (fuel : ℕ) (w : Sink)
    → concat ps ≡ text
    → All IsPayload ps
    → IsPlain src
    → length salt ≡ salt_size cipher
    → new_aead crypto cipher salt ≡ ok a
    → IsStandard a
    → content src ≡ messages a salt (replicate 12 0) ps
    → ending src ≡ eof
    → 0 < length text
    → 2 * length text < 256 ^ 12
    → length text < fuel
    → IsReliable w
    → (c : ReadConverter) × (write_to crypto fuel
          (record { cr = new_chunk_reader src cipher 16; leftover = [] })
          w
          0
        ≡ some (c, record { written = w.written ++ text; outcomes = [] }, length text, none))
received crypto a salt src cipher [] text fuel w all v plain size made s sent end pos bound enough
      rel =
    absurd (omega (arith, ap length all))
received crypto a salt src cipher (p ∷ ps) text zero w all v plain size made s sent end pos bound
      enough rel =
    absurd (omega arith)
received crypto a salt src cipher (p ∷ ps) text (suc fuel) w all v plain size made s sent end pos
      bound enough rel =
    let few = payloads_le (p ∷ ps) v in
    let long = ap length all in
    let c = sent ∙ messages_from_start a salt p ps (omega (arith, few, long)) in
    let (cr, first, reading, more, end', counter) =
      fresh-IsReading crypto a salt (chunks a (replicate 12 0) (p ∷ ps)) src cipher plain size made
        s c in
    let (d, copied) =
      write_to-chunks crypto a (p ∷ ps) (suc fuel) cr w 0 (omega (arith, few, long)) reading rel v
        (more ∙ ap (λ k. chunks a k (p ∷ ps)) (sym counter)) (end' ∙ end) in
    (
      d,
      write_to_lem crypto a fuel (new_chunk_reader src cipher 16) w 0
          ∙ ap (λ x. round crypto a fuel w 0 (keep_chunk x)) first
          ∙ sym (write_to_lem crypto a fuel cr w 0)
          ∙ copied
          ∙ ap₂ (λ v k. some (d, record { written = w.written ++ v; outcomes = [] }, k, none)) all
              (omega (arith, long)),
    )

-- The protocol end to end, over reliable connections whose errors come by themselves. A ready writer
-- that has sent nothing yet sends what is queued and all that a source gives, at least one byte; whatever pieces the connection delivers those bytes in, a fresh reader of the same
-- cipher hands on exactly the same plaintext, complete and in order, counts it, and ends without an
-- error when the connection ends. The amount is limited only so that the counter cannot wrap.
pub write_to-read_from_ready :
    (crypto : Crypto) (rnd : Random) (flushed : Bool) (a : Aead) (salt : Bytes) (sw sw' : Writer)
    (r r' src : Source) (n fuel : ℕ) (e : Option Error) (w : Sink)
    → IsReady a salt sw
    → (sw.need_flush ≡ false → sw.pending ≡ 0)
    → sw.counter ≡ replicate 12 0
    → sw.writer.written ≡ []
    → new_aead crypto sw.cipher salt ≡ ok a
    → read_from crypto rnd flushed sw r ≡ some (sw', n, e, r')
    → IsPlain src
    → content src ≡ sw'.writer.written
    → ending src ≡ eof
    → 0 < length (held sw a ++ content r)
    → 2 * length (held sw a ++ content r) < 256 ^ 12
    → length (held sw a ++ content r) < fuel
    → IsReliable w
    → (c : ReadConverter) × (write_to crypto fuel
          (record { cr = new_chunk_reader src sw.cipher 16; leftover = [] })
          w
          0
        ≡ some (
          c,
          record { written = w.written ++ (held sw a ++ content r); outcomes = [] },
          length (held sw a ++ content r),
          none,
        ))
write_to-read_from_ready crypto rnd flushed a salt sw sw' r r' src n fuel e w ready idle start empty
      made ran plain wire end some_data bound enough rel =
    let f = read_from-ReadsFrom crypto rnd flushed a salt sw r ready idle in
    let same : f.sw' ≡ sw' = ap (writer_of sw) (sym f.returns ∙ ran) in
    let sent : content src ≡ messages a salt (replicate 12 0) f.payloads =
      wire
      ∙ sym (ap (λ x. x.writer.written) same)
      ∙ f.sends.written
      ∙ ap₂ (λ x c. x ++ messages a salt c f.payloads) empty start in
    received crypto a salt src sw.cipher f.payloads (held sw a ++ content r) fuel w f.all
      f.sends.payloads plain ready.salt_length made ready.standard sent end some_data bound enough
      rel
