-- ===== src/Shadowsocks/Writer.antt =====
-- shadowsocks/stream.go, Writer: buffers plaintext, encrypts it in place, and writes it as chunks
-- of a sealed length and a sealed payload, the salt before the first. Slices of `sw.buf` are offsets
-- into it; Seal appends in place because the buffer has room for the tag behind every slice.
-- The mutex is held throughout each function here, but for one Read in `read_from`, during which
-- another thread may call `flush_pending`.
pub mod Flush
pub mod Sends
pub mod Enqueue
pub mod Transfer
pub mod ReadFrom
pub mod Total
pub mod Lazy
use ssgo.Prelude.{
  ℕ, zero, suc, ◌+◌, ◌-◌, ◌/◌, ◌%◌, ◌≤◌, Bool, true, false, not, min, Option, none, some, List, [],
  ◌∷◌, ◌++◌, ◌==◌, if◌then◌else◌, Bytes, length, take, drop, replicate, splice,
}
use ssgo.Io.{
  Error, Result, ok, err, eof, panic, wrap, failed_to_generate_salt, failed_to_create_aead,
  failed_to_read_payload, Source, reads, read, Sink, write, on_error,
}
use ssgo.Shadowsocks.Crypto.{Aead, Crypto}
use ssgo.Shadowsocks.Cipher.{Cipher, salt_size, new_aead}
use ssgo.Shadowsocks.Salt.{Random, SaltGenerator, random_salt_generator}
use ssgo.Shadowsocks.Nonce.{increment, is_zero}

-- payloadSizeMask, the maximum size of a payload.
abbrev pub payload_size_mask : ℕ
payload_size_mask = 0x3fff

-- `buf`, `counter` and `aead` are made by `init`; `none` is nil.
pub record Writer : Type 0 where
  pub need_flush : Bool
  pub writer : Sink
  pub cipher : Cipher
  pub salt_generator : Option SaltGenerator
  pub pending : ℕ
  pub buf : Bytes
  pub aead : Option Aead
  pub counter : Bytes

unfoldable pub new_shadowsocks_writer : Sink → Cipher → Writer
new_shadowsocks_writer writer cipher = record {
  need_flush = false;
  writer = writer;
  cipher = cipher;
  salt_generator = some random_salt_generator;
  pending = 0;
  buf = [];
  aead = none;
  counter = [];
}

unfoldable pub set_salt_generator : Writer → SaltGenerator → Writer
set_salt_generator sw g = record sw { salt_generator = some g }

-- binary.BigEndian.PutUint16(_, uint16(n))
abbrev pub be16 : ℕ → Bytes
be16 n = ((n / 256) % 256) ∷ (n % 256) ∷ []

-- Where the length and the payload stand in `sw.buf`.
abbrev pub size_start : Writer → ℕ
size_start sw = salt_size sw.cipher

abbrev pub payload_start : Writer → Aead → ℕ
payload_start sw a = salt_size sw.cipher + 2 + a.overhead

module _ (crypto : Crypto) where
  abbrev pub salted : Writer → Result Aead → Bytes → Writer × Option Error
  salted sw (err e) salt = (sw, some (wrap failed_to_create_aead e))
  salted sw (ok a) salt = (
    record sw {
      aead = some a;
      salt_generator = none;
      counter = replicate a.nonce_size 0;
      buf = salt ++ replicate ((2 + a.overhead) + (payload_size_mask + a.overhead)) 0;
    },
    none,
  )

  abbrev pub draw_salt : Writer → Result Bytes → Writer × Option Error
  draw_salt sw (err e) = (sw, some (wrap failed_to_generate_salt e))
  draw_salt sw (ok salt) = salted sw (new_aead crypto sw.cipher salt) salt

  abbrev pub init_with :
      Random → Writer → Option SaltGenerator → Option Aead → Writer × Option Error
  init_with rnd sw g (some a) = (sw, none)
  init_with rnd sw none none = (sw, some panic)
  init_with rnd sw (some g) none = draw_salt sw (g.get_salt rnd (replicate (salt_size sw.cipher) 0))

  -- The method init: draws the salt and sets up the AEAD and the buffer, the first time.
  unfoldable pub init : Random → Writer → Writer × Option Error
  init rnd sw = init_with rnd sw sw.salt_generator sw.aead

-- encryptBlock(sw.buf[start : start+size])
unfoldable pub encrypt_block : Aead → Writer → ℕ → ℕ → Writer × ℕ
encrypt_block a sw start size =
    let out = a.seal sw.counter (take size (drop start sw.buf)) in
    (record sw { buf = splice start out sw.buf; counter = increment sw.counter }, length out)

-- The method flush with a nonzero sw.pending.
unfoldable pub flush_pending : Aead → Writer → Writer × Option Error
unfolding encrypt_block
flush_pending a sw =
    let start = if is_zero sw.counter then 0 else salt_size sw.cipher in
    let sized : Writer = record sw { buf = splice (size_start sw) (be16 sw.pending) sw.buf } in
    let (sw1, size_block_size) = encrypt_block a sized (size_start sw) 2 in
    let (sw2, payload_size) = encrypt_block a sw1 (payload_start sw a) sw.pending in
    let end = salt_size sw.cipher + size_block_size + payload_size in
    let (w, _, e) = write sw2.writer (drop start (take end sw2.buf)) in
    (record sw2 { writer = w; pending = 0 }, e)

abbrev pub flush_with : Writer → Option Aead → Writer × Option Error
flush_with sw none = (sw, some panic)
flush_with sw (some a) = flush_pending a sw

unfoldable pub flush : Writer → Writer × Option Error
flush sw = if sw.pending == 0 then (sw, none) else flush_with sw sw.aead

-- The method Flush.
unfoldable pub flush_if_needed : Writer → Writer × Option Error
flush_if_needed sw = if not sw.need_flush then (sw, none) else flush sw

abbrev pub overhead : Option Aead → ℕ
overhead none = 0
overhead (some a) = a.overhead

-- enqueue: as much of `plaintext` as fits behind what is pending.
unfoldable pub enqueue : Writer → Bytes → Writer × ℕ
enqueue sw plaintext =
    let n = min (payload_size_mask - sw.pending) (length plaintext) in
    let start = salt_size sw.cipher + 2 + overhead sw.aead + sw.pending in
    (record sw { buf = splice start (take n plaintext) sw.buf; pending = sw.pending + n }, n)

abbrev pub prefer : Option Error → Option Error → Option Error
prefer (some e) other = some e
prefer none other = other

-- The loop of LazyWrite; `none` when the fuel runs out.
unfoldable pub lazy_loop : ℕ → Writer → ℕ → Bytes → Option (Writer × ℕ × Option Error)
lazy_loop zero sw queued p = none
lazy_loop (suc fuel) sw queued p =
    let (sw1, n) = enqueue sw p in
    let (sw2, e) = flush sw1 in
    let rest = lazy_loop fuel sw2 (queued + n) (drop n p) in
    if length (drop n p) == 0
    then some (record sw1 { need_flush = true }, queued + n, none)
    else on_error e (λ x. some (sw2, queued + n, some x)) rest

-- Main transfer loop of ReadFrom, and what it returns; `none` when the fuel runs out.
unfoldable pub transfer : ℕ → Writer → ℕ → Source → Option (Writer × ℕ × Error × Source)
transfer zero sw written r = none
transfer (suc fuel) sw written r =
    let (bs, e, r') = read payload_size_mask r in
    let start = salt_size sw.cipher + 2 + overhead sw.aead in
    let filled : Writer = record sw { buf = splice start bs sw.buf; pending = length bs } in
    let (sw', flush_err) = flush filled in
    let rest = transfer fuel sw' (written + length bs) r' in
    on_error (prefer flush_err e) (λ x. some (sw', written + length bs, x, r')) rest

-- The end of ReadFrom: EOF is no error.
abbrev pub read_from_error : Error → Option Error
read_from_error eof = none
read_from_error e = some (wrap failed_to_read_payload e)

-- The one read beside a delayed flush: into the buffer behind what the flush may touch, while
-- `flushed` says whether another thread's Flush ran meanwhile.
unfoldable pub read_beside_flush : Bool → Writer → Source → Writer × ℕ × Option Error × Source
read_beside_flush flushed sw r =
    let start = salt_size sw.cipher + 2 + overhead sw.aead + sw.pending + overhead sw.aead in
    let (bs, e, r') = read (length sw.buf - start) r in
    let filled : Writer = record sw { buf = splice start bs sw.buf } in
    let (sw1, _) = if flushed then flush_if_needed filled else (filled, none) in
    let (sw2, _) = enqueue sw1 (take (length bs) (drop start sw1.buf)) in
    let (sw3, flush_err) = flush sw2 in
    (record sw3 { need_flush = false }, length bs, prefer flush_err e, r')

abbrev pub finish_read_from :
    Option (Writer × ℕ × Error × Source) → Option (Writer × ℕ × Option Error × Source)
finish_read_from none = none
finish_read_from (some (sw, written, e, r)) = some (sw, written, read_from_error e, r)

-- ReadFrom after the read beside a flush.
unfoldable pub after_beside :
    Writer × ℕ × Option Error × Source → Option (Writer × ℕ × Option Error × Source)
after_beside (sw, written, e, r) =
    on_error e (λ x. some (sw, written, read_from_error x, r))
      (finish_read_from (transfer (reads r) sw written r))

-- ReadFrom after init: `flushed` is as in `read_beside_flush`.
unfoldable pub read_from_ready :
    Bool → Writer → Source → Option (Writer × ℕ × Option Error × Source)
read_from_ready flushed sw r =
    if sw.need_flush
    then after_beside (read_beside_flush flushed sw r)
    else finish_read_from (transfer (reads r) sw 0 r)

-- bytes.Reader over p.
abbrev pub bytes_reader : Bytes → Source
bytes_reader [] = []
bytes_reader (b ∷ p) = (b ∷ p, none) ∷ []

module _ (crypto : Crypto) where
  unfoldable pub lazy_write : Random → Writer → Bytes → Option (Writer × ℕ × Option Error)
  unfolding init
  lazy_write rnd sw p =
      let (sw', e) = init crypto rnd sw in
      on_error e (λ x. some (sw', 0, some x)) (lazy_loop (length p + 2) sw' 0 p)

  unfoldable pub read_from :
      Random → Bool → Writer → Source → Option (Writer × ℕ × Option Error × Source)
  unfolding init read_from_ready
  read_from rnd flushed sw r =
      let (sw', e) = init crypto rnd sw in
      on_error e (λ x. some (sw', 0, some x, r)) (read_from_ready flushed sw' r)

  -- Write(p), through ReadFrom.
  unfoldable pub write_plaintext :
      Random → Bool → Writer → Bytes → Option (Writer × ℕ × Option Error)
  unfolding read_from
  write_plaintext rnd flushed sw p = elim (read_from rnd flushed sw (bytes_reader p)) [
    | none ↦ none
    | some (sw', n, e, r) ↦ some (sw', n, e)
  ]
