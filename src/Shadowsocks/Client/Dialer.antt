-- ===== src/Shadowsocks/Client/Dialer.antt =====
-- shadowsocks/client/stream_dialer.go: Dial queues the address of the target, and sends it together
-- with what the client writes first, or when the delayed Flush comes. A proxy connection is what it
-- delivers and what reached it.
pub mod Delivers
use ssgo.Prelude.{ℕ, Option, none, some, [], Bytes}
use ssgo.Io.{
  Error, Result, ok, err, new, Source, Sink, failed_to_parse_target_address,
  failed_to_write_target_address, endpoint_must_not_be_nil, cipher_must_not_be_nil,
}
use ssgo.Shadowsocks.Crypto.{Crypto}
use ssgo.Shadowsocks.Cipher.{Cipher}
use ssgo.Shadowsocks.Salt.{Random, SaltGenerator}
use ssgo.Shadowsocks.Writer.{Writer, new_shadowsocks_writer, set_salt_generator, lazy_write}
use ssgo.Shadowsocks.Reader.{ReadConverter, new_chunk_reader}

-- An endpoint is what its Connect gives.
pub record StreamDialer : Type 0 where
  pub endpoint : Result (Source × Sink)
  pub cipher : Cipher
  pub salter : Option SaltGenerator

unfoldable pub new_stream_dialer :
    Option (Result (Source × Sink)) → Option Cipher → Result StreamDialer
new_stream_dialer none cipher = err (new endpoint_must_not_be_nil)
new_stream_dialer (some endpoint) none = err (new cipher_must_not_be_nil)
new_stream_dialer (some endpoint) (some cipher) =
    ok (record { endpoint = endpoint; cipher = cipher; salter = none })

unfoldable pub set_tcp_salt_generator : Option SaltGenerator → StreamDialer → StreamDialer
set_tcp_salt_generator salter c = record c { salter = salter }

-- No connection was made; it was closed again; or its two converters.
pub data Dialed : Type 0 where
  not_connected closed : Error → Dialed
  connection : ReadConverter → Writer → Dialed

abbrev pub salted_by : Option SaltGenerator → Writer → Writer
salted_by none ssw = ssw
salted_by (some salter) ssw = set_salt_generator ssw salter

abbrev pub after_hello : Cipher → ℕ → Source → Option (Writer × ℕ × Option Error) → Option Dialed
after_hello cipher max_tag_size input none = none
after_hello cipher max_tag_size input (some (ssw, n, some e)) =
    some (closed (new failed_to_write_target_address))
after_hello cipher max_tag_size input (some (ssw, n, none)) =
    some
      (connection (record { cr = new_chunk_reader input cipher max_tag_size; leftover = [] }) ssw)

module _ (crypto : Crypto) where
  abbrev pub over : Random → ℕ → StreamDialer → Bytes → Result (Source × Sink) → Option Dialed
  over rnd max_tag_size c tgt_addr (err e) = some (not_connected e)
  over rnd max_tag_size c tgt_addr (ok (input, output)) =
      after_hello c.cipher max_tag_size input (
        lazy_write crypto rnd (salted_by c.salter (new_shadowsocks_writer output c.cipher))
          tgt_addr)

  abbrev pub to_address : Random → ℕ → StreamDialer → Option Bytes → Option Dialed
  to_address rnd max_tag_size c none = some (not_connected (new failed_to_parse_target_address))
  to_address rnd max_tag_size c (some tgt_addr) = over rnd max_tag_size c tgt_addr c.endpoint

  -- Dial, with socks.ParseAddr as `parse_addr`; `none` would be a LazyWrite that does not end.
  unfoldable pub dial : Random → ℕ → (Bytes → Option Bytes) → StreamDialer → Bytes → Option Dialed
  dial rnd max_tag_size parse_addr c remote_addr =
      to_address rnd max_tag_size c (parse_addr remote_addr)
