-- ===== src/Shadowsocks/Client/PacketConn.antt =====
-- shadowsocks/client/packet_listener.go: what a client sends to the proxy and reads from it. A buffer
-- of the pool is an argument, as its content is left over from its last use.
use ssgo.Prelude.{
  ℕ, ◌+◌, ◌-◌, ◌*◌, [], ◌++◌, Option, none, some, ltb, leb, if◌then◌else◌, Bytes, length, take,
  drop, splice,
}
use ssgo.Io.{
  Error, Result, ok, err, short_buffer, new, wrap, failed_to_parse_target_address,
  failed_to_read_source_address, endpoint_must_not_be_nil, cipher_must_not_be_nil,
  could_not_connect_to_endpoint,
}
use ssgo.Shadowsocks.Crypto.{Crypto}
use ssgo.Shadowsocks.Cipher.{Cipher, salt_size}
use ssgo.Shadowsocks.Salt.{Random}
use ssgo.Shadowsocks.Packet.{pack, unpack}

abbrev pub client_udp_buffer_size : ℕ
client_udp_buffer_size = 16 * 1024

-- The listener; an endpoint is what its Connect gives.
pub record PacketListener : Type 0 where
  pub endpoint : Option Error
  pub cipher : Cipher

unfoldable pub new_packet_listener : Option (Option Error) → Option Cipher → Result PacketListener
new_packet_listener none cipher = err (new endpoint_must_not_be_nil)
new_packet_listener (some endpoint) none = err (new cipher_must_not_be_nil)
new_packet_listener (some endpoint) (some cipher) =
    ok (record { endpoint = endpoint; cipher = cipher })

-- ListenPacket: the connection's cipher is all of its own state.
unfoldable pub listen_packet : PacketListener → Result Cipher
listen_packet c = elim c.endpoint [
  | some e ↦ err (wrap could_not_connect_to_endpoint e)
  | none ↦ ok c.cipher
]

-- append(append(buf[start:start], xs...), ys...): what does not fit the buffer is put elsewhere.
unfoldable pub append_behind : ℕ → Bytes → Bytes → Bytes → Bytes
append_behind start xs ys buf =
    if leb (start + length (xs ++ ys)) (length buf)
    then splice start (xs ++ ys) buf
    else if leb (start + length xs) (length buf)
    then splice start xs buf
    else buf

-- What WriteTo gives: the count, the error, and what was handed to the connection.
abbrev pub written : (Bytes → Option Error) → ℕ → Result Bytes → ℕ × Option Error × Option Bytes
written send n (err e) = (0, some e, none)
written send n (ok buf) = (n, send buf, some buf)

module _ (crypto : Crypto) (cipher : Cipher) where
  abbrev pub write_addressed :
      Random
      → (Bytes → Option Error)
      → Bytes
      → Bytes
      → Option Bytes
      → ℕ × Option Error × Option Bytes
  write_addressed rnd send cipher_buf b none = (0, some (new failed_to_parse_target_address), none)
  write_addressed rnd send cipher_buf b (some tgt_addr) = written send (length b) (
      pack crypto rnd (append_behind (salt_size cipher) tgt_addr b cipher_buf) (tgt_addr ++ b)
        cipher)

  -- WriteTo(b, addr), with socks.ParseAddr as `parse_addr` and the connection's Write as `send`.
  unfoldable pub write_to :
      Random
      → (Bytes → Option Bytes)
      → (Bytes → Option Error)
      → Bytes
      → Bytes
      → Bytes
      → ℕ × Option Error × Option Bytes
  unfolding append_behind
  write_to rnd parse_addr send cipher_buf b addr =
      write_addressed rnd send cipher_buf b (parse_addr addr)

  -- The bytes copied, the source's address, and the error.
  abbrev pub read_addressed : ℕ → Bytes → Option Bytes → Bytes × Option Bytes × Option Error
  read_addressed room buf none = ([], none, some (new failed_to_read_source_address))
  read_addressed room buf (some src_addr) = (
    take room (drop (length src_addr) buf),
    some src_addr,
    if ltb room (length buf - length src_addr) then some short_buffer else none,
  )

  abbrev pub read_text :
      (Bytes → Option Bytes) → ℕ → Result Bytes → Bytes × Option Bytes × Option Error
  read_text split_addr room (err e) = ([], none, some e)
  read_text split_addr room (ok buf) = read_addressed room buf (split_addr buf)

  -- ReadFrom into `room` bytes: a datagram longer than the buffer loses its end.
  unfoldable pub read_from :
      (Bytes → Option Bytes) → ℕ → Result Bytes → Bytes × Option Bytes × Option Error
  read_from split_addr room (err e) = ([], none, some e)
  read_from split_addr room (ok pkt) =
      read_text split_addr room (unpack crypto none (take client_udp_buffer_size pkt) cipher)
