-- ===== src/Shadowsocks/Packet.antt =====
-- shadowsocks/packet.go: a datagram is a salt and one sealed message.
pub mod RoundTrip
use ssgo.Prelude.{
  ℕ, ◌+◌, Option, none, some, ◌++◌, ltb, if◌then◌else◌, Bytes, length, take, drop, [],
}
use ssgo.Io.{Result, ok, err, ◌>>=◌, short_buffer, short_packet}
use ssgo.Shadowsocks.Crypto.{Crypto}
use ssgo.Shadowsocks.Cipher.{Cipher, salt_size, new_aead, decrypt_once, zero_nonce}
use ssgo.Shadowsocks.Salt.{Random, random_get_salt}

-- The capacity of the destination: a nil `dst` means decryption in place.
abbrev pub room : Option ℕ → Bytes → ℕ
room none msg = length msg
room (some capacity) msg = capacity

module _ (crypto : Crypto) where
  -- Pack(dst, plaintext, cipher): the packet, which stands at the start of `dst`.
  unfoldable pub pack : Random → Bytes → Bytes → Cipher → Result Bytes
  unfolding salt_size random_get_salt
  pack rnd dst plaintext cipher =
      if ltb (length dst) (salt_size cipher) then err short_buffer else do
        salt ← random_get_salt rnd (take (salt_size cipher) dst)
        aead ← new_aead crypto cipher salt
        if ltb (length dst) (salt_size cipher + length plaintext + aead.overhead)
            then err short_buffer
            else ok (salt ++ aead.seal (zero_nonce aead.nonce_size) plaintext)

  -- Unpack(dst, pkt, cipher), where `dst` is the destination's capacity, if it is not nil.
  unfoldable pub unpack : Option ℕ → Bytes → Cipher → Result Bytes
  unfolding salt_size
  unpack dst pkt cipher =
      if ltb (length pkt) (salt_size cipher)
      then err short_packet
      else let salt = take (salt_size cipher) pkt in
        let msg = drop (salt_size cipher) pkt in
        decrypt_once crypto cipher salt [] (room dst msg) msg
