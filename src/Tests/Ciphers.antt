-- ===== src/Tests/Ciphers.antt =====
-- The ciphers, salts, packets and counters at concrete inputs.
use ssgo.Prelude.{
  ℕ, ◌+◌, ◌≤◌, ◌<◌, ◌≡◌, refl, ◌⊎◌, [], ◌∷◌, ◌++◌, none, some, arith, Bytes, codes, length,
  replicate,
}
use ssgo.Io.{Error, ok, err}
use ssgo.Shadowsocks.Cipher.{Cipher, salt_size, get_aead_spec, new_aead, new_cipher}
use ssgo.Shadowsocks.Cipher.Keys.{IsCipher, new_cipher_total}
use ssgo.Shadowsocks.Salt.{random_get_salt}
use ssgo.Shadowsocks.Packet.{pack, unpack}
use ssgo.Shadowsocks.Packet.RoundTrip.{unpack-pack}
use ssgo.Shadowsocks.Nonce.{increment, value, value-increment}
use ssgo.Tests.Toy.{
  toy, toy-IsCrypto, toy_tag, aes128, aes128-IsUsable, toy_cipher, toy_random, toy_random-IsRandom,
}

abbrev name : Bytes
name = codes "AES-128-gcm"

new_cipher_total_example :
    ((e : Error) × (get_aead_spec (aes128 ∷ []) name ≡ err e)
      × (new_cipher toy (aes128 ∷ []) name (codes "secret") ≡ some (err e)))
    ⊎ ((c : Cipher) × (get_aead_spec (aes128 ∷ []) name ≡ ok c.aead)
        × (new_cipher toy (aes128 ∷ []) name (codes "secret") ≡ some (ok c))
        × IsCipher c)
new_cipher_total_example =
    new_cipher_total toy toy-IsCrypto (aes128 ∷ []) name (codes "secret") (aes128-IsUsable, tt)

abbrev packet : Bytes
packet = replicate 16 9 ++ (toy_tag 5 ++ codes "hello")

packet_is_packed : pack toy toy_random (replicate 40 0) (codes "hello") (toy_cipher 5) ≡ ok packet
unfolding pack new_aead random_get_salt salt_size
packet_is_packed = refl

unpack-pack_example :
    (length packet ≡ salt_size (toy_cipher 5) + 5 + 16)
    × (length packet ≤ 40)
    × (unpack toy none packet (toy_cipher 5) ≡ ok (codes "hello"))
    × ((room : ℕ) → 5 ≤ room → unpack toy (some room) packet (toy_cipher 5) ≡ ok (codes "hello"))
unpack-pack_example =
    unpack-pack toy toy-IsCrypto toy_random (replicate 40 0) (codes "hello") (toy_cipher 5)
      toy_random-IsRandom aes128-IsUsable packet_is_packed

value-increment_example :
    (256 < 65_536 → value (increment (255 ∷ 0 ∷ [])) ≡ 256)
    × (let n : ℕ = 256 in n ≡ 65_536 → value (increment (255 ∷ 0 ∷ [])) ≡ 0)
unfolding value
value-increment_example = value-increment (255 ∷ 0 ∷ []) (omega arith, (omega arith, tt))
