-- ===== src/Shadowsocks/Crypto.antt =====
-- The cryptographic libraries that shadowsocks/cipher.go and service/server_salt.go call, as
-- parameters: crypto/aes, crypto/cipher, chacha20poly1305, hkdf, hmac, sha1 and md5. `IsCrypto`
-- states what their documentation promises and the code relies on.
use ssgo.Prelude.{ℕ, ◌+◌, ◌*◌, ◌≤◌, ◌≡◌, ◌⊎◌, Bytes, length}
use ssgo.Io.{Result, ok}

-- The interface cipher.AEAD; no call of the code passes additional data.
pub record Aead : Type 0 where
  pub nonce_size : ℕ
  pub overhead : ℕ
  -- Seal(nil, nonce, plaintext, nil) and Open(nil, nonce, ciphertext, nil).
  pub seal : Bytes → Bytes → Bytes
  pub unseal : Bytes → Bytes → Result Bytes

-- The interface cipher.Block, which the code only hands on.
pub record Block : Type 0 where
  pub block_size : ℕ
  pub encrypt : Bytes → Bytes

pub record Crypto : Type 0 where
  pub chacha20_poly1305 : Bytes → Result Aead
  pub aes_cipher : Bytes → Result Block
  pub gcm : Block → Result Aead
  -- secret, salt, info, length: hkdf.New with SHA-1, read in full.
  pub hkdf : Bytes → Bytes → Bytes → ℕ → Result Bytes
  -- key, message: HMAC-SHA1.
  pub hmac : Bytes → Bytes → Bytes
  pub md5 : Bytes → Bytes

-- An AEAD opens what it sealed, and a sealed message is longer by the overhead.
pub record IsAead (a : Aead) : Type 0 where
  pub length-seal : (nonce p : Bytes) → length (a.seal nonce p) ≡ length p + a.overhead
  pub unseal-seal : (nonce p : Bytes) → a.unseal nonce (a.seal nonce p) ≡ ok p
  pub length-unseal :
      (nonce c : Bytes) {p : Bytes} → a.unseal nonce c ≡ ok p → length p + a.overhead ≡ length c

-- The sizes that RFC 8439 and the GCM of crypto/cipher fix.
pub record IsStandard (a : Aead) : Type 0 where
  pub aead : IsAead a
  pub nonce_size : a.nonce_size ≡ 12
  pub overhead : a.overhead ≡ 16

pub record IsCrypto (crypto : Crypto) : Type 0 where
  pub chacha20_poly1305-IsStandard :
      (key : Bytes)
      → length key ≡ 32
      → (a : Aead) × (crypto.chacha20_poly1305 key ≡ ok a) × IsStandard a
  -- AES takes keys of 16, 24 and 32 bytes, and GCM takes every AES block.
  pub gcm-IsStandard :
      (key : Bytes)
      → (length key ≡ 16) ⊎ ((length key ≡ 24) ⊎ (length key ≡ 32))
      → (b : Block) × (crypto.aes_cipher key ≡ ok b)
        × ((a : Aead) × (crypto.gcm b ≡ ok a) × IsStandard a)
  -- HKDF gives up to 255 blocks of the hash.
  pub hkdf-length :
      (secret salt info : Bytes) (n : ℕ)
      → n ≤ 255 * 20
      → (key : Bytes) × (crypto.hkdf secret salt info n ≡ ok key) × (length key ≡ n)
  pub length-hmac : (key m : Bytes) → length (crypto.hmac key m) ≡ 20
  pub length-md5 : (m : Bytes) → length (crypto.md5 m) ≡ 16
