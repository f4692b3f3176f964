-- ===== src/Tests/Toy.antt =====
-- A stand-in for the cryptographic libraries, which keeps the promises of `IsCrypto`: the tag of a
-- message is the key's first byte, sixteen times.
use ssgo.Prelude.{
  ℕ, ◌+◌, ◌≡◌, refl, [], ◌∷◌, ◌++◌, arith, ltb, if◌then◌else◌, Bytes, codes, bytes_equal,
  bytes_equal_refl, length, take, drop, replicate, length-append, length-replicate, length-drop,
  take-append, drop-append,
}
use ssgo.Io.{Result, ok, err, external}
use ssgo.Shadowsocks.Crypto.{Aead, Crypto, IsStandard, IsCrypto}
use ssgo.Shadowsocks.Cipher.{AeadSpec, Cipher}
use ssgo.Shadowsocks.Cipher.Table.{IsUsable}
use ssgo.Shadowsocks.Salt.{Random, IsRandom}

abbrev pub first : Bytes → ℕ
first [] = 0
first (b ∷ bs) = b

abbrev pub toy_tag : ℕ → Bytes
toy_tag k = replicate 16 k

abbrev pub toy_unseal : ℕ → Bytes → Bytes → Result Bytes
toy_unseal k nonce c =
    if ltb (length c) 16
    then err (external 1)
    else if bytes_equal (take 16 c) (toy_tag k)
    then ok (drop 16 c)
    else err (external 1)

abbrev pub toy_aead : ℕ → Aead
toy_aead k = record {
  nonce_size = 12;
  overhead = 16;
  seal = λ nonce p. toy_tag k ++ p;
  unseal = toy_unseal k;
}

toy_unseal-seal : (k : ℕ) (nonce p : Bytes) → toy_unseal k nonce (toy_tag k ++ p) ≡ ok p
toy_unseal-seal k nonce p = ground (
  arith,
  length-append (toy_tag k) p,
  length-replicate 16 k,
  take-append 16 (toy_tag k) p (length-replicate 16 k),
  drop-append 16 (toy_tag k) p (length-replicate 16 k),
  bytes_equal_refl (toy_tag k),
)

toy_unseal-length :
    (k : ℕ) (nonce c : Bytes) {p : Bytes} → toy_unseal k nonce c ≡ ok p → length p + 16 ≡ length c
toy_unseal-length k nonce c h = ground (arith, length-drop 16 c)

pub toy_aead-IsStandard : (k : ℕ) → IsStandard (toy_aead k)
toy_aead-IsStandard k = record {
  aead = record {
    length-seal = λ nonce p. omega (arith, length-append (toy_tag k) p, length-replicate 16 k);
    unseal-seal = toy_unseal-seal k;
    length-unseal = λ nonce c h. toy_unseal-length k nonce c h;
  };
  nonce_size = refl;
  overhead = refl;
}

abbrev pub toy : Crypto
toy = record {
  chacha20_poly1305 = λ key. ok (toy_aead (first key));
  aes_cipher = λ key. ok (record { block_size = 16; encrypt = λ p. replicate 16 (first key) });
  gcm = λ b. ok (toy_aead (first (b.encrypt [])));
  hkdf = λ secret salt info n. ok (replicate n (first secret));
  hmac = λ key m. replicate 20 (first key + first m);
  md5 = λ m. replicate 16 (first m);
}

pub toy-IsCrypto : IsCrypto toy
toy-IsCrypto = record {
  chacha20_poly1305-IsStandard =
      λ key h. (toy_aead (first key), refl, toy_aead-IsStandard (first key));
  gcm-IsStandard = λ key h. (
    record { block_size = 16; encrypt = λ p. replicate 16 (first key) },
    refl,
    (toy_aead (first key), refl, toy_aead-IsStandard (first key)),
  );
  hkdf-length =
      λ secret salt info n h. (replicate n (first secret), refl, length-replicate n (first secret));
  length-hmac = λ key m. length-replicate 20 (first key + first m);
  length-md5 = λ m. length-replicate 16 (first m);
}

abbrev pub aes128 : AeadSpec
aes128 = record {
  name = codes "aes-128-gcm";
  new_instance = λ key. ok (toy_aead (first key));
  key_size = 16;
  salt_size = 16;
  tag_size = 16;
}

pub aes128-IsUsable : IsUsable aes128
aes128-IsUsable = record {
  tag_size = refl;
  key_size = omega arith;
  salt_least = omega arith;
  salt_most = omega arith;
  new_instance = λ key h. (toy_aead (first key), refl, toy_aead-IsStandard (first key));
}

-- A cipher whose session keys begin with `k`.
abbrev pub toy_cipher : ℕ → Cipher
toy_cipher k = record { aead = aes128; secret = replicate 16 k }

abbrev pub toy_random : Random
toy_random n = ok (replicate n 9)

pub toy_random-IsRandom : IsRandom toy_random
toy_random-IsRandom n bs h = ground (arith, length-replicate {A = ℕ} n 9)
