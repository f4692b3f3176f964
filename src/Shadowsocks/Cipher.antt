-- ===== src/Shadowsocks/Cipher.antt =====
-- shadowsocks/cipher.go: the table of AEAD ciphers, key derivation, and one-shot decryption.
-- A panic of the package's initialisation is an error here.
pub mod Table
pub mod Keys
use ssgo.Prelude.{
  ℕ, zero, suc, ◌+◌, ◌-◌, ◌≤◌, ◌≡◌, Bool, List, [], ◌∷◌, ◌++◌, Option, none, some, map, ◌&&◌, ltb,
  leb, if◌then◌else◌, Bytes, codes, bytes_equal, length, take, drop, replicate,
}
use ssgo.Io.{Error, Result, ok, err, ◌>>=◌, new, unexpected_eof, short_buffer, unknown_cipher}
use ssgo.Shadowsocks.Crypto.{Aead, Block, Crypto}

pub record AeadSpec : Type 0 where
  pub name : Bytes
  pub new_instance : Bytes → Result Aead
  pub key_size : ℕ
  pub salt_size : ℕ
  pub tag_size : ℕ

-- Cipher encapsulates a Shadowsocks AEAD spec and a secret.
pub record Cipher : Type 0 where
  pub aead : AeadSpec
  pub secret : Bytes

unfoldable pub salt_size : Cipher → ℕ
salt_size c = c.aead.salt_size

unfoldable pub tag_size : Cipher → ℕ
tag_size c = c.aead.tag_size

abbrev pub subkey_info : Bytes
subkey_info = codes "ss-subkey"

-- strings.ToLower on ASCII bytes; the names of the table are ASCII.
unfoldable pub to_lower : Bytes → Bytes
to_lower [] = []
to_lower (c ∷ cs) = (if leb b'A' c && leb c b'Z' then c + 32 else c) ∷ to_lower cs

unfoldable pub new_aead_spec : Bytes → (Bytes → Result Aead) → ℕ → ℕ → Result AeadSpec
new_aead_spec name new_instance key_size salt_size = do
  dummy_aead ← new_instance (replicate key_size 0)
  ok (record {
    name = name;
    new_instance = new_instance;
    key_size = key_size;
    salt_size = salt_size;
    tag_size = dummy_aead.overhead;
  })

unfoldable pub find_aead_spec : Bytes → List AeadSpec → Result AeadSpec
find_aead_spec name [] = err (new unknown_cipher)
find_aead_spec name (spec ∷ specs) =
    if bytes_equal spec.name name then ok spec else find_aead_spec name specs

unfoldable pub get_aead_spec : List AeadSpec → Bytes → Result AeadSpec
unfolding to_lower find_aead_spec
get_aead_spec specs name = find_aead_spec (to_lower name) specs

unfoldable pub supported_cipher_names : List AeadSpec → List Bytes
supported_cipher_names specs = map (λ spec. spec.name) specs

unfoldable pub max_tag_size_from : ℕ → List AeadSpec → ℕ
max_tag_size_from max [] = max
max_tag_size_from max (spec ∷ specs) =
    max_tag_size_from (if ltb max spec.tag_size then spec.tag_size else max) specs

unfoldable pub max_tag_size : List AeadSpec → ℕ
unfolding max_tag_size_from
max_tag_size specs = max_tag_size_from 0 specs

-- zeroNonce[:n]
abbrev pub zero_nonce : ℕ → Bytes
zero_nonce n = take n (replicate 12 0)

module _ (crypto : Crypto) where
  unfoldable pub new_aes_gcm : Bytes → Result Aead
  new_aes_gcm key = do blk ← crypto.aes_cipher key; crypto.gcm blk

  unfoldable pub supported_aeads : Result (List AeadSpec)
  unfolding new_aead_spec new_aes_gcm
  supported_aeads = do
    chacha ← new_aead_spec (codes "chacha20-ietf-poly1305") crypto.chacha20_poly1305 32 32
    aes256 ← new_aead_spec (codes "aes-256-gcm") new_aes_gcm 32 32
    aes192 ← new_aead_spec (codes "aes-192-gcm") new_aes_gcm 24 24
    aes128 ← new_aead_spec (codes "aes-128-gcm") new_aes_gcm 16 16
    ok (chacha ∷ aes256 ∷ aes192 ∷ aes128 ∷ [])

  -- NewAEAD creates the AEAD for this cipher and this salt.
  unfoldable pub new_aead : Cipher → Bytes → Result Aead
  new_aead c salt = do
    session_key ← crypto.hkdf c.secret salt subkey_info c.aead.key_size
    c.aead.new_instance session_key

  -- The loop of simpleEVPBytesToKey: `di` is the last digest, and the hash is fed `di` and `data`.
  -- One round on each unit of fuel; `none` when it runs out.
  unfoldable pub evp_loop : ℕ → Bytes → ℕ → Bytes → Bytes → Option Bytes
  evp_loop zero secret key_len derived di = none
  evp_loop (suc fuel) secret key_len derived di =
      let di' = crypto.md5 (di ++ secret) in
      let derived' = derived ++ di' in
      let rest = evp_loop fuel secret key_len derived' (drop (length derived' - 16) derived') in
      if ltb (length derived) key_len then rest else some (take key_len derived)

  -- A round adds 16 bytes, so `key_len + 1` rounds are more than enough.
  unfoldable pub simple_evp_bytes_to_key : Bytes → ℕ → Option Bytes
  unfolding evp_loop
  simple_evp_bytes_to_key secret key_len = evp_loop (key_len + 1) secret key_len [] []

  abbrev with_key : AeadSpec → Option Bytes → Option (Result Cipher)
  with_key spec none = none
  with_key spec (some key) = some (ok (record { aead = spec; secret = key }))

  -- NewCipher; `none` would be a key derivation that does not end.
  unfoldable pub new_cipher : List AeadSpec → Bytes → Bytes → Option (Result Cipher)
  unfolding get_aead_spec simple_evp_bytes_to_key
  new_cipher specs cipher_name secret_text = elim (get_aead_spec specs cipher_name) [
    | err e ↦ some (err e)
    | ok spec ↦ with_key spec (simple_evp_bytes_to_key secret_text spec.key_size)
  ]

  -- DecryptOnce(cipher, salt, plainText, cipherText), where `room` is cap(plainText): the decrypted
  -- bytes stand behind those of `plain_text`.
  unfoldable pub decrypt_once : Cipher → Bytes → Bytes → ℕ → Bytes → Result Bytes
  unfolding new_aead
  decrypt_once cipher salt plain_text room cipher_text = do
    aead ← new_aead cipher salt
    if ltb (length cipher_text) aead.overhead
        then err unexpected_eof
        else if ltb (room - length plain_text) (length cipher_text - aead.overhead)
        then err short_buffer
        else (aead.unseal (zero_nonce aead.nonce_size) cipher_text >>= λ opened.
            ok (plain_text ++ opened))
