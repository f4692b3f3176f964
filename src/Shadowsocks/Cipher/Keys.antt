-- ===== src/Shadowsocks/Cipher/Keys.antt =====
-- Key derivation: `NewCipher` always ends, the key has the cipher's size, and so an AEAD can be
-- made for every salt.
use ssgo.Prelude.{
  ℕ, zero, suc, ◌+◌, ◌-◌, ◌<◌, ◌≡◌, refl, ◌⊎◌, inl, inr, Bool-cases, List, [], ◌++◌, some, arith,
  ltb, Bytes, length, take, length-append, length-take, All,
}
use ssgo.Io.{Error, ok, err, Result-cases}
use ssgo.Shadowsocks.Crypto.{Aead, Crypto, IsCrypto, IsStandard}
use ssgo.Shadowsocks.Cipher.{
  AeadSpec, Cipher, get_aead_spec, new_aead, evp_loop, simple_evp_bytes_to_key, new_cipher,
  subkey_info,
}
use ssgo.Shadowsocks.Cipher.Table.{IsUsable, get_aead_spec-IsUsable}

-- What the rest of the code relies on in a cipher.
pub record IsCipher (c : Cipher) : Type 0 where
  pub usable : IsUsable c.aead
  pub secret : length c.secret ≡ c.aead.key_size

module _ (crypto : Crypto) (laws : IsCrypto crypto) where
  evp_loop-length :
      (fuel : ℕ) (secret : Bytes) (key_len : ℕ) (derived di : Bytes)
      → key_len - length derived < fuel
      → (key : Bytes) × (evp_loop crypto fuel secret key_len derived di ≡ some key)
        × (length key ≡ key_len)
  unfolding evp_loop
  evp_loop-length zero secret key_len derived di h = absurd (omega arith)
  evp_loop-length (suc fuel) secret key_len derived di h =
      elim (Bool-cases (ltb (length derived) key_len)) [
        | inl more ↦ rw more (
            evp_loop-length fuel secret key_len (derived ++ crypto.md5 (di ++ secret)) _ (
              ground (
                arith,
                length-append derived (crypto.md5 (di ++ secret)),
                laws.length-md5 (di ++ secret),
              )))
        | inr done ↦ (take key_len derived, rw done, ground (arith, length-take key_len derived))
      ]

  -- The derivation of a key from a text ends, with exactly as many bytes as were asked for.
  pub simple_evp_bytes_to_key-length :
      (secret : Bytes) (key_len : ℕ)
      → (key : Bytes) × (simple_evp_bytes_to_key crypto secret key_len ≡ some key)
        × (length key ≡ key_len)
  unfolding simple_evp_bytes_to_key
  simple_evp_bytes_to_key-length secret key_len =
      evp_loop-length (key_len + 1) secret key_len [] [] (omega arith)

  -- NewCipher ends for every name and every text: with an error exactly as the lookup of the name
  -- fails, and else with a cipher over the entry found, whose key has that entry's size.
  pub new_cipher_total :
      (specs : List AeadSpec) (cipher_name secret_text : Bytes)
      → All IsUsable specs
      → ((e : Error) × (get_aead_spec specs cipher_name ≡ err e)
          × (new_cipher crypto specs cipher_name secret_text ≡ some (err e)))
        ⊎ ((c : Cipher) × (get_aead_spec specs cipher_name ≡ ok c.aead)
            × (new_cipher crypto specs cipher_name secret_text ≡ some (ok c))
            × IsCipher c)
  unfolding new_cipher
  new_cipher_total specs cipher_name secret_text u =
      elim (Result-cases (get_aead_spec specs cipher_name)) [
        | inl (spec, found) ↦
            let (key, made, size) = simple_evp_bytes_to_key-length secret_text spec.key_size in
            inr (
              record { aead = spec; secret = key },
              found,
              rw (found, new_cipher) (rw made refl),
              record { usable = get_aead_spec-IsUsable specs cipher_name u found; secret = size },
            )
        | inr (e, missing) ↦ inl (e, missing, rw (missing, new_cipher) refl)
      ]

  -- For such a cipher an AEAD of the standard sizes can be made from any salt.
  pub new_aead-IsStandard :
      (c : Cipher) (salt : Bytes)
      → IsUsable c.aead
      → (a : Aead) × (new_aead crypto c salt ≡ ok a) × IsStandard a
  unfolding new_aead
  new_aead-IsStandard c salt u =
      let (key, derived, size) =
        laws.hkdf-length c.secret salt subkey_info c.aead.key_size (omega (arith, u.key_size)) in
      let (a, made, s) = u.new_instance key size in (a, rw derived made, s)
