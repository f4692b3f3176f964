-- ===== src/Shadowsocks/Packet/RoundTrip.antt =====
-- Packing and unpacking are inverse, and every failure is accounted for.
use ssgo.Prelude.{
  ℕ, ap, ◌∙◌, ◌+◌, ◌-◌, ◌≤◌, ◌<◌, ◌≡◌, refl, ◌⊎◌, inl, inr, Option, none, some, ◌++◌, arith, ltb,
  if◌then◌else◌, Bytes, length, take, [], length-append, length-take, take-append, drop-append,
  lt→ltb, Bool-cases, false, ltb→lt,
}
use ssgo.Io.{Error, ok, err, short_buffer, short_packet, unexpected_eof, bind-ok, Result-cases}
use ssgo.Shadowsocks.Crypto.{Aead, Crypto, IsCrypto, IsStandard}
use ssgo.Shadowsocks.Cipher.{Cipher, salt_size, new_aead, decrypt_once, zero_nonce}
use ssgo.Shadowsocks.Cipher.Table.{IsUsable}
use ssgo.Shadowsocks.Cipher.Keys.{new_aead-IsStandard}
use ssgo.Shadowsocks.Salt.{Random, IsRandom}
use ssgo.Shadowsocks.Packet.{pack, unpack, room}

module _ (crypto : Crypto) (laws : IsCrypto crypto) where
  -- One-shot decryption under an AEAD of the standard sizes.
  pub decrypt_once_lem :
      (c : Cipher) (salt : Bytes) (room : ℕ) (msg : Bytes) (a : Aead)
      → new_aead crypto c salt ≡ ok a
      → IsStandard a
      → decrypt_once crypto c salt [] room msg ≡ (
          if ltb (length msg) 16
          then err unexpected_eof
          else if ltb room (length msg - 16)
          then err short_buffer
          else a.unseal (zero_nonce 12) msg)
  unfolding decrypt_once
  decrypt_once_lem c salt room msg a made s =
      let zero_start : room - 0 ≡ room = omega arith in
      rw (made, decrypt_once)
        (rw (s.overhead, s.nonce_size, zero_start, bind-ok (a.unseal (zero_nonce 12) msg)) refl)

  -- `Pack` step by step, once the salt is drawn.
  pub pack_lem :
      (rnd : Random) (dst plaintext salt : Bytes) (c : Cipher) (a : Aead)
      → salt_size c ≤ length dst
      → rnd (salt_size c) ≡ ok salt
      → new_aead crypto c salt ≡ ok a
      → IsStandard a
      → pack crypto rnd dst plaintext c ≡ (
          if ltb (length dst) (salt_size c + length plaintext + 16)
          then err short_buffer
          else ok (salt ++ a.seal (zero_nonce 12) plaintext))
  unfolding pack
  pack_lem rnd dst plaintext salt c a h drawn made s =
      let size : length (take (salt_size c) dst) ≡ salt_size c =
        omega (arith, length-take (salt_size c) dst) in
      let long : ltb (length dst) (salt_size c) ≡ false = ground arith in
      rw (long, pack) (rw (size, drawn, made) (rw (s.overhead, s.nonce_size) refl))

  -- The failures of `Pack` are these two, in this order: the buffer cannot hold the salt, or the
  -- random source fails; the third is `pack_lem`'s.
  pack_fails :
      (rnd : Random) (dst plaintext : Bytes) (c : Cipher) (e : Error)
      → (length dst < salt_size c → pack crypto rnd dst plaintext c ≡ err short_buffer)
        × (salt_size c ≤ length dst
            → rnd (salt_size c) ≡ err e
            → pack crypto rnd dst plaintext c ≡ err e)
  unfolding pack
  pack_fails rnd dst plaintext c e =
      let size : salt_size c ≤ length dst → length (take (salt_size c) dst) ≡ salt_size c =
        λ h. omega (arith, length-take (salt_size c) dst) in
      (
        λ h. rw (lt→ltb _ _ h) refl,
        λ h failed.
            let long : ltb (length dst) (salt_size c) ≡ false = ground arith in
            rw (long, pack) (rw (size h, failed) refl),
      )

  -- What `Pack` does in every case: with less room than salt, plaintext and tag take it reports a
  -- short buffer (or the random source's failure), a failing random source is passed on, and else
  -- the result is the salt and the sealed plaintext, which fill exactly that much of the buffer.
  pub pack_cases :
      (rnd : Random) (dst plaintext : Bytes) (c : Cipher)
      → IsRandom rnd
      → IsUsable c.aead
      → let need = salt_size c + length plaintext + 16 in
        ((length dst < salt_size c) × (pack crypto rnd dst plaintext c ≡ err short_buffer))
        ⊎ (((e : Error) × (rnd (salt_size c) ≡ err e) × (pack crypto rnd dst plaintext c ≡ err e))
            ⊎ ((salt : Bytes) × (a : Aead) × (rnd (salt_size c) ≡ ok salt)
                × (length salt ≡ salt_size c)
                × (new_aead crypto c salt ≡ ok a)
                × IsStandard a
                × (((length dst < need) × (pack crypto rnd dst plaintext c ≡ err short_buffer))
                    ⊎ ((need ≤ length dst)
                        × (pack crypto rnd dst plaintext c
                            ≡ ok (salt ++ a.seal (zero_nonce 12) plaintext))))))
  pack_cases rnd dst plaintext c full u = elim (Bool-cases (ltb (length dst) (salt_size c))) [
    | inl short ↦
        let h = ltb→lt (length dst) (salt_size c) short in
        inl (h, (pack_fails rnd dst plaintext c short_buffer).0 h)
    | inr fits ↦
        let h : salt_size c ≤ length dst = ground arith in
        inr (elim (Result-cases (rnd (salt_size c))) [
          | inr (e, failed) ↦ inl (e, failed, (pack_fails rnd dst plaintext c e).1 h failed)
          | inl (salt, drawn) ↦
              let (a, made, s) = new_aead-IsStandard crypto laws c salt u in
              inr (
                salt,
                a,
                drawn,
                full _ salt drawn,
                made,
                s,
                ground (arith, pack_lem rnd dst plaintext salt c a h drawn made s),
              )
        ])
  ]

  unpack_lem :
      (dst : Option ℕ) (salt msg : Bytes) (c : Cipher) (a : Aead)
      → length salt ≡ salt_size c
      → new_aead crypto c salt ≡ ok a
      → IsStandard a
      → unpack crypto dst (salt ++ msg) c ≡ (
          if ltb (length msg) 16
          then err unexpected_eof
          else if ltb (room dst msg) (length msg - 16)
          then err short_buffer
          else a.unseal (zero_nonce 12) msg)
  unfolding unpack
  unpack_lem dst salt msg c a size made s =
      let long : ltb (length (salt ++ msg)) (salt_size c) ≡ false =
        ground (arith, length-append salt msg) in
      rw (long, unpack)
        (rw (take-append (salt_size c) salt msg size, drop-append (salt_size c) salt msg size)
          (decrypt_once_lem c salt (room dst msg) msg a made s))

  unpack-sealed :
      (dst : Option ℕ) (salt plaintext : Bytes) (c : Cipher) (a : Aead)
      → length salt ≡ salt_size c
      → new_aead crypto c salt ≡ ok a
      → IsStandard a
      → length plaintext ≤ room dst (a.seal (zero_nonce 12) plaintext)
      → unpack crypto dst (salt ++ a.seal (zero_nonce 12) plaintext) c ≡ ok plaintext
  unpack-sealed dst salt plaintext c a size made s h =
      let msg = a.seal (zero_nonce 12) plaintext in
      let longer : length msg ≡ length plaintext + 16 =
        omega (arith, s.aead.length-seal (zero_nonce 12) plaintext, s.overhead) in
      ground (
        arith,
        unpack_lem dst salt msg c a size made s,
        s.aead.unseal-seal (zero_nonce 12) plaintext,
      )

  -- Every packet that `Pack` makes fits its buffer, is longer than the plaintext by the salt and the
  -- tag, and is unpacked to that plaintext again, in place or into any buffer that can hold it.
  pub unpack-pack :
      (rnd : Random) (dst plaintext : Bytes) (c : Cipher) {pkt : Bytes}
      → IsRandom rnd
      → IsUsable c.aead
      → pack crypto rnd dst plaintext c ≡ ok pkt
      → (length pkt ≡ salt_size c + length plaintext + 16)
        × (length pkt ≤ length dst)
        × (unpack crypto none pkt c ≡ ok plaintext)
        × ((room : ℕ) → length plaintext ≤ room → unpack crypto (some room) pkt c ≡ ok plaintext)
  unpack-pack rnd dst plaintext c {pkt} full u h = elim (pack_cases rnd dst plaintext c full u) [
    | inl (_, failed) ↦ ground arith
    | inr (inl (e, _, failed)) ↦ ground arith
    | inr (inr (salt, a, drawn, size, made, s, inl (_, failed))) ↦ ground arith
    | inr (inr (salt, a, drawn, size, made, s, inr (fits, done))) ↦
        let e : salt ++ a.seal (zero_nonce 12) plaintext ≡ pkt = ground arith in
        let long =
          length-append salt (a.seal (zero_nonce 12) plaintext)
          ∙ ap (◌+◌ (length salt)) (s.aead.length-seal (zero_nonce 12) plaintext) in
        rw (← e) (
          omega (arith, long, s.overhead),
          omega (arith, long, s.overhead),
          unpack-sealed none salt plaintext c a size made s
              (omega (arith, s.aead.length-seal (zero_nonce 12) plaintext)),
          λ room h. unpack-sealed (some room) salt plaintext c a size made s h,
        )
  ]

  -- What `Unpack` does in place with any packet: shorter than a salt, it is a short packet; with
  -- less than a tag behind the salt, the end was unexpected; else the AEAD of that salt decides.
  -- Decryption in place never lacks room.
  unpack_cases :
      (salt msg : Bytes) (c : Cipher)
      → IsUsable c.aead
      → (length salt < salt_size c → unpack crypto none salt c ≡ err short_packet)
        × (length salt ≡ salt_size c
            → (length msg < 16 → unpack crypto none (salt ++ msg) c ≡ err unexpected_eof)
              × (16 ≤ length msg
                  → (a : Aead) × (new_aead crypto c salt ≡ ok a)
                    × (unpack crypto none (salt ++ msg) c ≡ a.unseal (zero_nonce 12) msg)))
  unfolding unpack
  unpack_cases salt msg c u =
      let (a, made, s) = new_aead-IsStandard crypto laws c salt u in
      (
        λ short. rw (lt→ltb _ _ short) refl,
        λ size. (
          λ short. ground (arith, unpack_lem none salt msg c a size made s),
          λ long. (a, made, ground (arith, unpack_lem none salt msg c a size made s)),
        ),
      )
