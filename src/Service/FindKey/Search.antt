-- ===== src/Service/FindKey/Search.antt =====
-- The search finds the first key that authenticates, never reads out of bounds, and accepts what a
-- client of that key sends.
use ssgo.Prelude.{
  ◌+◌, ◌*◌, ◌≤◌, ◌≡◌, refl, ap, ap₂, ◌∙◌, ◌⊎◌, inl, inr, true, false, List, [], ◌∷◌, ◌++◌, none,
  some, arith, ltb, Bool-cases, Bytes, length, take, All, take-append, drop-append,
}
use ssgo.Io.{ok}
use ssgo.Shadowsocks.Crypto.{Aead, Crypto, IsCrypto, IsStandard}
use ssgo.Shadowsocks.Cipher.{Cipher, salt_size, tag_size, decrypt_once, new_aead, zero_nonce}
use ssgo.Shadowsocks.Cipher.Table.{IsUsable}
use ssgo.Shadowsocks.Packet.RoundTrip.{decrypt_once_lem}
use ssgo.Service.CipherList.{Element}
use ssgo.Service.FindKey.{bytes_for_key_finding, succeeds, decrypts_length, find_entry}

abbrev pub IsUsableElement : Element → Type 0
IsUsableElement e = IsUsable e.entry.cipher.aead

-- bytesForKeyFinding satisfies what its comment demands, for every usable cipher: it is enough to
-- authenticate the first block, and no more than the least valid connection sends.
bytes_for_key_finding_bounds :
    (c : Cipher)
    → IsUsable c.aead
    → (salt_size c + 2 + tag_size c ≤ bytes_for_key_finding)
      × (bytes_for_key_finding ≤ salt_size c + 2 + 2 * tag_size c)
unfolding salt_size tag_size
bytes_for_key_finding_bounds c u =
    (omega (arith, u.tag_size, u.salt_most), omega (arith, u.tag_size, u.salt_least))

-- With the bytes that findAccessKey reads, and usable ciphers, the search never panics: it finds
-- the first element in the snapshot's order whose cipher decrypts the length block, or, where there
-- is none, reports that.
pub find_entry_lem :
    (crypto : Crypto) (first_bytes : Bytes) (elts : List Element)
    → length first_bytes ≡ bytes_for_key_finding
    → All IsUsableElement elts
    → ((find_entry crypto first_bytes elts ≡ ok none)
        × All (λ e. decrypts_length crypto first_bytes e.entry.cipher ≡ false) elts)
      ⊎ ((before : List Element) × (e : Element) × (behind : List Element) × (find_entry crypto
              first_bytes elts
            ≡ ok (some e))
          × (elts ≡ before ++ (e ∷ behind))
          × All (λ e. decrypts_length crypto first_bytes e.entry.cipher ≡ false) before
          × (decrypts_length crypto first_bytes e.entry.cipher ≡ true))
unfolding find_entry
find_entry_lem crypto first_bytes [] size u = inl (refl, tt)
find_entry_lem crypto first_bytes (e ∷ elts) size u =
    let inside : ltb (length first_bytes) (salt_size e.entry.cipher + (2 + tag_size e.entry.cipher))
        ≡ false =
      ground (arith, (bytes_for_key_finding_bounds e.entry.cipher u.0).0) in
    elim (Bool-cases (decrypts_length crypto first_bytes e.entry.cipher)) [
      | inl hit ↦ inr ([], e, elts, rw (inside, hit, find_entry) refl, refl, tt, hit)
      | inr miss ↦ elim (find_entry_lem crypto first_bytes elts size u.1) [
        | inl (nothing, all) ↦ inl (rw (inside, miss, find_entry) nothing, (miss, all))
        | inr (before, x, behind, found, split, all, hit) ↦ inr (
          e ∷ before,
          x,
          behind,
          rw (inside, miss, find_entry) found,
          ap (◌∷◌ e) split,
          (miss, all),
          hit,
        )
      ]
    ]

sealed_size :
    (c : Cipher) (a : Aead) (size : Bytes)
    → IsUsable c.aead
    → length size ≡ 2
    → IsStandard a
    → length size + a.overhead ≡ 2 + tag_size c
unfolding tag_size
sealed_size c a size u two s = omega (arith, u.tag_size, two, s.overhead)

-- What a client sends first, the salt and the sealed length of its first chunk, decrypts under the
-- client's key, whatever comes behind it.
decrypts_length-sealed :
    (crypto : Crypto) (laws : IsCrypto crypto) (c : Cipher) (salt size rest : Bytes) (a : Aead)
    → IsUsable c.aead
    → length salt ≡ salt_size c
    → length size ≡ 2
    → new_aead crypto c salt ≡ ok a
    → IsStandard a
    → decrypts_length crypto (salt ++ (a.seal (zero_nonce 12) size ++ rest)) c ≡ true
unfolding decrypts_length
decrypts_length-sealed crypto laws c salt size rest a u l two made s =
    let block = a.seal (zero_nonce 12) size in
    let longer : length block ≡ 2 + tag_size c =
      s.aead.length-seal (zero_nonce 12) size ∙ sealed_size c a size u two s in
    let eighteen : length block ≡ 18 =
      omega (arith, s.aead.length-seal (zero_nonce 12) size, s.overhead, two) in
    let opened : decrypt_once crypto c salt [] 2 block ≡ ok size =
      decrypt_once_lem crypto laws c salt 2 block a made s
      ∙ ground (arith, s.aead.unseal-seal (zero_nonce 12) size) in
    ap₂ (λ x y. succeeds (decrypt_once crypto c x [] 2 (take (2 + tag_size c) y)))
      (take-append (salt_size c) salt (block ++ rest) l)
      (drop-append (salt_size c) salt (block ++ rest) l)
    ∙ ap (λ y. succeeds (decrypt_once crypto c salt [] 2 y))
        (take-append (2 + tag_size c) block rest longer)
    ∙ ap succeeds opened
