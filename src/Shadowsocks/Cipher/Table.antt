-- ===== src/Shadowsocks/Cipher/Table.antt =====
-- The table of supported AEADs: what its initialisation builds, and what holds of every entry.

use ssgo.Prelude.{
  ℕ, ◌≤◌, ◌≡◌, refl, subst, ◌⊎◌, inl, inr, Bool-cases, List, [], ◌∷◌, map, arith, Bytes, codes,
  bytes_equal, length, replicate, length-replicate, All,
}
use ssgo.Io.{Result, ok}
use ssgo.Shadowsocks.Crypto.{Aead, Crypto, IsCrypto, IsStandard}
use ssgo.Shadowsocks.Cipher.{
  AeadSpec, new_aead_spec, new_aes_gcm, supported_aeads, supported_cipher_names, to_lower,
  find_aead_spec, get_aead_spec, max_tag_size_from, max_tag_size,
}

-- What the rest of the code relies on in an entry of the table.
pub record IsUsable (spec : AeadSpec) : Type 0 where
  pub tag_size : spec.tag_size ≡ 16
  pub key_size : spec.key_size ≤ 32
  pub salt_least : 16 ≤ spec.salt_size
  pub salt_most : spec.salt_size ≤ 32
  pub new_instance :
      (key : Bytes)
      → length key ≡ spec.key_size
      → (a : Aead) × (spec.new_instance key ≡ ok a) × IsStandard a

module _ (crypto : Crypto) (laws : IsCrypto crypto) where
  new_aes_gcm-IsStandard :
      (key : Bytes)
      → (length key ≡ 16) ⊎ ((length key ≡ 24) ⊎ (length key ≡ 32))
      → (a : Aead) × (new_aes_gcm crypto key ≡ ok a) × IsStandard a
  unfolding new_aes_gcm
  new_aes_gcm-IsStandard key h =
      let (b, made, (a, wrapped, s)) = laws.gcm-IsStandard key h in (a, rw made wrapped, s)

  -- A constructor that serves every key of the entry's size makes a usable entry.
  new_aead_spec-IsUsable :
      (name : Bytes) (new_instance : Bytes → Result Aead) (key_size salt_size : ℕ)
      → key_size ≤ 32
      → 16 ≤ salt_size
      → salt_size ≤ 32
      → ((key : Bytes)
          → length key ≡ key_size
          → (a : Aead) × (new_instance key ≡ ok a) × IsStandard a)
      → (spec : AeadSpec) × (new_aead_spec name new_instance key_size salt_size ≡ ok spec)
        × IsUsable spec
        × (spec.name ≡ name)
        × (spec.salt_size ≡ salt_size)
  unfolding new_aead_spec
  new_aead_spec-IsUsable name new_instance key_size salt_size k lo hi make =
      let (a, made, s) = make (replicate key_size 0) (length-replicate key_size 0) in
      (
        record {
          name = name;
          new_instance = new_instance;
          key_size = key_size;
          salt_size = salt_size;
          tag_size = a.overhead;
        },
        rw made refl,
        record {
          tag_size = s.overhead;
          key_size = k;
          salt_least = lo;
          salt_most = hi;
          new_instance = make;
        },
        refl,
        refl,
      )

  -- The initialisation of the package does not panic, the table holds the four ciphers of the
  -- Shadowsocks specification in this order with these salt sizes, and every entry is usable: keys
  -- of its size are accepted, and its tags have 16 bytes.
  supported_aeads-IsUsable :
      (specs : List AeadSpec) × (supported_aeads crypto ≡ ok specs)
      × All IsUsable specs
      × (supported_cipher_names specs
          ≡ codes "chacha20-ietf-poly1305"
            ∷ codes "aes-256-gcm"
            ∷ codes "aes-192-gcm"
            ∷ codes "aes-128-gcm"
            ∷ [])
      × (map (λ spec. spec.salt_size) specs ≡ 32 ∷ 32 ∷ 24 ∷ 16 ∷ [])
  unfolding supported_aeads supported_cipher_names
  supported_aeads-IsUsable =
      let (chacha, e1, u1, n1, s1) =
        new_aead_spec-IsUsable (codes "chacha20-ietf-poly1305") crypto.chacha20_poly1305 32 32
          (omega arith) (omega arith) (omega arith) laws.chacha20_poly1305-IsStandard in
      let (aes256, e2, u2, n2, s2) =
        new_aead_spec-IsUsable (codes "aes-256-gcm") (new_aes_gcm crypto) 32 32 (omega arith)
          (omega arith) (omega arith) (λ key h. new_aes_gcm-IsStandard key (inr (inr h))) in
      let (aes192, e3, u3, n3, s3) =
        new_aead_spec-IsUsable (codes "aes-192-gcm") (new_aes_gcm crypto) 24 24 (omega arith)
          (omega arith) (omega arith) (λ key h. new_aes_gcm-IsStandard key (inr (inl h))) in
      let (aes128, e4, u4, n4, s4) =
        new_aead_spec-IsUsable (codes "aes-128-gcm") (new_aes_gcm crypto) 16 16 (omega arith)
          (omega arith) (omega arith) (λ key h. new_aes_gcm-IsStandard key (inl h)) in
      (
        chacha ∷ aes256 ∷ aes192 ∷ aes128 ∷ [],
        rw (e1, e2, e3, e4),
        (u1, (u2, (u3, (u4, tt)))),
        cc,
        cc,
      )

-- A cipher found by name is an entry of the table whose name is the lower case of what was asked
-- for, the first one; the search fails exactly when the table has no such name.
find_aead_spec-IsUsable :
    (name : Bytes) (specs : List AeadSpec) {spec : AeadSpec}
    → All IsUsable specs
    → find_aead_spec name specs ≡ ok spec
    → IsUsable spec
unfolding find_aead_spec
find_aead_spec-IsUsable name [] u h = ground arith
find_aead_spec-IsUsable name (s ∷ specs) {spec} u h = elim (Bool-cases (bytes_equal s.name name)) [
  | inl hit ↦ let e : s ≡ spec = ground arith in subst IsUsable e u.0
  | inr miss ↦ find_aead_spec-IsUsable name specs u.1 (ground arith)
]

pub get_aead_spec-IsUsable :
    (specs : List AeadSpec) (name : Bytes) {spec : AeadSpec}
    → All IsUsable specs
    → get_aead_spec specs name ≡ ok spec
    → IsUsable spec
unfolding get_aead_spec
get_aead_spec-IsUsable specs name u h = find_aead_spec-IsUsable (to_lower name) specs u h

max_tag_size_from-eq :
    (max : ℕ) (specs : List AeadSpec)
    → max ≤ 16
    → All IsUsable specs
    → max_tag_size_from max specs ≡ (elim specs [ [] ↦ max | _ ∷ _ ↦ 16 ])
unfolding max_tag_size_from
max_tag_size_from-eq max [] h u = refl
max_tag_size_from-eq max (s ∷ []) h u = ground (arith, u.0.tag_size)
max_tag_size_from-eq max (s ∷ t ∷ specs) h u = ground (
  arith,
  u.0.tag_size,
  max_tag_size_from-eq 16 (t ∷ specs) (omega arith) u.1,
  max_tag_size_from-eq max (t ∷ specs) (omega arith) u.1,
)

-- The read buffers are sized for a tag of 16 bytes.
pub max_tag_size_usable :
    (s : AeadSpec) (specs : List AeadSpec)
    → All IsUsable (s ∷ specs)
    → max_tag_size (s ∷ specs) ≡ 16
unfolding max_tag_size
max_tag_size_usable s specs u = max_tag_size_from-eq 0 (s ∷ specs) (omega arith) u
