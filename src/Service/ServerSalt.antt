-- ===== src/Service/ServerSalt.antt =====
-- service/server_salt.go: salts marked with a tag, so that the server's own salts are recognised
-- when they come back.
use ssgo.Prelude.{
  ℕ, ◌-◌, ◌≤◌, ◌<◌, ◌≡◌, refl, ap, ◌∙◌, Bool, true, false, [], ◌++◌, arith, ltb, if◌then◌else◌,
  Bytes, codes, bytes_equal, bytes_equal_refl, length, take, drop, length-append, length-take,
  take-append, drop-append, inl, inr, lt→ltb, replicate, sym, length-drop,
}
use ssgo.Io.{Error, Result, ok, err, ◌>>=◌, Result-cases, new, salt_is_too_short}
use ssgo.Shadowsocks.Crypto.{Crypto, IsCrypto}
use ssgo.Shadowsocks.Salt.{Random, IsRandom, SaltGenerator, random_salt_generator}

-- The interface ServerSaltGenerator.
pub record ServerSaltGenerator : Type 0 where
  pub generator : SaltGenerator
  pub is_server_salt : Bytes → Bool

-- RandomServerSaltGenerator marks nothing.
abbrev pub random_server_salt_generator : ServerSaltGenerator
random_server_salt_generator = record {
  generator = random_salt_generator;
  is_server_salt = λ salt. false;
}

abbrev pub server_salt_mark_len : ℕ
server_salt_mark_len = 4

abbrev pub server_salt_label : Bytes
server_salt_label = codes "outline-server-salt"

-- The prefix and the mark of a salt.
unfoldable pub split_salt : Bytes → Result (Bytes × Bytes)
split_salt salt =
    let prefix_len = length salt - server_salt_mark_len in
    if ltb (length salt) server_salt_mark_len
    then err (new salt_is_too_short)
    else ok (take prefix_len salt, drop prefix_len salt)

module _ (crypto : Crypto) where
  abbrev get_tag : Bytes → Bytes → Bytes
  get_tag key prefix = crypto.hmac key prefix

  -- GetSalt: a random prefix, and as much of its tag as the mark holds.
  unfoldable pub marked_get_salt : Bytes → Random → Bytes → Result Bytes
  unfolding split_salt
  marked_get_salt key rnd salt = split_salt salt >>= λ parts. rnd (length (parts.0)) >>= λ prefix.
      ok (prefix ++ take (length (parts.1)) (get_tag key prefix))

  abbrev is_marked : Bytes → Result (Bytes × Bytes) → Bool
  is_marked key (err e) = false
  is_marked key (ok (prefix, mark)) =
      bytes_equal (take server_salt_mark_len (get_tag key prefix)) mark

  unfoldable pub marked_is_server_salt : Bytes → Bytes → Bool
  unfolding split_salt
  marked_is_server_salt key salt = is_marked key (split_salt salt)

  abbrev pub marked_generator : Bytes → ServerSaltGenerator
  marked_generator key = record {
    generator = record { get_salt = marked_get_salt key };
    is_server_salt = marked_is_server_salt key;
  }

  -- NewServerSaltGenerator: the key is derived from the secret, without a salt; io.ReadFull's error
  -- is ignored, and leaves a key of zeros.
  unfoldable pub new_server_salt_generator : Bytes → ServerSaltGenerator
  new_server_salt_generator secret = elim (crypto.hkdf secret [] server_salt_label 20) [
    | err e ↦ marked_generator (replicate 20 0)
    | ok key ↦ marked_generator key
  ]

  split_salt_lem :
      (prefix mark : Bytes) → length mark ≡ 4 → split_salt (prefix ++ mark) ≡ ok (prefix, mark)
  unfolding split_salt
  split_salt_lem prefix mark h =
      let n = length (prefix ++ mark) - 4 in
      let cut : length prefix ≡ n = omega (arith, length-append prefix mark, h) in
      let long : ltb (length (prefix ++ mark)) 4 ≡ false =
        ground (arith, length-append prefix mark) in
      rw (long, split_salt) (rw (take-append n prefix mark cut, drop-append n prefix mark cut) refl)

  -- A salt that the marking generator fills is recognised by it, keeps its size, and is random up
  -- to the mark; no salt is generated, nor recognised, in less than the size of the mark.
  pub marked_get_salt_lem :
      (key : Bytes) (rnd : Random) (salt : Bytes)
      → IsCrypto crypto
      → IsRandom rnd
      → (length salt < 4
          → (marked_get_salt key rnd salt ≡ err (new salt_is_too_short))
            × (marked_is_server_salt key salt ≡ false))
        × (4 ≤ length salt
            → (s : Bytes) → marked_get_salt key rnd salt ≡ ok s
            → (marked_is_server_salt key s ≡ true)
              × (length s ≡ length salt)
              × (rnd (length salt - 4) ≡ ok (take (length salt - 4) s)))
  unfolding marked_get_salt marked_is_server_salt
  marked_get_salt_lem key rnd salt laws full = (
    λ short. too_short short,
    λ long s made. elim (Result-cases (rnd (length salt - 4))) [
      | inr (e, failed) ↦ absurd (impossible long s e failed made)
      | inl (prefix, drawn) ↦
          let e : prefix ++ take 4 (crypto.hmac key prefix) ≡ s =
            ground (arith, drawn_lem long prefix drawn, made) in
          let n = full (length salt - 4) prefix drawn in
          let tag : length (take 4 (crypto.hmac key prefix)) ≡ 4 =
            omega (arith, length-take 4 (crypto.hmac key prefix), laws.length-hmac key prefix) in
          rw (← e) (
            ap (is_marked key) (split_salt_lem prefix (take 4 (crypto.hmac key prefix)) tag)
                ∙ bytes_equal_refl (take 4 (crypto.hmac key prefix)),
            omega (arith, length-append prefix (take 4 (crypto.hmac key prefix)), tag, n, long),
            drawn
                ∙ ap ok (
                    sym (take-append (length salt - 4) prefix (take 4 (crypto.hmac key prefix)) n)),
          )
    ],
  )
    where
      too_short :
          length salt < 4
          → (marked_get_salt key rnd salt ≡ err (new salt_is_too_short))
            × (marked_is_server_salt key salt ≡ false)
      too_short short = rw (lt→ltb (length salt) 4 short) (refl, refl)

      split :
          4 ≤ length salt
          → split_salt salt ≡ ok (take (length salt - 4) salt, drop (length salt - 4) salt)
      split long = ground arith

      run :
          4 ≤ length salt
          → (r : Result Bytes) → rnd (length salt - 4) ≡ r
          → marked_get_salt key rnd salt ≡ (r >>= λ p. ok (p ++ take 4 (crypto.hmac key p)))
      run long r drawn =
          let a : length (take (length salt - 4) salt) ≡ length salt - 4 =
            omega (arith, length-take (length salt - 4) salt) in
          let b : length (drop (length salt - 4) salt) ≡ 4 =
            omega (arith, length-drop (length salt - 4) salt) in
          let ran = λ (x : Result (Bytes × Bytes)). x >>= λ parts.
          rnd (length (parts.0)) >>= λ p. ok (p ++ take (length (parts.1)) (crypto.hmac key p)) in
          ap ran (split long) ∙ rw (a, b, drawn) refl

      drawn_lem :
          4 ≤ length salt
          → (prefix : Bytes) → rnd (length salt - 4) ≡ ok prefix
          → marked_get_salt key rnd salt ≡ ok (prefix ++ take 4 (crypto.hmac key prefix))
      drawn_lem long prefix drawn = run long (ok prefix) drawn

      impossible :
          4 ≤ length salt
          → (s : Bytes) (e : Error) → rnd (length salt - 4) ≡ err e
          → marked_get_salt key rnd salt ≡ ok s
          → ⊥
      impossible long s e failed made = ground (arith, run long (err e) failed, made)
