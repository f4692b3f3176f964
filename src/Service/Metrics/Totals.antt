-- ===== src/Service/Metrics/Totals.antt =====
-- service/metrics/metrics.go: the counters of bytes against the calls that were made.
use ssgo.Prelude.{
  ◌^◌, ◌<◌, ◌∙◌, ℕ, ◌+◌, ◌≡◌, ◌↔◌, refl, sym, ap, inl, inr, Bool, true, false, ◌&&◌, List, [], ◌∷◌,
  arith, if◌then◌else◌, Bytes, bytes_equal, bytes_equal_iff, bytes_equal_refl, Bool-cases, All,
}
use ssgo.Service.Metrics.{
  IsCounting, Metrics, labels_equal, CounterVec, add_value, new_shadowsocks_metrics, series,
}
use ssgo.Service.Metrics.Updates.{f-calls_new, f-updated, call-updated}
use ssgo.Service.Metrics.Calls.{
  Call, Dir, Proto, dir_text, proto_text, amount, call, key_of, location_of, IsInRange, sum_where,
  calls,
}

-- The value of a series, 0 if there is none, and the sum of all series of a direction and protocol.
unfoldable pub value : List Bytes → CounterVec → ℕ
value lvs [] = 0
value lvs ((l, n) ∷ vec) = if labels_equal l lvs then n else value lvs vec

abbrev pub starts_with : Bytes → Bytes → List Bytes → Bool
starts_with dir proto (x ∷ y ∷ l) = bytes_equal x dir && bytes_equal y proto
starts_with dir proto l = false

unfoldable pub total : Bytes → Bytes → CounterVec → ℕ
total dir proto [] = 0
total dir proto ((l, n) ∷ vec) = (if starts_with dir proto l then n else 0) + total dir proto vec

-- The updates of one vector, for the name that its series have.

eq_of_labels : (xs ys : List Bytes) → labels_equal xs ys ≡ true → xs ≡ ys
unfolding labels_equal
eq_of_labels [] [] h = refl
eq_of_labels [] (y ∷ ys) h = cc
eq_of_labels (x ∷ xs) [] h = cc
eq_of_labels (x ∷ xs) (y ∷ ys) h = ground (arith, eq_of_labels xs ys, bytes_equal_iff x y)

labels_equal_refl : (xs : List Bytes) → labels_equal xs xs ≡ true
unfolding labels_equal
labels_equal_refl [] = refl
labels_equal_refl (x ∷ xs) = ground (arith, bytes_equal_refl x, labels_equal_refl xs)

labels_equal_iff : (xs ys : List Bytes) → (labels_equal xs ys ≡ true) ↔ (xs ≡ ys)
labels_equal_iff xs ys = (eq_of_labels xs ys, λ e. rw e (labels_equal_refl ys))

value-add_value :
    (plus : ℕ → ℕ → ℕ)
    → IsCounting plus
    → (of lvs : List Bytes) (v : ℕ) (vec : CounterVec)
    → value of vec + (if labels_equal lvs of then v else 0) < 2 ^ 53
    → value of (add_value plus lvs v vec) ≡ value of vec + (if labels_equal lvs of then v else 0)
unfolding value add_value
value-add_value plus exact of lvs v [] small = elim (Bool-cases (labels_equal lvs of)) [
  | inl hit ↦ rw hit (exact 0 v (ground (arith, small, hit)))
  | inr miss ↦ rw miss refl
]
value-add_value plus exact of lvs v ((l, n) ∷ vec) small = elim (Bool-cases (labels_equal l lvs)) [
  | inl same ↦ elim (Bool-cases (labels_equal l of)) [
    | inl hit ↦
        let at : labels_equal lvs of ≡ true =
          ap (λ x. labels_equal x of) (sym (eq_of_labels l lvs same)) ∙ hit in
        rw (same, hit, at, add_value) (exact n v (ground (arith, small, hit, at)))
    | inr miss ↦
        let at : labels_equal lvs of ≡ false =
          ap (λ x. labels_equal x of) (sym (eq_of_labels l lvs same)) ∙ miss in
        rw (same, miss, at, add_value) (omega arith)
  ]
  | inr other ↦ elim (Bool-cases (labels_equal l of)) [
    | inl hit ↦
        let at : labels_equal lvs of ≡ false =
          ground (arith, labels_equal_iff l lvs, labels_equal_iff l of, labels_equal_iff lvs of) in
        rw (other, hit, at, add_value) (omega arith)
    | inr miss ↦
        rw (other, miss, add_value)
          (value-add_value plus exact of lvs v vec (ground (arith, small, miss)))
  ]
]

total-add_value :
    (plus : ℕ → ℕ → ℕ)
    → IsCounting plus
    → (dir proto : Bytes) (lvs : List Bytes) (v : ℕ) (vec : CounterVec)
    → total dir proto vec + (if starts_with dir proto lvs then v else 0) < 2 ^ 53
    → total dir proto (add_value plus lvs v vec)
      ≡ total dir proto vec + (if starts_with dir proto lvs then v else 0)
unfolding total add_value
total-add_value plus exact dir proto lvs v [] small =
    elim (Bool-cases (starts_with dir proto lvs)) [
      | inl hit ↦ let e = exact 0 v (ground (arith, small, hit)) in rw hit (omega (arith, e))
      | inr miss ↦ rw miss (omega arith)
    ]
total-add_value plus exact dir proto lvs v ((l, n) ∷ vec) small =
    elim (Bool-cases (labels_equal l lvs)) [
      | inl same ↦
          let at = ap (starts_with dir proto) (eq_of_labels l lvs same) in
          elim (Bool-cases (starts_with dir proto lvs)) [
            | inl hit ↦
                let e = exact n v (ground (arith, small, hit, at)) in
                rw (same, add_value) (rw (at ∙ hit, hit) (omega (arith, e)))
            | inr miss ↦ rw (same, add_value) (rw (at ∙ miss, miss) (omega arith))
          ]
      | inr other ↦
          rw (other, add_value)
            (omega (arith, total-add_value plus exact dir proto lvs v vec (omega (arith, small))))
    ]

and_true : (b : Bool) → (b && true) ≡ b
and_true true = refl
and_true false = refl

-- What a call adds to the series of a direction, a protocol and a key.
pub value-call :
    (plus : ℕ → ℕ → ℕ)
    → IsCounting plus
    → (itoa : ℕ → Bytes) (d : Dir) (p : Proto) (name : Bytes) (c : Call) (m : Metrics) → IsInRange c
    → (let of_name = series (dir_text d) (proto_text p) name in
        value of_name m.data_bytes + (if bytes_equal (key_of c) name then amount d p c else 0)
        < 2 ^ 53)
    → (let of_name = series (dir_text d) (proto_text p) name in
        value of_name (call plus itoa c m).data_bytes
        ≡ value of_name m.data_bytes + (if bytes_equal (key_of c) name then amount d p c else 0))
unfolding labels_equal
value-call plus exact itoa d p name c m h small =
    let of_name = series (dir_text d) (proto_text p) name in
    ap (value of_name) (call-updated plus itoa c m).0
    ∙ f-updated plus d p (value of_name) (λ lvs. labels_equal lvs of_name) (λ n. bytes_equal n name)
        (value-add_value plus exact of_name)
        (λ dir proto n.
          ap (λ b. bytes_equal dir (dir_text d) && (bytes_equal proto (proto_text p) && b))
            (and_true (bytes_equal n name)))
        (key_of c) c m.data_bytes h small

module _ (plus : ℕ → ℕ → ℕ) (exact : IsCounting plus) (itoa : ℕ → Bytes) (cs : List Call)
    (h : All IsInRange cs) (d : Dir) (p : Proto)
    (small : sum_where d p (λ c. true) cs < 2 ^ 53) where
  -- With a client whose counters are exact below 2 ^ 53, after any calls on new metrics whose numbers
  -- an int64 holds, and which report less than 2 ^ 53 bytes for a direction and a protocol, the series
  -- of that direction and protocol and an access key stands at the sum of what the calls reported for
  -- that key, and the series of a location at the sum of what they reported for that location.
  pub calls-value :
      (name : Bytes)
      → (let m = calls plus itoa cs new_shadowsocks_metrics in
          let of_name = series (dir_text d) (proto_text p) name in
          (value of_name m.data_bytes ≡ sum_where d p (λ c. bytes_equal (key_of c) name) cs)
          × (value of_name m.data_bytes_per_location
              ≡ sum_where d p (λ c. bytes_equal (location_of c) name) cs))
  unfolding value labels_equal
  calls-value name =
      let of_name = series (dir_text d) (proto_text p) name in
      f-calls_new plus d p (value of_name) (λ lvs. labels_equal lvs of_name)
        (λ n. bytes_equal n name) (value-add_value plus exact of_name)
        (λ dir proto n.
          ap (λ b. bytes_equal dir (dir_text d) && (bytes_equal proto (proto_text p) && b))
            (and_true (bytes_equal n name)))
        itoa cs refl h small

  -- With a client whose counters are exact below 2 ^ 53, after any calls on new metrics whose numbers
  -- an int64 holds, and which report less than 2 ^ 53 bytes for a direction and a protocol, the bytes
  -- of that direction and protocol come to the same sum over the access keys and over the locations,
  -- which is what the calls reported.
  pub calls-total :
      let m = calls plus itoa cs new_shadowsocks_metrics in
      let all = sum_where d p (λ c. true) cs in
      (total (dir_text d) (proto_text p) m.data_bytes ≡ all)
      × (total (dir_text d) (proto_text p) m.data_bytes_per_location ≡ all)
  unfolding total
  calls-total =
      f-calls_new plus d p (total (dir_text d) (proto_text p))
        (starts_with (dir_text d) (proto_text p)) (λ n. true)
        (total-add_value plus exact (dir_text d) (proto_text p))
        (λ dir proto n.
          ap (λ b. bytes_equal dir (dir_text d) && b)
            (sym (and_true (bytes_equal proto (proto_text p)))))
        itoa cs refl h small
