-- ===== src/Api/Totals.antt =====
-- The report of traffic loses nothing and counts nothing twice.
use ssgo.Prelude.{
  ℕ, ◌+◌, ◌%◌, ◌^◌, ◌<◌, ◌≡◌, refl, subst, ap, false, List, [], ◌∷◌, arith, if◌then◌else◌, Bytes,
  bytes_equal, bytes_equal_iff, Bool-cases, inl, inr, All,
}
use ssgo.Api.{UserTraffic, add_sum, add_sums, report_user_traffic}

-- The traffic of one user in a list.
unfoldable pub total_u : Bytes → List UserTraffic → ℕ
total_u uid [] = 0
total_u uid (t ∷ ts) = (if bytes_equal t.uid uid then t.u else 0) + total_u uid ts

unfoldable pub total_d : Bytes → List UserTraffic → ℕ
total_d uid [] = 0
total_d uid (t ∷ ts) = (if bytes_equal t.uid uid then t.d else 0) + total_d uid ts

-- No user appears twice.
abbrev IsAbsent : Bytes → List UserTraffic → Type 0
IsAbsent uid = All (λ t. bytes_equal t.uid uid ≡ false)

abbrev pub IsDistinct : List UserTraffic → Type 0
IsDistinct [] = Unit {0}
IsDistinct (t ∷ ts) = IsAbsent t.uid ts × IsDistinct ts

-- A counter is one of the 2 ^ 64 patterns of an int64.
abbrev pub IsInt64 : UserTraffic → Type 0
IsInt64 t = (t.u < 2 ^ 64) × (t.d < 2 ^ 64)

add_sum-IsInt64 :
    (hdata : List UserTraffic) (t : UserTraffic)
    → All IsInt64 hdata
    → IsInt64 t
    → All IsInt64 (add_sum hdata t)
unfolding add_sum
add_sum-IsInt64 [] t h i = (i, tt)
add_sum-IsInt64 (o ∷ hdata) t h i = elim (Bool-cases (bytes_equal o.uid t.uid)) [
  | inl same ↦ rw (same, add_sum) ((ground (arith, h.0), ground (arith, h.0)), h.1)
  | inr other ↦ rw (other, add_sum) (h.0, add_sum-IsInt64 hdata t h.1 i)
]

-- Adding a report changes the totals of its user by what it reports, up to the wrap-around.
add_sum-total :
    (uid : Bytes) (hdata : List UserTraffic) (t : UserTraffic)
    → (total_u uid (add_sum hdata t) % 2 ^ 64 ≡ (total_u uid hdata + total_u uid (t ∷ [])) % 2 ^ 64)
      × (total_d uid (add_sum hdata t) % 2 ^ 64
          ≡ (total_d uid hdata + total_d uid (t ∷ [])) % 2 ^ 64)
unfolding total_u total_d add_sum
add_sum-total uid [] t = (omega arith, omega arith)
add_sum-total uid (o ∷ hdata) t = elim (Bool-cases (bytes_equal o.uid t.uid)) [
  | inl same ↦
      let e : o.uid ≡ t.uid = (bytes_equal_iff o.uid t.uid).0 same in
      rw (same, add_sum)
        (
          ground (arith, ap (λ x. bytes_equal x uid) e),
          ground (arith, ap (λ x. bytes_equal x uid) e),
        )
  | inr other ↦
      let (u, d) = add_sum-total uid hdata t in
      rw (other, add_sum) (omega (arith, u), omega (arith, d))
]

add_sum-IsAbsent :
    (uid : Bytes) (hdata : List UserTraffic) (t : UserTraffic)
    → IsAbsent uid hdata
    → bytes_equal t.uid uid ≡ false
    → IsAbsent uid (add_sum hdata t)
unfolding add_sum
add_sum-IsAbsent uid [] t h n = (n, tt)
add_sum-IsAbsent uid (o ∷ hdata) t h n = elim (Bool-cases (bytes_equal o.uid t.uid)) [
  | inl same ↦ rw (same, add_sum) h
  | inr other ↦ rw (other, add_sum) (h.0, add_sum-IsAbsent uid hdata t h.1 n)
]

unequal_sym : (xs ys : Bytes) → bytes_equal xs ys ≡ false → bytes_equal ys xs ≡ false
unequal_sym xs ys h = ground (arith, bytes_equal_iff xs ys, bytes_equal_iff ys xs)

add_sum-IsDistinct :
    (hdata : List UserTraffic) (t : UserTraffic) → IsDistinct hdata → IsDistinct (add_sum hdata t)
unfolding add_sum
add_sum-IsDistinct [] t h = (tt, tt)
add_sum-IsDistinct (o ∷ hdata) t h = elim (Bool-cases (bytes_equal o.uid t.uid)) [
  | inl same ↦ rw (same, add_sum) h
  | inr other ↦
      rw (other, add_sum)
        (
          add_sum-IsAbsent o.uid hdata t h.0 (unequal_sym o.uid t.uid other),
          add_sum-IsDistinct hdata t h.1,
        )
]

-- In a list that names each user once, the totals of a user are counters.
IsAbsent-total :
    (uid : Bytes) (l : List UserTraffic)
    → IsAbsent uid l
    → (total_u uid l ≡ 0) × (total_d uid l ≡ 0)
unfolding total_u total_d
IsAbsent-total uid [] h = (refl, refl)
IsAbsent-total uid (t ∷ l) h =
    let (u, d) = IsAbsent-total uid l h.1 in (ground (arith, u, h.0), ground (arith, d, h.0))

distinct_totals :
    (uid : Bytes) (l : List UserTraffic)
    → IsDistinct l
    → All IsInt64 l
    → (total_u uid l < 2 ^ 64) × (total_d uid l < 2 ^ 64)
unfolding total_u total_d
distinct_totals uid [] h i = (omega arith, omega arith)
distinct_totals uid (t ∷ l) h i = elim (Bool-cases (bytes_equal t.uid uid)) [
  | inl same ↦
      let e : t.uid ≡ uid = (bytes_equal_iff t.uid uid).0 same in
      let (u, d) = IsAbsent-total uid l (subst (λ x. IsAbsent x l) e h.0) in
      rw same (omega (arith, u, i.0.0), omega (arith, d, i.0.1))
  | inr other ↦
      let (u, d) = distinct_totals uid l h.1 i.1 in rw other (omega (arith, u), omega (arith, d))
]

add_sums_lem :
    (uid : Bytes) (hdata l : List UserTraffic)
    → IsDistinct hdata
    → All IsInt64 hdata
    → All IsInt64 l
    → IsDistinct (add_sums hdata l)
      × All IsInt64 (add_sums hdata l)
      × (total_u uid (add_sums hdata l) % 2 ^ 64 ≡ (total_u uid hdata + total_u uid l) % 2 ^ 64)
      × (total_d uid (add_sums hdata l) % 2 ^ 64 ≡ (total_d uid hdata + total_d uid l) % 2 ^ 64)
unfolding add_sums total_u total_d
add_sums_lem uid hdata [] h i j = (h, i, omega arith, omega arith)
add_sums_lem uid hdata (t ∷ l) h i j =
    let (d, k, u1, d1) =
      add_sums_lem uid (add_sum hdata t) l (add_sum-IsDistinct hdata t h)
        (add_sum-IsInt64 hdata t i j.0) j.1 in
    let (u2, d2) = add_sum-total uid hdata t in (d, k, omega (arith, u1, u2), omega (arith, d1, d2))

-- The report of counters that an int64 holds names each user once, and for every user its upload and
-- download are the sums over all that was queued, with the wrap-around of an int64.
pub report_user_traffic_lem :
    (uid : Bytes) (user_traffic : List UserTraffic)
    → All IsInt64 user_traffic
    → IsDistinct (report_user_traffic user_traffic)
      × (total_u uid (report_user_traffic user_traffic) ≡ total_u uid user_traffic % 2 ^ 64)
      × (total_d uid (report_user_traffic user_traffic) ≡ total_d uid user_traffic % 2 ^ 64)
unfolding report_user_traffic total_u total_d
report_user_traffic_lem uid l i =
    let (d, k, u1, d1) = add_sums_lem uid [] l tt tt i in
    let (u2, d2) = distinct_totals uid (add_sums [] l) d k in
    (d, omega (arith, u1, u2), omega (arith, d1, d2))
