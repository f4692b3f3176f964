-- ===== src/Utils/NetStat.antt =====
-- utils/DeviceUtil.go, GetNetStat: the bytes of the network interfaces, and their speeds since the last
-- call. A uint64 wraps; the interfaces and the time are parameters.
use ssgo.Prelude.{
  ℕ, ◌+◌, ◌-◌, ◌/◌, ◌%◌, ◌^◌, ◌≤◌, ◌<◌, ◌≡◌, ap, ap₂, ◌∙◌, inl, inr, Bool, true, List, [], ◌∷◌,
  Option, none, some, arith, ltb, if◌then◌else◌, Bytes, Bool-cases, lt→ltb,
}
use ssgo.Io.{Error, Result, ok, err}
use ssgo.Utils.Contains.{is_list_contains_str, exclude_net_interfaces}

pub record IoCounters : Type 0 where
  pub name : Bytes
  pub bytes_recv : ℕ
  pub bytes_sent : ℕ

-- The variables of the package: what the last call found, and when, in seconds.
pub record NetStats : Type 0 where
  pub net_in_transfer : ℕ
  pub net_out_transfer : ℕ
  pub last_update_net_stats : ℕ

pub record NetStat : Type 0 where
  pub in_bytes : ℕ
  pub out_bytes : ℕ
  pub in_speed : ℕ
  pub out_speed : ℕ
  pub error : Option Error

abbrev pub add_uint64 : ℕ → ℕ → ℕ
add_uint64 a b = (a + b) % 2 ^ 64

abbrev pub sub_uint64 : ℕ → ℕ → ℕ
sub_uint64 a b = (a + (2 ^ 64 - b)) % 2 ^ 64

-- The loop over the interfaces.
unfoldable pub sum_up : List IoCounters → ℕ × ℕ → ℕ × ℕ
sum_up [] (i, o) = (i, o)
sum_up (s2 ∷ s) (i, o) =
    let skipped = sum_up s (i, o) in
    let added = sum_up s (add_uint64 i s2.bytes_recv, add_uint64 o s2.bytes_sent) in
    if is_list_contains_str exclude_net_interfaces s2.name then skipped else added

abbrev pub speed : ℕ → ℕ → ℕ → ℕ
speed bytes last diff = if ltb 0 diff then sub_uint64 bytes last / diff else 0

unfoldable pub get_net_stat : Result (List IoCounters) → ℕ → NetStats → NetStat × NetStats
unfolding sum_up
get_net_stat (err e) now last =
    (record { in_bytes = 0; out_bytes = 0; in_speed = 0; out_speed = 0; error = some e }, last)
get_net_stat (ok s) now last =
    let (i, o) = sum_up s (0, 0) in
    let diff = sub_uint64 now last.last_update_net_stats in
    (
      record {
        in_bytes = i;
        out_bytes = o;
        in_speed = speed i last.net_in_transfer diff;
        out_speed = speed o last.net_out_transfer diff;
        error = none;
      },
      record { net_in_transfer = i; net_out_transfer = o; last_update_net_stats = now },
    )

-- What the interfaces that count have received and sent.
unfoldable pub total_recv : List IoCounters → ℕ
total_recv [] = 0
total_recv (c ∷ s) =
    (if is_list_contains_str exclude_net_interfaces c.name then 0 else c.bytes_recv) + total_recv s

unfoldable pub total_sent : List IoCounters → ℕ
total_sent [] = 0
total_sent (c ∷ s) =
    (if is_list_contains_str exclude_net_interfaces c.name then 0 else c.bytes_sent) + total_sent s

abbrev one_round : IoCounters → List IoCounters → ℕ → ℕ → Bool → ℕ × ℕ
one_round c s i o skip =
    if skip
    then sum_up s (i, o)
    else sum_up s (add_uint64 i c.bytes_recv, add_uint64 o c.bytes_sent)

speed_lem :
    (a b now later : ℕ)
    → now < later
    → later < 2 ^ 64
    → a ≤ b
    → b < 2 ^ 64
    → speed b a (sub_uint64 later now) ≡ (b - a) / (later - now)
speed_lem a b now later after fits grown small =
    let seconds : sub_uint64 later now ≡ later - now = omega (arith, after, fits) in
    let bytes : sub_uint64 b a ≡ b - a = omega (arith, grown, small) in
    let positive : ltb 0 (later - now) ≡ true = lt→ltb 0 (later - now) (omega (arith, after)) in
    ap (speed b a) seconds
    ∙ ap (λ t. if t then sub_uint64 b a / (later - now) else 0) positive
    ∙ ap (λ x. x / (later - now)) bytes

sum_up_lem :
    (s : List IoCounters) (i o : ℕ)
    → i + total_recv s < 2 ^ 64
    → o + total_sent s < 2 ^ 64
    → sum_up s (i, o) ≡ (i + total_recv s, o + total_sent s)
unfolding sum_up total_recv total_sent
sum_up_lem [] i o hi ho = ap₂ (λ (x y : ℕ). (x, y)) (omega arith) (omega arith)
sum_up_lem (c ∷ s) i o hi ho =
    elim (Bool-cases (is_list_contains_str exclude_net_interfaces c.name)) [
      | inl skip ↦
          let r = ap (λ b. (if b then 0 else c.bytes_recv) + total_recv s) skip in
          let t = ap (λ b. (if b then 0 else c.bytes_sent) + total_sent s) skip in
          ap (one_round c s i o) skip
          ∙ sum_up_lem s i o (omega (arith, hi, r)) (omega (arith, ho, t))
          ∙ ap₂ (λ (x y : ℕ). (x, y)) (omega (arith, r)) (omega (arith, t))
      | inr counts ↦
          let r = ap (λ b. (if b then 0 else c.bytes_recv) + total_recv s) counts in
          let t = ap (λ b. (if b then 0 else c.bytes_sent) + total_sent s) counts in
          ap (one_round c s i o) counts
          ∙ sum_up_lem s (add_uint64 i c.bytes_recv) (add_uint64 o c.bytes_sent)
              (omega (arith, hi, r)) (omega (arith, ho, t))
          ∙ ap₂ (λ (x y : ℕ). (x, y)) (omega (arith, hi, r)) (omega (arith, ho, t))
    ]

-- An interface counts unless one of the excluded words stands somewhere in its name. In the second
-- of two calls, at a later time, while the sums fit 64 bits and have not shrunk, the bytes are the sums
-- over the interfaces that count, and each speed is the growth since the first call by the seconds in
-- between, rounded down.
pub get_net_stat_lem :
    (s s' : List IoCounters) (start : NetStats) (now later : ℕ)
    → now < later
    → later < 2 ^ 64
    → total_recv s ≤ total_recv s'
    → total_recv s' < 2 ^ 64
    → total_sent s ≤ total_sent s'
    → total_sent s' < 2 ^ 64
    → (let (_, last) = get_net_stat (ok s) now start in
        let (r, _) = get_net_stat (ok s') later last in
        (r.in_bytes ≡ total_recv s')
        × (r.out_bytes ≡ total_sent s')
        × (r.in_speed ≡ (total_recv s' - total_recv s) / (later - now))
        × (r.out_speed ≡ (total_sent s' - total_sent s) / (later - now)))
unfolding get_net_stat
get_net_stat_lem s s' start now later after fits gi hi go ho =
    let e = sum_up_lem s 0 0 (omega (arith, gi, hi)) (omega (arith, go, ho)) in
    let e' = sum_up_lem s' 0 0 (omega (arith, hi)) (omega (arith, ho)) in
    let i = ap (λ x. x.0) e in
    let o = ap (λ x. x.1) e in
    let i' = ap (λ x. x.0) e' in
    let o' = ap (λ x. x.1) e' in
    let diff = sub_uint64 later now in
    (
      omega (arith, i'),
      omega (arith, o'),
      ap₂ (λ b a. speed b a diff) (omega (arith, i')) (omega (arith, i))
          ∙ speed_lem (total_recv s) (total_recv s') now later after fits gi hi,
      ap₂ (λ b a. speed b a diff) (omega (arith, o')) (omega (arith, o))
          ∙ speed_lem (total_sent s) (total_sent s') now later after fits go ho,
    )
