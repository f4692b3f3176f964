-- ===== src/Service/Metrics/Updates.antt =====
-- The updates of a vector of the metrics, and what a sum over its series makes of them.
use ssgo.Prelude.{
  ltb, suc, ◌*◌, ◌%◌, ◌/◌, sym, subst, ◌≤◌, ℕ, ◌+◌, ◌<◌, ◌^◌, ◌≡◌, refl, ap, ◌∙◌, inl, inr, Bool,
  true, false, ◌&&◌, List, [], ◌∷◌, arith, if◌then◌else◌, Bytes, codes, bytes_equal, Bool-cases,
  All,
}
use ssgo.Service.Metrics.{
  rounded, float64_from, float64, is_positive, CounterVec, add_value, Metrics,
  new_shadowsocks_metrics, ProxyMetrics, set_build_info, set_num_access_keys,
  add_open_tcp_connection, add_if_non_zero, series, add_closed_tcp_connection, add_tcp_probe,
  add_udp_packet_from_client, add_udp_packet_from_target, add_udp_nat_entry, remove_udp_nat_entry,
}
use ssgo.Service.Metrics.Calls.{
  Call, build_info_set, num_keys_set, tcp_opened, tcp_closed, tcp_probed, udp_from_client,
  udp_from_target, nat_added, nat_removed, Dir, from_client, to_target, from_target, to_client,
  Proto, over_tcp, over_udp, dir_text, proto_text, moved, on_proto, amount, key_of, location_of,
  IsInRange, sum_where, call, calls,
}

module _ (plus : ℕ → ℕ → ℕ) where
  -- The updates of one vector, for the name that its series have.
  add_data : Proto → Bytes → ProxyMetrics → CounterVec → CounterVec
  add_data q name x vec =
      add_if_non_zero plus x.proxy_client (series (codes "c<p") (proto_text q) name) (
        add_if_non_zero plus x.target_proxy (series (codes "p<t") (proto_text q) name) (
          add_if_non_zero plus x.proxy_target (series (codes "p>t") (proto_text q) name)
            (add_if_non_zero plus x.client_proxy (series (codes "c>p") (proto_text q) name) vec)))

  pub updated : Bytes → Call → CounterVec → CounterVec
  unfolding add_data
  updated name (tcp_closed location key status x ttc duration) vec = add_data over_tcp name x vec
  updated name (udp_from_client location key status cp pt ttc) vec =
      add_data over_udp name
        (record { client_proxy = cp; proxy_target = pt; target_proxy = 0; proxy_client = 0 }) vec
  updated name (udp_from_target location key status tp pc) vec =
      add_data over_udp name
        (record { client_proxy = 0; proxy_target = 0; target_proxy = tp; proxy_client = pc }) vec
  updated name c vec = vec

  pub call-updated :
      (itoa : ℕ → Bytes) (c : Call) (m : Metrics)
      → ((call plus itoa c m).data_bytes ≡ updated (key_of c) c m.data_bytes)
        × ((call plus itoa c m).data_bytes_per_location
            ≡ updated (location_of c) c m.data_bytes_per_location)
  unfolding call updated set_build_info set_num_access_keys add_open_tcp_connection
      add_closed_tcp_connection add_tcp_probe add_udp_packet_from_client add_udp_packet_from_target
      add_udp_nat_entry remove_udp_nat_entry
  call-updated itoa (build_info_set version) m = (refl, refl)
  call-updated itoa (num_keys_set keys ports) m = (refl, refl)
  call-updated itoa (tcp_opened location) m = (refl, refl)
  call-updated itoa (tcp_closed location key status data_moved ttc duration) m = (refl, refl)
  call-updated itoa (tcp_probed status drain port data_moved) m = (refl, refl)
  call-updated itoa (udp_from_client location key status cp pt ttc) m = (refl, refl)
  call-updated itoa (udp_from_target location key status tp pc) m = (refl, refl)
  call-updated itoa nat_added m = (refl, refl)
  call-updated itoa nat_removed m = (refl, refl)

not_positive : (v : ℕ) → v < 2 ^ 63 → is_positive v ≡ false → v ≡ 0
not_positive v h e = ground arith

if_zero : (b : Bool) (v : ℕ) → v ≡ 0 → (if b then v else 0) ≡ 0
if_zero true v h = h
if_zero false v h = refl

no_part : (b : Bool) (n : ℕ) → n ≡ n + (if b then 0 else 0)
no_part true n = omega arith
no_part false n = omega arith

-- The part of a direction and a protocol, for a name that is meant or not.
part : Dir → Proto → Bool → Bytes → Bytes → ℕ → ℕ
part d p b dir proto v =
    if bytes_equal dir (dir_text d) && (bytes_equal proto (proto_text p) && b) then v else 0

part_lem :
    (d : Dir) (p q : Proto) (b : Bool) (dir : Bytes) (v : ℕ)
    → part d p b dir (proto_text q) v
      ≡ (if bytes_equal dir (dir_text d) then (if b then on_proto q p v else 0) else 0)
unfolding part bytes_equal
part_lem d over_tcp over_tcp b dir v = ground arith
part_lem d over_tcp over_udp b dir v = ground arith
part_lem d over_udp over_tcp b dir v = ground arith
part_lem d over_udp over_udp b dir v = ground arith

four_parts :
    (d : Dir) (p q : Proto) (b : Bool) (n : ℕ) (x : ProxyMetrics)
    → (let of = λ (dir : Bytes) (v : ℕ).
          if bytes_equal dir (dir_text d) then (if b then on_proto q p v else 0) else 0 in
        n
          + of (codes "c>p") x.client_proxy
          + of (codes "p>t") x.proxy_target
          + of (codes "p<t") x.target_proxy
          + of (codes "c<p") x.proxy_client
        ≡ n + (if b then on_proto q p (moved d x) else 0))
unfolding bytes_equal
four_parts from_client p q b n x = omega arith
four_parts to_target p q b n x = omega arith
four_parts from_target p q b n x = omega arith
four_parts to_client p q b n x = omega arith

-- A sum over a vector to which a series adds its value when its labels are of a kind.
-- While a sum stays below 2 ^ 53, what is added to it is a float64.
float64_from-fits :
    (fuel unit v : ℕ)
    → ltb v (2 ^ 53 * unit) ≡ true
    → float64_from (suc fuel) unit v ≡ rounded unit v
unfolding float64_from
float64_from-fits fuel unit v h =
    ap (λ b. if b then rounded unit v else float64_from fuel (2 * unit) v) h

rounded_one : (v : ℕ) → rounded 1 v ≡ v
unfolding rounded
rounded_one v =
    let whole : v / 1 ≡ v = omega arith in
    let rest : v % 1 ≡ 0 = omega arith in rw (rest, whole) (omega arith)

float64-exact : (v : ℕ) → v < 2 ^ 53 → float64 v ≡ v
unfolding float64
float64-exact v h = float64_from-fits 10 1 v (ground arith) ∙ rounded_one v

exact_part :
    (b : Bool) (n v : ℕ)
    → n + (if b then v else 0) < 2 ^ 53
    → (if b then float64 v else 0) ≡ (if b then v else 0)
exact_part true n v h = float64-exact v (omega arith)
exact_part false n v h = refl

module _ (plus : ℕ → ℕ → ℕ) (d : Dir) (p : Proto) (f : CounterVec → ℕ) (w : List Bytes → Bool)
    (of_name : Bytes → Bool)
    (f-add : (lvs : List Bytes) (v : ℕ) (vec : CounterVec)
      → f vec + (if w lvs then v else 0) < 2 ^ 53
      → f (add_value plus lvs v vec) ≡ f vec + (if w lvs then v else 0))
    (w-series : (dir proto name : Bytes)
      → w (series dir proto name)
        ≡ bytes_equal dir (dir_text d) && (bytes_equal proto (proto_text p) && of_name name)) where
  f-add_if_non_zero :
      (v : ℕ) (dir proto name : Bytes) (vec : CounterVec)
      → v < 2 ^ 63
      → f vec
          + (if bytes_equal dir (dir_text d) && (bytes_equal proto (proto_text p) && of_name name)
              then v
              else 0)
        < 2 ^ 53
      → f (add_if_non_zero plus v (series dir proto name) vec)
        ≡ f vec
          + (if bytes_equal dir (dir_text d) && (bytes_equal proto (proto_text p) && of_name name)
              then v
              else 0)
  unfolding add_if_non_zero
  f-add_if_non_zero v dir proto name vec h small =
      let b = bytes_equal dir (dir_text d) && (bytes_equal proto (proto_text p) && of_name name) in
      let exact = exact_part b (f vec) v small in
      let as_w : (if w (series dir proto name) then float64 v else 0) ≡ (if b then v else 0) =
        ap (λ b. if b then float64 v else 0) (w-series dir proto name) ∙ exact in
      elim (Bool-cases (is_positive v)) [
        | inl pos ↦
            rw (pos, add_if_non_zero)
              (f-add (series dir proto name) (float64 v) vec (omega (arith, as_w, small))
                ∙ ap (◌+◌ (f vec)) as_w)
        | inr neg ↦ rw (neg, add_if_non_zero) (omega (arith, if_zero b v (not_positive v h neg)))
      ]

  f-part :
      (q : Proto) (v : ℕ) (dir name : Bytes) (vec : CounterVec)
      → v < 2 ^ 63
      → f vec
          + (if bytes_equal dir (dir_text d)
              then (if of_name name then on_proto q p v else 0)
              else 0)
        < 2 ^ 53
      → f (add_if_non_zero plus v (series dir (proto_text q) name) vec)
        ≡ f vec
          + (if bytes_equal dir (dir_text d)
              then (if of_name name then on_proto q p v else 0)
              else 0)
  unfolding part
  f-part q v dir name vec h small =
      let same = part_lem d p q (of_name name) dir v in
      f-add_if_non_zero v dir (proto_text q) name vec h
        (subst (λ n. f vec + n < 2 ^ 53) (sym same) small)
      ∙ ap (◌+◌ (f vec)) same

  f-add_data :
      (q : Proto) (name : Bytes) (x : ProxyMetrics) (vec : CounterVec)
      → ((d : Dir) → moved d x < 2 ^ 63)
      → f vec + (if of_name name then on_proto q p (moved d x) else 0) < 2 ^ 53
      → f (add_data plus q name x vec)
        ≡ f vec + (if of_name name then on_proto q p (moved d x) else 0)
  unfolding add_data
  f-add_data q name x vec r small =
      let s = λ (dir : Bytes). series dir (proto_text q) name in
      let all = four_parts d p q (of_name name) (f vec) x in
      let vec1 = add_if_non_zero plus x.client_proxy (s (codes "c>p")) vec in
      let vec2 = add_if_non_zero plus x.proxy_target (s (codes "p>t")) vec1 in
      let vec3 = add_if_non_zero plus x.target_proxy (s (codes "p<t")) vec2 in
      let e1 =
        f-part q x.client_proxy (codes "c>p") name vec (r from_client)
          (omega (arith, all, small)) in
      let e2 =
        f-part q x.proxy_target (codes "p>t") name vec1 (r to_target)
          (omega (arith, all, small, e1)) in
      let e3 =
        f-part q x.target_proxy (codes "p<t") name vec2 (r from_target)
          (omega (arith, all, small, e1, e2)) in
      let e4 =
        f-part q x.proxy_client (codes "c<p") name vec3 (r to_client)
          (omega (arith, all, small, e1, e2, e3)) in
      omega (arith, e1, e2, e3, e4, all)

  pub f-updated :
      (name : Bytes) (c : Call) (vec : CounterVec)
      → IsInRange c
      → f vec + (if of_name name then amount d p c else 0) < 2 ^ 53
      → f (updated plus name c vec) ≡ f vec + (if of_name name then amount d p c else 0)
  unfolding updated
  f-updated name (tcp_closed location key status x ttc duration) vec r small =
      f-add_data over_tcp name x vec (λ d. r d over_tcp) small
  f-updated name (udp_from_client location key status cp pt ttc) vec r small =
      f-add_data over_udp name _ vec (λ d. r d over_udp) small
  f-updated name (udp_from_target location key status tp pc) vec r small =
      f-add_data over_udp name _ vec (λ d. r d over_udp) small
  f-updated name (build_info_set version) vec r small = no_part (of_name name) (f vec)
  f-updated name (num_keys_set keys ports) vec r small = no_part (of_name name) (f vec)
  f-updated name (tcp_opened location) vec r small = no_part (of_name name) (f vec)
  f-updated name (tcp_probed status drain port data_moved) vec r small =
      no_part (of_name name) (f vec)
  f-updated name nat_added vec r small = no_part (of_name name) (f vec)
  f-updated name nat_removed vec r small = no_part (of_name name) (f vec)

  -- The sum over a vector after some calls.
  f-calls :
      (itoa : ℕ → Bytes) (cs : List Call) (m : Metrics)
      → All IsInRange cs
      → f m.data_bytes + sum_where d p (λ c. of_name (key_of c)) cs < 2 ^ 53
      → f m.data_bytes_per_location + sum_where d p (λ c. of_name (location_of c)) cs < 2 ^ 53
      → (f (calls plus itoa cs m).data_bytes
          ≡ f m.data_bytes + sum_where d p (λ c. of_name (key_of c)) cs)
        × (f (calls plus itoa cs m).data_bytes_per_location
            ≡ f m.data_bytes_per_location + sum_where d p (λ c. of_name (location_of c)) cs)
  unfolding calls
  f-calls itoa [] m h small small' = (omega arith, omega arith)
  f-calls itoa (c ∷ cs) m h small small' =
      let (u1, u2) = call-updated plus itoa c m in
      let e1 = ap f u1 ∙ f-updated (key_of c) c m.data_bytes h.0 (omega (arith, small)) in
      let e2 =
        ap f u2
        ∙ f-updated (location_of c) c m.data_bytes_per_location h.0 (omega (arith, small')) in
      let (r1, r2) =
        f-calls itoa cs (call plus itoa c m) h.1 (omega (arith, small, e1))
          (omega (arith, small', e2)) in
      (omega (arith, r1, e1), omega (arith, r2, e2))

  some_of_all :
      (of_call : Call → Bool) (cs : List Call)
      → sum_where d p of_call cs ≤ sum_where d p (λ c. true) cs
  some_of_all of_call [] = omega arith
  some_of_all of_call (c ∷ cs) = ground (arith, some_of_all of_call cs)

  pub f-calls_new :
      (itoa : ℕ → Bytes) (cs : List Call)
      → f [] ≡ 0
      → All IsInRange cs
      → sum_where d p (λ c. true) cs < 2 ^ 53
      → (let m = calls plus itoa cs new_shadowsocks_metrics in
          (f m.data_bytes ≡ sum_where d p (λ c. of_name (key_of c)) cs)
          × (f m.data_bytes_per_location ≡ sum_where d p (λ c. of_name (location_of c)) cs))
  unfolding new_shadowsocks_metrics
  f-calls_new itoa cs none_yet h small =
      let by_key = some_of_all (λ c. of_name (key_of c)) cs in
      let by_location = some_of_all (λ c. of_name (location_of c)) cs in
      let (e1, e2) =
        f-calls itoa cs new_shadowsocks_metrics h (omega (arith, none_yet, small, by_key))
          (omega (arith, none_yet, small, by_location)) in
      (omega (arith, e1, none_yet), omega (arith, e2, none_yet))
