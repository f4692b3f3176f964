-- ===== src/Service/Udp/Accounting/Agree.antt =====
-- The accounts of a key that the rounds of the UDP loop keep, for the API and in the metrics, agree.
use ssgo.Prelude.{
  ◌≤◌, ℕ, ◌+◌, ◌<◌, ◌^◌, ◌≡◌, refl, ap, ◌∙◌, inl, inr, false, List, [], ◌∷◌, ◌++◌, Option, none,
  some, arith, if◌then◌else◌, Bool-cases, Bytes, codes, length, bytes_equal, bytes_equal_iff, All,
}
use ssgo.Io.{Error, Result, ok, err}
use ssgo.Shadowsocks.Crypto.{Crypto}
use ssgo.Shadowsocks.Cipher.{Cipher}
use ssgo.Service.CipherList.{Element}
use ssgo.Service.Nat.{Natconn, get}
use ssgo.Service.Metrics.{IsCounting, Metrics, series}
use ssgo.Service.Metrics.Calls.{
  udp_from_client, from_client, to_target, Dir, from_target, to_client, Proto, over_tcp, over_udp,
  call, amount,
}
use ssgo.Service.Metrics.Totals.{value, value-call}
use ssgo.Api.{UserTraffic, add_repo}
use ssgo.Api.Totals.{total_u, total_d}
use ssgo.Service.Udp.{
  UdpAddr, Env, Shared, Packet, Forwarded, Validated, rejected, valid, validate_packet, with_socket,
  write_target, to_known, from_known, to_new, from_new, report, Round, stopping, panicked, done,
  serve_round,
}
use ssgo.Service.Udp
use ssgo.Service.Udp.Accounting.{status_text, meter, after, Arrival, rounds, IsInt}

-- Before the report a round leaves the queue alone, and the bytes that it reports are those of a
-- WriteTo, or none.
module _ (crypto : Crypto) (env : Env) (p : Packet)
    (ints : (payload : Bytes) (tgt : UdpAddr) → (env.write_to payload tgt).0 < 2 ^ 63) where
  abbrev Quiet : Shared → Forwarded × Shared → Type 0
  Quiet s (f, s') = (s'.user_traffic ≡ s.user_traffic) × (f.proxy_target_bytes < 2 ^ 63)

  to_known-Quiet : (c : Natconn) (s : Shared) (v : Validated) → Quiet s (to_known env p c s v)
  unfolding write_target
  to_known-Quiet c s (rejected status) = (refl, omega arith)
  to_known-Quiet c s (valid payload tgt) = (refl, ints payload tgt)

  from_known-Quiet :
      (c : Natconn) (s : Shared) (r : Result Bytes) → Quiet s (from_known env p c s r)
  from_known-Quiet c s (err e) = (refl, omega arith)
  from_known-Quiet c s (ok text) = to_known-Quiet c s (validate_packet env text)

  to_new-Quiet :
      (id : Bytes) (cipher : Cipher) (location : Bytes) (s : Shared) (v : Validated)
      → Quiet s (to_new env p id cipher location s v)
  unfolding write_target
  to_new-Quiet id cipher location s (rejected status) = (refl, omega arith)
  to_new-Quiet id cipher location s (valid payload tgt) = with_listen (env.listen p.client_addr)
    where
      with_listen :
          (o : Option Error) → Quiet s (with_socket env p id cipher location payload tgt s o)
      with_listen (some e) = (refl, omega arith)
      with_listen none = (refl, ints payload tgt)

  from_new-Quiet :
      (location : Bytes) (s : Shared) (r : Result (Bytes × Bytes × Cipher) × List Element)
      → Quiet s (from_new env p location s r)
  from_new-Quiet location s (err e, cl) = (refl, omega arith)
  from_new-Quiet location s (ok (text, id, cipher), cl) =
      to_new-Quiet id cipher location (record s { ciphers = cl }) (validate_packet env text)

  from_client-Quiet : (s : Shared) (o : Option Natconn) → Quiet s (Udp.from_client crypto env p s o)
  from_client-Quiet s (some c) = from_known-Quiet c s _
  from_client-Quiet s none = from_new-Quiet _ s _

totals-append :
    (key : Bytes) (q : List UserTraffic) (t : UserTraffic)
    → (total_u key (q ++ (t ∷ [])) ≡ total_u key q + (if bytes_equal t.uid key then t.u else 0))
      × (total_d key (q ++ (t ∷ [])) ≡ total_d key q + (if bytes_equal t.uid key then t.d else 0))
unfolding total_u total_d
totals-append key [] t = (omega arith, omega arith)
totals-append key (o ∷ q) t =
    let (u, d) = totals-append key q t in (omega (arith, u), omega (arith, d))

apart : (b : ℕ) (bs : Bytes) → bytes_equal [] (b ∷ bs) ≡ false
unfolding bytes_equal
apart b bs = refl

totals-add_repo :
    (b : ℕ) (bs : Bytes) (q : List UserTraffic) (t : UserTraffic)
    → (total_u (b ∷ bs) (add_repo q t)
        ≡ total_u (b ∷ bs) q + (if bytes_equal t.uid (b ∷ bs) then t.u else 0))
      × (total_d (b ∷ bs) (add_repo q t)
          ≡ total_d (b ∷ bs) q + (if bytes_equal t.uid (b ∷ bs) then t.d else 0))
unfolding add_repo
totals-add_repo b bs q t = elim (Bool-cases (bytes_equal t.uid [])) [
  | inl anonymous ↦
      let other =
        ap (λ u. bytes_equal u (b ∷ bs)) ((bytes_equal_iff t.uid []).0 anonymous) ∙ apart b bs in
      rw (anonymous, add_repo)
        (
          omega (arith, ap (λ c. if c then t.u else 0) other),
          omega (arith, ap (λ c. if c then t.d else 0) other),
        )
  | inr named ↦ rw (named, add_repo) (ground (arith, totals-append (b ∷ bs) q t))
]

packet_in_range :
    (location key status : Bytes) (n k time : ℕ)
    → n < 2 ^ 63
    → k < 2 ^ 63
    → (d : Dir) (p : Proto) → amount d p (udp_from_client location key status n k time) < 2 ^ 63
packet_in_range location key status n k time h g from_client over_udp = h
packet_in_range location key status n k time h g to_target over_udp = g
packet_in_range location key status n k time h g from_target over_udp = omega arith
packet_in_range location key status n k time h g to_client over_udp = omega arith
packet_in_range location key status n k time h g d over_tcp = omega arith

-- The two accounts of a key: what is queued for the API, and the series of the metrics.
abbrev pub upward : Bytes → Metrics → ℕ
upward key m = value (series (codes "c>p") (codes "udp") key) m.data_bytes

abbrev pub onward : Bytes → Metrics → ℕ
onward key m = value (series (codes "p>t") (codes "udp") key) m.data_bytes

module _ (plus : ℕ → ℕ → ℕ) (exact : IsCounting plus) (crypto : Crypto) (b : ℕ) (bs : Bytes) where
  abbrev Agree : Shared × Metrics → Shared × Metrics → Type 0
  Agree (s, m) (s', m') =
      (total_u (b ∷ bs) s'.user_traffic + upward (b ∷ bs) m
        ≡ total_u (b ∷ bs) s.user_traffic + upward (b ∷ bs) m')
      × (total_d (b ∷ bs) s'.user_traffic + onward (b ∷ bs) m
          ≡ total_d (b ∷ bs) s.user_traffic + onward (b ∷ bs) m')

  -- Of a queue that only grows.
  abbrev Grows : Shared → Shared → Type 0
  Grows s s' =
      (total_u (b ∷ bs) s.user_traffic ≤ total_u (b ∷ bs) s'.user_traffic)
      × (total_d (b ∷ bs) s.user_traffic ≤ total_d (b ∷ bs) s'.user_traffic)

  -- What the accounts come to after a growth of the queue is less than 2 ^ 53.
  abbrev IsSmall : Shared × Metrics → Shared → Type 0
  IsSmall (s, m) s' =
      (total_u (b ∷ bs) s'.user_traffic + upward (b ∷ bs) m
        < 2 ^ 53 + total_u (b ∷ bs) s.user_traffic)
      × (total_d (b ∷ bs) s'.user_traffic + onward (b ∷ bs) m
          < 2 ^ 53 + total_d (b ∷ bs) s.user_traffic)

  serve_round-Grows :
      (a : Arrival) (s : Shared)
      → IsInt a
      → Grows s (after (serve_round crypto a.env false (some a.packet) s) s)
  unfolding serve_round report
  serve_round-Grows a s ints =
      let (f, s') = Udp.from_client crypto a.env a.packet s (get s.nat a.packet.client_addr) in
      let (same, _) =
        from_client-Quiet crypto a.env a.packet ints.written s (get s.nat a.packet.client_addr) in
      let t : UserTraffic = record {
        uid = f.key_id;
        u = length a.packet.data_bytes;
        d = f.proxy_target_bytes;
      } in
      let (u, d) = totals-add_repo b bs s'.user_traffic t in
      (omega (arith, u, ap (total_u (b ∷ bs)) same), omega (arith, d, ap (total_d (b ∷ bs)) same))

  rounds-Grows :
      (arrivals : List Arrival) (s : Shared) (m : Metrics)
      → All IsInt arrivals
      → Grows s (rounds plus crypto arrivals (s, m)).0
  unfolding rounds
  rounds-Grows [] s m h = (omega arith, omega arith)
  rounds-Grows (a ∷ arrivals) s m h =
      let r = serve_round crypto a.env false (some a.packet) s in
      let (u, d) = serve_round-Grows a s h.0 in
      let (u', d') =
        rounds-Grows arrivals (after r s) (meter plus a.packet a.time_to_cipher r m) h.1 in
      (omega (arith, u, u'), omega (arith, d, d'))

  one_round :
      (a : Arrival) (s : Shared) (m : Metrics)
      → IsInt a
      → IsSmall (s, m) (after (serve_round crypto a.env false (some a.packet) s) s)
      → (let r = serve_round crypto a.env false (some a.packet) s in
          Agree (s, m) (after r s, meter plus a.packet a.time_to_cipher r m))
  unfolding serve_round report meter call
  one_round a s m ints (small_u, small_d) =
      let (f, s') = Udp.from_client crypto a.env a.packet s (get s.nat a.packet.client_addr) in
      let (same, small) =
        from_client-Quiet crypto a.env a.packet ints.written s (get s.nat a.packet.client_addr) in
      let n = length a.packet.data_bytes in
      let c =
        udp_from_client f.client_location f.key_id (status_text f.status) n f.proxy_target_bytes
          a.time_to_cipher in
      let in_range =
        packet_in_range f.client_location f.key_id (status_text f.status) n f.proxy_target_bytes
          a.time_to_cipher ints.packet small in
      let t : UserTraffic = record { uid = f.key_id; u = n; d = f.proxy_target_bytes } in
      let (u, d) = totals-add_repo b bs s'.user_traffic t in
      let u0 = ap (total_u (b ∷ bs)) same in
      let d0 = ap (total_d (b ∷ bs)) same in
      let up =
        value-call plus exact (λ k. []) from_client over_udp (b ∷ bs) c m in_range
          (omega (arith, u, u0, small_u)) in
      let on =
        value-call plus exact (λ k. []) to_target over_udp (b ∷ bs) c m in_range
          (omega (arith, d, d0, small_d)) in
      (omega (arith, u, up, u0), omega (arith, d, on, d0))

  agree_after :
      (arrivals : List Arrival) (s : Shared) (m : Metrics)
      → All IsInt arrivals
      → IsSmall (s, m) (rounds plus crypto arrivals (s, m)).0
      → Agree (s, m) (rounds plus crypto arrivals (s, m))
  unfolding rounds
  agree_after [] s m h small = (refl, refl)
  agree_after (a ∷ arrivals) s m h (small_u, small_d) =
      let r = serve_round crypto a.env false (some a.packet) s in
      let m1 = meter plus a.packet a.time_to_cipher r m in
      let (gu, gd) = rounds-Grows arrivals (after r s) m1 h.1 in
      let (u1, d1) = one_round a s m h.0 (omega (arith, gu, small_u), omega (arith, gd, small_d)) in
      let (u2, d2) =
        agree_after arrivals (after r s) m1 h.1
          (omega (arith, u1, small_u), omega (arith, d1, small_d)) in
      (omega (arith, u1, u2), omega (arith, d1, d2))

  -- With a Prometheus client whose counters are exact below 2 ^ 53, over any packets that the loop takes,
  -- what is queued of a user's upload and download grows by what the metrics of the same key grow, from
  -- the client and to the target, where each length fits an int64 and the queued amounts and the
  -- counters before come to less than 2 ^ 53.
  pub rounds-Agree :
      (arrivals : List Arrival) (s : Shared) (m : Metrics)
      → All IsInt arrivals
      → total_u (b ∷ bs) (rounds plus crypto arrivals (s, m)).0.user_traffic + upward (b ∷ bs) m
        < 2 ^ 53
      → total_d (b ∷ bs) (rounds plus crypto arrivals (s, m)).0.user_traffic + onward (b ∷ bs) m
        < 2 ^ 53
      → (let (s', m') = rounds plus crypto arrivals (s, m) in
          (total_u (b ∷ bs) s'.user_traffic + upward (b ∷ bs) m
            ≡ total_u (b ∷ bs) s.user_traffic + upward (b ∷ bs) m')
          × (total_d (b ∷ bs) s'.user_traffic + onward (b ∷ bs) m
              ≡ total_d (b ∷ bs) s.user_traffic + onward (b ∷ bs) m'))
  rounds-Agree arrivals s m h small_u small_d =
      agree_after arrivals s m h (omega (arith, small_u), omega (arith, small_d))
