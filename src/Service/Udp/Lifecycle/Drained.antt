-- ===== src/Service/Udp/Lifecycle/Drained.antt =====
-- A stopped UDP service drains, and what is left of it then.
use ssgo.Prelude.{
  Option-cases, ℕ, zero, suc, ◌≡◌, refl, ap, ◌∙◌, inl, inr, true, false, List, [], ◌∷◌, none, some,
  arith, if◌then◌else◌, Bytes, length, Bool-cases, bytes_equal_refl,
}
use ssgo.Shadowsocks.Crypto.{Crypto}
use ssgo.Service.Replay.{contains}
use ssgo.Service.CipherList.{Element}
use ssgo.Service.Nat.{Natconn, Natmap, get, lookup_conn}
use ssgo.Service.Nat.Counted.{is_timed, IsCounted, finish-IsCounted}
use ssgo.Service.Nat.Timed.{lookup-timed}
use ssgo.Service.Udp.{Env, stopping, panicked, serve_round}
use ssgo.Service.Udp.Lifecycle.{
  UdpService, new_udp_service, serve_ends, after_round, copier_ends, receives, read_fails,
  end_copier, Steps, here, next, IsDrained,
}
use ssgo.Service.Udp.Lifecycle.Accounted.{
  others, IsAccounted, Steps-IsAccounted, new_udp_service-IsAccounted,
}

entry_of :
    (n : ℕ) (m : Natmap) (l : List (Bytes × Natconn))
    → m.key_conn ≡ l
    → length l ≡ suc n
    → (key : Bytes) × (c : Natconn) × (get m key ≡ some c)
unfolding get lookup_conn
entry_of n m [] h e = absurd (omega arith)
entry_of n m ((key, c) ∷ l) h e = (
  key,
  c,
  ap (lookup_conn key) h ∙ ap (λ b. if b then some c else lookup_conn key l) (bytes_equal_refl key),
)

deadline_of : (c : Natconn) → is_timed c ≡ true → (t : ℕ) × (c.deadline_set ≡ some t)
deadline_of c h = elim (Option-cases c.deadline_set) [
  | inl never ↦ ground arith
  | inr (t, e) ↦ (t, e)
]

module _ (crypto : Crypto) where
  Steps-append : {s t u : UdpService} → Steps crypto s t → Steps crypto t u → Steps crypto s u
  Steps-append r here = r
  Steps-append r (next q st) = next (Steps-append r q) st

  -- The goroutines of the table end one after the other.
  end_all :
      (n : ℕ) (s : UdpService)
      → length s.shared.nat.key_conn ≡ n
      → IsAccounted s
      → (u : UdpService) × Steps crypto s u × (u.shared.nat.key_conn ≡ []) × (u.serving ≡ s.serving)
  unfolding copier_ends get
  end_all zero s e i = (s, here, ground arith, refl)
  end_all (suc n) s e i =
      let (key, c, found) = entry_of n s.shared.nat s.shared.nat.key_conn refl e in
      let (t, due) = deadline_of c (lookup-timed key s.shared.nat.key_conn c i.timed found) in
      let st = next here (end_copier s t key c t found due (omega arith)) in
      let fewer = (finish-IsCounted (others s) s.shared.nat key c found i.table).1 in
      let (u, r, empty, serving) =
        end_all n (copier_ends key s) (omega (arith, fewer, e)) (Steps-IsAccounted crypto st i) in
      (u, Steps-append st r, empty, serving)

  module _ (t : ℕ) (cl : List Element) where
    accounted : {s : UdpService} → Steps crypto (new_udp_service t cl) s → IsAccounted s
    accounted r = Steps-IsAccounted crypto r (new_udp_service-IsAccounted t cl)

    -- In every interleaving of Serve, packets, failing reads, answers of targets, ends of their
    -- goroutines and Stop, no client has two entries in the NAT table, the entries added are those
    -- removed and those in the table, and the wait group counts the entries and Serve's loop.
    Steps-IsCounted :
        {s : UdpService}
        → Steps crypto (new_udp_service t cl) s
        → IsCounted (if s.serving then 1 else 0) s.shared.nat
    Steps-IsCounted r = (accounted r).table

    -- Once a UDP service has been stopped and its wait group is empty, as GracefulStop waits for, its
    -- loop has ended, its NAT table is empty, as many entries were removed as were added, and every
    -- socket of clients that Serve was ever given has been closed.
    pub graceful_stop_udp :
        {s : UdpService}
        → Steps crypto (new_udp_service t cl) s
        → s.stopped ≡ true
        → s.shared.nat.running ≡ 0
        → IsDrained s
          × (s.shared.nat.added ≡ s.shared.nat.removed)
          × ((l : ℕ) → contains l s.handed ≡ true → contains l s.closed ≡ true)
    graceful_stop_udp {s = s} r stopped done_all =
        let i = accounted r in
        let empty : s.shared.nat.key_conn ≡ [] = ground (arith, i.table.counted) in
        (
          (ground (arith, i.table.counted), empty, done_all),
          omega (arith, i.table.balanced, ap length empty),
          λ l h. ground (arith, i.closes l h),
        )

    -- From every state that a stopped service can be in, it receives no more packets, and some steps
    -- drain it, whatever the environment of its last round: every goroutine of the table has a read
    -- deadline that ends it.
    pub stopped_udp_can_drain :
        {s : UdpService} (env : Env)
        → Steps crypto (new_udp_service t cl) s
        → s.stopped ≡ true
        → (receives s ≡ false) × ((u : UdpService) × Steps crypto s u × IsDrained u)
    unfolding after_round serve_round serve_ends
    stopped_udp_can_drain {s} env r stopped =
        let i = accounted r in
        (
          i.shut stopped,
          elim (Bool-cases s.serving) [
            | inl on ↦
                let st = read_fails s env on in
                let off : (after_round env.now s
                      (serve_round crypto env s.stopped none s.shared)).serving
                    ≡ false =
                  ap (λ b. (after_round env.now s (if b then stopping else panicked)).serving)
                    stopped in
                drain _ (next r st) (next here st) off
            | inr off ↦ drain s r here off
          ],
        )
      where
        drain :
            (s' : UdpService)
            → Steps crypto (new_udp_service t cl) s'
            → Steps crypto s s'
            → s'.serving ≡ false
            → (u : UdpService) × Steps crypto s u × IsDrained u
        drain s' r' q off =
            let (u, p, empty, serving) =
              end_all (length s'.shared.nat.key_conn) s' refl (accounted r') in
            let i = accounted (Steps-append r' p) in
            (u, Steps-append q p, (serving ∙ off, empty, ground (arith, i.table.counted, empty)))
