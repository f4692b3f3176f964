-- ===== src/Service/Lifecycle/Drained.antt =====
-- The accounting of the wait group, who closes a listener, and that a stopped service drains.
use ssgo.Prelude.{
  ℕ, zero, suc, ◌+◌, ◌≡◌, refl, true, false, some, arith, if◌then◌else◌, ◌⊎◌, inl, inr, Bool-cases,
}
use ssgo.Service.Replay.{contains}
use ssgo.Service.Lifecycle.{
  TcpService, new_tcp_service, is_set, serve, accepted, accept_failed, connection_done, stop,
  accepts, Step, call_serve, accept, fail, finish, call_stop, Steps, here, next, IsDrained,
}

pub record IsCounted (s : TcpService) : Type 0 where
  pub counted : s.running ≡ (if s.serving then 1 else 0) + s.connections
  pub adopted : s.serving ≡ true → is_set s.listener ≡ true
  pub shut : s.stopped ≡ true → accepts s ≡ false
  -- A listener that Serve was given is closed, or Serve still runs with it.
  pub closes :
      (l : ℕ)
      → contains l s.handed ≡ true
      → (contains l s.closed ≡ true)
        ⊎ ((s.listener ≡ some l) × (s.stopped ≡ false) × (s.serving ≡ true))

new_tcp_service-IsCounted : IsCounted new_tcp_service
unfolding new_tcp_service contains
new_tcp_service-IsCounted = record {
  counted = refl;
  adopted = λ h. cc;
  shut = λ h. refl;
  closes = λ l h. ground arith;
}

Step-IsCounted : {s t : TcpService} → Step s t → IsCounted s → IsCounted t
unfolding serve accepted accept_failed connection_done stop contains
Step-IsCounted (call_serve s l fresh) c = record {
  counted = ground (arith, c.counted, c.adopted);
  adopted = λ h. ground (arith, c.adopted);
  shut = λ h. ground (arith, c.shut);
  closes = λ k h. ground (arith, c.closes k);
}
Step-IsCounted (accept s on free) c = record {
  counted = ground (arith, c.counted);
  adopted = λ h. c.adopted h;
  shut = λ h. c.shut h;
  closes = λ k h. c.closes k h;
}
Step-IsCounted (fail s on) c = record {
  counted = ground (arith, c.counted);
  adopted = λ h. ground (arith, c.adopted);
  shut = λ h. ground (arith, c.shut);
  closes = λ k h. ground (arith, c.closes k);
}
Step-IsCounted (finish s busy) c = record {
  counted = ground (arith, c.counted);
  adopted = λ h. c.adopted h;
  shut = λ h. c.shut h;
  closes = λ k h. c.closes k h;
}
Step-IsCounted (call_stop s) c = record {
  counted = c.counted;
  adopted = λ h. c.adopted h;
  shut = λ h. ground arith;
  closes = λ k h. ground (arith, c.closes k);
}

Steps-IsCounted : {s : TcpService} → Steps new_tcp_service s → IsCounted s
Steps-IsCounted here = new_tcp_service-IsCounted
Steps-IsCounted (next r st) = Step-IsCounted st (Steps-IsCounted r)

-- Once a service has been stopped and its wait group is empty, as GracefulStop waits for, nothing
-- of it runs any more, and every listener that Serve was ever given has been closed.
pub graceful_stop_lem :
    {s : TcpService}
    → Steps new_tcp_service s
    → s.stopped ≡ true
    → s.running ≡ 0
    → IsDrained s × ((l : ℕ) → contains l s.handed ≡ true → contains l s.closed ≡ true)
graceful_stop_lem {s} r stopped empty =
    let c = Steps-IsCounted r in
    (
      (ground (arith, c.counted), ground (arith, c.counted), empty),
      λ l h. ground (arith, c.closes l h),
    )

Steps-append : {s t u : TcpService} → Steps s t → Steps t u → Steps s u
Steps-append r here = r
Steps-append r (next q st) = next (Steps-append r q) st

-- The handlers of a stopped service return one after the other.
finish_all :
    (n : ℕ) (s : TcpService)
    → s.connections ≡ n
    → (t : TcpService) × Steps s t
      × (t.connections ≡ 0)
      × (t.serving ≡ s.serving)
      × (t.stopped ≡ s.stopped)
unfolding connection_done
finish_all zero s e = (s, here, e, refl, refl)
finish_all (suc n) s e =
    let (t, r, none_left, serving, stopped) = finish_all n (connection_done s) (omega (arith, e)) in
    (t, Steps-append (next here (finish s (omega (arith, e)))) r, none_left, serving, stopped)

-- A stopped service always can drain: its accept loop ends at the next failure, its listener being
-- closed accepts nothing more, and when the handlers have returned the wait group is empty.
pub stopped_can_drain :
    {s : TcpService}
    → Steps new_tcp_service s
    → s.stopped ≡ true
    → (accepts s ≡ false) × ((t : TcpService) × Steps s t × IsDrained t)
unfolding accept_failed
stopped_can_drain {s} r stopped =
    let c = Steps-IsCounted r in
    (
      c.shut stopped,
      elim (Bool-cases s.serving) [
        | inl on ↦
            let s' = accept_failed s in
            let ended : s'.serving ≡ false = ground arith in
            drain s' (next r (fail s on)) (next here (fail s on)) ended
        | inr off ↦ drain s r here off
      ],
    )
  where
    drain :
        (s' : TcpService)
        → Steps new_tcp_service s'
        → Steps s s'
        → s'.serving ≡ false
        → (t : TcpService) × Steps s t × IsDrained t
    drain s' r' q off =
        let (t, p, none_left, serving, _) = finish_all s'.connections s' refl in
        let c = Steps-IsCounted (Steps-append r' p) in
        (t, Steps-append q p, (ground arith, none_left, ground (arith, c.counted)))
