-- ===== src/Service/Udp/Lifecycle/Accounted.antt =====
-- The accounting of a UDP service: the entries of its NAT table, its wait group and its sockets.
use ssgo.Prelude.{
  ℕ, ◌≡◌, refl, sym, subst, inl, inr, ◌⊎◌, true, false, ◌||◌, List, Option, none, some, arith,
  if◌then◌else◌, Bytes, Bool-cases,
}
use ssgo.Io.{Result, ok, err}
use ssgo.Shadowsocks.Crypto.{Crypto}
use ssgo.Shadowsocks.Cipher.{Cipher}
use ssgo.Service.Replay.{contains}
use ssgo.Service.CipherList.{Element}
use ssgo.Service.Nat.{Natconn, new_nat_map, get, on_read}
use ssgo.Service.Nat.Counted.{
  IsCounted, Moved, kept, wrote, began, Moved-IsCounted, finish-IsCounted, close-IsCounted,
}
use ssgo.Service.Nat.Timed.{
  AllTimed, on_write-added, on_write-timed, on_read-timed, Moved-AllTimed, finish-AllTimed,
  close_all-IsTimed,
}
use ssgo.Service.Udp.{
  Env, Shared, Packet, Validated, rejected, valid, validate_packet, with_socket, write_target,
  to_known, from_known, to_new, from_new, from_client, report, stopping, panicked, serve_round,
}
use ssgo.Service.Udp.Lifecycle.{
  UdpService, new_udp_service, is_some, serve, serve_ends, after_round, answered, copier_ends, stop,
  receives, Step, call_serve, packet, read_fails, answer, end_copier, call_stop, Steps, here, next,
}

-- What a round makes of the table.
module _ (crypto : Crypto) (env : Env) (p : Packet) where
  to_known-Moved :
      (c : Natconn) (s : Shared) (v : Validated)
      → get s.nat p.client_addr ≡ some c
      → Moved p.client_addr s.nat (to_known env p c s v).1.nat
  unfolding write_target
  to_known-Moved c s (rejected status) h = kept
  to_known-Moved c s (valid payload tgt) h = wrote c _ h (on_write-timed env.now tgt.port c)

  from_known-Moved :
      (c : Natconn) (s : Shared) (r : Result Bytes)
      → get s.nat p.client_addr ≡ some c
      → Moved p.client_addr s.nat (from_known env p c s r).1.nat
  from_known-Moved c s (err e) h = kept
  from_known-Moved c s (ok text) h = to_known-Moved c s (validate_packet env text) h

  to_new-Moved :
      (id : Bytes) (cipher : Cipher) (location : Bytes) (s : Shared) (v : Validated)
      → get s.nat p.client_addr ≡ none
      → Moved p.client_addr s.nat (to_new env p id cipher location s v).1.nat
  unfolding write_target
  to_new-Moved id cipher location s (rejected status) h = kept
  to_new-Moved id cipher location s (valid payload tgt) h = with_listen (env.listen p.client_addr)
    where
      with_listen :
          (o : Option _)
          → Moved p.client_addr s.nat (with_socket env p id cipher location payload tgt s o).1.nat
      with_listen (some e) = kept
      with_listen none =
          began cipher location id _ h
            (on_write-added env.now tgt.port s.nat p.client_addr cipher location id)

  from_new-Moved :
      (location : Bytes) (s : Shared) (r : Result (Bytes × Bytes × Cipher) × List Element)
      → get s.nat p.client_addr ≡ none
      → Moved p.client_addr s.nat (from_new env p location s r).1.nat
  from_new-Moved location s (err e, cl) h = kept
  from_new-Moved location s (ok (text, id, cipher), cl) h =
      to_new-Moved id cipher location (record s { ciphers = cl }) (validate_packet env text) h

  from_client-Moved :
      (s : Shared) (o : Option Natconn)
      → get s.nat p.client_addr ≡ o
      → Moved p.client_addr s.nat (from_client crypto env p s o).1.nat
  from_client-Moved s (some c) h = from_known-Moved c s _ h
  from_client-Moved s none h = from_new-Moved _ s _ h

abbrev pub others : UdpService → ℕ
others s = if s.serving then 1 else 0

pub record IsAccounted (s : UdpService) : Type 0 where
  pub table : IsCounted (others s) s.shared.nat
  pub timed : AllTimed s.shared.nat
  pub adopted : s.serving ≡ true → is_some s.client_conn ≡ true
  pub shut : s.stopped ≡ true → receives s ≡ false
  -- A socket that Serve was given is closed, or Serve still runs with it.
  pub closes :
      (l : ℕ)
      → contains l s.handed ≡ true
      → (contains l s.closed ≡ true)
        ⊎ ((s.client_conn ≡ some l) × (s.stopped ≡ false) × (s.serving ≡ true))

pub new_udp_service-IsAccounted : (t : ℕ) (cl : List Element) → IsAccounted (new_udp_service t cl)
unfolding new_udp_service new_nat_map contains
new_udp_service-IsAccounted t cl = record {
  table = record { distinct = tt; counted = refl; balanced = refl };
  timed = tt;
  adopted = λ h. cc;
  shut = λ h. refl;
  closes = λ l h. ground arith;
}

-- A change of the table only.
with_shared-IsAccounted :
    (s : UdpService) (x : Shared)
    → IsAccounted s
    → IsCounted (others s) x.nat
    → AllTimed x.nat
    → IsAccounted (record s { shared = x })
with_shared-IsAccounted s x i t all = record {
  table = t;
  timed = all;
  adopted = i.adopted;
  shut = i.shut;
  closes = i.closes;
}

idle :
    (s : UdpService) → IsAccounted s → (is_some s.client_conn || s.stopped) ≡ false → others s ≡ 0
idle s i h = ground (arith, i.adopted)

serve-IsAccounted :
    (s : UdpService) (conn : ℕ)
    → contains conn s.closed ≡ false
    → IsAccounted s
    → IsAccounted (serve conn s)
unfolding serve contains
serve-IsAccounted s conn fresh i = elim (Bool-cases (is_some s.client_conn || s.stopped)) [
  | inl old ↦
      rw (old, serve)
        (record {
          table = i.table;
          timed = i.timed;
          adopted = i.adopted;
          shut = λ h. ground (arith, i.shut h);
          closes = λ l h. ground (arith, i.closes l);
        })
  | inr first ↦
      rw (first, serve)
        (record {
          table = record {
            distinct = i.table.distinct;
            counted = omega (arith, i.table.counted, idle s i first);
            balanced = i.table.balanced;
          };
          timed = i.timed;
          adopted = λ h. refl;
          shut = λ h. ground arith;
          closes = λ l h. ground (arith, i.closes l);
        })
]

serve_ends-IsAccounted :
    (now : ℕ) (s : UdpService)
    → s.serving ≡ true
    → s.stopped ≡ true
    → IsAccounted s
    → IsAccounted (serve_ends now s)
unfolding serve_ends
serve_ends-IsAccounted now s on stopped i = record {
  table =
      close-IsCounted 0 now s.shared.nat
        (subst (λ b. IsCounted (if b then 1 else 0) s.shared.nat) on i.table);
  timed = close_all-IsTimed now s.shared.nat.key_conn;
  adopted = λ h. ground arith;
  shut = i.shut;
  closes = λ l h. ground (arith, i.closes l);
}

stop-IsAccounted : (s : UdpService) → IsAccounted s → IsAccounted (stop s)
unfolding stop contains
stop-IsAccounted s i = record {
  table = i.table;
  timed = i.timed;
  adopted = i.adopted;
  shut = λ h. ground arith;
  closes = λ l h. ground (arith, i.closes l);
}

module _ (crypto : Crypto) where
  packet-IsAccounted :
      (s : UdpService) (env : Env) (p : Packet)
      → IsAccounted s
      → IsAccounted (after_round env.now s (serve_round crypto env s.stopped (some p) s.shared))
  unfolding after_round serve_round report
  packet-IsAccounted s env p i =
      let moved = from_client-Moved crypto env p s.shared (get s.shared.nat p.client_addr) refl in
      with_shared-IsAccounted s _ i (Moved-IsCounted (others s) moved i.table)
        (Moved-AllTimed moved i.timed)

  read_fails-IsAccounted :
      (s : UdpService) (env : Env)
      → s.serving ≡ true
      → IsAccounted s
      → IsAccounted (after_round env.now s (serve_round crypto env s.stopped none s.shared))
  unfolding after_round serve_round
  read_fails-IsAccounted s env on i = elim (Bool-cases s.stopped) [
    | inl stopped ↦
        subst (λ b. IsAccounted (after_round env.now s (if b then stopping else panicked)))
          (sym stopped) (serve_ends-IsAccounted env.now s on stopped i)
    | inr goes ↦
        subst (λ b. IsAccounted (after_round env.now s (if b then stopping else panicked)))
          (sym goes) i
  ]

  Step-IsAccounted : {s t : UdpService} → Step crypto s t → IsAccounted s → IsAccounted t
  unfolding answered copier_ends
  Step-IsAccounted (call_serve s conn fresh) i = serve-IsAccounted s conn fresh i
  Step-IsAccounted (packet s env p on up) i = packet-IsAccounted s env p i
  Step-IsAccounted (read_fails s env on) i = read_fails-IsAccounted s env on i
  Step-IsAccounted (answer s now port key c h) i =
      let moved = wrote c (on_read now port c) h (on_read-timed now port c) in
      with_shared-IsAccounted s _ i (Moved-IsCounted (others s) moved i.table)
        (Moved-AllTimed moved i.timed)
  Step-IsAccounted (end_copier s now key c t h e due) i =
      with_shared-IsAccounted s _ i (finish-IsCounted (others s) s.shared.nat key c h i.table).0
        (finish-AllTimed s.shared.nat key i.timed)
  Step-IsAccounted (call_stop s) i = stop-IsAccounted s i

  pub Steps-IsAccounted : {s t : UdpService} → Steps crypto s t → IsAccounted s → IsAccounted t
  Steps-IsAccounted here i = i
  Steps-IsAccounted (next r st) i = Step-IsAccounted st (Steps-IsAccounted r i)
