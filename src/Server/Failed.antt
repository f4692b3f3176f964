-- ===== src/Server/Failed.antt =====
-- What a doRun that fails half way leaves of each port.
use ssgo.Prelude.{
  ◌≢◌, arith, ℕ, ◌≡◌, refl, ap, sym, subst, ◌∙◌, ◌⊎◌, inl, inr, Bool-cases, Option-cases, List, [],
  ◌∷◌, Option, none, some, ◌==◌, if◌then◌else◌, ==_iff,
}
use ssgo.Io.{
  Error, Result, ok, err, Result-cases, on_error, on_error-stop, on_error-go, wrap,
  failed_to_remove, failed_to_start_port,
}
use ssgo.Service.CipherList.{CipherEntry}
use ssgo.Server.{
  Key, Ports, Sockets, ciphers_of, start_port, remove_port, change_ports, update_lists, load_keys,
  updated, do_run,
}
use ssgo.Server.Lookup.{ciphers_of-remove_port, ciphers_of-start_port, ciphers_of-assign}
use ssgo.Server.Walk.{step, change_ports_nil, change_ports_lem}

-- A port as it was, or removed for want of a key, or started with an empty list.
pub data Left (before wanted : Ports) (p : ℕ) : Option (List CipherEntry) → Type 0 where
  as_before : Left before wanted p (ciphers_of p before)
  removed : ciphers_of p wanted ≡ none → Left before wanted p none
  started : ciphers_of p before ≡ none → Left before wanted p (some [])

module _ (net : Sockets) where
  -- A port that is to be started is afterwards as before, or has an empty list.
  started_or_not :
      (q : ℕ) (m : Ports)
      → (ciphers_of q (start_port net q m).0 ≡ ciphers_of q m)
        ⊎ (ciphers_of q (start_port net q m).0 ≡ some [])
  unfolding start_port
  started_or_not q m = elim (Option-cases (net.listen_tcp q)) [
    | inr (e, failed) ↦ inl (rw (failed, start_port) refl)
    | inl fine ↦ elim (Option-cases (net.listen_udp q)) [
      | inr (e, failed) ↦ inl (rw (fine, failed, start_port) refl)
      | inl fine' ↦ inr (
          rw (fine, fine', start_port)
            (ciphers_of-assign q q [] m
              ∙ ap (λ b. if b then some [] else ciphers_of q m) ((==_iff q q).1 refl)))
    ]
  ]

  module _ (wanted before : Ports) (p : ℕ) where
    abbrev IsLeft : Ports → Type 0
    IsLeft m = Left before wanted p (ciphers_of p m)

    at_port :
        {o o' : Option (List CipherEntry)}
        → o ≡ o'
        → Left before wanted p o'
        → Left before wanted p o
    at_port e l = subst (Left before wanted p) (sym e) l

    remove_port-IsLeft :
        (q : ℕ) (m : Ports) → ciphers_of q wanted ≡ none → IsLeft m → IsLeft (remove_port net q m).0
    remove_port-IsLeft q m w l =
        at_port (ciphers_of-remove_port net q p m) (elim (Bool-cases (q == p)) [
          | inl same ↦
              rw same (removed (ap (λ k. ciphers_of k wanted) (sym ((==_iff q p).0 same)) ∙ w))
          | inr other ↦ rw other l
        ])

    start_port-IsLeft :
        (q : ℕ) (m : Ports) → ciphers_of q before ≡ none → IsLeft m → IsLeft (start_port net q m).0
    start_port-IsLeft q m b l = elim (Bool-cases (q == p)) [
      | inr other ↦ at_port (ciphers_of-start_port net q p m other) l
      | inl same ↦
          let at : q ≡ p = (==_iff q p).0 same in
          let here = ap (λ k. ciphers_of k (start_port net q m).0) (sym at) in
          elim (started_or_not q m) [
            | inl kept ↦ at_port (here ∙ kept ∙ ap (λ k. ciphers_of k m) at) l
            | inr new ↦ at_port (here ∙ new) (started (ap (λ k. ciphers_of k before) (sym at) ∙ b))
          ]
    ]

    either_way :
        (o : Option Error) (f : Error → Error) (m : Ports) (x : Ports × Option Error)
        → IsLeft m
        → IsLeft x.0
        → IsLeft (on_error o (λ e. (m, some (f e))) x).0
    either_way none f m x h k = k
    either_way (some e) f m x h k = h

    step-IsLeft :
        (q : ℕ) (order : List ℕ) (m : Ports) (o o' : Option (List CipherEntry))
        → ciphers_of q wanted ≡ o
        → ciphers_of q before ≡ o'
        → ((m' : Ports) → IsLeft m' → IsLeft (change_ports net wanted before order m').0)
        → IsLeft m
        → IsLeft (step net wanted before q order m o o').0
    step-IsLeft q order m none none w b rest l = rest m l
    step-IsLeft q order m none (some cs) w b rest l =
        let l' = remove_port-IsLeft q m w l in
        either_way (remove_port net q m).1 (wrap failed_to_remove) _ _ l' (rest _ l')
    step-IsLeft q order m (some ks) none w b rest l =
        let l' = start_port-IsLeft q m b l in
        either_way (start_port net q m).1 (wrap failed_to_start_port) _ _ l' (rest _ l')
    step-IsLeft q order m (some ks) (some cs) w b rest l = rest m l

    change_ports-IsLeft :
        (order : List ℕ) (m : Ports) → IsLeft m → IsLeft (change_ports net wanted before order m).0
    change_ports-IsLeft [] m l =
        subst (λ x. IsLeft x.0) (sym (change_ports_nil net wanted before m)) l
    change_ports-IsLeft (q ∷ order) m l =
        subst (λ x. IsLeft x.0) (sym (change_ports_lem net wanted before q order m))
          (step-IsLeft q order m _ _ refl refl (change_ports-IsLeft order) l)

-- The last loop fails with no error.
updated-fine : (o : Option Ports) (m : Ports) (e : Error) → updated o ≢ some (m, some e)
updated-fine none m e h = ground arith
updated-fine (some m') m e h = ground arith

ports_of :
    (m m' : Ports) (o o' : Option Error)
    → ◌≡◌ {A = Option (Ports × Option Error)} (some (m, o)) (some (m', o'))
    → m ≡ m'
ports_of m m' o o' h = ground arith

-- A doRun that fails because a key cannot be made changes no port. One that fails later leaves every
-- port as it was, with its list of keys, but that ports without keys may have been removed, and that
-- ports with keys that were not served may serve with an empty list.
pub do_run_failed :
    (net : Sockets) (make : Key → Result CipherEntry) (users : List Key) (order : List ℕ)
    (ports after : Ports) (e : Error)
    → do_run net make users order ports ≡ some (after, some e)
    → ((x : Error) × (load_keys make users [] ≡ err x) × (after ≡ ports))
      ⊎ ((wanted : Ports) × (load_keys make users [] ≡ ok wanted)
          × ((p : ℕ) → Left ports wanted p (ciphers_of p after)))
unfolding do_run
do_run_failed net make users order ports after e failed =
    elim (Result-cases (load_keys make users [])) [
      | inr (x, bad) ↦
          let run : do_run net make users order ports ≡ some (ports, some x) =
            rw (bad, do_run) refl in
          inl (x, bad, ports_of after ports _ _ (sym failed ∙ run))
      | inl (wanted, loaded) ↦
          let c = change_ports net wanted ports order ports in
          let run : do_run net make users order ports
              ≡ on_error c.1 (λ x. some (c.0, some x)) (updated (update_lists wanted c.0)) =
            rw (loaded, do_run) refl in
          inr (
            wanted,
            loaded,
            λ p.
                let left = change_ports-IsLeft net wanted ports p order ports as_before in
                elim (Option-cases c.1) [
                  | inl fine ↦ absurd (
                      updated-fine (update_lists wanted c.0) after e
                        (sym (run ∙ on_error-go c.1 _ _ fine) ∙ failed))
                  | inr (x, stop) ↦
                      subst (λ m. Left ports wanted p (ciphers_of p m))
                        (ports_of c.0 after _ _ (sym (run ∙ on_error-stop c.1 x _ _ stop) ∙ failed))
                        left
                ],
          )
    ]
