-- ===== src/Server/Applied.antt =====
-- What a doRun without an error leaves: exactly the ports that have keys, each with its keys.
use ssgo.Prelude.{
  ℕ, ◌≡◌, refl, ap, ap₂, sym, subst, ◌∙◌, true, false, Bool-cases, Option-cases, inl, inr, List, [],
  ◌∷◌, Option, none, some, arith, ◌==◌, if◌then◌else◌, ==_iff,
}
use ssgo.Io.{
  Error, Result, ok, err, on_error, on_error-go, on_error-stop, wrap, failed_to_remove,
  failed_to_start_port,
}
use ssgo.Service.CipherList.{CipherEntry}
use ssgo.Service.Replay.{contains}
use ssgo.Server.{
  Key, Ports, Sockets, ciphers_of, start_port, remove_port, change_ports, update_lists, load_keys,
  updated, do_run,
}
use ssgo.Server.Walk.{went_on, step, change_ports_nil, change_ports_lem}
use ssgo.Server.Opened.{change_ports-IsIn}
use ssgo.Server.Loading.{list_of, entries, load_keys_lem, ports_of, load_keys-ports}
use ssgo.Server.Lookup.{
  IsIn, IsUnique, load_keys-IsUnique, ciphers_of-update_lists, ciphers_of-remove_port,
  ciphers_of-start_port,
}

module _ (net : Sockets) (wanted served : Ports) (p : ℕ)
    (unwanted : ciphers_of p wanted ≡ none) where
  -- A port without keys that is not served is never started.
  abbrev IsOut : Ports × Option Error → Type 0
  IsOut x = ciphers_of p x.0 ≡ none

  on_error-IsOut :
      (o : Option Error) (f : Error → Option Error) (m : Ports) (x : Ports × Option Error)
      → ciphers_of p m ≡ none
      → IsOut x
      → IsOut (on_error o (λ e. (m, f e)) x)
  on_error-IsOut none f m x h k = k
  on_error-IsOut (some e) f m x h k = h

  removed-none :
      (q : ℕ) (m : Ports) → ciphers_of p m ≡ none → ciphers_of p (remove_port net q m).0 ≡ none
  removed-none q m h = elim (Bool-cases (q == p)) [
    | inl same ↦ ciphers_of-remove_port net q p m ∙ rw same refl
    | inr other ↦ ciphers_of-remove_port net q p m ∙ rw other h
  ]

  step-IsOut :
      (q : ℕ) (order : List ℕ) (m : Ports) (o o' : Option (List CipherEntry))
      → ciphers_of q wanted ≡ o
      → ciphers_of p m ≡ none
      → ((m' : Ports) → ciphers_of p m' ≡ none → IsOut (change_ports net wanted served order m'))
      → IsOut (step net wanted served q order m o o')
  step-IsOut q order m none none e h rest = rest m h
  step-IsOut q order m none (some cs) e h rest =
      on_error-IsOut (remove_port net q m).1 _ (remove_port net q m).0 _ (removed-none q m h)
        (rest _ (removed-none q m h))
  step-IsOut q order m (some ks) none e h rest =
      let apart : (q == p) ≡ false = elim (Bool-cases (q == p)) [
        | inl same ↦ cc (ap (λ k. ciphers_of k wanted) ((==_iff q p).0 same))
        | inr other ↦ other
      ] in
      let out = ciphers_of-start_port net q p m apart ∙ h in
      on_error-IsOut (start_port net q m).1 _ (start_port net q m).0 _ out (rest _ out)
  step-IsOut q order m (some ks) (some cs) e h rest = rest m h

  change_ports-IsOut :
      (order : List ℕ) (m : Ports)
      → ciphers_of p m ≡ none
      → IsOut (change_ports net wanted served order m)
  change_ports-IsOut [] m h = subst IsOut (sym (change_ports_nil net wanted served m)) h
  change_ports-IsOut (q ∷ order) m h =
      subst IsOut (sym (change_ports_lem net wanted served q order m))
        (step-IsOut q order m _ _ refl h (λ m' h'. change_ports-IsOut order m' h'))

  -- A port without keys that is served is removed, where the walk meets it and nothing fails.
  step_removes :
      (q : ℕ) (order : List ℕ) (m : Ports) (o o' : Option (List CipherEntry))
      → (step net wanted served q order m o o').1 ≡ none
      → ((m' : Ports)
          → (change_ports net wanted served order m').1 ≡ none
          → IsOut (change_ports net wanted served order m'))
      → IsOut (step net wanted served q order m o o')
  step_removes q order m none none fine rest = rest m fine
  step_removes q order m none (some cs) fine rest =
      let (_, on) =
        went_on (remove_port net q m).1 (wrap failed_to_remove) (remove_port net q m).0
          (change_ports net wanted served order (remove_port net q m).0) fine in
      subst IsOut (sym on) (rest _ (ap (λ x. x.1) (sym on) ∙ fine))
  step_removes q order m (some ks) none fine rest =
      let (_, on) =
        went_on (start_port net q m).1 (wrap failed_to_start_port) (start_port net q m).0
          (change_ports net wanted served order (start_port net q m).0) fine in
      subst IsOut (sym on) (rest _ (ap (λ x. x.1) (sym on) ∙ fine))
  step_removes q order m (some ks) (some cs) fine rest = rest m fine

  step_here :
      (order : List ℕ) (m : Ports) (cs : List CipherEntry)
      → ciphers_of p served ≡ some cs
      → (step net wanted served p order m (ciphers_of p wanted) (ciphers_of p served)).1 ≡ none
      → IsOut (step net wanted served p order m (ciphers_of p wanted) (ciphers_of p served))
  step_here order m cs there fine =
      let both = ap₂ (step net wanted served p order m) unwanted there in
      let (_, on) =
        went_on (remove_port net p m).1 (wrap failed_to_remove) (remove_port net p m).0
          (change_ports net wanted served order (remove_port net p m).0)
          (ap (λ x. x.1) (sym both) ∙ fine) in
      let gone =
        ciphers_of-remove_port net p p m
        ∙ ap (λ b. if b then none else ciphers_of p m) ((==_iff p p).1 refl) in
      subst IsOut (sym (both ∙ on)) (change_ports-IsOut order (remove_port net p m).0 gone)

  change_ports-removes :
      (order : List ℕ) (m : Ports) (cs : List CipherEntry)
      → ciphers_of p served ≡ some cs
      → contains p order ≡ true
      → (change_ports net wanted served order m).1 ≡ none
      → IsOut (change_ports net wanted served order m)
  unfolding contains
  change_ports-removes [] m cs there met fine = ground arith
  change_ports-removes (q ∷ order) m cs there met fine =
      let fine' = ap (λ x. x.1) (sym (change_ports_lem net wanted served q order m)) ∙ fine in
      subst IsOut (sym (change_ports_lem net wanted served q order m)) (elim (Bool-cases (q == p)) [
        | inl same ↦
            let at : q ≡ p = (==_iff q p).0 same in
            let as_p =
              ap (λ k. step net wanted served k order m (ciphers_of k wanted) (ciphers_of k served))
                at in
            subst IsOut (sym as_p) (step_here order m cs there (ap (λ x. x.1) (sym as_p) ∙ fine'))
        | inr other ↦
            let later : contains p order ≡ true = ground arith in
            step_removes q order m _ _ fine'
              (λ m' f. change_ports-removes order m' cs there later f)
      ])

-- What the walk and the last loop make of the ports.
change_and_update :
    (net : Sockets) (wanted ports : Ports) (order : List ℕ)
    → IsUnique wanted
    → ((q : ℕ) → IsIn q ports → contains q order ≡ true)
    → ((q : ℕ) → IsIn q wanted → contains q order ≡ true)
    → (change_ports net wanted ports order ports).1 ≡ none
    → (served : Ports) × (update_lists wanted (change_ports net wanted ports order ports).0
        ≡ some served)
      × ((p : ℕ) → ciphers_of p served ≡ ciphers_of p wanted)
change_and_update net wanted ports order u covers covers' fine =
    let c = change_ports net wanted ports order ports in
    let (served, made, looks) =
      ciphers_of-update_lists wanted c.0 u
        (λ q cs w. change_ports-IsIn net wanted ports order q cs w (covers' q (cs, w)) fine) in
    (served, made, λ p. looks p ∙ by_wanted p (ciphers_of p wanted) refl)
  where
    out :
        (p : ℕ)
        → ciphers_of p wanted ≡ none
        → ciphers_of p (change_ports net wanted ports order ports).0 ≡ none
    out p unwanted = elim (Option-cases (ciphers_of p ports)) [
      | inl absent ↦ change_ports-IsOut net wanted ports p unwanted order ports absent
      | inr (cs, there) ↦
          change_ports-removes net wanted ports p unwanted order ports cs there
            (covers p (cs, there)) fine
    ]

    by_wanted :
        (p : ℕ) (o : Option (List CipherEntry))
        → ciphers_of p wanted ≡ o
        → (elim o [
          | none ↦ ciphers_of p (change_ports net wanted ports order ports).0
          | some cs ↦ some cs
        ])
          ≡ o
    by_wanted p none e = out p e
    by_wanted p (some cs) e = refl

-- How a doRun ends.
pub data Applied (net : Sockets) (make : Key → Result CipherEntry) (users : List Key)
    (order : List ℕ) (ports : Ports) : Option (Ports × Option Error) → Type 0 where
  bad_key :
      (e : Error)
      → load_keys make users [] ≡ err e
      → Applied net make users order ports (some (ports, some e))
  bad_socket :
      (wanted : Ports) (e : Error)
      → load_keys make users [] ≡ ok wanted
      → (change_ports net wanted ports order ports).1 ≡ some e
      → Applied net make users order ports
          (some ((change_ports net wanted ports order ports).0, some e))
  applied :
      (wanted served : Ports)
      → load_keys make users [] ≡ ok wanted
      → (change_ports net wanted ports order ports).1 ≡ none
      → ((p : ℕ) → ciphers_of p served ≡ ciphers_of p wanted)
      → ((p : ℕ) → list_of p served ≡ entries make p users)
      → Applied net make users order ports (some (served, none))

-- Where the walk of portChanges meets every port that is served and every port of a key, doRun
-- does not panic: it ends with the error of a key that cannot be made and the ports as they were, with
-- the error of a socket and the ports as far as the walk came, or without an error; then the ports
-- that are served are exactly those with keys, and the list of each holds the entries of its keys, in
-- their order.
pub do_run_lem :
    (net : Sockets) (make : Key → Result CipherEntry) (users : List Key) (order : List ℕ)
    (ports : Ports)
    → ((q : ℕ) → IsIn q ports → contains q order ≡ true)
    → ((q : ℕ) → contains q (ports_of users) ≡ true → contains q order ≡ true)
    → Applied net make users order ports (do_run net make users order ports)
unfolding do_run ciphers_of
do_run_lem net make users order ports covers covers' = by_keys (load_keys make users []) refl
  where
    by_keys :
        (r : Result Ports)
        → load_keys make users [] ≡ r
        → Applied net make users order ports (do_run net make users order ports)
    by_keys (err e) failed =
        subst (Applied net make users order ports) (sym (rw (failed, do_run) refl))
          (bad_key e failed)
    by_keys (ok wanted) loaded =
        let c = change_ports net wanted ports order ports in
        let run : do_run net make users order ports
            ≡ on_error c.1 (λ x. some (c.0, some x)) (updated (update_lists wanted c.0)) =
          rw (loaded, do_run) refl in
        subst (Applied net make users order ports) (sym run) (elim (Option-cases c.1) [
          | inr (e, failed) ↦
              subst (Applied net make users order ports) (sym (on_error-stop c.1 e _ _ failed))
                (bad_socket wanted e loaded failed)
          | inl fine ↦
              let (served, made, same) =
                change_and_update net wanted ports order
                  (load_keys-IsUnique make users [] wanted tt loaded) covers
                  (λ q there.
                    covers' q (load_keys-ports make users wanted q there.0 loaded there.1))
                  fine in
              subst (Applied net make users order ports)
                (sym (on_error-go c.1 _ _ fine ∙ ap updated made))
                (applied wanted served loaded fine same (λ p.
                  ap (λ (o : Option (List CipherEntry)). elim o [ none ↦ [] | some cs ↦ cs ])
                    (same p)
                  ∙ load_keys_lem make users [] wanted p loaded))
        ])
