-- ===== src/Server/Opened.antt =====
-- Where the walk of doRun has met every port with keys and nothing has failed, the map holds all of
-- them, so that the last loop finds no nil pointer.
use ssgo.Prelude.{
  ℕ, ◌≡◌, refl, ap, ap₂, sym, subst, ◌∙◌, true, Bool-cases, Option-cases, inl, inr, List, [], ◌∷◌,
  if◌then◌else◌, Option, none, some, arith, ◌==◌, ==_iff,
}
use ssgo.Io.{Error, wrap, failed_to_remove, failed_to_start_port, failed_to_start}
use ssgo.Service.CipherList.{CipherEntry}
use ssgo.Service.Replay.{contains}
use ssgo.Server.{Ports, Sockets, ciphers_of, start_port, remove_port, change_ports}
use ssgo.Server.Lookup.{IsIn, ciphers_of-assign, ciphers_of-start_port, ciphers_of-remove_port}
use ssgo.Server.Walk.{went_on, step, change_ports_nil, change_ports_lem}

-- A port whose sockets open is in the map afterwards.
start_port-IsIn :
    (net : Sockets) (p : ℕ) (m : Ports)
    → (start_port net p m).1 ≡ none
    → IsIn p (start_port net p m).0
unfolding start_port
start_port-IsIn net p m fine = elim (Option-cases (net.listen_tcp p)) [
  | inr (e, failed) ↦
      let run : (start_port net p m).1 ≡ some (wrap failed_to_start e) =
        rw (failed, start_port) refl in
      cc (run, fine)
  | inl tcp ↦ elim (Option-cases (net.listen_udp p)) [
    | inr (e, failed) ↦
        let run : (start_port net p m).1 ≡ some (wrap failed_to_start e) =
          rw (tcp, failed, start_port) refl in
        cc (run, fine)
    | inl udp ↦ (
      [],
      rw (tcp, udp, start_port)
          (ciphers_of-assign p p [] m
            ∙ ap (λ b. if b then some [] else ciphers_of p m) ((==_iff p p).1 refl)),
    )
  ]
]

module _ (net : Sockets) (wanted served : Ports) (p : ℕ) (ks : List CipherEntry)
    (has_keys : ciphers_of p wanted ≡ some ks) where
  removed-IsIn :
      (q : ℕ) (m : Ports) → ciphers_of q wanted ≡ none → IsIn p m → IsIn p (remove_port net q m).0
  removed-IsIn q m unwanted (cs, there) = elim (Bool-cases (q == p)) [
    | inl same ↦ cc (ap (λ k. ciphers_of k wanted) (sym ((==_iff q p).0 same)), has_keys, unwanted)
    | inr other ↦ (cs, ciphers_of-remove_port net q p m ∙ rw other there)
  ]

  started-IsIn :
      (q : ℕ) (m : Ports) → (start_port net q m).1 ≡ none → IsIn p m → IsIn p (start_port net q m).0
  started-IsIn q m fine (cs, there) = elim (Bool-cases (q == p)) [
    | inl same ↦
        let at : q ≡ p = (==_iff q p).0 same in
        subst (λ k. IsIn p (start_port net k m).0) (sym at)
          (start_port-IsIn net p m (ap (λ k. (start_port net k m).1) (sym at) ∙ fine))
    | inr other ↦ (cs, ciphers_of-start_port net q p m other ∙ there)
  ]

  -- What a step keeps, where nothing fails: `before` is known of the map before it, and `after` of the
  -- map behind the port that it changes.
  abbrev EndsIn : Ports × Option Error → Type 0
  EndsIn x = IsIn p x.0

  step-EndsIn :
      (q : ℕ) (order : List ℕ) (m : Ports) (o o' : Option (List CipherEntry))
      → ciphers_of q wanted ≡ o
      → (step net wanted served q order m o o').1 ≡ none
      → ((m' : Ports)
          → (IsIn p m → IsIn p m')
          → (change_ports net wanted served order m').1 ≡ none
          → EndsIn (change_ports net wanted served order m'))
      → EndsIn (step net wanted served q order m o o')
  step-EndsIn q order m none none w fine rest = rest m (λ h. h) fine
  step-EndsIn q order m none (some cs) w fine rest =
      let (_, on) =
        went_on (remove_port net q m).1 (wrap failed_to_remove) (remove_port net q m).0
          (change_ports net wanted served order (remove_port net q m).0) fine in
      subst EndsIn (sym on) (rest _ (removed-IsIn q m w) (ap (λ x. x.1) (sym on) ∙ fine))
  step-EndsIn q order m (some l) none w fine rest =
      let (opened, on) =
        went_on (start_port net q m).1 (wrap failed_to_start_port) (start_port net q m).0
          (change_ports net wanted served order (start_port net q m).0) fine in
      subst EndsIn (sym on) (rest _ (started-IsIn q m opened) (ap (λ x. x.1) (sym on) ∙ fine))
  step-EndsIn q order m (some l) (some cs) w fine rest = rest m (λ h. h) fine

  change_ports-stays :
      (order : List ℕ) (m : Ports)
      → IsIn p m
      → (change_ports net wanted served order m).1 ≡ none
      → EndsIn (change_ports net wanted served order m)
  change_ports-stays [] m h fine = subst EndsIn (sym (change_ports_nil net wanted served m)) h
  change_ports-stays (q ∷ order) m h fine =
      let same = change_ports_lem net wanted served q order m in
      subst EndsIn (sym same) (
        step-EndsIn q order m _ _ refl (ap (λ x. x.1) (sym same) ∙ fine)
          (λ m' kept f. change_ports-stays order m' (kept h) f))

  -- A port with keys that is not served is started when the walk meets it.
  step_opens :
      (order : List ℕ) (m : Ports)
      → ciphers_of p served ≡ none
      → (step net wanted served p order m (ciphers_of p wanted) (ciphers_of p served)).1 ≡ none
      → EndsIn (step net wanted served p order m (ciphers_of p wanted) (ciphers_of p served))
  step_opens order m absent fine =
      let both = ap₂ (step net wanted served p order m) has_keys absent in
      let (opened, on) =
        went_on (start_port net p m).1 (wrap failed_to_start_port) (start_port net p m).0
          (change_ports net wanted served order (start_port net p m).0)
          (ap (λ x. x.1) (sym both) ∙ fine) in
      subst EndsIn (sym (both ∙ on)) (
        change_ports-stays order (start_port net p m).0 (start_port-IsIn net p m opened)
          (ap (λ x. x.1) (sym (both ∙ on)) ∙ fine))

  change_ports-opens :
      (order : List ℕ) (m : Ports)
      → ciphers_of p served ≡ none
      → contains p order ≡ true
      → (change_ports net wanted served order m).1 ≡ none
      → EndsIn (change_ports net wanted served order m)
  unfolding contains
  change_ports-opens [] m absent met fine = ground arith
  change_ports-opens (q ∷ order) m absent met fine =
      let same = change_ports_lem net wanted served q order m in
      let fine' = ap (λ x. x.1) (sym same) ∙ fine in
      subst EndsIn (sym same) (elim (Bool-cases (q == p)) [
        | inl here ↦
            let as_p =
              ap (λ k. step net wanted served k order m (ciphers_of k wanted) (ciphers_of k served))
                ((==_iff q p).0 here) in
            subst EndsIn (sym as_p) (step_opens order m absent (ap (λ x. x.1) (sym as_p) ∙ fine'))
        | inr other ↦
            let later : contains p order ≡ true = ground arith in
            step-EndsIn q order m _ _ refl fine'
              (λ m' kept f. change_ports-opens order m' absent later f)
      ])

-- The map holds every port with keys after the walk.
pub change_ports-IsIn :
    (net : Sockets) (wanted ports : Ports) (order : List ℕ) (p : ℕ) (ks : List CipherEntry)
    → ciphers_of p wanted ≡ some ks
    → contains p order ≡ true
    → (change_ports net wanted ports order ports).1 ≡ none
    → IsIn p (change_ports net wanted ports order ports).0
change_ports-IsIn net wanted ports order p ks keys met fine =
    elim (Option-cases (ciphers_of p ports)) [
      | inl absent ↦ change_ports-opens net wanted ports p ks keys order ports absent met fine
      | inr (cs, there) ↦ change_ports-stays net wanted ports p ks keys order ports (cs, there) fine
    ]
