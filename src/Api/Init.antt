-- ===== src/Api/Init.antt =====
-- What Init of api/api.go comes to.
use ssgo.Prelude.{
  ℕ, ◌≡◌, ◌≢◌, refl, sym, ap, subst, ◌∙◌, ◌⊎◌, inl, inr, true, List, [], ◌∷◌, Option, none, some,
  arith, ◌==◌, length, Bool-cases, ==_iff,
}
use ssgo.Io.{Error, Result, ok, err, on_error}
use ssgo.Service.Replay.{contains}
use ssgo.Api.Client.{
  ApiClient, Response, InitData, must_int, must_string, random_ports, first_of, Calls, IsShuffle,
  Initialised, str2int, erand_port, initialised, with_port, with_data, with_reply, with_get, init,
  parse_response,
}

-- The port that Init takes: the server's, or if that is 0 one of ERandPort, which it has posted.
abbrev pub IsPort : Calls → InitData → ApiClient → Option (ℕ × ℕ) → Type 0
IsPort calls d c' posted =
    (let given = str2int calls (must_string d.port) in
      ((given ≢ 0) × (c'.port ≡ given) × (posted ≡ none))
      ⊎ ((given ≡ 0)
          × (posted ≡ some (c'.node_id, c'.port))
          × (contains c'.port random_ports ≡ true)))

-- What Init promises.
pub record Promised (calls : Calls) (c c' : ApiClient) (e : Option Error) (posted : Option (ℕ × ℕ))
    : Type 0 where
  pub has_port : e ≡ none → c'.port ≢ 0
  pub taken :
      e ≡ none
      → (d : InitData) × (parse_response calls.decode calls.get ≡ ok d)
        × (c'.node_id ≡ must_int d.id)
        × (c'.cipher ≡ must_string d.cipher)
        × IsPort calls d c' posted
  pub kept : (x : Error) → e ≡ some x → (c'.port ≡ c.port) × (c'.cipher ≡ c.cipher)
  pub key : c'.key ≡ c.key

failed_Promised :
    (calls : Calls) (c c' : ApiClient) (x : Error) (posted : Option (ℕ × ℕ))
    → c'.port ≡ c.port
    → c'.cipher ≡ c.cipher
    → c'.key ≡ c.key
    → Promised calls c c' (some x) posted
failed_Promised calls c c' x posted p ci k = record {
  has_port = λ h. ground arith;
  taken = λ h. ground arith;
  kept = λ y h. (p, ci);
  key = k;
}

module _ (calls : Calls) (sh : IsShuffle calls.shuffle) where
  zero_out : contains 0 random_ports ≢ true
  unfolding contains
  zero_out h = ground arith

  erand_port_lem :
      (port : ℕ) × (erand_port calls ≡ some port) × (contains port random_ports ≡ true) × (port ≢ 0)
  unfolding erand_port contains
  erand_port_lem = by_first (calls.shuffle random_ports) refl
    where
      by_first :
          (l : List ℕ)
          → calls.shuffle random_ports ≡ l
          → (port : ℕ) × (erand_port calls ≡ some port)
            × (contains port random_ports ≡ true)
            × (port ≢ 0)
      by_first [] e = absurd (omega (arith, sh.keeps_length random_ports, ap length e))
      by_first (p ∷ ps) e =
          let there : contains p random_ports ≡ true =
            sym (sh.keeps random_ports p) ∙ ap (contains p) e ∙ ground arith in
          (
            p,
            ap first_of e,
            there,
            λ zero_port. zero_out (ap (λ n. contains n random_ports) (sym zero_port) ∙ there),
          )

  abbrev IsKept : ApiClient → Initialised → Type 0
  IsKept c (c', e, posted) = Promised calls c c' e posted

  module _ (d : InitData) (given : parse_response calls.decode calls.get ≡ ok d) where
    after_post :
        (c0 c : ApiClient) (port : ℕ) (o : Option Error)
        → str2int calls (must_string d.port) ≡ 0
        → c.node_id ≡ must_int d.id
        → (c.port ≡ c0.port) × (c.cipher ≡ c0.cipher) × (c.key ≡ c0.key)
        → contains port random_ports ≡ true
        → port ≢ 0
        → (let c' = record c { n = must_int d.id } in
            let posted : Option (ℕ × ℕ) = some (must_int d.id, port) in
            IsKept c0 (on_error o (λ e. (c', some e, posted)) (initialised calls c' d port posted)))
    after_post c0 c port (some x) unset id (p, ci, k) listed nz =
        failed_Promised calls c0 _ x _ p ci k
    after_post c0 c port none unset id (p, ci, k) listed nz = record {
      has_port = λ h. nz;
      taken = λ h. (
        d,
        given,
        id,
        refl,
        inr (unset, ap (λ i. let x : Option (ℕ × ℕ) = some (i, port) in x) (sym id), listed),
      );
      kept = λ x h. ground arith;
      key = k;
    }

    with_data-Promised : (c : ApiClient) → IsKept c (with_data calls c d)
    with_data-Promised c =
        let c' = record c { node_id = must_int d.id } in
        let port = str2int calls (must_string d.port) in
        let (random, drawn, listed, nz) = erand_port_lem in
        elim (Bool-cases (port == 0)) [
          | inl unset ↦ rw unset (
              subst (λ o. IsKept c (with_port calls c' d o)) (sym drawn)
                (after_post c c' random (calls.post (must_int d.id) random)
                  ((==_iff port 0).0 unset) refl (refl, refl, refl) listed nz))
          | inr set ↦
              let nonzero : port ≢ 0 = λ z. ground (arith, (==_iff port 0).1 z) in
              rw set (record {
                has_port = λ h. nonzero;
                taken = λ h. (d, given, refl, refl, inl (nonzero, refl, refl));
                kept = λ x h. ground arith;
                key = refl;
              })
        ]

  with_reply-Promised :
      (c : ApiClient) (r : Result InitData)
      → parse_response calls.decode calls.get ≡ r
      → IsKept c (with_reply calls c r)
  with_reply-Promised c (err e) reply = failed_Promised calls c c e none refl refl refl
  with_reply-Promised c (ok d) reply = with_data-Promised d reply c

  with_get-Promised :
      (c : ApiClient) (r : Result Response) → calls.get ≡ r → IsKept c (with_get calls c r)
  with_get-Promised c (err e) got = failed_Promised calls c c e none refl refl refl
  with_get-Promised c (ok res) got = with_reply-Promised c _ (ap (parse_response calls.decode) got)

  -- Init ends with a port that is not zero, or with an error. Without an error the server has replied,
  -- the node and the cipher are those of its reply, and the port is that of its reply or, if that is 0,
  -- one of the seven of ERandPort, which then has been posted for the node; with an error the client's
  -- port and cipher are what they were; the key stays in any case.
  pub init-Promised :
      (c : ApiClient) → (let (c', e, posted) = init calls c in Promised calls c c' e posted)
  unfolding init
  init-Promised c = with_get-Promised c calls.get refl
