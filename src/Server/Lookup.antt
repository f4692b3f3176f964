-- ===== src/Server/Lookup.antt =====
-- What each operation on the ports does to the list of one port.
use ssgo.Prelude.{
  true, Bool, ℕ, ◌≡◌, refl, ap, sym, subst, ◌∙◌, false, Bool-cases, Option-cases, inl, inr, List,
  [], ◌∷◌, Option, none, some, arith, ◌==◌, if◌then◌else◌, ==_iff,
}
use ssgo.Io.{Error, Result, ok, Result-cases, on_error}
use ssgo.Service.CipherList.{CipherEntry}
use ssgo.Server.{
  Key, Ports, Sockets, ciphers_of, delete, assign, start_port, remove_port, update_lists, add_key,
  load_keys,
}

ciphers_of-delete :
    (q p : ℕ) (m : Ports) → ciphers_of p (delete q m) ≡ (if q == p then none else ciphers_of p m)
unfolding ciphers_of delete
ciphers_of-delete q p [] = ground arith
ciphers_of-delete q p ((k, cs) ∷ m) =
    ground (arith, ==_iff q p, ==_iff k q, ==_iff k p, ciphers_of-delete q p m)

pub ciphers_of-assign :
    (q p : ℕ) (cs : List CipherEntry) (m : Ports)
    → ciphers_of p (assign q cs m) ≡ (if q == p then some cs else ciphers_of p m)
unfolding ciphers_of assign
ciphers_of-assign q p cs m = ground (arith, ciphers_of-delete q p m)

-- No port twice.
abbrev pub IsUnique : Ports → Type 0
IsUnique [] = Unit
IsUnique ((p, cs) ∷ m) = (ciphers_of p m ≡ none) × IsUnique m

ciphers_of-add_key :
    (port p : ℕ) (e : CipherEntry) (m : Ports)
    → (port == p) ≡ false
    → ciphers_of p m ≡ none
    → ciphers_of p (add_key port e m) ≡ none
unfolding ciphers_of add_key
ciphers_of-add_key port p e [] other h = ground arith
ciphers_of-add_key port p e ((q, cs) ∷ m) other h =
    ground (arith, ==_iff q port, ==_iff q p, ==_iff port p, ciphers_of-add_key port p e m)

add_key-IsUnique :
    (port : ℕ) (e : CipherEntry) (m : Ports) → IsUnique m → IsUnique (add_key port e m)
unfolding add_key ciphers_of
add_key-IsUnique port e [] u = (refl, tt)
add_key-IsUnique port e ((q, cs) ∷ m) u = elim (Bool-cases (q == port)) [
  | inl same ↦ rw (same, add_key) u
  | inr other ↦
      let apart : (port == q) ≡ false = ground (arith, ==_iff q port, ==_iff port q) in
      rw (other, add_key) (ciphers_of-add_key port q e m apart u.0, add_key-IsUnique port e m u.1)
]

pub load_keys-IsUnique :
    (make : Key → Result CipherEntry) (keys : List Key) (w w' : Ports)
    → IsUnique w
    → load_keys make keys w ≡ ok w'
    → IsUnique w'
unfolding load_keys
load_keys-IsUnique make [] w w' u h = let e : w ≡ w' = ground arith in subst IsUnique e u
load_keys-IsUnique make (key ∷ keys) w w' u h = elim (Result-cases (make key)) [
  | inr (x, failed) ↦ ground (arith, failed, h)
  | inl (e, made) ↦
      let run : load_keys make (key ∷ keys) w ≡ load_keys make keys (add_key key.port e w) =
        rw (made, load_keys) refl in
      load_keys-IsUnique make keys (add_key key.port e w) w' (add_key-IsUnique key.port e w u)
        (sym run ∙ h)
]

-- A port that the map holds.
abbrev pub IsIn : ℕ → Ports → Type 0
IsIn p m = (cs : List CipherEntry) × (ciphers_of p m ≡ some cs)

pub assign-IsIn : (q p : ℕ) (cs : List CipherEntry) (m : Ports) → IsIn p m → IsIn p (assign q cs m)
assign-IsIn q p cs m (old, there) = elim (Bool-cases (q == p)) [
  | inl same ↦ (cs, ciphers_of-assign q p cs m ∙ rw same refl)
  | inr other ↦ (old, ciphers_of-assign q p cs m ∙ rw other there)
]

at_head :
    (q p : ℕ) (cs : List CipherEntry) (wanted m : Ports)
    → ciphers_of q wanted ≡ none
    → (elim (ciphers_of p wanted) [ none ↦ ciphers_of p (assign q cs m) | some l ↦ some l ])
      ≡ (elim (ciphers_of p ((q, cs) ∷ wanted)) [ none ↦ ciphers_of p m | some l ↦ some l ])
unfolding ciphers_of
at_head q p cs wanted m unused = elim (Bool-cases (q == p)) [
  | inl same ↦
      let none_later : ciphers_of p wanted ≡ none =
        ap (λ k. ciphers_of k wanted) (sym ((==_iff q p).0 same)) ∙ unused in
      rw (none_later, same) (ciphers_of-assign q p cs m ∙ rw same refl)
  | inr other ↦ rw other (
      ap
        (λ (x : Option (List CipherEntry)). elim (ciphers_of p wanted) [
          | none ↦ x
          | some l ↦ some l
        ])
        (ciphers_of-assign q p cs m ∙ rw other refl))
]

-- The last loop gives every port with keys its list and leaves the others, and does not panic where
-- the map holds every port with keys.
pub ciphers_of-update_lists :
    (wanted m : Ports)
    → IsUnique wanted
    → ((q : ℕ) (cs : List CipherEntry) → ciphers_of q wanted ≡ some cs → IsIn q m)
    → (m' : Ports) × (update_lists wanted m ≡ some m')
      × ((p : ℕ)
          → ciphers_of p m'
            ≡ (elim (ciphers_of p wanted) [ none ↦ ciphers_of p m | some cs ↦ some cs ]))
unfolding update_lists ciphers_of
ciphers_of-update_lists [] m u there = (m, refl, λ p. refl)
ciphers_of-update_lists ((q, cs) ∷ wanted) m u there =
    let here : (q == q) ≡ true = (==_iff q q).1 refl in
    let (old, found) =
      there q cs (ap (λ (b : Bool). if b then some cs else ciphers_of q wanted) here) in
    let later : (p : ℕ) (l : List CipherEntry)
        → ciphers_of p wanted ≡ some l
        → IsIn p (assign q cs m) =
      λ p l w. elim (Bool-cases (q == p)) [
        | inl same ↦ (cs, ciphers_of-assign q p cs m ∙ rw same refl)
        | inr other ↦
            assign-IsIn q p cs m
              (there p l (ap (λ (b : Bool). if b then some cs else ciphers_of p wanted) other ∙ w))
      ] in
    let (m', made, looks) = ciphers_of-update_lists wanted (assign q cs m) u.1 later in
    (m', rw (found, update_lists) made, λ p. looks p ∙ at_head q p cs wanted m u.0)

-- Whatever the sockets do, the port is gone.
removed_anyway :
    (rest : Ports) (o o' : Option Error) (f g : Error → Option Error)
    → (on_error {A = Ports × Option Error} o
        (λ e. (rest, f e))
        (on_error o' (λ e. (rest, g e)) (rest, none))).0
      ≡ rest
removed_anyway rest (some e) o' f g = refl
removed_anyway rest none (some e) f g = refl
removed_anyway rest none none f g = refl

pub ciphers_of-remove_port :
    (net : Sockets) (q p : ℕ) (m : Ports)
    → ciphers_of p (remove_port net q m).0 ≡ (if q == p then none else ciphers_of p m)
unfolding remove_port
ciphers_of-remove_port net q p m = elim (Option-cases (ciphers_of q m)) [
  | inl absent ↦
      rw (absent, remove_port)
        (elim (Bool-cases (q == p)) [
          | inl same ↦ rw same (ap (λ k. ciphers_of k m) (sym ((==_iff q p).0 same)) ∙ absent)
          | inr other ↦ rw other refl
        ])
  | inr (cs, found) ↦
      rw (found, remove_port)
        (ap (ciphers_of p) (removed_anyway (delete q m) (net.stop_tcp q) (net.stop_udp q) _ _)
          ∙ ciphers_of-delete q p m)
]

pub ciphers_of-start_port :
    (net : Sockets) (q p : ℕ) (m : Ports)
    → (q == p) ≡ false
    → ciphers_of p (start_port net q m).0 ≡ ciphers_of p m
unfolding start_port
ciphers_of-start_port net q p m apart = elim (Option-cases (net.listen_tcp q)) [
  | inr (e, failed) ↦ rw (failed, start_port) refl
  | inl fine ↦ elim (Option-cases (net.listen_udp q)) [
    | inr (e, failed) ↦ rw (fine, failed, start_port) refl
    | inl fine' ↦ rw (fine, fine', start_port) (ciphers_of-assign q p [] m ∙ rw apart refl)
  ]
]
