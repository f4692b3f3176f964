-- ===== src/Service/CipherList/Order.antt =====
-- The snapshot is the list in another order: the client's own keys first, and otherwise as in the
-- list.
use ssgo.Prelude.{
  ℕ, ◌≡◌, refl, sym, ap, ◌∙◌, Bool, true, not, List, [], ◌∷◌, ◌++◌, Option, some, arith, ◌==◌,
  if◌then◌else◌, Bool-cases, inl, inr, append-nil, append_assoc, bytes_equal_refl,
}
use mathlib.Core.List.{Perm, perm_middle}
use mathlib.Core.List.Perm
use ssgo.Net.{Ip, ip_equal}
use ssgo.Service.CipherList.{
  Element, matches_ip, pass, snapshot_for_client_ip, remove, find, mark_used_by_client_ip,
}

-- The entries that pass a test, in order.
unfoldable pub keep : (Element → Bool) → List Element → List Element
keep test [] = []
keep test (e ∷ es) = if test e then e ∷ keep test es else keep test es

pass-keep :
    (test : Element → Bool) (array cl : List Element) → pass test array cl ≡ array ++ keep test cl
unfolding pass keep
pass-keep test array [] = sym (append-nil array)
pass-keep test array (e ∷ es) = elim (Bool-cases (test e)) [
  | inl hit ↦
      rw (hit, pass, keep)
        (pass-keep test (array ++ (e ∷ [])) es ∙ append_assoc array (e ∷ []) (keep test es))
  | inr miss ↦ rw (miss, pass, keep) (pass-keep test array es)
]

keep-perm :
    (test : Element → Bool) (cl : List Element)
    → Perm cl (keep test cl ++ keep (λ e. not (test e)) cl)
unfolding keep
keep-perm test [] = Perm.refl []
keep-perm test (e ∷ es) = elim (Bool-cases (test e)) [
  | inl hit ↦ rw (hit, keep) (Perm.cons e (keep-perm test es))
  | inr miss ↦
      rw (miss, keep)
        (Perm.trans (Perm.cons e (keep-perm test es)) (Perm.symm (perm_middle (keep test es) _)))
]

-- A snapshot holds every element of the list exactly as often as the list does: those that match
-- the client's address come first, then all others, each group in the order of the list. So the
-- two passes fill the array exactly.
pub snapshot_for_client_ip_lem :
    (cl : List Element) (ip : Option Ip)
    → (snapshot_for_client_ip cl ip
        ≡ keep (λ e. matches_ip e ip) cl ++ keep (λ e. not (matches_ip e ip)) cl)
      × Perm cl (snapshot_for_client_ip cl ip)
unfolding snapshot_for_client_ip
snapshot_for_client_ip_lem cl ip =
    let e =
      pass-keep (λ e. not (matches_ip e ip)) (pass (λ e. matches_ip e ip) [] cl) cl
      ∙ ap (λ a. a ++ keep (λ e. not (matches_ip e ip)) cl)
          (pass-keep (λ e. matches_ip e ip) [] cl) in
    (e, rw e (keep-perm (λ e. matches_ip e ip) cl))

ip_equal_refl : (ip : Ip) → ip_equal ip ip ≡ true
unfolding ip_equal
ip_equal_refl ip = ground (arith, bytes_equal_refl ip)

remove-perm :
    (key : ℕ) (cl : List Element) {e : Element} → find key cl ≡ some e → Perm cl (e ∷ remove key cl)
unfolding find remove
remove-perm key [] h = absurd (ground arith)
remove-perm key (x ∷ cl) {e} h = elim (Bool-cases (x.key == key)) [
  | inl hit ↦ let same : x ≡ e = ground arith in rw (hit, same, remove) (Perm.refl (e ∷ cl))
  | inr miss ↦
      rw (miss, remove)
        (Perm.trans (Perm.cons x (remove-perm key cl (ground arith))) (Perm.swap e x _))
]

matches_own :
    (x : Element) (ip : Ip)
    → matches_ip (record x { entry = record (x.entry) { last_client_ip = some ip } }) (some ip)
      ≡ true
unfolding matches_ip
matches_own x ip = ip_equal_refl ip

keep_hit :
    (test : Element → Bool) (x : Element) (l : List Element)
    → test x ≡ true
    → keep test (x ∷ l) ≡ x ∷ keep test l
unfolding keep
keep_hit test x l m = rw (m, keep) refl

-- Marking a key as used by an address moves it to the front with that address noted, leaves every
-- other element as it was, and puts it first in the next snapshot for the same address.
pub mark_used_by_client_ip_lem :
    (cl : List Element) (key : ℕ) (ip : Ip) (e : Element)
    → find key cl ≡ some e
    → let used : Element = record e { entry = record (e.entry) { last_client_ip = some ip } } in
      (mark_used_by_client_ip cl key (some ip) ≡ used ∷ remove key cl)
      × Perm cl (e ∷ remove key cl)
      × ((rest : List Element) × (snapshot_for_client_ip
              (mark_used_by_client_ip cl key (some ip))
              (some ip)
            ≡ used ∷ rest))
unfolding mark_used_by_client_ip
mark_used_by_client_ip_lem cl key ip e h =
    let used : Element = record e { entry = record (e.entry) { last_client_ip = some ip } } in
    let moved : mark_used_by_client_ip cl key (some ip) ≡ used ∷ remove key cl =
      rw (h, mark_used_by_client_ip) refl in
    (
      moved,
      remove-perm key cl h,
      (
        keep (λ x. matches_ip x (some ip)) (remove key cl)
            ++ keep (λ x. not (matches_ip x (some ip))) (used ∷ remove key cl),
        ap (λ l. snapshot_for_client_ip l (some ip)) moved
            ∙ (snapshot_for_client_ip_lem (used ∷ remove key cl) (some ip)).0
            ∙ ap (λ l. l ++ keep (λ x. not (matches_ip x (some ip))) (used ∷ remove key cl))
                (kept used (remove key cl) (matches used)),
      ),
    )
  where
    matches :
        (x : Element)
        → matches_ip (record x { entry = record (x.entry) { last_client_ip = some ip } }) (some ip)
          ≡ true
    matches x = matches_own x ip

    kept :
        (x : Element) (l : List Element)
        → matches_ip x (some ip) ≡ true
        → keep (λ x. matches_ip x (some ip)) (x ∷ l) ≡ x ∷ keep (λ x. matches_ip x (some ip)) l
    kept x l m = keep_hit (λ x. matches_ip x (some ip)) x l m
