-- ===== src/Service/FindKey/Found.antt =====
-- What a successful search for a key has found, and that the same bytes find the same key again.
use ssgo.Prelude.{
  ◌+◌, ◌≡◌, refl, sym, ap, ap₂, ◌∙◌, subst, Bool, true, false, not, List, [], ◌∷◌, Option, none,
  some, arith, ltb, Bytes, length, take, All, All-append, Bool-cases, inl, inr,
}
use ssgo.Io.{Result, ok, err, panic, Source, read_full}
use ssgo.Net.{Ip}
use ssgo.Shadowsocks.Crypto.{Crypto}
use ssgo.Shadowsocks.Cipher.{salt_size, tag_size}
use ssgo.Service.CipherList.{
  CipherEntry, Element, matches_ip, snapshot_for_client_ip, find, mark_used_by_client_ip,
}
use ssgo.Service.CipherList.Order.{keep, snapshot_for_client_ip_lem, mark_used_by_client_ip_lem}
use ssgo.Service.FindKey.{
  bytes_for_key_finding, decrypts_length, find_entry, with_entry, with_first_bytes, find_access_key,
}

-- Every element is in the list under its own identity, as pointers to list elements are.
abbrev pub IsKeyed : List Element → Type 0
IsKeyed cl = All (λ e. find e.key cl ≡ some e) cl

module _ (P : Element → Type 0) where
  All-keep : (test : Element → Bool) (l : List Element) → All P l → All P (keep test l)
  unfolding keep
  All-keep test [] h = tt
  All-keep test (e ∷ l) h = elim (Bool-cases (test e)) [
    | inl yes_kept ↦ rw (yes_kept, keep) (h.0, All-keep test l h.1)
    | inr dropped ↦ rw (dropped, keep) (All-keep test l h.1)
  ]

  pub All-snapshot :
      (cl : List Element) (ip : Option Ip) → All P cl → All P (snapshot_for_client_ip cl ip)
  All-snapshot cl ip h = subst (All P) (sym (snapshot_for_client_ip_lem cl ip).0) (
      All-append P _ _ (All-keep (λ e. matches_ip e ip) cl h)
        (All-keep (λ e. not (matches_ip e ip)) cl h))

  -- What holds of all elements holds of the one found; and it fits and passes the test.
  find_entry-All :
      (crypto : Crypto) (first_bytes : Bytes) (l : List Element) (e : Element)
      → find_entry crypto first_bytes l ≡ ok (some e)
      → All P l
      → P e
        × (ltb (length first_bytes) (salt_size e.entry.cipher + (2 + tag_size e.entry.cipher))
            ≡ false)
        × (decrypts_length crypto first_bytes e.entry.cipher ≡ true)
  unfolding find_entry
  find_entry-All crypto first_bytes [] e h p = ground arith
  find_entry-All crypto first_bytes (x ∷ l) e h p =
      elim (Bool-cases
        (ltb (length first_bytes) (salt_size x.entry.cipher + (2 + tag_size x.entry.cipher)))) [
          | inl short ↦
              let stops : find_entry crypto first_bytes (x ∷ l) ≡ err panic =
                rw (short, find_entry) refl in
              cc
          | inr fits ↦ elim (Bool-cases (decrypts_length crypto first_bytes x.entry.cipher)) [
            | inl hit ↦
                let stops : find_entry crypto first_bytes (x ∷ l) ≡ ok (some x) =
                  rw (fits, hit, find_entry) refl in
                let own : x ≡ e = ground arith in
                subst
                  (λ e.
                    P e
                    × (ltb (length first_bytes)
                          (salt_size e.entry.cipher + (2 + tag_size e.entry.cipher))
                        ≡ false)
                    × (decrypts_length crypto first_bytes e.entry.cipher ≡ true))
                  own (p.0, fits, hit)
            | inr miss ↦
                let on : find_entry crypto first_bytes (x ∷ l) ≡ find_entry crypto first_bytes l =
                  rw (fits, miss, find_entry) refl in
                find_entry-All crypto first_bytes l e (sym on ∙ h) p.1
          ]
        ]

-- A key that is first in the list, and passes, is found.
find_entry-head :
    (crypto : Crypto) (first_bytes : Bytes) (e : Element) (l : List Element)
    → ltb (length first_bytes) (salt_size e.entry.cipher + (2 + tag_size e.entry.cipher)) ≡ false
    → decrypts_length crypto first_bytes e.entry.cipher ≡ true
    → find_entry crypto first_bytes (e ∷ l) ≡ ok (some e)
unfolding find_entry
find_entry-head crypto first_bytes e l fits passes = rw (fits, passes) refl

-- What findAccessKey has done where it succeeds.
pub record Found (crypto : Crypto) (r : Source) (ip : Option Ip) (cl : List Element)
    (entry : CipherEntry) (reader : Source) (salt : Bytes) : Type 0 where
  pub first_bytes : Bytes
  pub elt : Element
  pub was_read : (read_full bytes_for_key_finding r).0 ≡ ok first_bytes
  pub chosen : find_entry crypto first_bytes (snapshot_for_client_ip cl ip) ≡ ok (some elt)
  pub entry_eq : entry ≡ elt.entry
  pub reader_eq : reader ≡ (first_bytes, none) ∷ (read_full bytes_for_key_finding r).1
  pub salt_eq : salt ≡ take (salt_size elt.entry.cipher) first_bytes
  pub list_eq : (find_access_key crypto r ip cl).1 ≡ mark_used_by_client_ip cl elt.key ip

with_entry-ok :
    (crypto : Crypto) (ip : Option Ip) (cl : List Element) (first_bytes : Bytes) (rest : Source)
    (x : Result (Option Element)) (entry : CipherEntry) (reader : Source) (salt : Bytes)
    → (with_entry crypto ip cl first_bytes rest x).0 ≡ ok (entry, reader, salt)
    → (elt : Element) × (x ≡ ok (some elt))
      × (entry ≡ elt.entry)
      × (reader ≡ (first_bytes, none) ∷ rest)
      × (salt ≡ take (salt_size elt.entry.cipher) first_bytes)
      × ((with_entry crypto ip cl first_bytes rest x).1 ≡ mark_used_by_client_ip cl elt.key ip)
with_entry-ok crypto ip cl first_bytes rest (err e) entry reader salt h = ground arith
with_entry-ok crypto ip cl first_bytes rest (ok none) entry reader salt h = ground arith
with_entry-ok crypto ip cl first_bytes rest (ok (some elt)) entry reader salt h =
    (elt, refl, ground arith, ground arith, ground arith, refl)

with_first_bytes-ok :
    (crypto : Crypto) (ip : Option Ip) (cl : List Element) (x : Result Bytes × Source)
    (entry : CipherEntry) (reader : Source) (salt : Bytes)
    → (with_first_bytes crypto ip cl x).0 ≡ ok (entry, reader, salt)
    → (first_bytes : Bytes) × (x.0 ≡ ok first_bytes)
      × (with_first_bytes crypto ip cl x
          ≡ with_entry crypto ip cl first_bytes x.1
              (find_entry crypto first_bytes (snapshot_for_client_ip cl ip)))
with_first_bytes-ok crypto ip cl (err e, rest) entry reader salt h = ground arith
with_first_bytes-ok crypto ip cl (ok first_bytes, rest) entry reader salt h =
    (first_bytes, refl, refl)

-- Where findAccessKey succeeds, it has read its bytes, and found an element with them.
pub find_access_key-Found :
    (crypto : Crypto) (r : Source) (ip : Option Ip) (cl : List Element) (entry : CipherEntry)
    (reader : Source) (salt : Bytes)
    → (find_access_key crypto r ip cl).0 ≡ ok (entry, reader, salt)
    → Found crypto r ip cl entry reader salt
unfolding find_access_key
find_access_key-Found crypto r ip cl entry reader salt h =
    let (first_bytes, was_read, step) =
      with_first_bytes-ok crypto ip cl (read_full bytes_for_key_finding r) entry reader salt h in
    let (elt, chosen, e, rd, sl, list) =
      with_entry-ok crypto ip cl first_bytes (read_full bytes_for_key_finding r).1
        (find_entry crypto first_bytes (snapshot_for_client_ip cl ip)) entry reader salt
        (sym (ap (λ x. x.0) step) ∙ h) in
    record {
      first_bytes = first_bytes;
      elt = elt;
      was_read = was_read;
      chosen = chosen;
      entry_eq = e;
      reader_eq = rd;
      salt_eq = sl;
      list_eq = ap (λ x. x.1) step ∙ list;
    }

-- The same first bytes from the same address, with the list as the first search left it, find the
-- same key and salt.
pub find_access_key-again :
    (crypto : Crypto) (r r' : Source) (ip : Ip) (cl : List Element) (entry : CipherEntry)
    (reader : Source) (salt : Bytes)
    → IsKeyed cl
    → (find_access_key crypto r (some ip) cl).0 ≡ ok (entry, reader, salt)
    → (read_full bytes_for_key_finding r').0 ≡ (read_full bytes_for_key_finding r).0
    → (reader' : Source) × ((find_access_key crypto r'
          (some ip)
          (find_access_key crypto r (some ip) cl).1).0
        ≡ ok (record entry { last_client_ip = some ip }, reader', salt))
unfolding find_access_key
find_access_key-again crypto r r' ip cl entry reader salt keyed h same =
    let f = find_access_key-Found crypto r (some ip) cl entry reader salt h in
    let used : Element = record (f.elt) {
      entry = record (f.elt.entry) { last_client_ip = some ip };
    } in
    let (own, fits, passes) =
      find_entry-All (λ e. find e.key cl ≡ some e) crypto f.first_bytes
        (snapshot_for_client_ip cl (some ip)) f.elt f.chosen
        (All-snapshot (λ e. find e.key cl ≡ some e) cl (some ip) keyed) in
    let (_, _, (rest, first)) = mark_used_by_client_ip_lem cl f.elt.key ip f.elt own in
    let again : find_entry crypto f.first_bytes
          (snapshot_for_client_ip (find_access_key crypto r (some ip) cl).1 (some ip))
        ≡ ok (some used) =
      ap (λ l. find_entry crypto f.first_bytes (snapshot_for_client_ip l (some ip))) f.list_eq
      ∙ ap (find_entry crypto f.first_bytes) first
      ∙ find_entry-head crypto f.first_bytes used rest fits passes in
    let cl' = (find_access_key crypto r (some ip) cl).1 in
    let rest' = (read_full bytes_for_key_finding r').1 in
    let run : find_access_key crypto r' (some ip) cl'
        ≡ with_entry crypto (some ip) cl' f.first_bytes rest' (ok (some used)) =
      ap (λ x. with_first_bytes crypto (some ip) cl' (x, rest')) (same ∙ f.was_read)
      ∙ ap (with_entry crypto (some ip) cl' f.first_bytes rest') again in
    (
      (f.first_bytes, none) ∷ rest',
      ap (λ x. x.0) run
          ∙ ap₂
              (λ (e : CipherEntry) s.
                ok (record e { last_client_ip = some ip }, (f.first_bytes, none) ∷ rest', s))
              (sym f.entry_eq) (sym f.salt_eq),
    )
