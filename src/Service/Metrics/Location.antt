-- ===== src/Service/Metrics/Location.antt =====
-- service/metrics/metrics.go, GetLocation: where a client's address lies. The splitting and the
-- parsing of addresses, the kinds of IP addresses and the database are parameters.
use ssgo.Prelude.{
  ℕ, ◌≡◌, ◌↔◌, inl, inr, refl, sym, ap, ◌∙◌, Bool, true, false, not, ◌||◌, [], ◌∷◌, Option, none,
  some, arith, if◌then◌else◌, Bytes, codes, Bool-cases, Option-cases, subst,
}
use ssgo.Io.{
  Error, Result, ok, err, Result-cases, new, failed_to_split_hostname_and_port,
  failed_to_parse_address, ip_lookup_failed, ip_lookup_returned_nil, ip_lookup_has_empty_iso_code,
}
use ssgo.Net.{Ip}

-- The database may give no record at all; a record has an ISO code, which may be empty.
abbrev pub CountryDb : Type 0
CountryDb = Ip → Result (Option Bytes)

pub record Addresses : Type 0 where
  pub split_host_port : Bytes → Result Bytes
  pub parse_ip : Bytes → Option Ip
  pub is_loopback : Ip → Bool
  pub is_global_unicast : Ip → Bool

abbrev pub err_parse_addr : Bytes
err_parse_addr = codes "XA"

abbrev pub err_db_lookup_error : Bytes
err_db_lookup_error = codes "XD"

abbrev pub local_location : Bytes
local_location = codes "XL"

abbrev pub unknown_location : Bytes
unknown_location = codes "ZZ"

abbrev pub of_record : Result (Option Bytes) → Bytes × Option Error
of_record (err e) = (err_db_lookup_error, some (new ip_lookup_failed))
of_record (ok none) = (unknown_location, some (new ip_lookup_returned_nil))
of_record (ok (some [])) = (unknown_location, some (new ip_lookup_has_empty_iso_code))
of_record (ok (some (b ∷ bs))) = (b ∷ bs, none)

module _ (a : Addresses) where
  abbrev pub of_ip : CountryDb → Option Ip → Bytes × Option Error
  of_ip country none = (err_parse_addr, some (new failed_to_parse_address))
  of_ip country (some ip) =
      if a.is_loopback ip
      then (local_location, none)
      else if not (a.is_global_unicast ip)
      then (local_location, none)
      else of_record (country ip)

  abbrev pub of_host : CountryDb → Result Bytes → Bytes × Option Error
  of_host country (err e) = (err_parse_addr, some (new failed_to_split_hostname_and_port))
  of_host country (ok hostname) = of_ip country (a.parse_ip hostname)

  unfoldable pub get_location : Option CountryDb → Bytes → Bytes × Option Error
  get_location none addr = ([], none)
  get_location (some country) addr = of_host country (a.split_host_port addr)

  -- The addresses that have a location, and which: an address whose host is an IP address that is
  -- local, or one that the database knows a code for.
  pub data Located (country : CountryDb) (addr : Bytes) : Bytes → Type 0 where
    local :
        (hostname : Bytes) (ip : Ip)
        → a.split_host_port addr ≡ ok hostname
        → a.parse_ip hostname ≡ some ip
        → (a.is_loopback ip || not (a.is_global_unicast ip)) ≡ true
        → Located country addr local_location
    known :
        (hostname : Bytes) (ip : Ip) (b : ℕ) (bs : Bytes)
        → a.split_host_port addr ≡ ok hostname
        → a.parse_ip hostname ≡ some ip
        → (a.is_loopback ip || not (a.is_global_unicast ip)) ≡ false
        → country ip ≡ ok (some (b ∷ bs))
        → Located country addr (b ∷ bs)

  near_or_far : CountryDb → Ip → Bool → Bytes × Option Error
  near_or_far country ip near = if near then (local_location, none) else of_record (country ip)

  of_ip_lem :
      (country : CountryDb) (ip : Ip)
      → of_ip country (some ip)
        ≡ near_or_far country ip (a.is_loopback ip || not (a.is_global_unicast ip))
  unfolding near_or_far
  of_ip_lem country ip = ground arith

  known_record :
      (r : Result (Option Bytes)) (loc : Bytes)
      → of_record r ≡ (loc, none)
      → (b : ℕ) × (bs : Bytes) × (r ≡ ok (some (b ∷ bs))) × (b ∷ bs ≡ loc)
  known_record (err e) loc h = ground arith
  known_record (ok none) loc h = ground arith
  known_record (ok (some [])) loc h = ground arith
  known_record (ok (some (b ∷ bs))) loc h = (b, bs, refl, ap (λ x. x.0) h)

  to_Located :
      (country : CountryDb) (addr loc : Bytes)
      → get_location (some country) addr ≡ (loc, none)
      → Located country addr loc
  unfolding get_location near_or_far
  to_Located country addr loc h = elim (Result-cases (a.split_host_port addr)) [
    | inr (e, bad) ↦ let e = sym (ap (of_host country) bad) ∙ h in ground arith
    | inl (hostname, split) ↦ elim (Option-cases (a.parse_ip hostname)) [
      | inl bad ↦
          let e = sym (ap (of_host country) split ∙ ap (of_ip country) bad) ∙ h in ground arith
      | inr (ip, parsed) ↦
          let e =
            sym (ap (of_host country) split ∙ ap (of_ip country) parsed ∙ of_ip_lem country ip)
            ∙ h in
          elim (Bool-cases (a.is_loopback ip || not (a.is_global_unicast ip))) [
            | inl near ↦
                let e1 = sym (ap (near_or_far country ip) near) ∙ e in
                subst (Located country addr) (ap (λ x. x.0) e1)
                  (local hostname ip split parsed near)
            | inr far ↦
                let e1 = sym (ap (near_or_far country ip) far) ∙ e in
                let (b, bs, r, same) = known_record (country ip) loc e1 in
                subst (Located country addr) same (known hostname ip b bs split parsed far r)
          ]
    ]
  ]

  from_Located :
      (country : CountryDb) (addr loc : Bytes)
      → Located country addr loc
      → get_location (some country) addr ≡ (loc, none)
  unfolding get_location near_or_far
  from_Located country addr loc (local hostname ip split parsed near) =
      ap (of_host country) split
      ∙ ap (of_ip country) parsed
      ∙ of_ip_lem country ip
      ∙ ap (near_or_far country ip) near
  from_Located country addr loc (known hostname ip b bs split parsed far r) =
      ap (of_host country) split
      ∙ ap (of_ip country) parsed
      ∙ of_ip_lem country ip
      ∙ ap (near_or_far country ip) far
      ∙ ap of_record r

  -- With a database, GetLocation gives a location without an error for exactly the addresses that
  -- have one: the reserved code for a local address, and else the code that the database has.
  pub get_location-Located :
      (country : CountryDb) (addr loc : Bytes)
      → (get_location (some country) addr ≡ (loc, none)) ↔ Located country addr loc
  get_location-Located country addr loc =
      (to_Located country addr loc, from_Located country addr loc)
