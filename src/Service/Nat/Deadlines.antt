-- ===== src/Service/Nat/Deadlines.antt =====
-- Deadlines never move back by a write, and a fast close needs exactly one write, a DNS query.
use ssgo.Prelude.{
  ℕ, ◌+◌, ◌≤◌, ◌≡◌, ◌≢◌, ◌⊎◌, refl, ap, sym, ◌∙◌, inl, inr, Bool, true, false, List, [], ◌∷◌,
  Option, none, some, arith, ltb, if◌then◌else◌, Bool-cases, Bytes, bytes_equal, bytes_equal_iff,
}
use ssgo.Service.Nat.{
  Natconn, Natmap, is_dns, dns_port, dns_timeout, on_write, on_read, lookup_conn, delete_conn, get,
  set, del, add,
}
use ssgo.Shadowsocks.Cipher.{Cipher}

-- A deadline that is not before another; the zero time is before every time.
abbrev pub NotBefore : Option ℕ → Option ℕ → Type 0
NotBefore new none = Unit {0}
NotBefore none (some t) = ⊥
NotBefore (some s) (some t) = t ≤ s

-- The deadline and the socket move together: the new deadline is set on the socket, or neither has
-- changed.
abbrev pub IsGranted : Natconn → Natconn → Type 0
IsGranted c c' =
    ((c'.deadline_set ≡ c'.read_deadline) × (c'.read_deadline ≢ none))
    ⊎ ((c'.deadline_set ≡ c.deadline_set) × (c'.read_deadline ≡ c.read_deadline))

write_deadline :
    (now port : ℕ) (cipher : Cipher) (key_id location : Bytes) (timeout : ℕ)
    (deadline set_to : Option ℕ) (fast : Bool)
    → let c : Natconn = record {
      cipher = cipher;
      key_id = key_id;
      client_location = location;
      default_timeout = timeout;
      read_deadline = deadline;
      deadline_set = set_to;
      fast_done = fast;
    } in
      NotBefore (on_write now port c).read_deadline c.read_deadline
      × NotBefore
          (on_write now port c).read_deadline
          (some (now + (if is_dns port then dns_timeout else c.default_timeout)))
      × ((on_write now port c).fast_done ≡ false
          → (port ≡ dns_port) × (c.read_deadline ≡ none) × (c.fast_done ≡ false))
      × IsGranted c (on_write now port c)
unfolding on_write
write_deadline now port cipher key_id location timeout none set_to fast =
    elim (Bool-cases (is_dns port)) [
      | inl dns ↦
          rw dns (tt, omega arith, λ h. (ground arith, refl, h), inl (refl, λ h. ground arith))
      | inr other ↦ rw other (tt, omega arith, λ h. ground arith, inl (refl, λ h. ground arith))
    ]
write_deadline now port cipher key_id location timeout (some t) set_to fast =
    elim (Bool-cases (is_dns port)) [
      | inl dns ↦ rw dns (elim (Bool-cases (ltb t (now + dns_timeout))) [
        | inl new ↦
            rw new (ground arith, omega arith, λ h. ground arith, inl (refl, λ h. ground arith))
        | inr old ↦ rw old (ground arith, ground arith, λ h. ground arith, inr (refl, refl))
      ])
      | inr other ↦ rw other (elim (Bool-cases (ltb t (now + timeout))) [
        | inl new ↦
            rw new (ground arith, omega arith, λ h. ground arith, inl (refl, λ h. ground arith))
        | inr old ↦ rw old (ground arith, ground arith, λ h. ground arith, inr (refl, refl))
      ])
    ]

-- A write never shortens the deadline, leaves at least the timeout of what was written, and allows
-- a fast close only if it was allowed before, is to the DNS port, and is the first; and it either sets
-- the deadline that it leaves on the socket as well, or leaves both deadline and socket as they were.
pub on_write_lem :
    (now port : ℕ) (c : Natconn)
    → NotBefore (on_write now port c).read_deadline c.read_deadline
      × NotBefore
          (on_write now port c).read_deadline
          (some (now + (if is_dns port then dns_timeout else c.default_timeout)))
      × ((on_write now port c).fast_done ≡ false
          → (port ≡ dns_port) × (c.read_deadline ≡ none) × (c.fast_done ≡ false))
      × IsGranted c (on_write now port c)
unfolding on_write
on_write_lem now port c =
    write_deadline now port c.cipher c.key_id c.client_location c.default_timeout c.read_deadline
      c.deadline_set c.fast_done

-- Only the first response can close the connection: a further one, at any time and from any port,
-- changes nothing.
on_read_once :
    (now later port port' : ℕ) (c : Natconn)
    → on_read later port' (on_read now port c) ≡ on_read now port c
unfolding on_read
on_read_once now later port port' c = ground arith

pub lookup-delete :
    (k j : Bytes) (m : List (Bytes × Natconn))
    → lookup_conn j (delete_conn k m) ≡ (if bytes_equal k j then none else lookup_conn j m)
unfolding lookup_conn delete_conn
lookup-delete k j [] = ground arith
lookup-delete k j ((i, c) ∷ m) =
    ground
      (arith, bytes_equal_iff k j, bytes_equal_iff i k, bytes_equal_iff i j, lookup-delete k j m)

-- After Add the client's entry is the connection that Add returns; every other client's entry is as
-- before.
pub get-add :
    (m : Natmap) (key j : Bytes) (cipher : Cipher) (location key_id : Bytes)
    → get (add m key cipher location key_id).0 j
      ≡ (if bytes_equal key j then some (add m key cipher location key_id).1 else get m j)
unfolding get add set
get-add m key j cipher location key_id = ground (arith, lookup-delete key j m.key_conn)

-- After del the client has no entry, every other client's is as before, and the entry that was
-- deleted is returned.
pub get-del :
    (m : Natmap) (key j : Bytes)
    → (get (del m key).0 j ≡ (if bytes_equal key j then none else get m j))
      × ((del m key).1 ≡ get m key)
unfolding get del
get-del m key j = by_entry (lookup_conn key m.key_conn) refl
  where
    missing :
        lookup_conn key m.key_conn ≡ none
        → (b : Bool) → bytes_equal key j ≡ b
        → get m j ≡ (if b then none else get m j)
    missing gone true e =
        ap (λ x. lookup_conn x m.key_conn) (sym ((bytes_equal_iff key j).0 e)) ∙ gone
    missing gone false e = refl

    by_entry :
        (o : Option Natconn)
        → lookup_conn key m.key_conn ≡ o
        → (get (del m key).0 j ≡ (if bytes_equal key j then none else get m j))
          × ((del m key).1 ≡ get m key)
    by_entry none gone = rw (gone, del) (missing gone (bytes_equal key j) refl, refl)
    by_entry (some c) found = rw (found, del) (lookup-delete key j m.key_conn, refl)
