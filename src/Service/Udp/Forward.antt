-- ===== src/Service/Udp/Forward.antt =====
-- Which packets a round of the loop forwards, and that what a known client packs is forwarded.
use ssgo.Prelude.{
  ◌≡◌, refl, sym, ap, ap₂, subst, ◌∙◌, inl, inr, Bool, List, [], ◌∷◌, ◌++◌, Option, none, some,
  arith, Bytes, length, All, drop-append, bytes_equal_refl, append_assoc, Option-cases,
}
use ssgo.Io.{Result, ok, err, Result-cases}
use ssgo.Net.{Status}
use ssgo.Shadowsocks.Crypto.{Crypto, IsCrypto}
use ssgo.Shadowsocks.Cipher.{Cipher}
use ssgo.Shadowsocks.Cipher.Table.{IsUsable}
use ssgo.Shadowsocks.Salt.{Random, IsRandom}
use ssgo.Shadowsocks.Packet.{pack, unpack}
use ssgo.Shadowsocks.Packet.RoundTrip.{unpack-pack}
use ssgo.Service.CipherList.{Element, snapshot_for_client_ip}
use ssgo.Service.FindKey.Found.{All-snapshot}
use ssgo.Service.FindKey.{server_udp_buffer_size, unpack_first, with_unpacked, find_access_key_udp}
use ssgo.Service.Nat.{Natconn, Natmap, get, add, set, put_conn, lookup_conn, on_write}
use ssgo.Service.Udp.{
  UdpAddr, Env, Shared, Packet, Forwarded, Validated, rejected, valid, with_ip_check, with_target,
  with_split, validate_packet, done, write_target, to_known, from_known, to_new, from_new,
  from_client, report, serve_round,
}

-- Where an element stands in a list.
abbrev pub IsIn : Element → List Element → Type 0
IsIn e cl = (before : List Element) × (behind : List Element) × (cl ≡ before ++ (e ∷ behind))

module _ (crypto : Crypto) (env : Env) where
  -- The packet decrypts to `text` under the client's cipher, or under a key of the list where the
  -- client is not in the table; `key_id` is the key's name.
  pub data Authentic (packet : Packet) (s : Shared) (text key_id : Bytes) : Type 0 where
    known :
        (c : Natconn)
        → get s.nat packet.client_addr ≡ some c
        → unpack crypto none packet.data_bytes c.cipher ≡ ok text
        → key_id ≡ c.key_id
        → Authentic packet s text key_id
    unknown :
        (e : Element)
        → get s.nat packet.client_addr ≡ none
        → IsIn e s.ciphers
        → unpack crypto (some server_udp_buffer_size) packet.data_bytes e.entry.cipher ≡ ok text
        → key_id ≡ e.entry.id
        → Authentic packet s text key_id

  checked-valid :
      (text : Bytes) (tgt' : UdpAddr) (o : Option Status) (payload : Bytes) (tgt : UdpAddr)
      → env.validator tgt'.ip ≡ o
      → with_ip_check text tgt' o ≡ valid payload tgt
      → env.validator tgt.ip ≡ none
  checked-valid text tgt' (some x) payload tgt v h = ground arith
  checked-valid text tgt' none payload tgt v h =
      let same : tgt' ≡ tgt = ground arith in ap (λ t. env.validator t.ip) (sym same) ∙ v

  resolved-valid :
      (text tgt_addr : Bytes) (r : Result UdpAddr) (payload : Bytes) (tgt : UdpAddr)
      → with_target env text tgt_addr r ≡ valid payload tgt
      → env.validator tgt.ip ≡ none
  resolved-valid text tgt_addr (err e) payload tgt h = ground arith
  resolved-valid text tgt_addr (ok tgt') payload tgt h = checked-valid _ tgt' _ payload tgt refl h

  split-valid :
      (text : Bytes) (o : Option Bytes) (payload : Bytes) (tgt : UdpAddr)
      → with_split env text o ≡ valid payload tgt
      → env.validator tgt.ip ≡ none
  split-valid text none payload tgt h = ground arith
  split-valid text (some tgt_addr) payload tgt h = resolved-valid text tgt_addr _ payload tgt h

  validate_packet-valid :
      (text payload : Bytes) (tgt : UdpAddr)
      → validate_packet env text ≡ valid payload tgt
      → env.validator tgt.ip ≡ none
  unfolding validate_packet
  validate_packet-valid text payload tgt h = split-valid text (env.split_addr text) payload tgt h

  -- The search over the snapshot: what holds of all elements holds of the one that unpacks.
  unpack_first-All :
      (P : Element → Type 0) (src : Bytes) (l : List Element) (buf : Bytes) (e : Element)
      → unpack_first crypto src l ≡ some (buf, e)
      → All P l
      → P e × (unpack crypto (some server_udp_buffer_size) src e.entry.cipher ≡ ok buf)
  unfolding unpack_first
  unpack_first-All P src [] buf e h p = ground arith
  unpack_first-All P src (x ∷ l) buf e h p =
      elim (Result-cases (unpack crypto (some server_udp_buffer_size) src x.entry.cipher)) [
        | inl (text, opened) ↦
            let stops : unpack_first crypto src (x ∷ l) ≡ some (text, x) =
              rw (opened, unpack_first) refl in
            let own : x ≡ e = ground arith in
            let read : text ≡ buf = ground arith in
            (
              subst P own p.0,
              sym (ap (λ y. unpack crypto (some server_udp_buffer_size) src y.entry.cipher) own)
                  ∙ opened
                  ∙ ap ok read,
            )
        | inr (x', failed) ↦
            let on : unpack_first crypto src (x ∷ l) ≡ unpack_first crypto src l =
              rw (failed, unpack_first) refl in
            unpack_first-All P src l buf e (sym on ∙ h) p.1
      ]

  All-IsIn : (before l : List Element) → All (λ e. IsIn e (before ++ l)) l
  All-IsIn before [] = tt
  All-IsIn before (x ∷ l) = (
    (before, l, refl),
    subst (λ cl. All (λ e. IsIn e cl) l) (append_assoc before (x ∷ []) l)
        (All-IsIn (before ++ (x ∷ [])) l),
  )

  -- A packet that was forwarded: it is authentic, holds the payload for the target, which the
  -- validator allows, and is accounted to the key with that target.
  abbrev pub Forwards : Packet → Shared → Forwarded → Bytes → UdpAddr → Type 0
  Forwards packet s f payload tgt =
      (text : Bytes) × Authentic packet s text f.key_id
      × (validate_packet env text ≡ valid payload tgt)
      × (env.validator tgt.ip ≡ none)
      × (f.target ≡ some tgt)

  abbrev WhenSent : Packet → Shared → Forwarded → Type 0
  WhenSent packet s f =
      (payload : Bytes) (tgt : UdpAddr)
      → f.sent ≡ some (payload, tgt)
      → Forwards packet s f payload tgt

  write_target-Forwards :
      (packet : Packet) (s s' : Shared) (c : Natconn) (text payload : Bytes) (tgt : UdpAddr)
      → Authentic packet s text c.key_id
      → validate_packet env text ≡ valid payload tgt
      → WhenSent packet s (write_target env packet c payload tgt s').0
  unfolding write_target
  write_target-Forwards packet s s' c text payload tgt a v payload' tgt' h =
      let same : tgt ≡ tgt' = ground arith in
      let whole : payload ≡ payload' = ground arith in
      let v' = v ∙ ap₂ valid whole same in
      (text, a, v', validate_packet-valid text payload' tgt' v', ap some same)

  to_known-Forwards :
      (packet : Packet) (s : Shared) (c : Natconn) (text : Bytes) (v : Validated)
      → Authentic packet s text c.key_id
      → validate_packet env text ≡ v
      → WhenSent packet s (to_known env packet c s v).0
  to_known-Forwards packet s c text (rejected x) a h = λ payload tgt sent. ground arith
  to_known-Forwards packet s c text (valid payload tgt) a h =
      write_target-Forwards packet s s c text payload tgt a h

  from_known-Forwards :
      (packet : Packet) (s : Shared) (c : Natconn) (r : Result Bytes)
      → get s.nat packet.client_addr ≡ some c
      → unpack crypto none packet.data_bytes c.cipher ≡ r
      → WhenSent packet s (from_known env packet c s r).0
  from_known-Forwards packet s c (err e) there h = λ payload tgt sent. ground arith
  from_known-Forwards packet s c (ok text) there h =
      to_known-Forwards packet s c text _ (known c there h refl) refl

  to_new-Forwards :
      (packet : Packet) (s s' : Shared) (text key_id : Bytes) (cipher : Cipher) (location : Bytes)
      (v : Validated)
      → Authentic packet s text key_id
      → validate_packet env text ≡ v
      → WhenSent packet s (to_new env packet key_id cipher location s' v).0
  unfolding add set
  to_new-Forwards packet s s' text key_id cipher location (rejected x) a h =
      λ payload tgt sent. ground arith
  to_new-Forwards packet s s' text key_id cipher location (valid payload tgt) a h =
      elim (Option-cases (env.listen packet.client_addr)) [
        | inr (e, failed) ↦ rw failed (λ payload' tgt' sent. ground arith)
        | inl opened ↦ rw opened (write_target-Forwards packet s _ _ text payload tgt a h)
      ]

  found-Authentic :
      (packet : Packet) (s : Shared) (o : Option (Bytes × Element))
      → get s.nat packet.client_addr ≡ none
      → unpack_first crypto packet.data_bytes (snapshot_for_client_ip s.ciphers packet.client_ip)
        ≡ o
      → WhenSent packet s
          (from_new env packet
            (env.get_location packet.client_addr)
            s
            (with_unpacked crypto packet.client_ip s.ciphers o)).0
  found-Authentic packet s none absent h = λ payload tgt sent. ground arith
  found-Authentic packet s (some (text, e)) absent h =
      let (there, opened) =
        unpack_first-All (λ x. IsIn x s.ciphers) packet.data_bytes _ text e h
          (All-snapshot (λ x. IsIn x s.ciphers) s.ciphers packet.client_ip
            (All-IsIn [] s.ciphers)) in
      to_new-Forwards packet s _ text e.entry.id _ _ _ (unknown e absent there opened refl) refl

  from_client-Forwards :
      (packet : Packet) (s : Shared) (o : Option Natconn)
      → get s.nat packet.client_addr ≡ o
      → WhenSent packet s (from_client crypto env packet s o).0
  unfolding find_access_key_udp
  from_client-Forwards packet s (some c) there = from_known-Forwards packet s c _ there refl
  from_client-Forwards packet s none absent = found-Authentic packet s _ absent refl

  -- Whatever a round hands to a target's socket came in an authentic packet: one that decrypts under
  -- the cipher of a client in the table, or, where the client is not there, under a key of the list.
  -- It is the payload of that packet, for the address in it, which the validator allows, and the
  -- round is accounted to that key and target.
  pub serve_round-Forwards :
      (stopped : Bool) (packet : Packet) (s s' : Shared) (f : Forwarded) (payload : Bytes)
      (tgt : UdpAddr)
      → serve_round crypto env stopped (some packet) s ≡ done f s'
      → f.sent ≡ some (payload, tgt)
      → Forwards packet s f payload tgt
  unfolding serve_round
  serve_round-Forwards stopped packet s s' f payload tgt h sent =
      let x = from_client crypto env packet s (get s.nat packet.client_addr) in
      let same : x.0 ≡ f = ground arith in
      subst (WhenSent packet s) same
        (from_client-Forwards packet s (get s.nat packet.client_addr) refl) payload tgt sent

  get-put_conn : (m : Natmap) (key : Bytes) (c : Natconn) → get (put_conn m key c) key ≡ some c
  unfolding get put_conn lookup_conn
  get-put_conn m key c = rw (bytes_equal_refl key)

  validate_packet-addressed :
      (tgt_addr payload : Bytes) (tgt : UdpAddr)
      → env.split_addr (tgt_addr ++ payload) ≡ some tgt_addr
      → env.resolve tgt_addr ≡ ok tgt
      → env.validator tgt.ip ≡ none
      → validate_packet env (tgt_addr ++ payload) ≡ valid payload tgt
  unfolding validate_packet
  validate_packet-addressed tgt_addr payload tgt split resolved allowed =
      ap (with_split env (tgt_addr ++ payload)) split
      ∙ ap (with_target env (tgt_addr ++ payload) tgt_addr) resolved
      ∙ ap (with_ip_check _ tgt) allowed
      ∙ ap (λ p. valid p tgt) (drop-append (length tgt_addr) tgt_addr payload refl)

  -- What a client in the table packs under its cipher, a payload behind an address that the address
  -- parser finds, that resolves and that the validator allows, is handed to the target's socket
  -- byte for byte, whatever that answers; the round counts what was written to the client's key,
  -- and the client's entry, with the deadline of this write, stays in the table.
  pub serve_round-pack :
      (laws : IsCrypto crypto) (stopped : Bool) (packet : Packet) (s : Shared) (c : Natconn)
      (rnd : Random) (dst tgt_addr payload : Bytes) (tgt : UdpAddr)
      → IsRandom rnd
      → IsUsable c.cipher.aead
      → get s.nat packet.client_addr ≡ some c
      → pack crypto rnd dst (tgt_addr ++ payload) c.cipher ≡ ok packet.data_bytes
      → env.split_addr (tgt_addr ++ payload) ≡ some tgt_addr
      → env.resolve tgt_addr ≡ ok tgt
      → env.validator tgt.ip ≡ none
      → (f : Forwarded) × (s' : Shared) × (serve_round crypto env stopped (some packet) s
          ≡ done f s')
        × (f.sent ≡ some (payload, tgt))
        × (f.key_id ≡ c.key_id)
        × (f.proxy_target_bytes ≡ (env.write_to payload tgt).0)
        × (get s'.nat packet.client_addr ≡ some (on_write env.now tgt.port c))
  unfolding serve_round write_target report
  serve_round-pack laws stopped packet s c rnd dst tgt_addr payload tgt full u there packed split
        resolved allowed =
      let opened =
        (unpack-pack crypto laws rnd dst (tgt_addr ++ payload) c.cipher full u packed).2 in
      let written = write_target env packet c payload tgt s in
      let eq : from_client crypto env packet s (get s.nat packet.client_addr) ≡ written =
        ap (from_client crypto env packet s) there
        ∙ ap (from_known env packet c s) opened
        ∙ ap (to_known env packet c s)
            (validate_packet-addressed tgt_addr payload tgt split resolved allowed) in
      (
        written.0,
        report crypto env packet written.0 written.1,
        ap (λ x. done x.0 (report crypto env packet x.0 x.1)) eq,
        refl,
        refl,
        refl,
        get-put_conn s.nat packet.client_addr _,
      )
