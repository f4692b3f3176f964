-- ===== src/Service/Tcp/Safety.antt =====
-- Which connections reach a target.
use ssgo.Prelude.{
  ℕ, ◌≡◌, refl, sym, ap, ◌∙◌, subst, Bool, true, false, List, Option, none, some, arith, Bytes,
  if◌then◌else◌, Bool-cases, inl, inr,
}
use ssgo.Io.{Error, Result, ok, err, Source, Sink}
use ssgo.Net.{Ip, Status}
use ssgo.Shadowsocks.Crypto.{Crypto}
use ssgo.Shadowsocks.Writer.{Writer}
use ssgo.Shadowsocks.Reader.{ReadConverter}
use ssgo.Service.Replay.{add}
use ssgo.Service.CipherList.{CipherEntry, Element}
use ssgo.Service.FindKey.{find_access_key}
use ssgo.Service.Tcp.{
  Target, Client, Env, Shared, Handled, Outcome, panicked, handled, Dialed, dial_failed, connected,
  dialed, dial_target, relayed, relay, connect, with_addr, proxy, after_replay_check, check_replay,
  with_key, handle_connection, is_panic,
}

-- net.Dialer calls Control before it connects to an address, and gives the address up if Control
-- returns an error. It may try several addresses at the same time, so that the one connected need not
-- be the last that Control has seen.
abbrev pub HeedsControl : Env → Type 0
HeedsControl env =
    (control : Ip → Option Status) (addr : Bytes) (last : Option Ip) (t : Target)
    → env.dial control addr ≡ (last, ok t)
    → control t.ip ≡ none

-- What holds of an outcome whenever a target was connected.
abbrev WhenConnected : (Handled → Target → Type 0) → Option Outcome → Type 0
WhenConnected P none = Unit
WhenConnected P (some (panicked s)) = Unit
WhenConnected P (some (handled h)) = (t : Target) → h.target ≡ some t → P h t

WhenConnected-map :
    (P Q : Handled → Target → Type 0) (o : Option Outcome)
    → ((h : Handled) (t : Target) → P h t → Q h t)
    → WhenConnected P o
    → WhenConnected Q o
WhenConnected-map P Q none f w = tt
WhenConnected-map P Q (some (panicked s)) f w = tt
WhenConnected-map P Q (some (handled h)) f w = λ t e. f h t (w t e)

dialed-connected :
    (o : Option Status) (r : Result Target) (t : Target)
    → dialed o r ≡ connected t
    → (o ≡ none) × (r ≡ ok t)
dialed-connected (some x) r t h = ground arith
dialed-connected none (err e) t h = ground arith
dialed-connected none (ok t') t h = (refl, ground arith)

dial_target-allowed :
    (env : Env)
    → HeedsControl env
    → (addr : Bytes) (t : Target) → dial_target env addr ≡ connected t
    → env.validator t.ip ≡ none
unfolding dial_target
dial_target-allowed env heeds addr t h =
    let (_, made) = dialed-connected _ _ t h in
    heeds env.validator addr (env.dial env.validator addr).0 t
      (ap (λ r. ((env.dial env.validator addr).0, r)) made)

-- What a connection needs to reach a target.
abbrev pub Reaches : Crypto → (Ip → Type 0) → Client → Shared → Handled → Target → Type 0
Reaches crypto V client s h t =
    (entry : CipherEntry) × (reader : Source) × (salt : Bytes) × ((find_access_key crypto
        client.input client.ip s.ciphers).0
      ≡ ok (entry, reader, salt))
    × (entry.salt_generator.is_server_salt salt ≡ false)
    × ((add s.replay_cache entry.id salt).1 ≡ true)
    × (h.key_id ≡ entry.id)
    × (h.shared.ciphers ≡ (find_access_key crypto client.input client.ip s.ciphers).1)
    × (h.shared.replay_cache ≡ (add s.replay_cache entry.id salt).0)
    × V t.ip

-- `V` is what is known of the address of a target that dialTarget connects.
module _ (crypto : Crypto) (env : Env) (V : Ip → Type 0)
    (dial_target-V : (addr : Bytes) (t : Target)
      → dial_target env addr ≡ connected t
      → V t.ip) where
  -- Ciphers and cache are as they were when the key was known and the salt checked.
  abbrev Allowed : CipherEntry → Shared → Handled → Target → Type 0
  Allowed entry s h t =
      (h.key_id ≡ entry.id)
      × (h.shared.ciphers ≡ s.ciphers)
      × (h.shared.replay_cache ≡ s.replay_cache)
      × V t.ip

  relayed-Allowed :
      (entry : CipherEntry) (t : Target) (s : Shared)
      (up : Option (ReadConverter × Sink × ℕ × Option Error))
      (down : Option (Writer × ℕ × Option Error × Source))
      → V t.ip
      → WhenConnected (Allowed entry s) (relayed env entry t s up down)
  relayed-Allowed entry t s none down v = tt
  relayed-Allowed entry t s (some up) none v = tt
  relayed-Allowed entry t s (some (ssr, tgt, i, e)) (some (ssw, ri, e', rest)) v =
      λ t' h. (refl, refl, refl, let e : t.ip ≡ t'.ip = ground arith in subst V e v)

  connect-Allowed :
      (client : Client) (entry : CipherEntry) (ssr : ReadConverter) (s : Shared) (d : Dialed)
      → ((t : Target) → d ≡ connected t → V t.ip)
      → WhenConnected (Allowed entry s) (connect crypto env client entry ssr s d)
  unfolding relay
  connect-Allowed client entry ssr s (dial_failed status) v = λ t h. ground arith
  connect-Allowed client entry ssr s (connected t) v = relayed-Allowed entry t s _ _ (v t refl)

  proxy-Allowed :
      (client : Client) (entry : CipherEntry) (s : Shared) (x : ReadConverter × Result Bytes)
      → WhenConnected (Allowed entry s) (with_addr crypto env client entry s x)
  proxy-Allowed client entry s (ssr, err e) = λ t h. ground arith
  proxy-Allowed client entry s (ssr, ok tgt_addr) =
      connect-Allowed client entry ssr _ (dial_target env tgt_addr) (dial_target-V tgt_addr)

  after_replay_check-Allowed :
      (client : Client) (entry : CipherEntry) (r : Source) (s : Shared) (marked fresh : Bool)
      → WhenConnected
          (λ h t. (marked ≡ false) × (fresh ≡ true) × Allowed entry s h t)
          (after_replay_check crypto env client entry r s marked fresh)
  unfolding proxy
  after_replay_check-Allowed client entry r s true fresh = λ t h. ground arith
  after_replay_check-Allowed client entry r s false false = λ t h. ground arith
  after_replay_check-Allowed client entry r s false true =
      WhenConnected-map (Allowed entry s)
        (λ h t. (false ≡ false) × (true ≡ true) × Allowed entry s h t) _ (λ h t a. (refl, refl, a))
        (proxy-Allowed client entry s _)

  with_key-Reaches :
      (client : Client) (s : Shared) (x : Result (CipherEntry × Source × Bytes) × List Element)
      → find_access_key crypto client.input client.ip s.ciphers ≡ x
      → WhenConnected (Reaches crypto V client s) (with_key crypto env client s x)
  unfolding check_replay
  with_key-Reaches client s (err e, cl) found = elim (Bool-cases (is_panic e)) [
    | inl bad ↦ rw bad tt
    | inr other ↦ rw other (λ t h. ground arith)
  ]
  with_key-Reaches client s (ok (entry, reader, salt), cl) found =
      let s' : Shared = record s { ciphers = cl } in
      let checked_in : Bool → Shared = λ marked.
        if marked then s' else record s' { replay_cache = (add s.replay_cache entry.id salt).0 } in
      WhenConnected-map _ _ _
        (λ h t a. (
          entry,
          reader,
          salt,
          ap (λ x. x.0) found,
          a.0,
          a.1,
          a.2.0,
          a.2.1 ∙ ap (λ b. (checked_in b).ciphers) a.0 ∙ sym (ap (λ x. x.1) found),
          a.2.2 ∙ ap (λ b. (checked_in b).replay_cache) a.0,
          a.2.3,
        ))
        (after_replay_check-Allowed client entry reader _ _ _)

  pub when_reached :
      (client : Client) (s : Shared) (h : Handled) (t : Target)
      → handle_connection crypto env client s ≡ some (handled h)
      → h.target ≡ some t
      → Reaches crypto V client s h t
  unfolding handle_connection
  when_reached client s h t done reached =
      subst (WhenConnected (Reaches crypto V client s)) done
        (with_key-Reaches client s (find_access_key crypto client.input client.ip s.ciphers) refl) t
        reached

-- With a dialer that gives up an address for which Control returns an error, a target is connected
-- only for a client whose first bytes authenticate under a key of the list, whose salt is not one of
-- the server's own and is new to the replay cache, and only at an address that the validator allows;
-- the connection is accounted to that key, and leaves the list of keys and the cache as the search and
-- the check left them.
pub handle_connection-Reaches :
    (crypto : Crypto) (env : Env) (client : Client) (s : Shared) (h : Handled) (t : Target)
    → HeedsControl env
    → handle_connection crypto env client s ≡ some (handled h)
    → h.target ≡ some t
    → Reaches crypto (λ ip. env.validator ip ≡ none) client s h t
handle_connection-Reaches crypto env client s h t heeds done reached =
    when_reached crypto env (λ ip. env.validator ip ≡ none) (dial_target-allowed env heeds) client s
      h t done reached
