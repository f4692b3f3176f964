-- ===== src/Service/Tcp/Replayed.antt =====
-- A connection that reached a target cannot be replayed.
use ssgo.Prelude.{
  ℕ, ◌<◌, ◌≡◌, refl, sym, ap, ap₂, ◌∙◌, Bool, true, false, List, [], ◌∷◌, none, some, arith, ◌==◌,
  Bytes, length, if◌then◌else◌,
}
use ssgo.Io.{ok, Source, read_full}
use ssgo.Net.{Ip, err_replay_client}
use ssgo.Shadowsocks.Crypto.{Crypto}
use ssgo.Service.Replay.{ReplayCache, pre_hash, add_hash, add}
use ssgo.Service.Replay.History.{Tracks, add_all, replay_detected}
use ssgo.Service.CipherList.{CipherEntry, Element}
use ssgo.Service.FindKey.{bytes_for_key_finding, find_access_key}
use ssgo.Service.FindKey.Found.{IsKeyed, find_access_key-again}
use ssgo.Service.Tcp.{
  Target, Client, Env, Shared, Handled, handled, after_replay_check, check_replay, with_key,
  handle_connection,
}
use ssgo.Service.Tcp.Safety.{when_reached}

add_hash-capacity : (c : ReplayCache) (x : ℕ) → (add_hash c x).0.capacity ≡ c.capacity
unfolding add_hash
add_hash-capacity c x = ground arith

add_all-capacity : (c : ReplayCache) (xs : List ℕ) → (add_all c xs).capacity ≡ c.capacity
unfolding add_all
add_all-capacity c [] = refl
add_all-capacity c (x ∷ xs) = add_all-capacity (add_hash c x).0 xs ∙ add_hash-capacity c x

-- Add with a cache that remembers anything.
add_lem :
    (c : ReplayCache) (id salt : Bytes)
    → 0 < c.capacity
    → add (some c) id salt
      ≡ (some (add_hash c (pre_hash id salt)).0, (add_hash c (pre_hash id salt)).1)
unfolding add
add_lem c id salt h = let used : (c.capacity == 0) ≡ false = ground arith in rw (used, add) refl

-- What a refusal as a client's replay leaves.
abbrev pub IsRefusedReplay : Client → Shared → Handled → Type 0
IsRefusedReplay client s h =
    (h.status ≡ err_replay_client)
    × (h.target ≡ none)
    × (h.client_output ≡ client.output)
    × (h.shared.user_traffic ≡ s.user_traffic)

with_key-refused :
    (crypto : Crypto) (env : Env) (client : Client) (s : Shared) (entry : CipherEntry)
    (reader : Source) (salt : Bytes) (cl : List Element)
    → entry.salt_generator.is_server_salt salt ≡ false
    → (add s.replay_cache entry.id salt).1 ≡ false
    → (h : Handled) × (with_key crypto env client s (ok (entry, reader, salt), cl)
        ≡ some (handled h))
      × IsRefusedReplay client s h
unfolding check_replay
with_key-refused crypto env client s entry reader salt cl plain stale =
    let known : Shared = record s { ciphers = cl } in
    let left : Bool → Shared = λ marked.
      if marked
      then known
      else record known { replay_cache = (add s.replay_cache entry.id salt).0 } in
    (
      _,
      ap₂
          (after_replay_check crypto env client entry reader
            (left (entry.salt_generator.is_server_salt salt)))
          plain stale,
      (refl, refl, refl, ap (λ b. (left b).user_traffic) plain),
    )

module _ (crypto : Crypto) (env : Env) where
  -- After a connection has reached a target, a connection from the same address with the same first
  -- bytes is refused as a replay, sends nothing, and reaches no target, as long as fewer handshakes
  -- than the cache's capacity have been added in between and the list of keys is as it was left.
  pub replayed_connection_refused :
      (client client' : Client) (ip : Ip) (s s' : Shared) (c c1 : ReplayCache) (past xs : List ℕ)
      (h : Handled) (t : Target)
      → client.ip ≡ some ip
      → client'.ip ≡ some ip
      → (read_full bytes_for_key_finding client'.input).0
        ≡ (read_full bytes_for_key_finding client.input).0
      → IsKeyed s.ciphers
      → s.replay_cache ≡ some c
      → Tracks c past
      → handle_connection crypto env client s ≡ some (handled h)
      → h.target ≡ some t
      → h.shared.replay_cache ≡ some c1
      → s'.ciphers ≡ h.shared.ciphers
      → s'.replay_cache ≡ some (add_all c1 xs)
      → length xs < c.capacity
      → (h' : Handled) × (handle_connection crypto env client' s' ≡ some (handled h'))
        × IsRefusedReplay client' s' h'
  unfolding handle_connection
  replayed_connection_refused client client' ip s s' c c1 past xs h t from from' bytes keyed cache
        tr done reached left list kept few =
      let (entry, reader, salt, found, plain, fresh, _, ciphers, replay, _) =
        when_reached crypto env (λ ip. Unit) (λ addr t dialled. tt) client s h t done reached in
      let x = pre_hash entry.id salt in
      let first = ap (λ o. add o entry.id salt) cache ∙ add_lem c entry.id salt tr.positive in
      let accepted : (add_hash c x).1 ≡ true = sym (ap (λ p. p.1) first) ∙ fresh in
      let now : some c1 ≡ some (add_hash c x).0 = sym left ∙ replay ∙ ap (λ p. p.0) first in
      let same : c1 ≡ (add_hash c x).0 = ground arith in
      let c2 = add_all (add_hash c x).0 xs in
      let size : c2.capacity ≡ c.capacity =
        add_all-capacity (add_hash c x).0 xs ∙ add_hash-capacity c x in
      let cache' : s'.replay_cache ≡ some c2 = kept ∙ ap (λ k. some (add_all k xs)) same in
      let again : (add s'.replay_cache entry.id salt).1 ≡ false =
        ap (λ o. (add o entry.id salt).1) cache'
        ∙ ap (λ p. p.1) (add_lem c2 entry.id salt (omega (arith, size, tr.positive)))
        ∙ replay_detected c past x xs tr accepted few in
      let (reader', found') =
        find_access_key-again crypto client.input client'.input ip s.ciphers entry reader salt keyed
          (ap (λ o. (find_access_key crypto client.input o s.ciphers).0) (sym from) ∙ found)
          bytes in
      let used : CipherEntry = record entry { last_client_ip = some ip } in
      let (h', refuses, facts) =
        with_key-refused crypto env client' s' used reader' salt
          (find_access_key crypto client'.input client'.ip s'.ciphers).1 plain again in
      let left_list : s'.ciphers ≡ (find_access_key crypto client.input (some ip) s.ciphers).1 =
        list ∙ ciphers ∙ ap (λ o. (find_access_key crypto client.input o s.ciphers).1) from in
      let finds : (find_access_key crypto client'.input client'.ip s'.ciphers).0
          ≡ ok (used, reader', salt) =
        ap₂ (λ o l. (find_access_key crypto client'.input o l).0) from' left_list ∙ found' in
      (
        h',
        ap
              (λ r.
                with_key crypto env client' s'
                  (r, (find_access_key crypto client'.input client'.ip s'.ciphers).1))
              finds
            ∙ refuses,
        facts,
      )
