-- ===== src/Service/Tcp/Total.antt =====
-- Every connection is handled to its end.
use ssgo.Prelude.{◌+◌, ◌≡◌, refl, ap₂, Bool, true, false, List, Option, some, arith, Bytes}
use ssgo.Io.{Result, ok, err, Source, reads}
use ssgo.Shadowsocks.Crypto.{Crypto}
use ssgo.Shadowsocks.Reader.{ReadConverter}
use ssgo.Shadowsocks.Reader.Total.{rest-le, write_to_total}
use ssgo.Shadowsocks.Writer.{new_shadowsocks_writer, set_salt_generator}
use ssgo.Shadowsocks.Writer.Total.{read_from_total}
use ssgo.Service.CipherList.{CipherEntry, Element}
use ssgo.Service.FindKey.{find_access_key}
use ssgo.Service.Tcp.{
  Target, Client, Env, Shared, Outcome, Dialed, dial_failed, connected, dial_target, relayed, relay,
  connect, with_addr, proxy, after_replay_check, check_replay, with_key, handle_connection,
}

module _ (crypto : Crypto) (env : Env) where
  abbrev Ends : Option Outcome → Type 0
  Ends o = (x : Outcome) × (o ≡ some x)

  relay-Ends :
      (client : Client) (entry : CipherEntry) (ssr : ReadConverter) (t : Target) (s : Shared)
      → Ends (relay crypto env client entry ssr t s)
  unfolding relay
  relay-Ends client entry ssr t s =
      let ssw =
        set_salt_generator (new_shadowsocks_writer client.output entry.cipher)
          (entry.salt_generator.generator) in
      let (up, e) =
        write_to_total crypto (reads ssr.cr.reader + 2) ssr t.output 0
          (omega (arith, rest-le ssr.cr ssr.leftover)) in
      let (down, e') = read_from_total crypto env.rnd false ssw t.input in
      (_, ap₂ (relayed env entry t s) e e')

  connect-Ends :
      (client : Client) (entry : CipherEntry) (ssr : ReadConverter) (s : Shared) (d : Dialed)
      → Ends (connect crypto env client entry ssr s d)
  connect-Ends client entry ssr s (dial_failed status) = (_, refl)
  connect-Ends client entry ssr s (connected t) = relay-Ends client entry ssr t s

  with_addr-Ends :
      (client : Client) (entry : CipherEntry) (s : Shared) (x : ReadConverter × Result Bytes)
      → Ends (with_addr crypto env client entry s x)
  with_addr-Ends client entry s (ssr, err e) = (_, refl)
  with_addr-Ends client entry s (ssr, ok tgt_addr) =
      connect-Ends client entry ssr _ (dial_target env tgt_addr)

  after_replay_check-Ends :
      (client : Client) (entry : CipherEntry) (r : Source) (s : Shared) (marked fresh : Bool)
      → Ends (after_replay_check crypto env client entry r s marked fresh)
  unfolding proxy
  after_replay_check-Ends client entry r s true fresh = (_, refl)
  after_replay_check-Ends client entry r s false false = (_, refl)
  after_replay_check-Ends client entry r s false true = with_addr-Ends client entry s _

  with_key-Ends :
      (client : Client) (s : Shared) (x : Result (CipherEntry × Source × Bytes) × List Element)
      → Ends (with_key crypto env client s x)
  unfolding check_replay
  with_key-Ends client s (err e, cl) = (_, refl)
  with_key-Ends client s (ok (entry, r, salt), cl) = after_replay_check-Ends client entry r _ _ _

  -- handleConnection ends: in a panic, or with a status, whatever client and target send and
  -- however their connections fail.
  pub handle_connection_total :
      (client : Client) (s : Shared)
      → (x : Outcome) × (handle_connection crypto env client s ≡ some x)
  unfolding handle_connection
  handle_connection_total client s =
      with_key-Ends client s (find_access_key crypto client.input client.ip s.ciphers)
