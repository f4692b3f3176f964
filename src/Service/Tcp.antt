-- ===== src/Service/Tcp.antt =====
-- service/tcp.go, handleConnection: one client connection, from the search for its key to the relay.
-- A connection is the script of its reads and the bytes written to it. The socks library, the
-- dialer and the timeouts of net.Error are parameters. The two directions of the relay share only
-- the queue of traffic: `client_first` says which of them reports first.
pub mod Total
pub mod Safety
pub mod Replayed
use ssgo.Prelude.{
  ℕ, ◌+◌, Bool, true, false, not, ◌||◌, List, [], ◌∷◌, Option, none, some, if◌then◌else◌, Bytes,
}
use ssgo.Io.{Error, eof, panic, Result, ok, err, Source, content, ending, reads, read_full, Sink}
use ssgo.Io.Copy.{copy_error}
use ssgo.Net.{
  Ip, Status, all_ok, err_cipher, err_replay_server, err_replay_client, err_read_address,
  err_connect, err_relay_client, err_relay_target,
}
use ssgo.Shadowsocks.Crypto.{Crypto}
use ssgo.Shadowsocks.Salt.{Random, SaltGenerator}
use ssgo.Shadowsocks.Writer.{Writer, new_shadowsocks_writer, set_salt_generator, read_from}
use ssgo.Shadowsocks.Reader.{ReadConverter, new_chunk_reader, write_to}
use ssgo.Service.Replay.{ReplayCache, add}
use ssgo.Service.ServerSalt.{ServerSaltGenerator}
use ssgo.Service.CipherList.{CipherEntry, Element}
use ssgo.Service.FindKey.{bytes_for_key_finding, find_access_key}
use ssgo.Api.{UserTraffic, WwwTraffic, add_repo, add_www_repo}

-- A connected target: where it is, what it sends, and what reached it.
pub record Target : Type 0 where
  pub ip : Ip
  pub input : Source
  pub output : Sink

pub record Client : Type 0 where
  pub ip : Option Ip
  pub addr : Bytes
  pub input : Source
  pub output : Sink

-- What the handler takes from outside.
pub record Env : Type 0 where
  pub now : ℕ
  pub rnd : Random
  pub max_tag_size : ℕ
  pub is_timeout : Error → Bool
  pub client_first : Bool
  -- targetIPValidator
  pub validator : Ip → Option Status
  -- socks.ReadAddr on the decrypted stream, and the text of the address.
  pub read_addr : ReadConverter → ReadConverter × Result Bytes
  pub addr_text : Bytes → Bytes
  -- net.Dialer.Dial with a Control function: the address that Control saw last, if any.
  pub dial : (Ip → Option Status) → Bytes → Option Ip × Result Target

-- What the connections of a port share.
pub record Shared : Type 0 where
  pub ciphers : List Element
  pub replay_cache : Option ReplayCache
  pub user_traffic : List UserTraffic
  pub www_traffic : List WwwTraffic

pub data DrainResult : Type 0 where
  drain_eof drain_timeout drain_other : DrainResult

-- drainErrToString
unfoldable pub drain_err_to_string : (Error → Bool) → Option Error → DrainResult
drain_err_to_string is_timeout none = drain_eof
drain_err_to_string is_timeout (some e) = if is_timeout e then drain_timeout else drain_other

-- What a handled connection leaves: the status and the key of the metrics, the probe that was
-- reported, and the target, if one was connected.
pub record Handled : Type 0 where
  pub status : Status
  pub key_id : Bytes
  pub probe : Option (Status × DrainResult)
  pub target : Option Target
  pub client_output : Sink
  pub shared : Shared

-- A panic is recovered by the caller, and ends the handler where it stands.
pub data Outcome : Type 0 where
  panicked : Shared → Outcome
  handled : Handled → Outcome

abbrev is_panic : Error → Bool
is_panic panic = true
is_panic e = false

abbrev pub refused : Client → Shared → Status → Bytes → Option (Status × DrainResult) → Outcome
refused client s status key_id probe = handled (record {
  status = status;
  key_id = key_id;
  probe = probe;
  target = none;
  client_output = client.output;
  shared = s;
})

-- absorbProbe: the connection is read to its end, and the probe reported. The bytes that
-- findAccessKey has put back do not change how it ends.
unfoldable pub absorb_probe : Env → Source → Status → Status × DrainResult
unfolding drain_err_to_string
absorb_probe env conn status =
    (status, drain_err_to_string env.is_timeout (copy_error (ending conn)))

pub data Dialed : Type 0 where
  dial_failed : Status → Dialed
  connected : Target → Dialed

abbrev checked : Env → Option Ip → Option Status
checked env none = none
checked env (some ip) = env.validator ip

abbrev dialed : Option Status → Result Target → Dialed
dialed (some ip_error) r = dial_failed ip_error
dialed none (err e) = dial_failed err_connect
dialed none (ok t) = connected t

unfoldable pub dial_target : Env → Bytes → Dialed
dial_target env tgt_addr =
    let (last, r) = env.dial env.validator tgt_addr in dialed (checked env last) r

abbrev pub relay_status : Option Error → Option Error → Status
relay_status (some e) from_target_err = err_relay_client
relay_status none (some e) = err_relay_target
relay_status none none = all_ok

-- The two reports of the relay.
abbrev pub report_both : Bool → Bytes → ℕ → ℕ → List UserTraffic → List UserTraffic
report_both client_first uid i ri queue =
    let up : UserTraffic = record { uid = uid; u = i; d = 0 } in
    let down : UserTraffic = record { uid = uid; u = 0; d = ri } in
    if client_first then add_repo (add_repo queue up) down else add_repo (add_repo queue down) up

abbrev pub relayed :
    Env
    → CipherEntry
    → Target
    → Shared
    → Option (ReadConverter × Sink × ℕ × Option Error)
    → Option (Writer × ℕ × Option Error × Source)
    → Option Outcome
relayed env entry t s none down = none
relayed env entry t s (some up) none = none
relayed env entry t s (some (ssr, tgt, i, from_client_err))
      (some (ssw, ri, from_target_err, rest)) =
    some (
      handled (record {
        status = relay_status from_client_err from_target_err;
        key_id = entry.id;
        probe = none;
        target = some (record t { input = rest; output = tgt });
        client_output = ssw.writer;
        shared = record s {
          user_traffic = report_both env.client_first entry.id i ri s.user_traffic;
        };
      }))

module _ (crypto : Crypto) (env : Env) where
  -- The part behind the dial. Every chunk takes bytes off the reader, so that the fuel is enough.
  unfoldable pub relay : Client → CipherEntry → ReadConverter → Target → Shared → Option Outcome
  relay client entry ssr t s =
      let ssw =
        set_salt_generator (new_shadowsocks_writer client.output entry.cipher)
          (entry.salt_generator.generator) in
      relayed env entry t s (write_to crypto (reads ssr.cr.reader + 2) ssr t.output 0)
        (read_from crypto env.rnd false ssw t.input)

  abbrev pub connect : Client → CipherEntry → ReadConverter → Shared → Dialed → Option Outcome
  connect client entry ssr s (dial_failed status) = some (refused client s status entry.id none)
  connect client entry ssr s (connected t) = relay client entry ssr t s

  abbrev visited : Client → CipherEntry → Bytes → Shared → Shared
  visited client entry tgt_addr s = record s {
    www_traffic = add_www_repo s.www_traffic (record {
      unid = entry.id;
      host = env.addr_text tgt_addr;
      uip = client.addr;
      date = env.now;
      is_udp = 0;
      status = 1;
    });
  }

  abbrev pub with_addr :
      Client → CipherEntry → Shared → ReadConverter × Result Bytes → Option Outcome
  with_addr client entry s (ssr, err e) = some (refused client s err_read_address entry.id none)
  with_addr client entry s (ssr, ok tgt_addr) =
      connect client entry ssr (visited client entry tgt_addr s) (dial_target env tgt_addr)

  -- A connection whose key is found and whose salt is new.
  unfoldable pub proxy : Client → CipherEntry → Source → Shared → Option Outcome
  proxy client entry client_reader s = with_addr client entry s (
      env.read_addr (record {
        cr = new_chunk_reader client_reader entry.cipher env.max_tag_size;
        leftover = [];
      }))

  abbrev pub after_replay_check :
      Client → CipherEntry → Source → Shared → Bool → Bool → Option Outcome
  after_replay_check client entry client_reader s true fresh = some (
      refused client s err_replay_server entry.id
        (some (absorb_probe env client_reader err_replay_server)))
  after_replay_check client entry client_reader s false false = some (
      refused client s err_replay_client entry.id
        (some (absorb_probe env client_reader err_replay_client)))
  after_replay_check client entry client_reader s false true = proxy client entry client_reader s

  -- The cache is asked, and changed, only where the salt is not the server's own.
  unfoldable pub check_replay : Client → CipherEntry → Source → Bytes → Shared → Option Outcome
  check_replay client entry client_reader salt s =
      let is_server_salt = entry.salt_generator.is_server_salt salt in
      let (cache, fresh) = add s.replay_cache entry.id salt in
      let s' : Shared = if is_server_salt then s else record s { replay_cache = cache } in
      after_replay_check client entry client_reader s' is_server_salt fresh

  abbrev pub with_key :
      Client → Shared → Result (CipherEntry × Source × Bytes) × List Element → Option Outcome
  with_key client s (ok (entry, client_reader, salt), cl) =
      check_replay client entry client_reader salt (record s { ciphers = cl })
  with_key client s (err e, cl) =
      let s' : Shared = record s { ciphers = cl } in
      let rest = (read_full bytes_for_key_finding client.input).1 in
      some (
        if is_panic e
        then panicked s'
        else refused client s' err_cipher [] (some (absorb_probe env rest err_cipher)))

  unfoldable pub handle_connection : Client → Shared → Option Outcome
  unfolding check_replay absorb_probe
  handle_connection client s =
      with_key client s (find_access_key crypto client.input client.ip s.ciphers)
