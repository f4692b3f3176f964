-- ===== src/Service/Udp/Accounting.antt =====
-- service/udp.go: what a round of Serve reports, to the API and to the metrics.
pub mod Agree
use ssgo.Prelude.{
  ℕ, ◌+◌, ◌<◌, ◌^◌, ◌≡◌, refl, ap, ◌∙◌, inl, inr, false, List, [], ◌∷◌, ◌++◌, Option, none, some,
  arith, if◌then◌else◌, Bool-cases, Bytes, codes, length, bytes_equal, bytes_equal_iff, All,
}
use ssgo.Io.{Error, Result, ok, err}
use ssgo.Net.{
  Status, all_ok, err_read, err_pack, err_write, err_cipher, err_replay_server, err_replay_client,
  err_read_address, err_resolve_address, err_connect, err_create_socket, err_address_invalid,
  err_address_private, err_relay_client, err_relay_target,
}
use ssgo.Shadowsocks.Crypto.{Crypto}
use ssgo.Shadowsocks.Cipher.{Cipher}
use ssgo.Service.CipherList.{Element}
use ssgo.Service.Nat.{Natconn, get}
use ssgo.Service.Metrics.{Metrics, series, add_udp_packet_from_client}
use ssgo.Service.Metrics.Calls.{
  udp_from_client, from_client, to_target, Dir, from_target, to_client, Proto, over_tcp, over_udp,
  call, amount,
}
use ssgo.Service.Metrics.Totals.{value, value-call}
use ssgo.Api.{UserTraffic, add_repo}
use ssgo.Api.Totals.{total_u, total_d}
use ssgo.Service.Udp.{
  UdpAddr, Env, Shared, Packet, Forwarded, Validated, rejected, valid, validate_packet, with_socket,
  write_target, to_known, from_known, to_new, from_new, report, Round, stopping, panicked, done,
  serve_round,
}

-- The statuses as the texts of NewConnectionError.
abbrev pub status_text : Status → Bytes
status_text all_ok = codes "OK"
status_text err_read = codes "ERR_READ"
status_text err_pack = codes "ERR_PACK"
status_text err_write = codes "ERR_WRITE"
status_text err_cipher = codes "ERR_CIPHER"
status_text err_replay_server = codes "ERR_REPLAY_SERVER"
status_text err_replay_client = codes "ERR_REPLAY_CLIENT"
status_text err_read_address = codes "ERR_READ_ADDRESS"
status_text err_resolve_address = codes "ERR_RESOLVE_ADDRESS"
status_text err_connect = codes "ERR_CONNECT"
status_text err_create_socket = codes "ERR_CREATE_SOCKET"
status_text err_address_invalid = codes "ERR_ADDRESS_INVALID"
status_text err_address_private = codes "ERR_ADDRESS_PRIVATE"
status_text err_relay_client = codes "ERR_RELAY_CLIENT"
status_text err_relay_target = codes "ERR_RELAY_TARGET"

-- The report of a round to the metrics, after that to the API. A round that stops or panics reports
-- nothing.
unfoldable pub meter : (ℕ → ℕ → ℕ) → Packet → ℕ → Round → Metrics → Metrics
unfolding add_udp_packet_from_client
meter plus packet time_to_cipher (done f s) m =
    add_udp_packet_from_client plus f.client_location f.key_id (status_text f.status)
      (length packet.data_bytes) f.proxy_target_bytes time_to_cipher m
meter plus packet time_to_cipher stopping m = m
meter plus packet time_to_cipher panicked m = m

abbrev after : Round → Shared → Shared
after (done f s') s = s'
after stopping s = s
after panicked s = s

-- A packet, with the environment of its round and the time that the search for its key takes.
pub record Arrival : Type 0 where
  pub env : Env
  pub packet : Packet
  pub time_to_cipher : ℕ

-- `plus` is the Prometheus client's.
module _ (plus : ℕ → ℕ → ℕ) (crypto : Crypto) where
  -- The rounds of a running loop.
  unfoldable pub rounds : List Arrival → Shared × Metrics → Shared × Metrics
  unfolding serve_round meter
  rounds [] x = x
  rounds (a ∷ arrivals) (s, m) =
      let r = serve_round crypto a.env false (some a.packet) s in
      rounds arrivals (after r s, meter plus a.packet a.time_to_cipher r m)

-- Lengths are ones that an int64 holds.
pub record IsInt (a : Arrival) : Type 0 where
  pub packet : length a.packet.data_bytes < 2 ^ 63
  pub written : (payload : Bytes) (tgt : UdpAddr) → (a.env.write_to payload tgt).0 < 2 ^ 63
