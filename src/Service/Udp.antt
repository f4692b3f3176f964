-- ===== src/Service/Udp.antt =====
-- service/udp.go: one round of the packet loop of Serve, and validatePacket. The socks library, the
-- resolver, the location database and the sockets are parameters.
pub mod Forward
pub mod EndToEnd
pub mod Lifecycle
pub mod Accounting
use ssgo.Prelude.{
  ℕ, ◌+◌, Bool, true, false, List, [], ◌∷◌, ◌++◌, Option, none, some, if◌then◌else◌, Bytes, length,
  drop,
}
use ssgo.Io.{Error, Result, ok, err, Source}
use ssgo.Net.{
  Ip, Status, all_ok, err_read, err_write, err_cipher, err_read_address, err_resolve_address,
  err_create_socket,
}
use ssgo.Shadowsocks.Crypto.{Crypto}
use ssgo.Shadowsocks.Cipher.{Cipher}
use ssgo.Shadowsocks.Packet.{unpack}
use ssgo.Service.CipherList.{Element}
use ssgo.Service.FindKey.{find_access_key_udp}
use ssgo.Service.Nat.{Natconn, Natmap, on_write, get, add, put_conn}
use ssgo.Api.{UserTraffic, WwwTraffic, add_repo, add_www_repo}

pub record UdpAddr : Type 0 where
  pub ip : Ip
  pub port : ℕ

pub record Env : Type 0 where
  pub now : ℕ
  pub validator : Ip → Option Status
  -- socks.SplitAddr: the address at the start of a packet, if there is one.
  pub split_addr : Bytes → Option Bytes
  -- net.ResolveUDPAddr on the address.
  pub resolve : Bytes → Result UdpAddr
  pub addr_text : Option UdpAddr → Bytes
  pub get_location : Bytes → Bytes
  -- net.ListenPacket for a new client.
  pub listen : Bytes → Option Error
  -- The WriteTo of a target socket.
  pub write_to : Bytes → UdpAddr → ℕ × Option Error

-- What the rounds of a service share.
pub record Shared : Type 0 where
  pub ciphers : List Element
  pub nat : Natmap
  pub user_traffic : List UserTraffic
  pub www_traffic : List WwwTraffic

-- What ReadFrom of the client socket gave.
pub record Packet : Type 0 where
  pub data_bytes : Bytes
  pub client_addr : Bytes
  pub client_ip : Option Ip

-- The variables that the deferred report reads: the key, the target, the bytes written, the status,
-- and what was handed to the target's socket.
pub record Forwarded : Type 0 where
  pub key_id : Bytes
  pub client_location : Bytes
  pub target : Option UdpAddr
  pub proxy_target_bytes : ℕ
  pub status : Status
  pub sent : Option (Bytes × UdpAddr)

pub data Validated : Type 0 where
  rejected : Status → Validated
  valid : Bytes → UdpAddr → Validated

abbrev pub with_ip_check : Bytes → UdpAddr → Option Status → Validated
with_ip_check payload tgt (some e) = rejected e
with_ip_check payload tgt none = valid payload tgt

abbrev pub with_target : Env → Bytes → Bytes → Result UdpAddr → Validated
with_target env text tgt_addr (err e) = rejected err_resolve_address
with_target env text tgt_addr (ok tgt) =
    with_ip_check (drop (length tgt_addr) text) tgt (env.validator tgt.ip)

abbrev pub with_split : Env → Bytes → Option Bytes → Validated
with_split env text none = rejected err_read_address
with_split env text (some tgt_addr) = with_target env text tgt_addr (env.resolve tgt_addr)

unfoldable pub validate_packet : Env → Bytes → Validated
validate_packet env text = with_split env text (env.split_addr text)

-- How a round ends. A read that fails has no client address, so that the deferred report panics,
-- which the round recovers; nothing is reported then.
pub data Round : Type 0 where
  stopping panicked : Round
  done : Forwarded → Shared → Round

-- A return before the packet is written to a target.
abbrev pub gives_up : Bytes → Bytes → Option UdpAddr → Status → Forwarded
gives_up key_id location target status = record {
  key_id = key_id;
  client_location = location;
  target = target;
  proxy_target_bytes = 0;
  status = status;
  sent = none;
}

-- targetConn.WriteTo: the deadline first, in the entry that the table shares.
unfoldable pub write_target : Env → Packet → Natconn → Bytes → UdpAddr → Shared → Forwarded × Shared
unfolding on_write put_conn
write_target env packet c payload tgt s =
    let (n, e) = env.write_to payload tgt in
    (
      record {
        key_id = c.key_id;
        client_location = c.client_location;
        target = some tgt;
        proxy_target_bytes = n;
        status = elim e [ none ↦ all_ok | some x ↦ err_write ];
        sent = some (payload, tgt);
      },
      record s { nat = put_conn s.nat packet.client_addr (on_write env.now tgt.port c) },
    )

abbrev pub to_known : Env → Packet → Natconn → Shared → Validated → Forwarded × Shared
to_known env packet c s (rejected status) = (gives_up c.key_id c.client_location none status, s)
to_known env packet c s (valid payload tgt) = write_target env packet c payload tgt s

-- A client in the table: its packet must decrypt under the cipher it came with first.
abbrev pub from_known : Env → Packet → Natconn → Shared → Result Bytes → Forwarded × Shared
from_known env packet c s (err e) = (gives_up [] c.client_location none err_cipher, s)
from_known env packet c s (ok text) = to_known env packet c s (validate_packet env text)

abbrev pub with_socket :
    Env
    → Packet
    → Bytes
    → Cipher
    → Bytes
    → Bytes
    → UdpAddr
    → Shared
    → Option Error
    → Forwarded × Shared
with_socket env packet key_id cipher location payload tgt s (some e) =
    (gives_up key_id location (some tgt) err_create_socket, s)
with_socket env packet key_id cipher location payload tgt s none =
    let (nat, c) = add s.nat packet.client_addr cipher location key_id in
    write_target env packet c payload tgt (record s { nat = nat })

abbrev pub to_new : Env → Packet → Bytes → Cipher → Bytes → Shared → Validated → Forwarded × Shared
to_new env packet key_id cipher location s (rejected status) =
    (gives_up key_id location none status, s)
to_new env packet key_id cipher location s (valid payload tgt) =
    with_socket env packet key_id cipher location payload tgt s (env.listen packet.client_addr)

abbrev pub from_new :
    Env
    → Packet
    → Bytes
    → Shared
    → Result (Bytes × Bytes × Cipher) × List Element
    → Forwarded × Shared
from_new env packet location s (err e, cl) =
    (gives_up [] location none err_cipher, record s { ciphers = cl })
from_new env packet location s (ok (text, key_id, cipher), cl) =
    to_new env packet key_id cipher location (record s { ciphers = cl }) (validate_packet env text)

module _ (crypto : Crypto) (env : Env) where
  abbrev pub from_client : Packet → Shared → Option Natconn → Forwarded × Shared
  from_client packet s (some c) =
      from_known env packet c s (unpack crypto none packet.data_bytes c.cipher)
  from_client packet s none =
      from_new env packet (env.get_location packet.client_addr) s
        (find_access_key_udp crypto packet.client_ip packet.data_bytes s.ciphers)

  -- The deferred report: the visit, and the traffic.
  unfoldable pub report : Packet → Forwarded → Shared → Shared
  report packet f s = record s {
    www_traffic = add_www_repo s.www_traffic (record {
      unid = f.key_id;
      host = env.addr_text f.target;
      uip = packet.client_addr;
      date = env.now;
      is_udp = 1;
      status = 1;
    });
    user_traffic =
        add_repo s.user_traffic
          (record { uid = f.key_id; u = length packet.data_bytes; d = f.proxy_target_bytes });
  }

  unfoldable pub serve_round : Bool → Option Packet → Shared → Round
  unfolding report
  serve_round stopped none s = if stopped then stopping else panicked
  serve_round stopped (some packet) s =
      let (f, s') = from_client packet s (get s.nat packet.client_addr) in
      done f (report packet f s')
