-- ===== src/Net.antt =====
-- The package net of the repository (net/error.go, net/private_net.go, net/stream.go): the outcome of
-- a connection, IP addresses, the addresses that clients may not reach, and the relay.
pub mod Private
pub mod Stream
use Prim.Native.Nat.{bit_and}
use ssgo.Prelude.{
  ℕ, Bool, true, false, not, ◌&&◌, ◌||◌, List, [], ◌∷◌, ◌++◌, Option, none, some, ◌==◌,
  if◌then◌else◌, Bytes, length, bytes_equal, take, drop, replicate,
}

-- The statuses of NewConnectionError, and "OK".
pub data Status : Type 0 where
  all_ok err_read err_pack err_write err_cipher : Status
  err_replay_server err_replay_client err_read_address err_resolve_address : Status
  err_connect err_create_socket err_address_invalid err_address_private : Status
  err_relay_client err_relay_target : Status

-- net.IP: 4 or 16 bytes; `none` is nil.
abbrev pub Ip : Type 0
Ip = Bytes

-- The 12 bytes that mark an IPv4 address in 16 bytes.
abbrev pub v4_in_v6_prefix : Bytes
v4_in_v6_prefix = 0 ∷ 0 ∷ 0 ∷ 0 ∷ 0 ∷ 0 ∷ 0 ∷ 0 ∷ 0 ∷ 0 ∷ 255 ∷ 255 ∷ []

-- net.IP.Equal: an IPv4 address and its form in 16 bytes are the same.
unfoldable pub ip_equal : Ip → Ip → Bool
ip_equal ip x =
    if length ip == length x
    then bytes_equal ip x
    else if length ip == 4 && length x == 16
    then bytes_equal (take 12 x) v4_in_v6_prefix && bytes_equal ip (drop 12 x)
    else if length ip == 16 && length x == 4
    then bytes_equal (take 12 ip) v4_in_v6_prefix && bytes_equal (drop 12 ip) x
    else false

-- net.IP.To4, where it is not nil, and else the address itself.
unfoldable pub shortest : Ip → Ip
shortest ip = if length ip == 16 && bytes_equal (take 12 ip) v4_in_v6_prefix then drop 12 ip else ip

-- A net.IPNet: the base address, and the mask of its prefix.
pub record Network : Type 0 where
  pub base : Ip
  pub mask : Bytes

-- The comparison of net.IPNet.Contains, byte by byte under the mask, on addresses of one length.
unfoldable pub masked_equal : Bytes → Bytes → Bytes → Bool
masked_equal (m ∷ ms) (b ∷ bs) (i ∷ is) = bit_and b m == bit_and i m && masked_equal ms bs is
masked_equal [] [] [] = true
masked_equal ms bs is = false

unfoldable pub in_network : Network → Ip → Bool
unfolding masked_equal shortest
in_network n ip = masked_equal n.mask n.base (shortest ip)

-- The networks of init: three of RFC 1918, one of RFC 4193 and one of RFC 6598.
abbrev pub private_10 : Network
private_10 = record { base = 10 ∷ 0 ∷ 0 ∷ 0 ∷ []; mask = 255 ∷ 0 ∷ 0 ∷ 0 ∷ [] }

abbrev pub private_172 : Network
private_172 = record { base = 172 ∷ 16 ∷ 0 ∷ 0 ∷ []; mask = 255 ∷ 240 ∷ 0 ∷ 0 ∷ [] }

abbrev pub private_192 : Network
private_192 = record { base = 192 ∷ 168 ∷ 0 ∷ 0 ∷ []; mask = 255 ∷ 255 ∷ 0 ∷ 0 ∷ [] }

abbrev pub unique_local : Network
unique_local = record { base = 252 ∷ replicate 15 0; mask = 254 ∷ replicate 15 0 }

abbrev pub shared_100 : Network
shared_100 = record { base = 100 ∷ 64 ∷ 0 ∷ 0 ∷ []; mask = 255 ∷ 192 ∷ 0 ∷ 0 ∷ [] }

abbrev pub private_networks : List Network
private_networks = private_10 ∷ private_172 ∷ private_192 ∷ unique_local ∷ shared_100 ∷ []

unfoldable pub in_some : List Network → Ip → Bool
unfolding in_network
in_some [] ip = false
in_some (n ∷ ns) ip = in_network n ip || in_some ns ip

unfoldable pub is_private_address : Ip → Bool
unfolding in_some
is_private_address ip = in_some private_networks ip

-- RequirePublicIP; `is_global_unicast` is the method of net.IP.
unfoldable pub require_public_ip : (Ip → Bool) → Ip → Option Status
require_public_ip is_global_unicast ip =
    if not (is_global_unicast ip)
    then some err_address_invalid
    else if is_private_address ip
    then some err_address_private
    else none
