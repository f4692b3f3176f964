-- ===== src/Service/Metrics/Calls.antt =====
-- The calls on the metrics of service/metrics/metrics.go, and what they report.

use ssgo.Prelude.{ℕ, ◌+◌, ◌<◌, ◌^◌, Bool, List, [], ◌∷◌, if◌then◌else◌, Bytes, codes}
use ssgo.Service.Metrics.{
  Metrics, ProxyMetrics, set_build_info, set_num_access_keys, add_open_tcp_connection, tcp, udp,
  add_closed_tcp_connection, add_tcp_probe, add_udp_packet_from_client, add_udp_packet_from_target,
  add_udp_nat_entry, remove_udp_nat_entry,
}

-- The calls on the metrics. (`itoa` is the parameter of add_tcp_probe.)
pub data Call : Type 0 where
  build_info_set : Bytes → Call
  num_keys_set : ℕ → ℕ → Call
  tcp_opened : Bytes → Call
  tcp_closed : Bytes → Bytes → Bytes → ProxyMetrics → ℕ → ℕ → Call
  tcp_probed : Bytes → Bytes → ℕ → ProxyMetrics → Call
  udp_from_client : Bytes → Bytes → Bytes → ℕ → ℕ → ℕ → Call
  udp_from_target : Bytes → Bytes → Bytes → ℕ → ℕ → Call
  nat_added nat_removed : Call

pub data Dir : Type 0 where
  from_client to_target from_target to_client : Dir

pub data Proto : Type 0 where
  over_tcp over_udp : Proto

abbrev pub dir_text : Dir → Bytes
dir_text from_client = codes "c>p"
dir_text to_target = codes "p>t"
dir_text from_target = codes "p<t"
dir_text to_client = codes "c<p"

abbrev pub proto_text : Proto → Bytes
proto_text over_tcp = tcp
proto_text over_udp = udp

abbrev pub moved : Dir → ProxyMetrics → ℕ
moved from_client d = d.client_proxy
moved to_target d = d.proxy_target
moved from_target d = d.target_proxy
moved to_client d = d.proxy_client

-- A number where the protocols are the same.
abbrev pub on_proto : Proto → Proto → ℕ → ℕ
on_proto over_tcp over_tcp n = n
on_proto over_udp over_udp n = n
on_proto q p n = 0

-- The bytes that a call reports for a direction and a protocol, and the key and the location that it
-- reports them for.
abbrev pub amount : Dir → Proto → Call → ℕ
amount d p (tcp_closed location key status x ttc duration) = on_proto over_tcp p (moved d x)
amount d p (udp_from_client location key status cp pt ttc) =
    on_proto over_udp p (
      moved d (record { client_proxy = cp; proxy_target = pt; target_proxy = 0; proxy_client = 0 }))
amount d p (udp_from_target location key status tp pc) =
    on_proto over_udp p (
      moved d (record { client_proxy = 0; proxy_target = 0; target_proxy = tp; proxy_client = pc }))
amount d p call = 0

abbrev pub key_of : Call → Bytes
key_of (tcp_closed location key status data_moved ttc duration) = key
key_of (udp_from_client location key status cp pt ttc) = key
key_of (udp_from_target location key status tp pc) = key
key_of call = []

abbrev pub location_of : Call → Bytes
location_of (tcp_closed location key status data_moved ttc duration) = location
location_of (udp_from_client location key status cp pt ttc) = location
location_of (udp_from_target location key status tp pc) = location
location_of call = []

-- Every number that a call reports is one that an int64 holds.
abbrev pub IsInRange : Call → Type 0
IsInRange c = (d : Dir) (p : Proto) → amount d p c < 2 ^ 63

-- What those of the calls that are meant report for a direction and a protocol.
abbrev pub sum_where : Dir → Proto → (Call → Bool) → List Call → ℕ
sum_where d p of_call [] = 0
sum_where d p of_call (c ∷ cs) = (if of_call c then amount d p c else 0) + sum_where d p of_call cs

-- `plus` is the client's, and `itoa` strconv.Itoa.
module _ (plus : ℕ → ℕ → ℕ) (itoa : ℕ → Bytes) where
  unfoldable pub call : Call → Metrics → Metrics
  unfolding set_build_info set_num_access_keys add_open_tcp_connection add_closed_tcp_connection
      add_tcp_probe add_udp_packet_from_client add_udp_packet_from_target add_udp_nat_entry
      remove_udp_nat_entry
  call (build_info_set version) m = set_build_info version m
  call (num_keys_set keys ports) m = set_num_access_keys keys ports m
  call (tcp_opened location) m = add_open_tcp_connection plus location m
  call (tcp_closed location key status data_moved ttc duration) m =
      add_closed_tcp_connection plus location key status data_moved ttc duration m
  call (tcp_probed status drain port data_moved) m =
      add_tcp_probe itoa status drain port data_moved m
  call (udp_from_client location key status cp pt ttc) m =
      add_udp_packet_from_client plus location key status cp pt ttc m
  call (udp_from_target location key status tp pc) m =
      add_udp_packet_from_target plus location key status tp pc m
  call nat_added m = add_udp_nat_entry plus m
  call nat_removed m = remove_udp_nat_entry plus m

  unfoldable pub calls : List Call → Metrics → Metrics
  unfolding call
  calls [] m = m
  calls (c ∷ cs) m = calls cs (call c m)
