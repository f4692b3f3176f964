-- ===== src/Service/Metrics.antt =====
-- service/metrics/metrics.go: what the services report, as counters by their labels. A counter
-- vector is the list of its series. A value is the integer that a float64 stands for, and `plus` is
-- what the Prometheus client makes of a counter's value and what is added to it. An int64 is its bit
-- pattern; durations are in nanoseconds, and stand in the histograms as they are reported, not in
-- milliseconds. The client, the geographic database, the parsing of addresses and strconv.Itoa are
-- parameters.
pub mod Measured
pub mod Location
pub mod Calls
pub mod Updates
pub mod Totals
use ssgo.Prelude.{
  ◌==◌, ◌||◌, ◌≡◌, ◌<◌, ◌/◌, ◌*◌, zero, ℕ, add_int64, suc, ◌+◌, ◌%◌, ◌^◌, Bool, true, false, not,
  ◌&&◌, List, [], ◌∷◌, ◌++◌, Option, none, some, ltb, if◌then◌else◌, Bytes, codes, bytes_equal,
}

-- An int64 is negative from 2 ^ 63 on.
abbrev pub is_positive : ℕ → Bool
is_positive v = ltb 0 v && ltb v (2 ^ 63)

unfoldable pub labels_equal : List Bytes → List Bytes → Bool
labels_equal [] [] = true
labels_equal [] (y ∷ ys) = false
labels_equal (x ∷ xs) [] = false
labels_equal (x ∷ xs) (y ∷ ys) = bytes_equal x y && labels_equal xs ys

abbrev pub CounterVec : Type 0
CounterVec = List (List Bytes × ℕ)

-- float64(value), the nearest of the integers that 53 bits and an exponent give, of two the even one.
-- The exponent is the first, of at most eleven for an int64, with which 53 bits are enough.
unfoldable pub rounded : ℕ → ℕ → ℕ
rounded unit value =
    let q = value / unit in
    let r = value % unit in
    if ltb unit (2 * r) || (2 * r == unit && q % 2 == 1) then suc q * unit else q * unit

unfoldable pub float64_from : ℕ → ℕ → ℕ → ℕ
unfolding rounded
float64_from zero unit value = rounded unit value
float64_from (suc fuel) unit value =
    let wider = float64_from fuel (2 * unit) value in
    if ltb value (2 ^ 53 * unit) then rounded unit value else wider

unfoldable pub float64 : ℕ → ℕ
unfolding float64_from
float64 value = float64_from 11 1 value

-- A counter of the client, which keeps a float64, is exact while that is.
abbrev pub IsCounting : (ℕ → ℕ → ℕ) → Type 0
IsCounting plus = (n v : ℕ) → n + v < 2 ^ 53 → plus n v ≡ n + v

module _ (plus : ℕ → ℕ → ℕ) where
  -- WithLabelValues(lvs...).Add(value), which makes the series, at 0, if there is none.
  unfoldable pub add_value : List Bytes → ℕ → CounterVec → CounterVec
  unfolding labels_equal
  add_value lvs value [] = (lvs, plus 0 value) ∷ []
  add_value lvs value ((l, n) ∷ vec) =
      let rest = add_value lvs value vec in
      if labels_equal l lvs then (l, plus n value) ∷ vec else (l, n) ∷ rest

-- The observations of a histogram, by labels, the last first.
abbrev pub Histogram : Type 0
Histogram = List (List Bytes × ℕ)

abbrev pub observe : List Bytes → ℕ → Histogram → Histogram
observe lvs value h = (lvs, value) ∷ h

pub record Metrics : Type 0 where
  pub build_info : CounterVec
  pub access_keys : ℕ
  pub ports : ℕ
  pub data_bytes : CounterVec
  pub data_bytes_per_location : CounterVec
  pub time_to_cipher : Histogram
  pub tcp_probes : Histogram
  pub tcp_open_connections : CounterVec
  pub tcp_closed_connections : CounterVec
  pub tcp_connection_duration : Histogram
  pub udp_packets_from_client_per_location : CounterVec
  pub udp_added_nat_entries : ℕ
  pub udp_removed_nat_entries : ℕ

unfoldable pub new_shadowsocks_metrics : Metrics
new_shadowsocks_metrics = record {
  build_info = [];
  access_keys = 0;
  ports = 0;
  data_bytes = [];
  data_bytes_per_location = [];
  time_to_cipher = [];
  tcp_probes = [];
  tcp_open_connections = [];
  tcp_closed_connections = [];
  tcp_connection_duration = [];
  udp_packets_from_client_per_location = [];
  udp_added_nat_entries = 0;
  udp_removed_nat_entries = 0;
}

pub record ProxyMetrics : Type 0 where
  pub client_proxy : ℕ
  pub proxy_target : ℕ
  pub target_proxy : ℕ
  pub proxy_client : ℕ

unfoldable pub add_metrics : ProxyMetrics → ProxyMetrics → ProxyMetrics
add_metrics m other = record {
  client_proxy = add_int64 m.client_proxy other.client_proxy;
  proxy_target = add_int64 m.proxy_target other.proxy_target;
  target_proxy = add_int64 m.target_proxy other.target_proxy;
  proxy_client = add_int64 m.proxy_client other.proxy_client;
}

abbrev set_gauge : List Bytes → ℕ → CounterVec → CounterVec
set_gauge lvs value [] = (lvs, value) ∷ []
set_gauge lvs value ((l, n) ∷ vec) =
    if labels_equal l lvs then (l, value) ∷ vec else (l, n) ∷ set_gauge lvs value vec

unfoldable pub set_build_info : Bytes → Metrics → Metrics
set_build_info version m = record m { build_info = set_gauge (version ∷ []) 1 m.build_info }

unfoldable pub set_num_access_keys : ℕ → ℕ → Metrics → Metrics
set_num_access_keys num_keys ports m = record m { access_keys = num_keys; ports = ports }

module _ (plus : ℕ → ℕ → ℕ) where
  unfoldable pub add_open_tcp_connection : Bytes → Metrics → Metrics
  unfolding add_value
  add_open_tcp_connection client_location m = record m {
    tcp_open_connections = add_value plus (client_location ∷ []) 1 m.tcp_open_connections;
  }

unfoldable pub is_found : Bytes → Bytes
is_found [] = codes "false"
is_found (b ∷ bs) = codes "true"

module _ (plus : ℕ → ℕ → ℕ) where
  unfoldable pub add_if_non_zero : ℕ → List Bytes → CounterVec → CounterVec
  unfolding add_value float64
  add_if_non_zero value lvs vec =
      if is_positive value then add_value plus lvs (float64 value) vec else vec

abbrev pub tcp : Bytes
tcp = codes "tcp"

abbrev pub udp : Bytes
udp = codes "udp"

-- The series of a direction: by the access key, or by the location of the client.
abbrev pub series : Bytes → Bytes → Bytes → List Bytes
series dir proto name = dir ∷ proto ∷ name ∷ []

module _ (plus : ℕ → ℕ → ℕ) where
  -- The updates of one vector, one direction after the other, that AddClosedTCPConnection makes.
  abbrev pub add_tcp_data : Bytes → ProxyMetrics → CounterVec → CounterVec
  add_tcp_data name data_moved vec =
      add_if_non_zero plus data_moved.proxy_client (series (codes "c<p") tcp name) (
        add_if_non_zero plus data_moved.target_proxy (series (codes "p<t") tcp name) (
          add_if_non_zero plus data_moved.proxy_target (series (codes "p>t") tcp name)
            (add_if_non_zero plus data_moved.client_proxy (series (codes "c>p") tcp name) vec)))

  unfoldable pub add_closed_tcp_connection :
      Bytes → Bytes → Bytes → ProxyMetrics → ℕ → ℕ → Metrics → Metrics
  unfolding add_value add_if_non_zero is_found
  add_closed_tcp_connection client_location access_key status data_moved time_to_cipher duration m =
      record m {
        tcp_closed_connections =
            add_value plus (client_location ∷ status ∷ access_key ∷ []) 1 m.tcp_closed_connections;
        tcp_connection_duration = observe (status ∷ []) duration m.tcp_connection_duration;
        time_to_cipher = observe (tcp ∷ is_found access_key ∷ []) time_to_cipher m.time_to_cipher;
        data_bytes = add_tcp_data access_key data_moved m.data_bytes;
        data_bytes_per_location = add_tcp_data client_location data_moved m.data_bytes_per_location;
      }

unfoldable pub add_tcp_probe : (ℕ → Bytes) → Bytes → Bytes → ℕ → ProxyMetrics → Metrics → Metrics
add_tcp_probe itoa status drain_result port data_moved m = record m {
  tcp_probes =
      observe (itoa port ∷ status ∷ drain_result ∷ []) data_moved.client_proxy m.tcp_probes;
}

module _ (plus : ℕ → ℕ → ℕ) where
  unfoldable pub add_udp_packet_from_client : Bytes → Bytes → Bytes → ℕ → ℕ → ℕ → Metrics → Metrics
  unfolding add_value add_if_non_zero is_found
  add_udp_packet_from_client client_location access_key status client_proxy_bytes proxy_target_bytes
        time_to_cipher m =
      record m {
        time_to_cipher = observe (udp ∷ is_found access_key ∷ []) time_to_cipher m.time_to_cipher;
        udp_packets_from_client_per_location =
            add_value plus (client_location ∷ status ∷ []) 1 m.udp_packets_from_client_per_location;
        data_bytes = add_if_non_zero plus proxy_target_bytes (series (codes "p>t") udp access_key) (
            add_if_non_zero plus client_proxy_bytes (series (codes "c>p") udp access_key)
              m.data_bytes);
        data_bytes_per_location =
            add_if_non_zero plus proxy_target_bytes (series (codes "p>t") udp client_location) (
              add_if_non_zero plus client_proxy_bytes (series (codes "c>p") udp client_location)
                m.data_bytes_per_location);
      }

  unfoldable pub add_udp_packet_from_target : Bytes → Bytes → Bytes → ℕ → ℕ → Metrics → Metrics
  unfolding add_if_non_zero
  add_udp_packet_from_target client_location access_key status target_proxy_bytes proxy_client_bytes
        m =
      record m {
        data_bytes = add_if_non_zero plus proxy_client_bytes (series (codes "c<p") udp access_key) (
            add_if_non_zero plus target_proxy_bytes (series (codes "p<t") udp access_key)
              m.data_bytes);
        data_bytes_per_location =
            add_if_non_zero plus proxy_client_bytes (series (codes "c<p") udp client_location) (
              add_if_non_zero plus target_proxy_bytes (series (codes "p<t") udp client_location)
                m.data_bytes_per_location);
      }

  unfoldable pub add_udp_nat_entry : Metrics → Metrics
  add_udp_nat_entry m = record m { udp_added_nat_entries = plus m.udp_added_nat_entries 1 }

  unfoldable pub remove_udp_nat_entry : Metrics → Metrics
  remove_udp_nat_entry m = record m { udp_removed_nat_entries = plus m.udp_removed_nat_entries 1 }
