-- ===== src/Api.antt =====
-- api/api.go and api/model.go: the traffic of each user, queued by the services and reported in
-- sums; and, in the modules below, the client of the API, Init and GetUsers. A counter is an int64,
-- its bit pattern, whose sums wrap.
pub mod Totals
pub mod Users
pub mod Client
pub mod Init
use ssgo.Prelude.{
  ℕ, add_int64, ◌+◌, Bool, true, false, not, ◌&&◌, ◌||◌, List, [], ◌∷◌, ◌++◌, ◌==◌, ltb,
  if◌then◌else◌, Bytes, bytes_equal,
}

pub record UserTraffic : Type 0 where
  pub uid : Bytes
  pub u : ℕ
  pub d : ℕ

pub record WwwTraffic : Type 0 where
  pub unid : Bytes
  pub host : Bytes
  pub uip : Bytes
  pub date : ℕ
  pub is_udp : ℕ
  pub status : ℕ

-- RepoTask and RepoWwwTask: the queue, and the time in seconds of the last report.
pub record Task (A : Type 0) : Type 0 where
  pub start_time : ℕ
  pub repo_list : List A

unfoldable pub add_www_repo : List WwwTraffic → WwwTraffic → List WwwTraffic
add_www_repo list traffic =
    if not (bytes_equal traffic.unid []) && not (bytes_equal traffic.host [])
    then list ++ (traffic ∷ [])
    else list

unfoldable pub add_repo : List UserTraffic → UserTraffic → List UserTraffic
add_repo list utice =
    if not (bytes_equal utice.uid []) && (not (utice.d == 0) || not (utice.u == 0))
    then list ++ (utice ∷ [])
    else list

-- One round of the loop of ReportUserTraffic over hdata, a map from UID to the sum so far.
unfoldable pub add_sum : List UserTraffic → UserTraffic → List UserTraffic
add_sum [] traffic = traffic ∷ []
add_sum (o ∷ hdata) traffic =
    if bytes_equal o.uid traffic.uid
    then record o {
      u = if not (traffic.u == 0) then add_int64 o.u traffic.u else o.u;
      d = if not (traffic.d == 0) then add_int64 o.d traffic.d else o.d;
    }
      ∷ hdata
    else o ∷ add_sum hdata traffic

unfoldable pub add_sums : List UserTraffic → List UserTraffic → List UserTraffic
add_sums hdata [] = hdata
add_sums hdata (traffic ∷ rest) = add_sums (add_sum hdata traffic) rest

-- What ReportUserTraffic sends, in some order.
unfoldable pub report_user_traffic : List UserTraffic → List UserTraffic
unfolding add_sum add_sums
report_user_traffic user_traffic = add_sums [] user_traffic

-- One tick of CheckRepo (`seconds` is 9) or CheckWwwRepo (30): the task afterwards, and what was
-- handed to the report. The outcome of the report is ignored.
unfoldable pub check_repo : {A : Type 0} → ℕ → ℕ → Task A → Task A × List A
check_repo seconds now task = elim task.repo_list [
  | [] ↦ (task, [])
  | t ∷ ts ↦
      if ltb (task.start_time + seconds) now
      then (record { start_time = now; repo_list = [] }, t ∷ ts)
      else (task, [])
]
