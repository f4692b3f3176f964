-- ===== src/Api/Client.antt =====
-- api/api.go: the client of the API, how it reads a response, and Init, which learns the node's port and
-- cipher. The HTTP calls, the decoding of a body, the parsing of numbers and rand.Shuffle are
-- parameters. An int is its bit pattern.
use ssgo.Prelude.{
  ℕ, ◌≡◌, List, [], ◌∷◌, Option, none, some, ltb, ◌==◌, if◌then◌else◌, Bytes, length,
}
use ssgo.Io.{Error, panic, Result, ok, err, new, wrap, on_error, request_failed, ret_invalid}
use ssgo.Service.Replay.{contains}
use ssgo.Api.{UserTraffic, WwwTraffic, Task}

pub record Config : Type 0 where
  pub api_host : Bytes
  pub log_host : Bytes
  pub node_id : ℕ
  pub key : Bytes

-- `n` and `t` are the query parameters of every request.
pub record ApiClient : Type 0 where
  pub api_host : Bytes
  pub log_host : Bytes
  pub node_id : ℕ
  pub key : Bytes
  pub port : ℕ
  pub cipher : Bytes
  pub n : ℕ
  pub t : Bytes
  pub rtask : Task UserTraffic
  pub wtask : Task WwwTraffic

-- New, at a time in seconds.
unfoldable pub new_client : Config → ℕ → ApiClient
new_client api_config now = record {
  api_host = api_config.api_host;
  log_host = api_config.log_host;
  node_id = api_config.node_id;
  key = api_config.key;
  port = 0;
  cipher = [];
  n = api_config.node_id;
  t = api_config.key;
  rtask = record { start_time = now; repo_list = [] };
  wtask = record { start_time = now; repo_list = [] };
}

pub record Response : Type 0 where
  pub status_code : ℕ
  pub body : Bytes

-- A status of 400 itself is not refused.
unfoldable pub parse_response : {J : Type 0} → (Bytes → Result J) → Result Response → Result J
parse_response decode (err e) = err (wrap request_failed e)
parse_response decode (ok res) =
    if ltb 400 res.status_code
    then err (new request_failed)
    else elim (decode res.body) [ err e ↦ err (new ret_invalid) | ok rtn ↦ ok rtn ]

-- What Init reads from the `data` of the response; `none` where it is missing or of another type.
pub record InitData : Type 0 where
  pub port : Option Bytes
  pub id : Option ℕ
  pub cipher : Option Bytes

abbrev pub must_int : Option ℕ → ℕ
must_int none = 0
must_int (some n) = n

abbrev pub must_string : Option Bytes → Bytes
must_string none = []
must_string (some s) = s

abbrev pub random_ports : List ℕ
random_ports = 11451 ∷ 14514 ∷ 26708 ∷ 36708 ∷ 10080 ∷ 28818 ∷ 21818 ∷ []

abbrev pub first_of : List ℕ → Option ℕ
first_of [] = none
first_of (s ∷ ss) = some s

-- What the calls of Init come to.
pub record Calls : Type 0 where
  pub get : Result Response
  pub post : ℕ → ℕ → Option Error
  pub decode : Bytes → Result InitData
  pub parse_int : Bytes → Option ℕ
  pub shuffle : List ℕ → List ℕ

-- rand.Shuffle moves the elements about.
pub record IsShuffle (shuffle : List ℕ → List ℕ) : Type 0 where
  pub keeps_length : (s : List ℕ) → length (shuffle s) ≡ length s
  pub keeps : (s : List ℕ) (n : ℕ) → contains n (shuffle s) ≡ contains n s

-- The client, the error, and the node and the port that were posted.
abbrev pub Initialised : Type 0
Initialised = ApiClient × Option Error × Option (ℕ × ℕ)

module _ (calls : Calls) where
  -- Str2Int
  unfoldable pub str2int : Bytes → ℕ
  str2int pre = must_int (calls.parse_int pre)

  -- ERandPort; the index out of range of an empty slice is a panic.
  unfoldable pub erand_port : Option ℕ
  erand_port = first_of (calls.shuffle random_ports)

  abbrev pub initialised : ApiClient → InitData → ℕ → Option (ℕ × ℕ) → Initialised
  initialised c d port posted =
      (record c { cipher = must_string d.cipher; port = port }, none, posted)

  abbrev pub with_port : ApiClient → InitData → Option ℕ → Initialised
  with_port c d none = (c, some panic, none)
  with_port c d (some port) =
      let c' = record c { n = must_int d.id } in
      let posted = some (must_int d.id, port) in
      on_error (calls.post (must_int d.id) port) (λ e. (c', some e, posted))
        (initialised c' d port posted)

  abbrev pub with_data : ApiClient → InitData → Initialised
  with_data c d =
      let c' = record c { node_id = must_int d.id } in
      let port = str2int (must_string d.port) in
      if port == 0 then with_port c' d erand_port else initialised c' d port none

  abbrev pub with_reply : ApiClient → Result InitData → Initialised
  with_reply c (err e) = (c, some e, none)
  with_reply c (ok d) = with_data c d

  abbrev pub with_get : ApiClient → Result Response → Initialised
  with_get c (err e) = (c, some e, none)
  with_get c (ok res) = with_reply c (parse_response calls.decode (ok res))

  unfoldable pub init : ApiClient → Initialised
  unfolding parse_response str2int erand_port
  init c = with_get c calls.get
