-- ===== src/Server/Start.antt =====
-- cmd/quick_ss/main.go, RunSSServer: how the server comes up, from the client of the API, the database
-- and the users to the ports. The goroutines that it starts are CheckUser (Server/Users) and the two
-- report loops (Api).
use ssgo.Prelude.{
  ℕ, ◌≡◌, refl, sym, ap, ap₂, ◌∙◌, inl, inr, List, [], Option, none, some, arith, true, subst,
}
use ssgo.Io.{Error, Result, ok, err, Result-cases, wrap, failed_to_dorun}
use ssgo.Service.CipherList.{CipherEntry}
use ssgo.Service.Replay.{ReplayCache, new_replay_cache, contains}
use ssgo.Api.Client.{ApiClient, Calls, init}
use ssgo.Api.Users.{
  Keys, Rows, Database, Ended, fatal, returned, get_users, Joined, get_users-Joined,
}
use ssgo.Server.{Key, Ports, Sockets, ciphers_of, do_run}
use ssgo.Server.Lookup.{IsIn}
use ssgo.Server.Loading.{list_of, entries, ports_of}
use ssgo.Server.Applied.{Applied, bad_key, bad_socket, applied, do_run_lem}

pub record SsServer : Type 0 where
  pub nat_timeout : ℕ
  pub replay_cache : ReplayCache
  pub ports : Ports
  pub api : ApiClient

-- A panic of NewReplayCache, the end of the program by log.Fatal, an error, a panic of doRun, or a
-- server.
pub data Started : Type 0 where
  panicked exited failed : Error → Started
  crashed : Started
  running : SsServer → Started

abbrev pub after_do_run : SsServer → Option (Ports × Option Error) → Started
after_do_run server none = crashed
after_do_run server (some (ports, some e)) = failed (wrap failed_to_dorun e)
after_do_run server (some (ports, none)) = running (record server { ports = ports })

-- `order` is the order in which the map of the ports of some users is walked.
module _ (net : Sockets) (make : Key → Result CipherEntry) (order : List Key → List ℕ) where
  abbrev pub with_node : SsServer → Ended → Started
  with_node server (fatal e) = exited e
  with_node server (returned users) =
      after_do_run server (do_run net make users (order users) server.ports)

  -- The error of Init is dropped.
  abbrev pub with_cache : Calls → Result Database → ℕ → ApiClient → Result ReplayCache → Started
  with_cache calls db nat_timeout api2 (err e) = panicked e
  with_cache calls db nat_timeout api2 (ok cache) =
      let (api, _, _) = init calls api2 in
      with_node (record { nat_timeout = nat_timeout; replay_cache = cache; ports = []; api = api })
        (get_users db api.node_id)

  unfoldable pub run_ss_server : Calls → Result Database → ℕ → ℕ → ApiClient → Started
  run_ss_server calls db nat_timeout replay_history api2 =
      with_cache calls db nat_timeout api2 (new_replay_cache replay_history)

  -- The walk over the map meets the ports of all users.
  abbrev pub IsWalk : Type 0
  IsWalk =
      (users : List Key) (q : ℕ)
      → contains q (ports_of users) ≡ true
      → contains q (order users) ≡ true

  none_served : (users : List Key) (q : ℕ) → IsIn q [] → contains q (order users) ≡ true
  unfolding ciphers_of
  none_served users q (cs, h) = ground arith

  -- What stands behind a server that runs.
  pub record Serves (db : Result Database) (s : SsServer) : Type 0 where
    pub base : Database
    pub opens : db ≡ ok base
    pub rows1 : Rows (ℕ × Keys)
    pub answered : base.query1 s.api.node_id ≡ ok rows1
    pub users : List Key
    pub joined : Joined base rows1.scans users
    pub lists : (port : ℕ) → list_of port s.ports ≡ entries make port users

  -- How RunSSServer may end: it does not panic in doRun; it panics only where NewReplayCache does, exits
  -- only where GetUsers does, and fails only where a key or a socket of the node's users does.
  abbrev pub IsStart : Calls → Result Database → ℕ → ApiClient → Started → Type 0
  IsStart calls db replay_history api2 crashed = ⊥
  IsStart calls db replay_history api2 (panicked e) = new_replay_cache replay_history ≡ err e
  IsStart calls db replay_history api2 (exited e) =
      get_users db (init calls api2).0.node_id ≡ fatal e
  IsStart calls db replay_history api2 (failed e) =
      (users : List Key) × (ports : Ports) × (x : Error) × (get_users db (init calls api2).0.node_id
        ≡ returned users)
      × (do_run net make users (order users) [] ≡ some (ports, some x))
      × (e ≡ wrap failed_to_dorun x)
  IsStart calls db replay_history api2 (running s) =
      Serves db s
      × (new_replay_cache replay_history ≡ ok s.replay_cache)
      × (s.api ≡ (init calls api2).0)

  module _ (walk : IsWalk) (calls : Calls) (replay_history : ℕ) (api2 : ApiClient) where
    with_run :
        (db : Result Database) (base : Database) (server : SsServer) (users : List Key)
        (run : Option (Ports × Option Error))
        → db ≡ ok base
        → new_replay_cache replay_history ≡ ok server.replay_cache
        → server.api ≡ (init calls api2).0
        → get_users (ok base) server.api.node_id ≡ returned users
        → do_run net make users (order users) [] ≡ run
        → Applied net make users (order users) [] run
        → IsStart calls db replay_history api2 (after_do_run server run)
    with_run db base server users run opens made api asked ran (bad_key e bad) = (
      users,
      [],
      e,
      ap₂ (λ d (a : ApiClient). get_users d a.node_id) opens (sym api) ∙ asked,
      ran,
      refl,
    )
    with_run db base server users run opens made api asked ran (bad_socket wanted e loaded bad) = (
      users,
      _,
      e,
      ap₂ (λ d (a : ApiClient). get_users d a.node_id) opens (sym api) ∙ asked,
      ran,
      refl,
    )
    with_run db base server users run opens made api asked ran
          (applied wanted served loaded fine same lists) =
        let (rows1, answered, ends, joined) =
          (get_users-Joined base server.api.node_id users).0 asked in
        (
          record {
            base = base;
            opens = opens;
            rows1 = rows1;
            answered = answered;
            users = users;
            joined = joined;
            lists = lists;
          },
          made,
          api,
        )

    with_users :
        (base : Database) (server : SsServer) (ended : Ended)
        → server.ports ≡ []
        → new_replay_cache replay_history ≡ ok server.replay_cache
        → server.api ≡ (init calls api2).0
        → get_users (ok base) server.api.node_id ≡ ended
        → IsStart calls (ok base) replay_history api2 (with_node server ended)
    with_users base server (fatal e) fresh made api asked =
        ap (λ (a : ApiClient). get_users (ok base) a.node_id) (sym api) ∙ asked
    with_users base server (returned users) fresh made api asked =
        subst
          (λ p.
            IsStart calls (ok base) replay_history api2
              (after_do_run server (do_run net make users (order users) p)))
          (sym fresh)
          (with_run (ok base) base server users _ refl made api asked refl
            (do_run_lem net make users (order users) [] (none_served users) (walk users)))

    with_db :
        (db : Result Database) (nat_timeout : ℕ) (cache : ReplayCache)
        → new_replay_cache replay_history ≡ ok cache
        → IsStart calls db replay_history api2 (with_cache calls db nat_timeout api2 (ok cache))
    unfolding get_users
    with_db (err e) nat_timeout cache made = refl
    with_db (ok base) nat_timeout cache made = with_users base _ _ refl made refl refl

    -- RunSSServer, where the walk of doRun meets the ports of all users, does not panic in doRun. It panics only
    -- where NewReplayCache does, exits only where GetUsers does, and fails only with an error of doRun.
    -- Else it runs: the database has opened and answered for the node that Init has settled, each
    -- port's list holds the entries of the users that the database gives for that node and that port,
    -- in their order, and the replay cache is empty and of the capacity asked for, which is allowed.
    pub run_ss_server-Serves :
        (db : Result Database) (nat_timeout : ℕ)
        → IsStart calls db replay_history api2
            (run_ss_server calls db nat_timeout replay_history api2)
    unfolding run_ss_server
    run_ss_server-Serves db nat_timeout = elim (Result-cases (new_replay_cache replay_history)) [
      | inr (e, refused) ↦
          subst (λ r. IsStart calls db replay_history api2 (with_cache calls db nat_timeout api2 r))
            (sym refused) refused
      | inl (cache, made) ↦
          subst (λ r. IsStart calls db replay_history api2 (with_cache calls db nat_timeout api2 r))
            (sym made) (with_db db nat_timeout cache made)
    ]
