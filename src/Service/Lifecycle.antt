-- ===== src/Service/Lifecycle.antt =====
-- service/tcp.go, the life of tcpService: Serve with its accept loop, Stop and GracefulStop, as steps
-- of threads that interleave. A step is what happens under the mutex, or between two waits; a
-- listener is a number.
pub mod Drained
use ssgo.Prelude.{
  ℕ, ◌+◌, ◌-◌, ◌<◌, ◌≡◌, Bool, true, false, ◌&&◌, ◌||◌, not, List, [], ◌∷◌, Option, none, some,
  ◌==◌, if◌then◌else◌,
}
use ssgo.Service.Replay.{contains}

-- `serving` says that the accept loop runs, `connections` counts the handlers, `running` is the wait
-- group. `handed` lists the listeners that Serve was called with, `closed` those that were closed.
pub record TcpService : Type 0 where
  pub listener : Option ℕ
  pub stopped : Bool
  pub serving : Bool
  pub connections : ℕ
  pub running : ℕ
  pub handed : List ℕ
  pub closed : List ℕ

unfoldable pub new_tcp_service : TcpService
new_tcp_service = record {
  listener = none;
  stopped = false;
  serving = false;
  connections = 0;
  running = 0;
  handed = [];
  closed = [];
}

abbrev pub is_set : Option ℕ → Bool
is_set none = false
is_set (some l) = true

-- Serve up to its loop: a second call, or a call after Stop, only closes its listener.
unfoldable pub serve : ℕ → TcpService → TcpService
serve l s =
    if is_set s.listener || s.stopped
    then record s { handed = l ∷ s.handed; closed = l ∷ s.closed }
    else record s {
      listener = some l;
      serving = true;
      running = s.running + 1;
      handed = l ∷ s.handed;
    }

-- AcceptTCP returned a connection, and its handler starts.
unfoldable pub accepted : TcpService → TcpService
accepted s = record s { connections = s.connections + 1; running = s.running + 1 }

-- AcceptTCP failed: the loop goes on unless the service was stopped.
unfoldable pub accept_failed : TcpService → TcpService
accept_failed s = if s.stopped then record s { serving = false; running = s.running - 1 } else s

-- A handler returns.
unfoldable pub connection_done : TcpService → TcpService
connection_done s = record s { connections = s.connections - 1; running = s.running - 1 }

abbrev pub close_listener : Option ℕ → List ℕ → List ℕ
close_listener none closed = closed
close_listener (some l) closed = l ∷ closed

unfoldable pub stop : TcpService → TcpService
stop s = record s { stopped = true; closed = close_listener s.listener s.closed }

-- A closed listener accepts nothing more.
abbrev pub accepts : TcpService → Bool
accepts s = elim s.listener [ none ↦ false | some l ↦ not (contains l s.closed) ]

-- What may happen next.
pub data Step : TcpService → TcpService → Type 0 where
  call_serve : (s : TcpService) (l : ℕ) → contains l s.closed ≡ false → Step s (serve l s)
  accept : (s : TcpService) → s.serving ≡ true → accepts s ≡ true → Step s (accepted s)
  fail : (s : TcpService) → s.serving ≡ true → Step s (accept_failed s)
  finish : (s : TcpService) → 0 < s.connections → Step s (connection_done s)
  call_stop : (s : TcpService) → Step s (stop s)

pub data Steps (s : TcpService) : TcpService → Type 0 where
  here : Steps s s
  next : {t u : TcpService} → Steps s t → Step t u → Steps s u

-- GracefulStop returns when the wait group is empty.
abbrev pub IsDrained : TcpService → Type 0
IsDrained s = (s.serving ≡ false) × (s.connections ≡ 0) × (s.running ≡ 0)
