-- ===== src/Runtime/Live.antt =====
-- `run_live` of python/watcher.py, and python/scmdb_watcher/live_runtime_service.py: the threads and
-- the server of a live watcher from their start to their end. The parts of werkzeug and of the system
-- answer as data.
pub mod Closing
pub mod Watched
use scmdb_log_watcher_es.Base.{
  ℕ, Bool, true, false, Option, none, some, List, [], ◌∷◌, if◌then◌else◌,
}
use scmdb_log_watcher_es.Text.{Text}
use scmdb_log_watcher_es.Runtime.Entry.{LiveArgs, and_then}
use scmdb_log_watcher_es.Runtime.Origins.{build_allowed_origins, prod_origins, dev_origins_default}
use scmdb_log_watcher_es.Runtime.Ports.{
  Made, Bound, server, raised, all_in_use, create_server_with_fallback,
}
use scmdb_log_watcher_es.Runtime.Watchdog.{
  Tick, Worker, watching, ended, requested_shutdown, worker, start_parent_watchdog,
}

pub data Signal : Type 0 where
  sigint : Signal
  sigterm : Signal
  sigbreak : Signal

-- What a signal's registration meets: the system has no such signal, `signal.signal` raises, or the
-- handler is in place.
pub data Registration : Type 0 where
  absent : Registration
  refused : Registration
  installed : Registration

-- The watcher's process. The stop event of the watchdog is set or not, if there is a watchdog.
pub record Live : Type 0 where
  pub allowed : List Text
  pub tail_started : Bool
  -- `tailer._stop`
  pub tail_stopped : Bool
  -- The port of the server that is open.
  pub bound_port : Option ℕ
  pub parent_pid : Option ℕ
  pub parent_watchdog : Option Worker
  pub watchdog_stopped : Bool
  -- `server.shutdown` has been called.
  pub shutdown : Bool

-- Before the runtime is started.
abbrev pub before_start : List Text → Live
before_start allowed = record {
  allowed = allowed;
  tail_started = false;
  tail_stopped = false;
  bound_port = none;
  parent_pid = none;
  parent_watchdog = none;
  watchdog_stopped = false;
  shutdown = false;
}

-- The port of the server, if one could be made; otherwise an `OSError` is raised.
abbrev pub port_made : Bound → Option ℕ
port_made (server port) = some port
port_made (raised port) = none
port_made all_in_use = none

-- `start_live_runtime`: the tail thread runs before the server is made.
unfoldable pub start_live_runtime : (ℕ → Made) → ℕ → Live → Live
start_live_runtime make requested_port p = record p {
  tail_started = true;
  bound_port = port_made (create_server_with_fallback make requested_port 1);
}

abbrev handler_of : Signal → Registration → List Signal → List Signal
handler_of sig installed rest = sig ∷ rest
handler_of sig _ rest = rest

-- `register_shutdown_signals`: the signals that ask for the shutdown from now on.
unfoldable pub register_shutdown_signals : (Signal → Registration) → List Signal
register_shutdown_signals answers =
    handler_of sigint (answers sigint)
      (handler_of sigterm (answers sigterm) (handler_of sigbreak (answers sigbreak) []))

unfoldable pub request_shutdown : Live → Live
request_shutdown p = record p { shutdown = true }

abbrev same_signal : Signal → Signal → Bool
same_signal sigint sigint = true
same_signal sigterm sigterm = true
same_signal sigbreak sigbreak = true
same_signal _ _ = false

abbrev pub is_handled : Signal → List Signal → Bool
is_handled sig [] = false
is_handled sig (s ∷ ss) = if same_signal s sig then true else is_handled sig ss

-- What happens while `serve_forever` runs: a signal arrives, the watchdog has a turn, the server's loop
-- looks whether it shall stop, or it raises an error.
pub data Happening : Type 0 where
  arrives : Signal → Happening
  ticks : Tick → Happening
  polls : Happening
  fails : Happening

-- How `serve_forever` ends: it returns, raises `KeyboardInterrupt` or another exception, or the
-- system ends the process.
pub data Ending : Type 0 where
  returned : Ending
  interrupted : Ending
  failed : Ending
  killed : Ending

-- Python raises `KeyboardInterrupt` at a SIGINT that no handler takes.
abbrev pub default_action : Signal → Ending
default_action sigint = interrupted
default_action _ = killed

-- A turn of the watchdog, if there is one that still watches.
abbrev pub after_turn : Worker → Live → Live
after_turn requested_shutdown p =
    request_shutdown (record p { parent_watchdog = some requested_shutdown })
after_turn w p = record p { parent_watchdog = some w }

abbrev pub watchdog_turn : Tick → Option ℕ → Option Worker → Live → Live
watchdog_turn t (some parent_pid) (some watching) p = after_turn (worker parent_pid (t ∷ [])) p
watchdog_turn t _ _ p = p

abbrev pub happen : List Signal → Happening → Live → Option Ending × Live
happen handled (arrives sig) p =
    if is_handled sig handled then (none, request_shutdown p) else (some (default_action sig), p)
happen handled (ticks t) p = (none, watchdog_turn t p.parent_pid p.parent_watchdog p)
happen handled polls p = (if p.shutdown then some returned else none, p)
happen handled fails p = (some failed, p)

abbrev pub go_on : Option Ending → Live → Option Ending × Live → Option Ending × Live
go_on none p rest = rest
go_on (some e) p rest = (some e, p)

-- `runtime.server.serve_forever()`, as far as the happenings go; `none` is that it still serves.
unfoldable pub serve_forever : List Signal → List Happening → Live → Option Ending × Live
unfolding request_shutdown worker
serve_forever handled [] p = (none, p)
serve_forever handled (h ∷ hs) p =
    let (ending, p') = happen handled h p in
    let rest = serve_forever handled hs p' in go_on ending p' rest

-- `stop_live_runtime`; the join of the tail thread waits at most two seconds.
unfoldable pub stop_live_runtime : Live → Live
stop_live_runtime p = record p { bound_port = none; tail_stopped = true }

abbrev is_watchdog : Option Worker → Bool
is_watchdog none = false
is_watchdog (some w) = true

-- `finally`
unfoldable pub clean_up : Live → Live
unfolding stop_live_runtime
clean_up p = stop_live_runtime (record p { watchdog_stopped = is_watchdog p.parent_watchdog })

-- What `run_live` comes to: an exit code, an exception, the end by the system, or it still serves.
pub data Exit : Type 0 where
  code : ℕ → Exit
  exception : Exit
  ended_by_system : Exit
  serving : Exit

unfoldable pub leave : Option Ending × Live → Exit × Live
unfolding clean_up request_shutdown
leave (none, p) = (serving, p)
leave (some returned, p) = (code 0, clean_up p)
leave (some interrupted, p) = (code 0, clean_up (request_shutdown p))
leave (some failed, p) = (exception, clean_up p)
leave (some killed, p) = (ended_by_system, p)

-- After the runtime is started.
abbrev pub attend : List Signal → List Happening → Live → Exit × Live
attend handled hs p = elim p.bound_port [
  | none ↦ (code 2, p)
  | some port ↦ leave (
      serve_forever handled hs
        (record p { parent_watchdog = start_parent_watchdog p.parent_pid [] }))
]

-- `run_live` of the parsed arguments; `int` is the number that an argument stands for, 0 for a
-- negative one.
unfoldable pub run_live :
    (Text → ℕ) → (ℕ → Made) → (Signal → Registration) → List Happening → LiveArgs → Exit × Live
unfolding start_live_runtime register_shutdown_signals leave
run_live int make answers hs args = attend (register_shutdown_signals answers) hs (
    start_live_runtime make (int args.port)
      (record (before_start
        (build_allowed_origins prod_origins dev_origins_default args.dev args.dev_origins)) {
          parent_pid = and_then args.parent_pid (λ t. some (int t));
        }))
