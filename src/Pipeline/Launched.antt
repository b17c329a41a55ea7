-- ===== src/Pipeline/Launched.antt =====
-- The window and the watcher it starts: the command of python/scmdb_watcher/gui_controller.py, the
-- arguments of python/watcher.py, and the life of `run_live`.
use scmdb_log_watcher_es.Base.{
  ℕ, ◌≡◌, refl, sym, subst, false, Option, some, List, [], ◌∷◌, ◌++◌, ◌==◌, All,
}
use scmdb_log_watcher_es.Text.{Text, codes}
use scmdb_log_watcher_es.Config.Paths.{Config}
use scmdb_log_watcher_es.Gui.Command.{command, port_of, resolve_start_command}
use scmdb_log_watcher_es.Runtime.Entry.{live, launcher_main, LiveArgs, value_of, parse_live_args}
use scmdb_log_watcher_es.Runtime.Entry.RoundTrip.{
  Plain, given, resolve_start_command-parse_live_args,
}
use scmdb_log_watcher_es.Runtime.Ports.{Made, made}
use scmdb_log_watcher_es.Runtime.Watchdog.{ParentGone}
use scmdb_log_watcher_es.Runtime.Live.{
  Registration, Signal, register_shutdown_signals, Happening, polls, code, run_live,
}
use scmdb_log_watcher_es.Runtime.Live.Watched.{turns, Calm, run_live-ParentGone}

-- The watcher that the window starts ends after the window: the command makes it a live watcher with
-- this log path, port and process to watch, and
-- once the process of the window is gone, and the watchdog sees that, it exits with 0 at the latest
-- when the server's loop looks the next time. Its port is free, the numbers and the path are read as
-- they are written, and nothing else ends it.
pub resolve_start_command-run_live :
    (int_of : Text → Option Text) (int : Text → ℕ) (digits : ℕ → Text) (exe : Text)
    (default_port : Text) (config : Config) (defaults : LiveArgs) (log_path port : Text) (pid : ℕ)
    → port_of int_of default_port config ≡ some port
    → (pid == 0) ≡ false
    → value_of log_path ≡ some log_path
    → Plain int_of port
    → Plain int_of (digits pid)
    → int (digits pid) ≡ pid
    → (make : ℕ → Made) (answers : Signal → Registration) (hs : List Happening)
    → make (int port) ≡ made
    → All (Calm (register_shutdown_signals answers)) hs
    → ParentGone pid (turns hs)
    → (rest : List Text) × (resolve_start_command int_of digits
          (command (exe ∷ codes "core" ∷ []))
          default_port
          config
          log_path
          (some pid)
        ≡ some (command (exe ∷ codes "core" ∷ rest)))
      × (launcher_main (codes "core" ∷ rest) ≡ live rest)
      × (parse_live_args int_of defaults rest ≡ some (given defaults log_path port (digits pid)))
      × ((run_live int make answers
            (hs ++ polls ∷ [])
            (given defaults log_path port (digits pid))).0
          ≡ code 0)
resolve_start_command-run_live int_of int digits exe default_port config defaults log_path port pid
      known up l p q reads make answers hs free calm gone =
    let (rest, command_is, started, parsed) =
      resolve_start_command-parse_live_args int_of digits exe default_port config defaults log_path
        port pid known up l p q in
    let args = given defaults log_path port (digits pid) in
    (
      rest,
      command_is,
      started,
      parsed,
      run_live-ParentGone int make answers hs args (digits pid) refl free calm
          (subst (λ n. ParentGone n (turns hs)) (sym reads) gone),
    )
