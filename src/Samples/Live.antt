-- ===== src/Samples/Live.antt =====
-- A live watcher whose parent goes.
use scmdb_log_watcher_es.Base.{
  if◌then◌else◌, ◌-◌, ℕ, ◌≡◌, refl, true, false, none, some, List, [], ◌∷◌, ◌++◌, ◌==◌, inl, inr,
}
use scmdb_log_watcher_es.Text.{Text, codes, text_eq, starts_with}
use scmdb_log_watcher_es.Dict.{lookup}
use scmdb_log_watcher_es.Gui.Command.{command, port_of, resolve_start_command}
use scmdb_log_watcher_es.Pipeline.Launched.{resolve_start_command-run_live}
use scmdb_log_watcher_es.Runtime.Entry.{live, launcher_main, LiveArgs, parse_live_args}
use scmdb_log_watcher_es.Runtime.Entry.RoundTrip.{given}
use scmdb_log_watcher_es.Runtime.Ports.{Made, made, os_error}
use scmdb_log_watcher_es.Runtime.Watchdog.{Tick, is_process_alive}
use scmdb_log_watcher_es.Runtime.Live.{
  Registration, Signal, sigbreak, absent, installed, Happening, ticks, polls, code, run_live,
}
use scmdb_log_watcher_es.Runtime.Live.Closing.{Meaning, run_live_lem}

-- The port 1 is free, and no other.
abbrev make : ℕ → Made
make port = if port == 1 then made else os_error (some 98) []

abbrev int : Text → ℕ
int [] = 0
int (c ∷ s) = c - 48

abbrev args : LiveArgs
args = record {
  port = codes "1";
  log_path = codes "Game.log";
  dev = false;
  dev_origins = [];
  verbose = false;
  parent_pid = some (codes "7");
}

abbrev answers : Signal → Registration
answers sigbreak = absent
answers sig = installed

abbrev parent_lives : Tick
parent_lives = record { stopped = false; finds = λ pid. true }

abbrev parent_gone : Tick
parent_gone = record { stopped = false; finds = λ pid. false }

abbrev while_serving : List Happening
while_serving = polls ∷ ticks parent_lives ∷ polls ∷ ticks parent_gone ∷ []

run_live_example : Meaning (make 1) 1 (run_live int make answers while_serving args)
run_live_example = run_live_lem int make answers while_serving args

abbrev defaults : LiveArgs
defaults = record args { port = codes "23456"; parent_pid = none }

-- The number of the window's process, and of the free port.
abbrev number : Text → ℕ
number t = if text_eq t (codes "77") then 77 else 1

resolve_start_command-run_live_example :
    (rest : List Text) × (resolve_start_command
        (λ t. some t)
        (λ n. codes "77")
        (command (codes "w.exe" ∷ codes "core" ∷ []))
        (codes "23456")
        []
        (codes "C:\\Game.log")
        (some 77)
      ≡ some (command (codes "w.exe" ∷ codes "core" ∷ rest)))
    × (launcher_main (codes "core" ∷ rest) ≡ live rest)
    × (parse_live_args (λ t. some t) defaults rest
        ≡ some (given defaults (codes "C:\\Game.log") (codes "23456") (codes "77")))
    × ((run_live number make answers
          (while_serving ++ polls ∷ [])
          (given defaults (codes "C:\\Game.log") (codes "23456") (codes "77"))).0
        ≡ code 0)
unfolding is_process_alive port_of lookup starts_with text_eq
resolve_start_command-run_live_example =
    resolve_start_command-run_live (λ t. some t) number (λ n. codes "77") (codes "w.exe")
      (codes "23456") [] defaults (codes "C:\\Game.log") (codes "23456") 77 refl refl refl
      (refl, refl) (refl, refl) refl make answers while_serving refl (tt, (tt, (tt, (tt, tt))))
      (inr ((refl, refl), inl (refl, refl)))
