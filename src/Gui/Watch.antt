-- ===== src/Gui/Watch.antt =====
-- python/watcher_gui.py: starting, stopping and watching the process of the watcher, closing the
-- window, and the import.
use scmdb_log_watcher_es.Base.{
  ℕ, ◌+◌, ◌*◌, ◌-◌, Bool, true, false, not, ◌&&◌, Option, none, some, List, [], ◌∷◌, ltb,
  if◌then◌else◌,
}
use scmdb_log_watcher_es.Text.{Text, codes, text_eq, strip}
use scmdb_log_watcher_es.Dict.{lookup}
use scmdb_log_watcher_es.Config.Settings.{str_or}
use scmdb_log_watcher_es.Domain.State.{second}
use scmdb_log_watcher_es.Gui.Command.{
  Command, command, lacking, resolve_watcher_launch_command, resolve_start_command, port_of,
  ping_ok,
}
use scmdb_log_watcher_es.Gui.Status.{
  PollDecision, decide_poll_status, Shown, plain, build_status_text, orange, red,
}
use scmdb_log_watcher_es.Gui.State.{
  Machine, Gui, show_message, configured_log_path, save_inline_config,
}

-- `DEFAULT_PORT`
abbrev pub default_port : Text
default_port = codes "23456"

-- `self.proc is not None and self.proc.poll() is None`
abbrev pub is_running : Option Bool → Bool
is_running none = false
is_running (some runs) = runs

unfoldable pub set_status : Shown → Text → Gui → Gui
set_status status color g = record g { status = status; color = color }

unfoldable pub toggle_buttons : Bool → Gui → Gui
toggle_buttons running g = record g { start_enabled = not running; stop_enabled = running }

abbrev pub stopped : Gui → Gui
stopped g = toggle_buttons false (set_status (plain (codes "status_stopped")) red g)

-- `stop_watcher`, by whether the process runs: `terminate_watcher_process` ends it, with a kill after
-- three seconds.
unfoldable pub stop_running : Bool → Gui → Gui
unfolding set_status toggle_buttons
stop_running false g = stopped g
stop_running true g = stopped (record g { proc = some false; watcher_start_time = none })

unfoldable pub stop_watcher : Gui → Gui
unfolding stop_running
stop_watcher g = stop_running (is_running g.proc) g

-- The watcher is launched.
unfoldable pub launch : List Text → ℕ → Gui → Gui
unfolding set_status toggle_buttons
launch cmd now g = toggle_buttons true (
    set_status (plain (codes "status_starting")) orange
      (record g { proc = some true; watcher_start_time = some now; launched = cmd ∷ g.launched }))

-- What the monotonic clock says, in steps of 2^-22 s as elsewhere, whether the process can be created, and what `/ping` answers.
pub record Answers : Type 0 where
  pub now : ℕ
  pub creates : Bool
  pub ping : Option (Text × Text)

module _ (m : Machine) where
  abbrev pub watcher_command : Gui → Option Command
  watcher_command g =
      resolve_start_command m.int_of m.digits
        (resolve_watcher_launch_command m.text_of m.files m.script_dir m.frozen) default_port
        g.config_data (m.text_of (configured_log_path m g)) (some m.pid)

  abbrev pub runtime_message : Text
  runtime_message = if m.frozen then codes "missing_core_msg" else codes "missing_env_msg"

  -- `start_watcher` from the resolved command on, and whether the process can be created. Where the
  -- port is no number, or the process cannot be created, the exception leaves the window as it is.
  unfoldable pub start_process : Option Command → Bool → ℕ → Gui → Gui
  unfolding launch
  start_process none creates now g = g
  start_process (some (lacking error)) creates now g = show_message runtime_message g
  start_process (some (command cmd)) false now g = g
  start_process (some (command cmd)) true now g = launch cmd now g

  abbrev pub install_dir : Gui → Text
  install_dir g = strip (str_or [] (lookup (codes "game_install_dir") g.config_data))

  -- `start_watcher` after the settings: whether they are saved, whether the process runs, and whether
  -- the install directory is missing.
  unfoldable pub start_saved : Answers → Bool → Bool → Bool → Gui → Gui
  unfolding start_process
  start_saved a false runs lacks g = g
  start_saved a true true lacks g = g
  start_saved a true false true g = show_message (codes "missing_cfg_msg") g
  start_saved a true false false g = start_process (watcher_command g) a.creates a.now g

  -- What `force_cleanup_orphan_watchers` stops is modelled in Orphans: the window's own watcher does
  -- not run then. Where it stops the window itself, as from the sources, nothing of this comes.
  unfoldable pub start_watcher : Answers → Gui → Gui
  unfolding start_saved save_inline_config
  start_watcher a g =
      let (ok, g') = save_inline_config m g in
      start_saved a ok (is_running g'.proc) (text_eq (install_dir g') []) g'

  abbrev pub in_grace : Option ℕ → ℕ → Bool
  in_grace none now = false
  in_grace (some started) now = ltb (now - started) (3 * second)

  -- Under the decision, `start_watcher` is the function just above.
  unfoldable pub apply_decision : Answers → Text → PollDecision → Gui → Gui
  unfolding start_watcher set_status toggle_buttons
  apply_decision a version d g =
      if d.should_start
      then toggle_buttons d.running (start_watcher a g)
      else toggle_buttons d.running (set_status (build_status_text d.status_key version) d.color g)

  -- `_poll_status` with the port known: whether the process runs, what the ping says, and whether the
  -- process is just starting.
  unfoldable pub poll_running : Answers → Bool → Bool × Text → Bool → Gui → Gui
  unfolding apply_decision
  poll_running a running (ok, version) grace g =
      if running && (not ok && grace)
      then toggle_buttons running (set_status (plain (codes "status_starting")) orange g)
      else apply_decision a version (decide_poll_status running ok false false) g

  abbrev pub forget_start : Bool → Gui → Gui
  forget_start true g = g
  forget_start false g = record g { watcher_start_time = none }

  abbrev pub poll_port : Option Text → Answers → Gui → Gui
  poll_port none a g = g
  poll_port (some port) a g =
      let running = is_running g.proc in
      poll_running a running (ping_ok a.ping) (in_grace g.watcher_start_time a.now)
        (forget_start running g)

  unfoldable pub poll_body : Answers → Gui → Gui
  unfolding poll_running port_of ping_ok
  poll_body a g =
      if g.settings_open
      then toggle_buttons (is_running g.proc) g
      else poll_port (port_of m.int_of default_port g.config_data) a g

  -- `_poll_status`, called by the timer; `finally` sets the timer again.
  unfoldable pub poll_status : Answers → Gui → Gui
  unfolding poll_body
  poll_status a g =
      let g' = poll_body a g in
      record g' { polls = if g'.exiting then g'.polls - 1 else g'.polls - 1 + 1 }
