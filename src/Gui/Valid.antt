-- ===== src/Gui/Valid.antt =====
-- What stays true of the window, whatever it is asked.
pub mod Watch
pub mod Close
use scmdb_log_watcher_es.Base.{
  ℕ, ◌+◌, ◌-◌, ◌≤◌, ◌≡◌, refl, sym, ap, ◌∙◌, subst, Bool, true, false, not, Option, none, some,
  List, [], ◌∷◌, ◌==◌, arith, Bool-cases, if_both, Option-cases, inl, inr, if◌then◌else◌, ◌&&◌,
  ◌||◌,
}
use scmdb_log_watcher_es.Text.{Text, codes, text_eq}
use scmdb_log_watcher_es.Config.Paths.{Config}
use scmdb_log_watcher_es.Config.Settings.{SettingsSaveResult}
use scmdb_log_watcher_es.Gui.Command.{
  Command, command, lacking, Completed, ImportExecutionResult, import_result,
  resolve_import_command, port_of, ping_ok,
}
use scmdb_log_watcher_es.Gui.Status.{
  Shown, build_status_text, decide_poll_status, PollDecision, plain, red,
}
use scmdb_log_watcher_es.Gui.State.{
  Machine, Gui, show_message, close_action, inline_result, take_result, save_config,
  apply_config_to_inputs, save_inline_config,
}
use scmdb_log_watcher_es.Gui.Watch.{
  is_running, set_status, toggle_buttons, stop_running, forget_start, start_saved, poll_running,
  poll_port, stop_watcher, launch, Answers, watcher_command, start_process, start_watcher,
  apply_decision, poll_body, poll_status, default_port, in_grace, install_dir,
}
use scmdb_log_watcher_es.Gui.Close.{
  hidden, hide_to_tray, begin_import, show_result, show_from_tray, quit_application, on_close,
  open_settings, save_settings, close_settings, run_import, import_message, import_done,
  handle_successful_import,
}

-- The part of the state that the invariant is about.
pub record Core : Type 0 where
  pub runs : Bool
  pub exiting : Bool
  pub visible : Bool
  pub polls : ℕ
  pub imports : ℕ
  pub start_enabled : Bool
  pub stop_enabled : Bool
  pub import_enabled : Bool

abbrev pub core : Gui → Core
core g = record {
  runs = is_running g.proc;
  exiting = g.exiting;
  visible = g.visible;
  polls = g.polls;
  imports = g.imports;
  start_enabled = g.start_enabled;
  stop_enabled = g.stop_enabled;
  import_enabled = g.import_enabled;
}

-- One of the two buttons is enabled at least; until the window exits one call of the poll is due, and
-- never more; the import's button is disabled exactly while an import runs; and after the exit no
-- watcher runs and the window is gone.
pub record IsValidCore (c : Core) : Type 0 where
  pub buttons : (c.start_enabled || c.stop_enabled) ≡ true
  pub one_poll : c.exiting ≡ false → c.polls ≡ 1
  pub few_polls : c.polls ≤ 1
  pub one_import : c.imports ≡ (if c.import_enabled then 0 else 1)
  pub ended : c.exiting ≡ true → c.runs ≡ false
  pub gone : c.exiting ≡ true → c.visible ≡ false

abbrev pub IsValid : Gui → Type 0
IsValid g = IsValidCore (core g)

-- Nothing of what the invariant speaks of differs.
abbrev pub Same : Gui → Gui → Type 0
Same g h = core g ≡ core h

pub Same-IsValid : (g h : Gui) → Same g h → IsValid g → IsValid h
Same-IsValid g h s v = subst IsValidCore s v

one_enabled : (b : Bool) → (not b || b) ≡ true
one_enabled true = refl
one_enabled false = refl

pub toggle_buttons-IsValid : (b : Bool) (g : Gui) → IsValid g → IsValid (toggle_buttons b g)
unfolding toggle_buttons
toggle_buttons-IsValid b g v = record {
  buttons = one_enabled b;
  one_poll = v.one_poll;
  few_polls = v.few_polls;
  one_import = v.one_import;
  ended = v.ended;
  gone = v.gone;
}

pub stop_running-IsValid : (runs : Bool) (g : Gui) → IsValid g → IsValid (stop_running runs g)
unfolding stop_running
stop_running-IsValid false g v =
    toggle_buttons-IsValid false (set_status (plain (codes "status_stopped")) red g) v
stop_running-IsValid true g v = record {
  buttons = refl;
  one_poll = v.one_poll;
  few_polls = v.few_polls;
  one_import = v.one_import;
  ended = λ e. refl;
  gone = v.gone;
}

pub stop_watcher-IsValid : (g : Gui) → IsValid g → IsValid (stop_watcher g)
unfolding stop_watcher
stop_watcher-IsValid g v = stop_running-IsValid (is_running g.proc) g v

pub runs-stop_running :
    (runs : Bool) (g : Gui)
    → is_running g.proc ≡ runs
    → is_running (stop_running runs g).proc ≡ false
unfolding stop_running
runs-stop_running false g e = e
runs-stop_running true g e = refl
