-- ===== src/Gui/Session.antt =====
-- What may happen to the window, in any order: clicks, timers, ends of processes and of imports.
use scmdb_log_watcher_es.Base.{
  ◌≤◌, ◌≡◌, refl, Bool, true, false, Option, none, some, [], arith, Bool-cases, if_both, inl, inr,
}
use scmdb_log_watcher_es.Text.{Text, codes, text_eq}
use scmdb_log_watcher_es.Dict.{lookup}
use scmdb_log_watcher_es.Config.Language.{normalize_language}
use scmdb_log_watcher_es.Config.Paths.{Config}
use scmdb_log_watcher_es.Config.Settings.{spanish, str_or}
use scmdb_log_watcher_es.Gui.Command.{Completed}
use scmdb_log_watcher_es.Gui.Status.{plain, red}
use scmdb_log_watcher_es.Gui.State.{
  Machine, Gui, show_message, apply_config_to_inputs, reload_inline_config, save_inline_config,
}
use scmdb_log_watcher_es.Gui.Watch.{Answers, install_dir, stop_watcher, start_watcher, poll_status}
use scmdb_log_watcher_es.Gui.Close.{
  hide_to_tray, show_from_tray, quit_application, on_close, open_settings, save_settings,
  close_settings, run_import, import_done, ensure_configured_on_first_run,
}
use scmdb_log_watcher_es.Gui.Valid.{IsValid, Same-IsValid, stop_watcher-IsValid}
use scmdb_log_watcher_es.Gui.Valid.Watch.{
  save_inline_config-Same, start_watcher-IsValid, poll_status-IsValid,
}
use scmdb_log_watcher_es.Gui.Valid.Close.{
  run_import-IsValid, import_done-IsValid, quit_application-IsValid, on_close-IsValid,
  hide_to_tray-IsValid,
}

abbrev pub new_window : Config → Bool → Gui
new_window stored tray_available = record {
  config_data = stored;
  stored = stored;
  language = normalize_language (str_or spanish (lookup (codes "language") stored)) spanish;
  proc = none;
  watcher_start_time = none;
  exiting = false;
  tray_available = tray_available;
  close_hint_shown = false;
  settings_open = false;
  game_dir = [];
  combo_language = [];
  status = plain (codes "status_stopped");
  color = red;
  start_enabled = true;
  stop_enabled = true;
  import_enabled = true;
  visible = true;
  polls = 1;
  imports = 0;
  messages = [];
  launched = [];
}

module _ (m : Machine) where
  -- `__init__`, and `show` of `main`.
  unfoldable pub init_gui : Config → Bool → Gui
  unfolding apply_config_to_inputs ensure_configured_on_first_run
  init_gui stored tray_available =
      ensure_configured_on_first_run m (apply_config_to_inputs (new_window stored tray_available))

  pub data Step : Gui → Gui → Type 0 where
    clicks_start :
        (a : Answers) (g : Gui)
        → g.start_enabled ≡ true
        → g.visible ≡ true
        → Step g (start_watcher m a g)
    disconnects : (g : Gui) → Step g (stop_watcher g)
    process_ends : (g : Gui) → g.proc ≡ some true → Step g (record g { proc = some false })
    timer_fires : (a : Answers) (g : Gui) → 1 ≤ g.polls → Step g (poll_status m a g)
    fills_in :
        (g : Gui) (game_dir language : Text)
        → Step g (record g { game_dir = game_dir; combo_language = language })
    reloads : (g : Gui) → Step g (reload_inline_config g)
    clicks_save : (g : Gui) → g.visible ≡ true → Step g (save_inline_config m g).1
    clicks_tray : (g : Gui) → g.visible ≡ true → Step g (hide_to_tray g)
    clicks_import : (g : Gui) → g.import_enabled ≡ true → Step g (run_import m g)
    import_ends :
        (completed : Option Completed) (output_path : Text) (g : Gui)
        → 1 ≤ g.imports
        → Step g (import_done m completed output_path g)
    opens_settings : (g : Gui) → Step g (open_settings g)
    saves_settings : (action : Text) (g : Gui) → Step g (save_settings action g)
    cancels_settings : (g : Gui) → Step g (close_settings g)
    closes : (g : Gui) → Step g (on_close g).1
    shows : (g : Gui) → g.exiting ≡ false → Step g (show_from_tray g)
    quits : (g : Gui) → Step g (quit_application g)

  pub data Session (g : Gui) : Gui → Type 0 where
    here : Session g g
    next : {h k : Gui} → Session g h → Step h k → Session g k

  ended-IsValid : (g : Gui) → IsValid g → IsValid (record g { proc = some false })
  ended-IsValid g v = record {
    buttons = v.buttons;
    one_poll = v.one_poll;
    few_polls = v.few_polls;
    one_import = v.one_import;
    ended = λ e. refl;
    gone = v.gone;
  }

  shown-IsValid : (g : Gui) → g.exiting ≡ false → IsValid g → IsValid (show_from_tray g)
  unfolding show_from_tray
  shown-IsValid g h v = record {
    buttons = v.buttons;
    one_poll = v.one_poll;
    few_polls = v.few_polls;
    one_import = v.one_import;
    ended = v.ended;
    gone = λ e. absurd (ground (arith, e, h));
  }

  not_exiting : (g : Gui) → IsValid g → g.visible ≡ true → g.exiting ≡ false
  not_exiting g v h = elim (Bool-cases g.exiting) [
    | inl y ↦ ground (arith, v.gone y, h)
    | inr n ↦ n
  ]

  Step-IsValid : {g h : Gui} → Step g h → IsValid g → IsValid h
  unfolding reload_inline_config apply_config_to_inputs open_settings save_settings close_settings
  Step-IsValid (clicks_start a g e s) v = start_watcher-IsValid m a g (not_exiting g v s) v
  Step-IsValid (disconnects g) v = stop_watcher-IsValid g v
  Step-IsValid (process_ends g e) v = ended-IsValid g v
  Step-IsValid (timer_fires a g p) v = poll_status-IsValid m a g v
  Step-IsValid (fills_in g d l) v = v
  Step-IsValid (reloads g) v = v
  Step-IsValid (clicks_save g s) v =
      Same-IsValid g (save_inline_config m g).1 (save_inline_config-Same m g) v
  Step-IsValid (clicks_tray g s) v = hide_to_tray-IsValid g v
  Step-IsValid (clicks_import g e) v = run_import-IsValid m g e v
  Step-IsValid (import_ends c o g p) v = import_done-IsValid m c o g v
  Step-IsValid (opens_settings g) v = v
  Step-IsValid (saves_settings action g) v = v
  Step-IsValid (cancels_settings g) v = v
  Step-IsValid (closes g) v = on_close-IsValid g v
  Step-IsValid (shows g e) v = shown-IsValid g e v
  Step-IsValid (quits g) v = quit_application-IsValid g v

  new-IsValid :
      (stored : Config) (tray_available : Bool) → IsValid (new_window stored tray_available)
  new-IsValid stored tray_available = record {
    buttons = refl;
    one_poll = λ e. refl;
    few_polls = omega arith;
    one_import = refl;
    ended = λ e. refl;
    gone = λ e. absurd (ground (arith, e));
  }

  init_gui-IsValid :
      (stored : Config) (tray_available : Bool) → IsValid (init_gui stored tray_available)
  unfolding init_gui
  init_gui-IsValid stored tray_available =
      let g = apply_config_to_inputs (new_window stored tray_available) in
      if_both IsValid (text_eq (install_dir m g) [])
        (open_settings (show_message (codes "first_run_msg") g)) g
        (new-IsValid stored tray_available) (new-IsValid stored tray_available)

  -- Whatever is done with the window from its start, in any order: never both buttons are disabled;
  -- until the exit exactly one call of the poll is due, and never more; the button of the import is
  -- disabled exactly while one import runs; and after the exit no watcher runs and the window is gone.
  pub Session-IsValid :
      (stored : Config) (tray_available : Bool) {g : Gui}
      → Session (init_gui stored tray_available) g
      → IsValid g
  Session-IsValid stored tray_available here = init_gui-IsValid stored tray_available
  Session-IsValid stored tray_available (next r s) =
      Step-IsValid s (Session-IsValid stored tray_available r)
