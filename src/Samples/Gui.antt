-- ===== src/Samples/Gui.antt =====
-- The window at concrete inputs.
use scmdb_log_watcher_es.Base.{◌*◌, ◌≡◌, refl, true, none, some, []}
use scmdb_log_watcher_es.Text.{codes, text_eq, strip, split, upper}
use scmdb_log_watcher_es.Dict.{lookup, insert, erase}
use scmdb_log_watcher_es.Config.Paths.{name, parent}
use scmdb_log_watcher_es.Config.Settings.{build_settings_save_result, validate_game_install_dir}
use scmdb_log_watcher_es.Gui.Command.{
  port_of, resolve_start_command, resolve_watcher_launch_command,
}
use scmdb_log_watcher_es.Gui.State.{
  Machine, Gui, save_inline_config, take_result, inline_result, save_config, apply_config_to_inputs,
}
use scmdb_log_watcher_es.Gui.Watch.{
  Answers, start_watcher, start_saved, start_process, launch, set_status, toggle_buttons,
  poll_status,
}
use scmdb_log_watcher_es.Domain.State.{second}
use scmdb_log_watcher_es.Gui.Valid.{IsValid}
use scmdb_log_watcher_es.Gui.Session.{
  new_window, init_gui, here, next, quits, clicks_start, clicks_save, Session-IsValid,
}
use scmdb_log_watcher_es.Gui.OneWatcher.{OneWatcher}
use scmdb_log_watcher_es.Gui.OneWatcher.Steps.{Step-OneWatcher}
use scmdb_log_watcher_es.Gui.Poll.{Polled, poll_status-Polled}
use scmdb_log_watcher_es.Gui.Close.{quit_application, ensure_configured_on_first_run, open_settings}
use scmdb_log_watcher_es.Samples.Config.{path_of, text_of, all_files, form}

abbrev machine : Machine
machine = record {
  path_of = path_of;
  text_of = text_of;
  int_of = λ t. some t;
  digits = λ n. codes "4242";
  files = all_files;
  script_dir = path_of (codes "C:\\watcher");
  frozen = true;
  pid = 4242;
}

abbrev window : Gui
window = record (new_window [] true) {
  game_dir = form;
  proc = some true;
  watcher_start_time = some (5 * second);
}

abbrev answers : Answers
answers = record { now = 20 * second; creates = true; ping = some (codes "ok", codes "0.1.2") }

-- The settings are filled in, and no watcher runs.
abbrev stopped_window : Gui
stopped_window = record window { proc = none; watcher_start_time = none }

launches_one : (start_watcher machine answers stopped_window).proc ≡ some true
unfolding start_watcher start_saved start_process launch set_status toggle_buttons
    save_inline_config take_result inline_result save_config apply_config_to_inputs
    build_settings_save_result lookup insert erase text_eq name parent strip split upper
    validate_game_install_dir resolve_start_command resolve_watcher_launch_command port_of
launches_one = refl

Session-IsValid_example :
    IsValid (quit_application (save_inline_config machine (init_gui machine [] true)).1)
unfolding init_gui ensure_configured_on_first_run apply_config_to_inputs open_settings strip text_eq
    lookup
Session-IsValid_example =
    let first = init_gui machine [] true in
    Session-IsValid machine [] true
      (next (next here (clicks_save first refl)) (quits (save_inline_config machine first).1))

Step-OneWatcher_example : OneWatcher stopped_window (start_watcher machine answers stopped_window)
Step-OneWatcher_example = Step-OneWatcher machine (clicks_start answers stopped_window refl refl)

poll_status-Polled_example : Polled machine answers window (poll_status machine answers window)
poll_status-Polled_example = poll_status-Polled machine answers window
