-- ===== src/Gui/Close.antt =====
-- python/watcher_gui.py: closing the window, the tray, the dialog of the settings, and the import.
use scmdb_log_watcher_es.Base.{
  ◌+◌, ◌-◌, Bool, true, false, ◌&&◌, Option, none, some, [], ◌∷◌, if◌then◌else◌,
}
use scmdb_log_watcher_es.Text.{Text, codes, text_eq}
use scmdb_log_watcher_es.Dict.{insert}
use scmdb_log_watcher_es.Config.Paths.{text}
use scmdb_log_watcher_es.Gui.Command.{
  Command, command, lacking, resolve_import_command, ImportExecutionResult, Completed,
  import_result,
}
use scmdb_log_watcher_es.Gui.State.{
  Machine, Gui, show_message, close_action, save_inline_config, save_config,
}
use scmdb_log_watcher_es.Gui.Watch.{stop_watcher, runtime_message, install_dir}

abbrev pub hidden : Gui → Gui
hidden g = record g { visible = false; close_hint_shown = true }

-- `_hide_to_tray`
unfoldable pub hide_to_tray : Gui → Gui
hide_to_tray g =
    if g.tray_available
    then (if g.close_hint_shown then hidden g else show_message (codes "tray_hint_msg") (hidden g))
    else show_message (codes "tray_unavailable_msg") g

-- `_show_from_tray`
unfoldable pub show_from_tray : Gui → Gui
show_from_tray g = record g { visible = true }

-- `_quit_application`: closing the window asks `on_close` again, which lets it go.
unfoldable pub quit_application : Gui → Gui
unfolding stop_watcher
quit_application g =
    if g.exiting then g else record (stop_watcher (record g { exiting = true })) { visible = false }

-- `on_close`: whether the window may close.
unfoldable pub on_close : Gui → Bool × Gui
unfolding close_action hide_to_tray quit_application
on_close g =
    if g.exiting
    then (true, g)
    else if text_eq (close_action g) (codes "tray") && g.tray_available
    then (false, hide_to_tray g)
    else (false, quit_application g)

-- `open_settings`
unfoldable pub open_settings : Gui → Gui
open_settings g = record g { settings_open = true }

-- `save_and_close` and `close_dialog` of the dialog.
unfoldable pub save_settings : Text → Gui → Gui
unfolding save_config
save_settings action g =
    record (save_config
      (record g { config_data = insert (codes "close_action") (text action) g.config_data })) {
        settings_open = false;
      }

unfoldable pub close_settings : Gui → Gui
close_settings g = record g { settings_open = false }

-- `_ensure_configured_on_first_run`
unfoldable pub ensure_configured_on_first_run : Machine → Gui → Gui
unfolding open_settings
ensure_configured_on_first_run m g =
    if text_eq (install_dir m g) []
    then open_settings (show_message (codes "first_run_msg") g)
    else g

-- `_handle_successful_import`
unfoldable pub handle_successful_import : Text → Gui → Gui
handle_successful_import [] g = show_message (codes "import_ok_msg") g
handle_successful_import (c ∷ s) g = show_message (codes "import_open_prompt") g

module _ (m : Machine) where
  -- `run_import`, until its worker runs; by whether the settings are saved.
  abbrev pub begin_import : Bool → Gui → Gui
  begin_import false g = g
  begin_import true g = record g { import_enabled = false; imports = g.imports + 1 }

  unfoldable pub run_import : Gui → Gui
  unfolding save_inline_config
  run_import g = let (ok, g') = save_inline_config m g in begin_import ok g'

  -- What the worker shows of a process that has ended.
  unfoldable pub show_result : ImportExecutionResult → Gui → Gui
  unfolding handle_successful_import
  show_result r g =
      if r.ok
      then handle_successful_import r.output_path g
      else show_message (codes "import_fail_msg") g

  -- What the worker shows in the end, by the command and the ended process: `none` in its place is an
  -- exception.
  unfoldable pub import_message : Command → Option Completed → Text → Gui → Gui
  unfolding show_result
  import_message (lacking error) completed output_path g = show_message (runtime_message m) g
  import_message (command base_cmd) none output_path g = show_message (codes "import_fail_msg") g
  import_message (command base_cmd) (some result) output_path g =
      show_result (import_result result (some output_path)) g

  -- The worker's end: every way out enables the button again.
  unfoldable pub import_done : Option Completed → Text → Gui → Gui
  unfolding import_message
  import_done completed output_path g =
      let base_cmd = resolve_import_command m.text_of m.files m.script_dir m.frozen in
      let g' = import_message base_cmd completed output_path g in
      record g' { import_enabled = true; imports = g'.imports - 1 }
