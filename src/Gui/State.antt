-- ===== src/Gui/State.antt =====
-- python/watcher_gui.py, `WatcherGui`: its state, and the settings in it. A message box or a text of a
-- widget is its key in the catalog. What else a call is told is in `Machine`.
use scmdb_log_watcher_es.Base.{
  ℕ, Bool, true, false, Option, none, some, List, [], ◌∷◌, if◌then◌else◌,
}
use scmdb_log_watcher_es.Text.{Text, codes, text_eq, contains, strip, lower, upper}
use scmdb_log_watcher_es.Dict.{lookup, insert, erase}
use scmdb_log_watcher_es.Config.Language.{normalize_language}
use scmdb_log_watcher_es.Config.Paths.{
  FilePath, name, parent, child, Value, text, other, Config, Files, tracked_channel, game_log,
  resolve_log_path_from_config,
}
use scmdb_log_watcher_es.Config.Settings.{
  spanish, str_or, truth, SettingsSaveResult, build_settings_save_result,
}
use scmdb_log_watcher_es.Gui.Status.{Shown}

-- The machine: pathlib, `int` of a string, `str` of a number, the files, the program's own directory
-- and process, and whether it is frozen.
pub record Machine : Type 0 where
  pub path_of : Text → FilePath
  pub text_of : FilePath → Text
  pub int_of : Text → Option Text
  pub digits : ℕ → Text
  pub files : Files
  pub script_dir : FilePath
  pub frozen : Bool
  pub pid : ℕ

pub record Gui : Type 0 where
  pub config_data : Config
  -- The file of the configuration.
  pub stored : Config
  pub language : Text
  -- `proc`: none, or whether it runs.
  pub proc : Option Bool
  pub watcher_start_time : Option ℕ
  pub exiting : Bool
  pub tray_available : Bool
  pub close_hint_shown : Bool
  pub settings_open : Bool
  -- The widgets.
  pub game_dir : Text
  pub combo_language : Text
  pub status : Shown
  pub color : Text
  pub start_enabled : Bool
  pub stop_enabled : Bool
  pub import_enabled : Bool
  pub visible : Bool
  -- The calls of `_poll_status` that the timer still has to make, and the imports under way.
  pub polls : ℕ
  pub imports : ℕ
  -- The message boxes shown, and the commands of the watchers launched, the last one first.
  pub messages : List Text
  pub launched : List (List Text)

abbrev pub show_message : Text → Gui → Gui
show_message key g = record g { messages = key ∷ g.messages }

abbrev pub flag : Bool → Value
flag true = other (codes "True") true (some (codes "1"))
flag false = other (codes "False") false (some (codes "0"))

-- `_save_config`
unfoldable pub save_config : Gui → Gui
save_config g =
    let config =
      insert (codes "auto_start_with_sc") (flag false)
        (insert (codes "language") (text g.language) g.config_data) in
    record g { config_data = config; stored = config }

-- `_close_action`
unfoldable pub close_action : Gui → Text
close_action g =
    let action =
      lower (strip (str_or (codes "tray") (lookup (codes "close_action") g.config_data))) in
    if contains (codes "tray" ∷ codes "exit" ∷ []) action then action else codes "tray"

-- `_apply_config_to_inputs`
unfoldable pub apply_config_to_inputs : Gui → Gui
apply_config_to_inputs g = record g {
  game_dir = strip (str_or [] (lookup (codes "game_install_dir") g.config_data));
  combo_language =
      normalize_language (str_or g.language (lookup (codes "language") g.config_data)) spanish;
}

-- What `_save_inline_config` writes into the configuration.
abbrev pub inline_config : SettingsSaveResult → Config → Config
inline_config result config = erase (codes "log_path") (
    insert (codes "language") (text result.language) (
      insert (codes "channel") (text tracked_channel)
        (insert (codes "game_install_dir") (text result.game_dir) config)))

module _ (m : Machine) where
  -- `_configured_log_path`
  unfoldable pub configured_log_path : Gui → FilePath
  unfolding name parent
  configured_log_path g = elim (resolve_log_path_from_config m.path_of g.config_data) [
    | some resolved ↦ resolved
    | none ↦
        let base =
          m.path_of (strip (str_or [] (lookup (codes "game_install_dir") g.config_data))) in
        if text_eq (upper (name base)) (codes "HOTFIX")
        then child (child (parent base) tracked_channel) game_log
        else if text_eq (upper (name base)) tracked_channel
        then child base game_log
        else child (child base tracked_channel) game_log
  ]

  -- The settings of the window, as they would be saved.
  unfoldable pub inline_result : Gui → SettingsSaveResult
  inline_result g =
      build_settings_save_result m.path_of m.text_of (strip g.game_dir) tracked_channel
        (normalize_language g.combo_language spanish) false
        (truth (lookup (codes "run_startup_tests") g.config_data))

  -- `_save_inline_config`, by `result.ok`.
  unfoldable pub take_result : Bool → SettingsSaveResult → Gui → Bool × Gui
  unfolding save_config apply_config_to_inputs
  take_result false result g = (false, show_message (codes "missing_cfg_msg") g)
  take_result true result g = (
    true,
    apply_config_to_inputs (
        save_config (record g {
          language = result.language;
          config_data = inline_config result g.config_data;
        })),
  )

  unfoldable pub save_inline_config : Gui → Bool × Gui
  unfolding inline_result take_result
  save_inline_config g = let result = inline_result g in take_result result.ok result g

-- `_reload_inline_config`
unfoldable pub reload_inline_config : Gui → Gui
unfolding apply_config_to_inputs
reload_inline_config g =
    let language =
      normalize_language (str_or spanish (lookup (codes "language") g.stored)) spanish in
    apply_config_to_inputs (record g { config_data = g.stored; language = language })
