-- ===== src/Config/Settings.antt =====
-- python/scmdb_watcher/gui_settings.py, and `validate_game_install_dir` and `build_log_path` of
-- python/scmdb_watcher/validators.py.
pub mod Live
use scmdb_log_watcher_es.Base.{Bool, true, false, Option, none, some, List, [], ◌∷◌, if◌then◌else◌}
use scmdb_log_watcher_es.Text.{Text, codes, text_eq, contains, strip, upper}
use scmdb_log_watcher_es.Dict.{lookup}
use scmdb_log_watcher_es.Config.Language.{valid_channels, normalize_language}
use scmdb_log_watcher_es.Config.Paths.{
  FilePath, name, parent, child, Value, text, other, Config, tracked_channel, game_log,
}

abbrev pub spanish : Text
spanish = codes "es-es"

-- `str(config.get(key, default))`
abbrev pub str_or : Text → Option Value → Text
str_or default none = default
str_or default (some (text t)) = t
str_or default (some (other s b n)) = s

-- `bool(value)`, where a missing value is false.
abbrev pub truth : Option Value → Bool
truth none = false
truth (some (text [])) = false
truth (some (text (c ∷ s))) = true
truth (some (other s b n)) = b

pub record SettingsDefaults : Type 0 where
  pub game_dir : Text
  pub channel : Text
  pub language : Text
  pub auto_start : Bool
  pub run_startup_tests : Bool

unfoldable pub build_settings_defaults : Config → Text → Bool → SettingsDefaults
build_settings_defaults config_data current_language auto_start = record {
  game_dir = str_or [] (lookup (codes "game_install_dir") config_data);
  channel = tracked_channel;
  language = normalize_language current_language spanish;
  auto_start = auto_start;
  run_startup_tests = truth (lookup (codes "run_startup_tests") config_data);
}

pub record SettingsSaveResult : Type 0 where
  pub ok : Bool
  pub error_key : Text
  pub game_dir : Text
  pub channel : Text
  pub language : Text
  pub auto_start : Bool
  pub run_startup_tests : Bool
  pub log_path : Text

abbrev pub missing_cfg : SettingsSaveResult
missing_cfg = record {
  ok = false;
  error_key = codes "missing_cfg";
  game_dir = [];
  channel = [];
  language = [];
  auto_start = false;
  run_startup_tests = false;
  log_path = [];
}

unfoldable pub validate_game_install_dir : Text → Bool × Text
validate_game_install_dir game_dir = elim (strip game_dir) [
  | [] ↦ (false, codes "missing")
  | c ∷ s ↦ (true, c ∷ s)
]

abbrev pub is_hotfix : FilePath → Bool
is_hotfix p = text_eq (upper (name p)) (codes "HOTFIX")

-- `Path(text)` and `str(path)`.
module _ (path_of : Text → FilePath) (text_of : FilePath → Text) where
  unfoldable pub build_log_path : Text → Text → Text
  unfolding name
  build_log_path game_dir channel =
      let base_dir = path_of game_dir in
      if contains valid_channels (upper (name base_dir))
      then text_of (child base_dir game_log)
      else text_of (child (child base_dir channel) game_log)

  -- The directory above one that is named HOTFIX.
  unfoldable pub tracked_dir : Text → Text
  unfolding name parent
  tracked_dir game_dir =
      let game_dir_path = path_of game_dir in
      if is_hotfix game_dir_path then text_of (parent game_dir_path) else game_dir

  abbrev pub saved : Text → Text → Bool → Bool → SettingsSaveResult
  saved game_dir language auto_start run_startup_tests = record {
    ok = true;
    error_key = [];
    game_dir = game_dir;
    channel = tracked_channel;
    language = language;
    auto_start = auto_start;
    run_startup_tests = run_startup_tests;
    log_path = build_log_path game_dir tracked_channel;
  }

  -- `channel_raw` is not used.
  unfoldable pub build_settings_save_result : Text → Text → Text → Bool → Bool → SettingsSaveResult
  unfolding validate_game_install_dir tracked_dir
  build_settings_save_result game_dir_raw channel_raw language_raw auto_start run_startup_tests =
      let (valid, game_dir) = validate_game_install_dir game_dir_raw in
      if valid
      then saved (tracked_dir game_dir) (normalize_language language_raw spanish) auto_start
          run_startup_tests
      else missing_cfg
