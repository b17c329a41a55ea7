-- ===== src/Samples/Config.antt =====
-- Languages, the search for the log, and the settings at concrete inputs.
use scmdb_log_watcher_es.Base.{◌≡◌, refl, Bool, true, false, some, List, [], ◌∷◌, ◌++◌}
use scmdb_log_watcher_es.Text.{Text, codes, text_eq, split, strip, upper, lower, replace}
use scmdb_log_watcher_es.Dict.{lookup}
use scmdb_log_watcher_es.Config.Language.{normalize_language, language_aliases}
use scmdb_log_watcher_es.Config.Paths.{
  FilePath, name, parent, Files, Config, text, unique_paths, base_dirs, or_fallback,
  resolve_log_path_from_config, resolve_default_log_path,
}
use scmdb_log_watcher_es.Config.Paths.Search.{
  first_that, or_else, candidates, has_dir, resolve_default_log_path_lem,
}
use scmdb_log_watcher_es.Config.Settings.{build_settings_save_result, validate_game_install_dir}
use scmdb_log_watcher_es.Config.Settings.Live.{
  IsLive, Above, build_settings_save_result-resolve_log_path_from_config,
}

normalize_language_zh : normalize_language (codes " ZH_Hans ") (codes "es-es") ≡ codes "zh-cn"
unfolding normalize_language strip lookup text_eq lower replace language_aliases
normalize_language_zh = refl

-- Paths with backslashes between the parts.
abbrev pub path_of : Text → FilePath
path_of t = record { anchor = []; parts = split b'\\' t }

abbrev joined : List Text → Text
joined [] = []
joined (part ∷ []) = part
joined (part ∷ next ∷ parts) = part ++ (b'\\' ∷ joined (next ∷ parts))

abbrev pub text_of : FilePath → Text
text_of p = joined p.parts

-- Every file is there.
abbrev pub all_files : Files
all_files = record { exists = λ p. true; is_file = λ p. true; is_dir = λ p. true }

abbrev same_name : FilePath → FilePath → Bool
same_name p q = text_eq (text_of p) (text_of q)

resolve_default_log_path_example :
    resolve_default_log_path path_of same_name all_files [] [] false (path_of (codes "D:\\SC") ∷ [])
    ≡ or_fallback path_of (
        or_else
          (first_that all_files.is_file (
            candidates (
              unique_paths same_name
                (base_dirs path_of all_files [] false (path_of (codes "D:\\SC") ∷ [])))))
          (first_that (has_dir all_files) (
            candidates (
              unique_paths same_name
                (base_dirs path_of all_files [] false (path_of (codes "D:\\SC") ∷ []))))))
unfolding lookup resolve_log_path_from_config
resolve_default_log_path_example =
    resolve_default_log_path_lem path_of same_name all_files [] [] false
      (path_of (codes "D:\\SC") ∷ []) refl refl

-- A form whose directory is named HOTFIX.
abbrev pub form : Text
form = codes "D:\\SC\\HOTFIX"

abbrev saved_config : Config
saved_config = (codes "game_install_dir", text (codes "D:\\SC")) ∷ []

form-Above : Above path_of text_of form
unfolding name parent strip split upper text_eq
form-Above h = (refl, refl)

build_settings_save_result_example :
    (p : FilePath) × (resolve_log_path_from_config path_of saved_config ≡ some p)
    × IsLive p
    × ((build_settings_save_result path_of text_of form
          (codes "LIVE")
          (codes "en")
          false
          false).log_path
        ≡ text_of p)
unfolding build_settings_save_result name parent strip split upper text_eq lookup
    validate_game_install_dir
build_settings_save_result_example =
    build_settings_save_result-resolve_log_path_from_config path_of text_of form (codes "LIVE")
      (codes "en") false false saved_config form-Above refl refl
