-- ===== src/Samples/Catalog.antt =====
-- Two directories of language files, and a configuration that is saved.
use scmdb_log_watcher_es.Base.{◌≡◌, refl, Bool, true, false, Option, none, some, List, [], ◌∷◌}
use scmdb_log_watcher_es.Text.{
  Text, codes, split, text_eq, or_default, strip, lower, replace, is_space, lstrip_if, rstrip_if,
  lower_code,
}
use scmdb_log_watcher_es.Dict
use scmdb_log_watcher_es.Config.Language.{
  cleaned, normalize_language, is_language_code, language_aliases,
}
use scmdb_log_watcher_es.Config.Paths.{FilePath, parent, Config, text}
use scmdb_log_watcher_es.Config.Catalog.{
  default_language, default_strings, payload, unreadable, LanguageFile, Entry, or_text,
  load_catalog, load_dirs, load_files, add_file, insert_aliases, code_of, template,
}
use scmdb_log_watcher_es.Config.Catalog.Nearest.{Nearest}
use scmdb_log_watcher_es.Config.Catalog.Texts.{text_in, template-load_catalog}
use scmdb_log_watcher_es.Samples.Config.{path_of}
use scmdb_log_watcher_es.Config.Store.{
  Setup, Disk, load_config, save_config, load_config-save_config,
}

abbrev english : Text → LanguageFile
english start = record {
  stem = codes "en-en";
  reading = payload (record {
    code = some (codes "en-en");
    display_name = none;
    native_name = none;
    strings = some ((codes "btn_start", start) ∷ []);
    aliases = codes "en" ∷ [];
  });
}

abbrev dirs : List (List LanguageFile)
dirs =
    (english (codes "Start") ∷ record { stem = codes "fr-fr"; reading = unreadable } ∷ [])
    ∷ (english (codes "Begin") ∷ [])
    ∷ []

knows_en : Dict.lookup (cleaned (codes "EN")) (load_catalog dirs).aliases ≡ some (codes "en-en")
unfolding cleaned strip lower replace is_space lstrip_if rstrip_if lower_code load_catalog load_dirs
    load_files add_file insert_aliases code_of normalize_language is_language_code language_aliases
    Dict.lookup Dict.insert text_eq
knows_en = refl

template-load_catalog_example :
    (own spanish : Option Entry) × Nearest (codes "en-en") dirs own
    × Nearest default_language dirs spanish
    × (template (load_catalog dirs) (codes "EN") (codes "btn_start")
        ≡ or_default (text_in (codes "btn_start") own []) (
            or_default (text_in (codes "btn_start") spanish default_strings) (
              or_default
                (or_text (Dict.lookup (codes "btn_start") default_strings) [])
                (codes "btn_start"))))
template-load_catalog_example =
    template-load_catalog dirs (codes "EN") (codes "btn_start") (codes "en-en") knows_en

abbrev disk : Disk
disk = record { read_text = λ p. none; writable = λ p. true; made_dirs = [] }

abbrev setup : Setup
setup = record {
  frozen = false;
  executable = path_of (codes "C:\\python.exe");
  anchor_file = path_of (codes "C:\\app\\watcher_gui.py");
  local_appdata = [];
}

abbrev config : Config
config = (codes "channel", text (codes "LIVE")) ∷ []

-- All paths are the same to this disk.
abbrev same : FilePath → FilePath → Bool
same p q = true

abbrev loads : Text → Option (Option Config)
loads contents = some (some config)

abbrev dumps : Config → Text
dumps c = codes "{}"

abbrev written : Disk
written = record {
  read_text = λ p. some (dumps config);
  writable = λ p. true;
  made_dirs = path_of (codes "C:\\app\\runtime") ∷ [];
}

load_config-save_config_example : (load_config path_of same loads setup written).0 ≡ config
unfolding save_config parent split
load_config-save_config_example =
    load_config-save_config path_of same loads dumps setup config disk written (λ p. refl) refl refl
