-- ===== src/Config/Catalog.antt =====
-- python/scmdb_watcher/gui_i18n.py: the language files and the choice of a text. What a file holds is
-- given as `json.loads` returns it, the values by what `str` makes of them, and `template.format` is
-- left to Python.
pub mod Nearest
pub mod Texts
use scmdb_log_watcher_es.Base.{
  ℕ, Bool, true, false, ◌||◌, Option, none, some, List, [], ◌∷◌, ◌++◌, map, ltb, ◌==◌,
  if◌then◌else◌,
}
use scmdb_log_watcher_es.Text.{Text, codes, contains, or_default}
use scmdb_log_watcher_es.Dict
use scmdb_log_watcher_es.Dict.{Dict}
use scmdb_log_watcher_es.Config.Language.{cleaned, normalize_language}
use scmdb_log_watcher_es.Config.Paths.{FilePath, child, is_among}

-- `DEFAULT_LANGUAGE`
abbrev pub default_language : Text
default_language = codes "es-es"

-- `DEFAULT_STRINGS`
abbrev pub default_strings : Dict Text
default_strings =
    (codes "window_title", codes "SCMDB Log Watcher")
    ∷ (codes "btn_start", codes "Iniciar")
    ∷ (codes "btn_stop", codes "Desconectar")
    ∷ []

-- The parts of a path, and those of the directories above it, the nearest first.
abbrev pub prefixes : List Text → List (List Text)
prefixes [] = [] ∷ []
prefixes (part ∷ parts) = map (λ ps. part ∷ ps) (prefixes parts) ++ [] ∷ []

-- `(base_dir, *base_dir.parents)`
unfoldable pub with_parents : FilePath → List FilePath
with_parents p = map (λ parts. record p { parts = parts }) (prefixes p.parts)

-- The loop of `_language_dirs`, with the equality of paths and `is_dir` as parameters.
unfoldable pub language_dirs_loop :
    (FilePath → FilePath → Bool) → (FilePath → Bool) → List FilePath → List FilePath → List FilePath
language_dirs_loop same is_dir seen [] = []
language_dirs_loop same is_dir seen (parent ∷ parents) =
    let lang_dir = child parent (codes "lang") in
    let known = is_among same seen lang_dir in
    let rest = language_dirs_loop same is_dir (if known then seen else lang_dir ∷ seen) parents in
    if known then rest else if is_dir lang_dir then lang_dir ∷ rest else rest

-- `_language_dirs`
unfoldable pub language_dirs :
    (FilePath → FilePath → Bool) → (FilePath → Bool) → FilePath → List FilePath
unfolding with_parents language_dirs_loop
language_dirs same is_dir base_dir = language_dirs_loop same is_dir [] (with_parents base_dir)

-- The dict of a language file; `none` is a missing key, and for `strings` also a value that is no dict.
pub record LanguagePayload : Type 0 where
  pub code : Option Text
  pub display_name : Option Text
  pub native_name : Option Text
  pub strings : Option (Dict Text)
  pub aliases : List Text

-- What reading a file gives: an error of the system or of the JSON, a value that is no dict, or a dict.
pub data FileContent : Type 0 where
  unreadable : FileContent
  not_a_dict : FileContent
  payload : LanguagePayload → FileContent

pub record LanguageFile : Type 0 where
  pub stem : Text
  pub reading : FileContent

pub record Entry : Type 0 where
  pub code : Text
  pub display_name : Text
  pub native_name : Text
  pub strings : Dict Text

abbrev pub or_text : Option Text → Text → Text
or_text none default = default
or_text (some t) default = t

abbrev strings_of : Option (Dict Text) → Dict Text
strings_of none = []
strings_of (some strings) = strings

unfoldable pub code_of : Text → LanguagePayload → Text
code_of stem p = normalize_language (or_text p.code stem) default_language

unfoldable pub entry_of : Text → LanguagePayload → Entry
unfolding code_of
entry_of stem p = record {
  code = code_of stem p;
  display_name = or_text p.display_name (code_of stem p);
  native_name = or_text p.native_name (code_of stem p);
  strings = strings_of p.strings;
}

-- The catalog and the aliases.
pub record Catalog : Type 0 where
  pub languages : Dict Entry
  pub aliases : Dict Text

unfoldable pub insert_aliases : Text → List Text → Dict Text → Dict Text
insert_aliases code [] aliases = aliases
insert_aliases code (alias ∷ more) aliases =
    insert_aliases code more (Dict.insert (cleaned alias) code aliases)

-- One file: an entry under its code, and its aliases.
unfoldable pub add_file : Text → FileContent → Catalog → Catalog
unfolding entry_of insert_aliases
add_file stem unreadable c = c
add_file stem not_a_dict c = c
add_file stem (payload p) c =
    let code = code_of stem p in
    record {
      languages = Dict.insert code (entry_of stem p) c.languages;
      aliases = insert_aliases code p.aliases (Dict.insert code code c.aliases);
    }

-- The loop over the files of a directory.
unfoldable pub load_files : List LanguageFile → Catalog → Catalog
unfolding add_file
load_files [] c = c
load_files (f ∷ fs) c = load_files fs (add_file f.stem f.reading c)

-- The loop over the directories, nearest first in the list, from its end: `reversed`.
unfoldable pub load_dirs : List (List LanguageFile) → Catalog
unfolding load_files
load_dirs [] = record { languages = []; aliases = [] }
load_dirs (files ∷ dirs) = load_files files (load_dirs dirs)

-- `aliases.setdefault`
abbrev pub set_default : Text → Option Text → Dict Text → Dict Text
set_default key none d = Dict.insert key key d
set_default key (some old) d = d

-- `_load_catalog`: the files of the language directories, the nearest directory first, in the order of
-- their names.
unfoldable pub load_catalog : List (List LanguageFile) → Catalog
unfolding load_dirs
load_catalog dirs =
    let c = load_dirs dirs in
    record c {
      aliases = set_default default_language (Dict.lookup default_language c.aliases) c.aliases;
    }

-- `a <= b` for strings.
abbrev pub text_le : Text → Text → Bool
text_le [] t = true
text_le (a ∷ s) [] = false
text_le (a ∷ s) (b ∷ t) = let rest = text_le s t in ltb a b || (if a == b then rest else false)

abbrev insert_sorted : Text → List Text → List Text
insert_sorted t [] = t ∷ []
insert_sorted t (u ∷ us) =
    let rest = insert_sorted t us in if text_le t u then t ∷ u ∷ us else u ∷ rest

abbrev sorted_texts : List Text → List Text
sorted_texts [] = []
sorted_texts (t ∷ ts) = insert_sorted t (sorted_texts ts)

abbrev or_default_language : List Text → List Text
or_default_language [] = default_language ∷ []
or_default_language (code ∷ more) = code ∷ more

-- `get_available_language_codes` without an anchor.
unfoldable pub catalog_codes : Catalog → List Text
catalog_codes c = or_default_language (sorted_texts (map (λ (code, e). code) c.languages))

-- The loop of `get_available_language_codes` over the files of all directories.
unfoldable pub codes_loop : List Text → List LanguageFile → List Text
codes_loop seen [] = []
codes_loop seen (f ∷ fs) =
    let code = normalize_language f.stem default_language in
    let known = contains seen code in
    let rest = codes_loop (if known then seen else code ∷ seen) fs in
    if known then rest else code ∷ rest

unfoldable pub get_available_language_codes : List LanguageFile → List Text
unfolding codes_loop
get_available_language_codes files = or_default_language (codes_loop [] files)

abbrev pub strings_in : Option Entry → Dict Text → Dict Text
strings_in none default = default
strings_in (some e) default = e.strings

-- The text that `tr` formats.
unfoldable pub template : Catalog → Text → Text → Text
template c language key =
    let normalized_language =
      normalize_language (or_text (Dict.lookup (cleaned language) c.aliases) language)
        default_language in
    let selected = strings_in (Dict.lookup normalized_language c.languages) [] in
    let fallback = strings_in (Dict.lookup default_language c.languages) default_strings in
    or_default (or_text (Dict.lookup key selected) []) (
      or_default (or_text (Dict.lookup key fallback) [])
        (or_default (or_text (Dict.lookup key default_strings) []) key))
