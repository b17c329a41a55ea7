-- ===== src/Config/Catalog/Texts.antt =====
-- What `tr` shows.
use scmdb_log_watcher_es.Base.{
  ◌≡◌, refl, sym, ap, ◌∙◌, subst, Option, none, some, List, [], ◌∷◌, inl, inr, Bool-cases, arith,
}
use scmdb_log_watcher_es.Text.{
  Text, text_eq, or_default, strip, lower, replace, is_space, lstrip_if, rstrip_if, lower_code,
}
use scmdb_log_watcher_es.Dict
use scmdb_log_watcher_es.Dict.{Dict, lookup-insert}
use scmdb_log_watcher_es.Config.Language.{
  is_language_code, language_aliases, cleaned, normalize_language,
}
use scmdb_log_watcher_es.Config.Language.Normal.{normalize_language_lem}
use scmdb_log_watcher_es.Config.Catalog.{
  default_language, default_strings, LanguagePayload, FileContent, unreadable, not_a_dict, payload,
  LanguageFile, Entry, or_text, code_of, Catalog, insert_aliases, add_file, load_files, load_dirs,
  set_default, load_catalog, strings_in, template,
}
use scmdb_log_watcher_es.Config.Catalog.Nearest.{Nearest, load_catalog-Nearest}

abbrev IsSettled : Text → Type 0
IsSettled code = normalize_language code default_language ≡ code

-- An alias stands for a code that normalising leaves as it is.
abbrev Settles : Dict Text → Type 0
Settles aliases = (a code : Text) → Dict.lookup a aliases ≡ some code → IsSettled code

insert-Settles :
    (a code : Text) (d : Dict Text) → IsSettled code → Settles d → Settles (Dict.insert a code d)
insert-Settles a code d c s = λ b found e. elim (Bool-cases (text_eq a b)) [
  | inl y ↦
      let same : some code ≡ some found = sym (lookup-insert b a code d ∙ rw y refl) ∙ e in
      subst IsSettled (ap (λ o. or_text o code) same) c
  | inr n ↦ s b found (sym (lookup-insert b a code d ∙ rw n refl) ∙ e)
]

insert_aliases-Settles :
    (code : Text) (more : List Text) (d : Dict Text)
    → IsSettled code
    → Settles d
    → Settles (insert_aliases code more d)
unfolding insert_aliases
insert_aliases-Settles code [] d c s = s
insert_aliases-Settles code (a ∷ more) d c s =
    insert_aliases-Settles code more (Dict.insert (cleaned a) code d) c
      (insert-Settles (cleaned a) code d c s)

code_of-IsSettled : (stem : Text) (p : LanguagePayload) → IsSettled (code_of stem p)
unfolding code_of
code_of-IsSettled stem p =
    (normalize_language_lem (or_text p.code stem) default_language default_language).1

add_file-Settles :
    (stem : Text) (r : FileContent) (c : Catalog)
    → Settles c.aliases
    → Settles (add_file stem r c).aliases
unfolding add_file
add_file-Settles stem unreadable c s = s
add_file-Settles stem not_a_dict c s = s
add_file-Settles stem (payload p) c s =
    let code = code_of stem p in
    insert_aliases-Settles code p.aliases (Dict.insert code code c.aliases)
      (code_of-IsSettled stem p) (insert-Settles code code c.aliases (code_of-IsSettled stem p) s)

load_files-Settles :
    (fs : List LanguageFile) (c : Catalog) → Settles c.aliases → Settles (load_files fs c).aliases
unfolding load_files
load_files-Settles [] c s = s
load_files-Settles (f ∷ fs) c s =
    load_files-Settles fs (add_file f.stem f.reading c) (add_file-Settles f.stem f.reading c s)

load_dirs-Settles : (dirs : List (List LanguageFile)) → Settles (load_dirs dirs).aliases
unfolding load_dirs Dict.lookup
load_dirs-Settles [] = λ a code e. absurd (ground (arith, e))
load_dirs-Settles (fs ∷ dirs) = load_files-Settles fs (load_dirs dirs) (load_dirs-Settles dirs)

default_language-IsSettled : IsSettled default_language
unfolding normalize_language cleaned is_language_code language_aliases Dict.lookup text_eq strip
    lower replace is_space lstrip_if rstrip_if lower_code
default_language-IsSettled = refl

set_default-Settles :
    (o : Option Text) (d : Dict Text) → Settles d → Settles (set_default default_language o d)
set_default-Settles none d s =
    insert-Settles default_language default_language d default_language-IsSettled s
set_default-Settles (some old) d s = s

load_catalog-Settles : (dirs : List (List LanguageFile)) → Settles (load_catalog dirs).aliases
unfolding load_catalog
load_catalog-Settles dirs =
    set_default-Settles (Dict.lookup default_language (load_dirs dirs).aliases)
      (load_dirs dirs).aliases (load_dirs-Settles dirs)

-- The text of a key in the entry of a language; empty if there is none.
abbrev pub text_in : Text → Option Entry → Dict Text → Text
text_in key o default = or_text (Dict.lookup key (strings_in o default)) []

-- Under any spelling of an alias of a language, a user sees the text of the nearest language file that there
-- is for it; where that has no text, the one of the nearest Spanish file, and where there is none
-- either, the built-in text or the key itself.
pub template-load_catalog :
    (dirs : List (List LanguageFile)) (language key code : Text)
    → Dict.lookup (cleaned language) (load_catalog dirs).aliases ≡ some code
    → (own spanish : Option Entry) × Nearest code dirs own
      × Nearest default_language dirs spanish
      × (template (load_catalog dirs) language key
          ≡ or_default (text_in key own []) (
              or_default
                (text_in key spanish default_strings)
                (or_default (or_text (Dict.lookup key default_strings) []) key)))
unfolding template
template-load_catalog dirs language key code e =
    let c = load_catalog dirs in
    let settled : IsSettled code = load_catalog-Settles dirs (cleaned language) code e in
    let spanish = Dict.lookup default_language c.languages in
    let behind =
      or_default (text_in key spanish default_strings)
        (or_default (or_text (Dict.lookup key default_strings) []) key) in
    (
      Dict.lookup code c.languages,
      spanish,
      load_catalog-Nearest code dirs,
      load_catalog-Nearest default_language dirs,
      ap (λ l. or_default (text_in key (Dict.lookup l c.languages) []) behind)
          (ap (λ o. normalize_language (or_text o language) default_language) e ∙ settled),
    )
