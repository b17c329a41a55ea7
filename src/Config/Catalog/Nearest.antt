-- ===== src/Config/Catalog/Nearest.antt =====
-- Which language file a language is taken from.
use scmdb_log_watcher_es.Base.{
  ◌≡◌, ◌≢◌, refl, sym, ap, ◌∙◌, subst, true, Option, none, some, List, [], ◌∷◌, ◌++◌, All, ◌⊎◌, inl,
  inr, Bool-cases, arith,
}
use scmdb_log_watcher_es.Text.{Text, text_eq, text_eq_iff}
use scmdb_log_watcher_es.Dict
use scmdb_log_watcher_es.Dict.{Dict, lookup-insert}
use scmdb_log_watcher_es.Config.Catalog.{
  LanguagePayload, FileContent, unreadable, not_a_dict, payload, LanguageFile, Entry, code_of,
  entry_of, Catalog, add_file, load_files, load_dirs, load_catalog,
}

-- The file can be read and is for this language, with this entry.
abbrev pub IsFor : Text → Entry → LanguageFile → Type 0
IsFor code e f =
    (p : LanguagePayload) × (f.reading ≡ payload p)
    × (code_of f.stem p ≡ code)
    × (entry_of f.stem p ≡ e)

-- It cannot be read or is for another language.
abbrev pub NotFor : Text → LanguageFile → Type 0
NotFor code f = (p : LanguagePayload) → f.reading ≡ payload p → code_of f.stem p ≢ code

-- The last file for the language in a directory, or that there is none.
pub data LastOf (code : Text) (fs : List LanguageFile) : Option Entry → Type 0 where
  none_there : All (NotFor code) fs → LastOf code fs none
  last_there :
      (before after : List LanguageFile) (f : LanguageFile) (e : Entry)
      → fs ≡ before ++ f ∷ after
      → IsFor code e f
      → All (NotFor code) after
      → LastOf code fs (some e)

-- The nearest directory that has a file for the language, or that none has.
pub data Nearest (code : Text) : List (List LanguageFile) → Option Entry → Type 0 where
  nowhere : Nearest code [] none
  in_first :
      (fs : List LanguageFile) (dirs : List (List LanguageFile)) (e : Entry)
      → LastOf code fs (some e)
      → Nearest code (fs ∷ dirs) (some e)
  in_later :
      (fs : List LanguageFile) (dirs : List (List LanguageFile)) (o : Option Entry)
      → LastOf code fs none
      → Nearest code dirs o
      → Nearest code (fs ∷ dirs) o

-- What the files of a directory make of the entry of a language.
abbrev Loads : Text → List LanguageFile → Option Entry → Option Entry → Type 0
Loads code fs was now =
    (LastOf code fs none × (now ≡ was)) ⊎ ((e : Entry) × LastOf code fs (some e) × (now ≡ some e))

payload_of : LanguagePayload → FileContent → LanguagePayload
payload_of default (payload p) = p
payload_of default _ = default

first-Loads :
    (code : Text) (stem : Text) (r : FileContent) (c : Catalog)
    → (((p : LanguagePayload) → r ≡ payload p → code_of stem p ≢ code)
        × (Dict.lookup code (add_file stem r c).languages ≡ Dict.lookup code c.languages))
      ⊎ ((e : Entry) × ((p : LanguagePayload) × (r ≡ payload p)
            × (code_of stem p ≡ code)
            × (entry_of stem p ≡ e))
          × (Dict.lookup code (add_file stem r c).languages ≡ some e))
unfolding add_file payload_of
first-Loads code stem unreadable c = inl (λ p e. absurd (ground (arith, e)), refl)
first-Loads code stem not_a_dict c = inl (λ p e. absurd (ground (arith, e)), refl)
first-Loads code stem (payload p) c = elim (Bool-cases (text_eq (code_of stem p) code)) [
  | inl y ↦ inr (
    entry_of stem p,
    (p, refl, (text_eq_iff (code_of stem p) code).0 y, refl),
    rw (lookup-insert, y) refl,
  )
  | inr n ↦ inl (
    λ q e same.
        let own : text_eq (code_of stem p) code ≡ true =
          (text_eq_iff (code_of stem p) code).1
            (ap (λ r. code_of stem (payload_of p r)) e ∙ same) in
        ground (arith, own, n),
    rw (lookup-insert, n) refl,
  )
]

load_files-Loads :
    (code : Text) (fs : List LanguageFile) (c : Catalog)
    → Loads code fs (Dict.lookup code c.languages) (Dict.lookup code (load_files fs c).languages)
unfolding load_files
load_files-Loads code [] c = inl (none_there tt, refl)
load_files-Loads code (f ∷ fs) c =
    let c' = add_file f.stem f.reading c in
    elim (load_files-Loads code fs c') [
      | inr (e, last_there before after g e' at is_for rest, now) ↦
          inr (e, last_there (f ∷ before) after g e (ap (λ xs. f ∷ xs) at) is_for rest, now)
      | inl (none_there rest, now) ↦ elim (first-Loads code f.stem f.reading c) [
        | inl (not_for, same) ↦ inl (none_there (not_for, rest), now ∙ same)
        | inr (e, is_for, here) ↦ inr (e, last_there [] fs f e refl is_for rest, now ∙ here)
      ]
    ]

load_dirs-Nearest :
    (code : Text) (dirs : List (List LanguageFile))
    → Nearest code dirs (Dict.lookup code (load_dirs dirs).languages)
unfolding load_dirs Dict.lookup
load_dirs-Nearest code [] = nowhere
load_dirs-Nearest code (fs ∷ dirs) = elim (load_files-Loads code fs (load_dirs dirs)) [
  | inl (l, e) ↦ subst (Nearest code (fs ∷ dirs)) (sym e) (
      in_later fs dirs (Dict.lookup code (load_dirs dirs).languages) l
        (load_dirs-Nearest code dirs))
  | inr (x, l, e) ↦ subst (Nearest code (fs ∷ dirs)) (sym e) (in_first fs dirs x l)
]

-- The texts of a language are those of the nearest directory that has a readable file for it, of the last
-- such file there; and a language has none only if no directory has a file for it.
pub load_catalog-Nearest :
    (code : Text) (dirs : List (List LanguageFile))
    → Nearest code dirs (Dict.lookup code (load_catalog dirs).languages)
unfolding load_catalog
load_catalog-Nearest code dirs = load_dirs-Nearest code dirs
