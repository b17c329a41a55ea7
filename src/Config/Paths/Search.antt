-- ===== src/Config/Paths/Search.antt =====
-- The search for the log is the choice of a first among all candidates.
use scmdb_log_watcher_es.Base.{
  ◌≡◌, refl, ap, sym, ◌∙◌, Bool, Option, none, some, List, [], ◌∷◌, ◌++◌, arith, if◌then◌else◌,
}
use scmdb_log_watcher_es.Text.{Text, codes}
use scmdb_log_watcher_es.Dict.{Dict, lookup}
use scmdb_log_watcher_es.Config.Paths.{
  FilePath, parent, child, Config, Files, Found, found, going, noted, onward, chosen,
  search_channels, search_bases, star_citizen_channels, game_log, or_fallback, env_path,
  unique_paths, base_dirs, resolve_log_path_from_config, resolve_default_log_path,
}

-- The first path with a property.
pub first_that : (FilePath → Bool) → List FilePath → Option FilePath
first_that p [] = none
first_that p (x ∷ xs) = let rest = first_that p xs in if p x then some x else rest

abbrev pub or_else : Option FilePath → Option FilePath → Option FilePath
or_else none p = p
or_else (some q) p = some q

abbrev in_channels : FilePath → List Text → List FilePath
in_channels base [] = []
in_channels base (channel ∷ channels) =
    child (child base channel) game_log ∷ in_channels base channels

-- The logs of all channels under each base directory.
abbrev pub candidates : List FilePath → List FilePath
candidates [] = []
candidates (base ∷ bases) = in_channels base star_citizen_channels ++ candidates bases

abbrev pub has_dir : Files → FilePath → Bool
has_dir files p = files.is_dir (parent p)

-- The outcome of a search among candidates.
abbrev outcome : Option FilePath → Option FilePath → Found
outcome (some p) first = found p
outcome none first = going first

search_channels-outcome :
    (files : Files) (base : FilePath) (channels : List Text) (first : Option FilePath)
    → search_channels files base channels first
      ≡ outcome
          (first_that files.is_file (in_channels base channels))
          (or_else first (first_that (has_dir files) (in_channels base channels)))
unfolding search_channels first_that
search_channels-outcome files base [] none = refl
search_channels-outcome files base [] (some p) = refl
search_channels-outcome files base (channel ∷ channels) first =
    let candidate = child (child base channel) game_log in
    let rest =
      search_channels-outcome files base channels
        (noted first (files.is_dir (parent candidate)) candidate) in
    ground (arith, rest)

first_that-append :
    (p : FilePath → Bool) (xs ys : List FilePath)
    → first_that p (xs ++ ys) ≡ or_else (first_that p xs) (first_that p ys)
unfolding first_that
first_that-append p [] ys = refl
first_that-append p (x ∷ xs) ys = ground (arith, first_that-append p xs ys)

or_else_assoc : (a b c : Option FilePath) → or_else a (or_else b c) ≡ or_else (or_else a b) c
or_else_assoc none b c = refl
or_else_assoc (some a) b c = refl

-- One base directory, and then the others.
outcome-append :
    (files : Files) (bases : List FilePath) (file more dir dirs first : Option FilePath)
    → ((first' : Option FilePath)
        → search_bases files bases first' ≡ outcome more (or_else first' dirs))
    → onward (outcome file (or_else first dir)) (λ first'. search_bases files bases first')
      ≡ outcome (or_else file more) (or_else first (or_else dir dirs))
outcome-append files bases none more dir dirs first h =
    h (or_else first dir) ∙ ap (λ d. outcome more d) (sym (or_else_assoc first dir dirs))
outcome-append files bases (some p) more dir dirs first h = refl

search_bases-outcome :
    (files : Files) (bases : List FilePath) (first : Option FilePath)
    → search_bases files bases first
      ≡ outcome
          (first_that files.is_file (candidates bases))
          (or_else first (first_that (has_dir files) (candidates bases)))
unfolding search_bases first_that
search_bases-outcome files [] none = refl
search_bases-outcome files [] (some p) = refl
search_bases-outcome files (base ∷ bases) first =
    let here = in_channels base star_citizen_channels in
    let file = first_that files.is_file here in
    let more = first_that files.is_file (candidates bases) in
    let dir = first_that (has_dir files) here in
    let dirs = first_that (has_dir files) (candidates bases) in
    ap (λ r. onward r (λ first'. search_bases files bases first'))
      (search_channels-outcome files base star_citizen_channels first)
    ∙ outcome-append files bases file more dir dirs first
        (λ first'. search_bases-outcome files bases first')
    ∙ ap (λ f. outcome f (or_else first (or_else dir dirs)))
        (sym (first_that-append files.is_file here (candidates bases)))
    ∙ ap (λ d. outcome (first_that files.is_file (here ++ candidates bases)) (or_else first d))
        (sym (first_that-append (has_dir files) here (candidates bases)))

chosen-outcome :
    (path_of : Text → FilePath) (file dir : Option FilePath)
    → chosen path_of (outcome file dir) ≡ or_fallback path_of (or_else file dir)
chosen-outcome path_of none dir = refl
chosen-outcome path_of (some p) dir = refl

-- Where neither the environment nor the configuration names the log, it is the first candidate that
-- is a file; if none is, the first whose directory is there; if none is, the fallback. The
-- candidates are the logs of both channels under each base directory, without repetitions.
pub resolve_default_log_path_lem :
    (path_of : Text → FilePath) (same : FilePath → FilePath → Bool) (files : Files)
    (env : Dict Text) (config : Config) (scan_all_drives : Bool) (preferred_roots : List FilePath)
    → env_path (lookup (codes "SCMDB_WATCHER_LOG_PATH") env) ≡ none
    → resolve_log_path_from_config path_of config ≡ none
    → let logs =
        candidates
          (unique_paths same (base_dirs path_of files env scan_all_drives preferred_roots)) in
      resolve_default_log_path path_of same files env config scan_all_drives preferred_roots
      ≡ or_fallback path_of
          (or_else (first_that files.is_file logs) (first_that (has_dir files) logs))
unfolding resolve_default_log_path
resolve_default_log_path_lem path_of same files env config scan_all_drives preferred_roots e c =
    let bases = unique_paths same (base_dirs path_of files env scan_all_drives preferred_roots) in
    rw (e, resolve_default_log_path, c)
      (ap (λ r. chosen path_of r) (search_bases-outcome files bases none)
        ∙ chosen-outcome path_of (first_that files.is_file (candidates bases))
            (first_that (has_dir files) (candidates bases)))
