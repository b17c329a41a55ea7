-- ===== src/Config/Paths.antt =====
-- python/scmdb_watcher/paths.py: where the log is. A path is its anchor and its parts, as pathlib has
-- them; `Path(text)` and `str(path)` are parameters, and so are the environment and the file system.
pub mod Search
use scmdb_log_watcher_es.Base.{
  ℕ, Bool, true, false, not, ◌&&◌, ◌||◌, Option, none, some, List, [], ◌∷◌, ◌++◌, if◌then◌else◌,
}
use scmdb_log_watcher_es.Text.{Text, codes, text_eq, contains, strip, upper}
use scmdb_log_watcher_es.Dict.{Dict, lookup}

pub record FilePath : Type 0 where
  pub anchor : Text
  pub parts : List Text

abbrev pub last_part : List Text → Text
last_part [] = []
last_part (part ∷ []) = part
last_part (part ∷ next ∷ parts) = last_part (next ∷ parts)

abbrev pub without_last : List Text → List Text
without_last [] = []
without_last (part ∷ []) = []
without_last (part ∷ next ∷ parts) = part ∷ without_last (next ∷ parts)

-- `path.name`, `path.parent` and `path / part`
unfoldable pub name : FilePath → Text
name p = last_part p.parts

unfoldable pub parent : FilePath → FilePath
parent p = record p { parts = without_last p.parts }

abbrev pub child : FilePath → Text → FilePath
child p part = record p { parts = p.parts ++ part ∷ [] }

-- A value of the configuration: a string, or what `str(v)`, `bool(v)` and `str(int(v))` make of another
-- value; the last is `none` where `int` raises.
pub data Value : Type 0 where
  text : Text → Value
  other : Text → Bool → Option Text → Value

abbrev pub Config : Type 0
Config = Dict Value

-- `TRACKED_CHANNEL`
abbrev pub tracked_channel : Text
tracked_channel = codes "LIVE"

-- `STAR_CITIZEN_CHANNELS`
abbrev pub star_citizen_channels : List Text
star_citizen_channels = codes "LIVE" ∷ codes "HOTFIX" ∷ []

abbrev pub game_log : Text
game_log = codes "Game.log"

abbrev filled : Text → Option Text
filled [] = none
filled (c ∷ s) = some (c ∷ s)

-- `isinstance(raw, str) and raw.strip()`
abbrev pub stripped : Option Value → Option Text
stripped none = none
stripped (some (other s b n)) = none
stripped (some (text t)) = filled (strip t)

-- The log of an install directory, which may be named for a channel.
unfoldable pub log_of_install : FilePath → FilePath
unfolding name parent
log_of_install install_dir =
    if text_eq (upper (name install_dir)) tracked_channel
    then child install_dir game_log
    else if contains star_citizen_channels (upper (name install_dir))
    then child (child (parent install_dir) tracked_channel) game_log
    else child (child install_dir tracked_channel) game_log

module _ (path_of : Text → FilePath) where
  unfoldable pub resolve_log_path_from_config : Config → Option FilePath
  unfolding log_of_install
  resolve_log_path_from_config config = elim (stripped (lookup (codes "game_install_dir") config)) [
    | some dir ↦ some (log_of_install (path_of dir))
    | none ↦ elim (stripped (lookup (codes "log_path") config)) [
      | some raw ↦ some (path_of raw)
      | none ↦ none
    ]
  ]

-- What the file system answers.
pub record Files : Type 0 where
  pub exists : FilePath → Bool
  pub is_file : FilePath → Bool
  pub is_dir : FilePath → Bool

-- `_unique_paths`, with the equality of paths as a parameter.
module _ (same : FilePath → FilePath → Bool) where
  unfoldable pub is_among : List FilePath → FilePath → Bool
  is_among [] p = false
  is_among (q ∷ qs) p = same q p || is_among qs p

  unfoldable pub unique_loop : List FilePath → List FilePath → List FilePath
  unfolding is_among
  unique_loop seen [] = []
  unique_loop seen (p ∷ ps) =
      let known = is_among seen p in
      let rest = unique_loop (if known then seen else p ∷ seen) ps in
      if known then rest else p ∷ rest

  unfoldable pub unique_paths : List FilePath → List FilePath
  unfolding unique_loop
  unique_paths ps = unique_loop [] ps

-- The loops over the base directories and the channels: a log that is found, or the first candidate
-- so far whose directory is there.
pub data Found : Type 0 where
  found : FilePath → Found
  going : Option FilePath → Found

abbrev pub noted : Option FilePath → Bool → FilePath → Option FilePath
noted (some first) there candidate = some first
noted none there candidate = if there then some candidate else none

unfoldable pub search_channels : Files → FilePath → List Text → Option FilePath → Found
unfolding parent
search_channels files base [] first = going first
search_channels files base (channel ∷ channels) first =
    let candidate = child (child base channel) game_log in
    let rest =
      search_channels files base channels
        (noted first (files.is_dir (parent candidate)) candidate) in
    if files.is_file candidate then found candidate else rest

abbrev pub onward : Found → (Option FilePath → Found) → Found
onward (found p) go_on = found p
onward (going first) go_on = go_on first

unfoldable pub search_bases : Files → List FilePath → Option FilePath → Found
unfolding search_channels
search_bases files [] first = going first
search_bases files (base ∷ bases) first =
    onward (search_channels files base star_citizen_channels first)
      (λ first'. search_bases files bases first')

abbrev pub rsi : FilePath → FilePath
rsi p = child (child p (codes "Roberts Space Industries")) (codes "StarCitizen")

-- `if env_dir:`
abbrev env_base : (Text → FilePath) → Option Text → List FilePath
env_base path_of none = []
env_base path_of (some []) = []
env_base path_of (some (c ∷ s)) = rsi (path_of (c ∷ s)) ∷ []

-- The three directories of a drive.
abbrev drive_bases : FilePath → List FilePath
drive_bases drive =
    rsi drive
    ∷ rsi (child drive (codes "Program Files"))
    ∷ rsi (child drive (codes "Program Files (x86)"))
    ∷ []

unfoldable pub all_drives : (Text → FilePath) → Files → Text → List FilePath
all_drives path_of files [] = []
all_drives path_of files (letter ∷ letters) =
    let rest = all_drives path_of files letters in
    let drive = path_of (letter ∷ codes ":\\") in
    if files.exists drive then drive_bases drive ++ rest else rest

unfoldable pub base_dirs :
    (Text → FilePath) → Files → Dict Text → Bool → List FilePath → List FilePath
unfolding all_drives
base_dirs path_of files env scan_all_drives preferred_roots =
    preferred_roots
    ++ (env_base path_of (lookup (codes "ProgramW6432") env)
        ++ (env_base path_of (lookup (codes "ProgramFiles") env)
            ++ (env_base path_of (lookup (codes "ProgramFiles(x86)") env)
                ++ (if scan_all_drives
                    then all_drives path_of files (codes "ABCDEFGHIJKLMNOPQRSTUVWXYZ")
                    else []))))

abbrev pub default_log_path_fallback : Text
default_log_path_fallback =
    codes "C:\\Program Files\\Roberts Space Industries\\StarCitizen\\LIVE\\Game.log"

abbrev pub or_fallback : (Text → FilePath) → Option FilePath → FilePath
or_fallback path_of none = path_of default_log_path_fallback
or_fallback path_of (some p) = p

abbrev pub chosen : (Text → FilePath) → Found → FilePath
chosen path_of (found p) = p
chosen path_of (going first) = or_fallback path_of first

-- `if env_value:`
abbrev pub env_path : Option Text → Option Text
env_path none = none
env_path (some t) = filled t

unfoldable pub resolve_default_log_path :
    (Text → FilePath)
    → (FilePath → FilePath → Bool)
    → Files
    → Dict Text
    → Config
    → Bool
    → List FilePath
    → FilePath
unfolding resolve_log_path_from_config unique_paths search_bases base_dirs
resolve_default_log_path path_of same files env config scan_all_drives preferred_roots =
    elim (env_path (lookup (codes "SCMDB_WATCHER_LOG_PATH") env)) [
      | some value ↦ path_of value
      | none ↦ elim (resolve_log_path_from_config path_of config) [
        | some configured ↦ configured
        | none ↦
            let bases =
              unique_paths same (base_dirs path_of files env scan_all_drives preferred_roots) in
            chosen path_of (search_bases files bases none)
      ]
    ]
