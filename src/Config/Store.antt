-- ===== src/Config/Store.antt =====
-- python/scmdb_watcher/config.py: the directories of the program and the file of the configuration.
-- `Path(text)`, the equality of paths and `json` are parameters; a disk is the texts of its files
-- and the directories that were made.
use scmdb_log_watcher_es.Base.{
  ◌≡◌, refl, sym, ap, ◌∙◌, Bool, true, false, Option, none, some, List, [], ◌∷◌, arith, inl, inr,
  Bool-cases, if◌then◌else◌,
}
use scmdb_log_watcher_es.Text.{Text, codes, strip}
use scmdb_log_watcher_es.Config.Paths.{FilePath, parent, child, Config}

-- What a process knows of itself: whether it is frozen, `sys.executable` and the anchor file, both
-- resolved, and LOCALAPPDATA.
pub record Setup : Type 0 where
  pub frozen : Bool
  pub executable : FilePath
  pub anchor_file : FilePath
  pub local_appdata : Text

unfoldable pub resolve_base_dir : Setup → FilePath
resolve_base_dir s = if s.frozen then parent s.executable else parent s.anchor_file

-- A file that cannot be read or written is an `OSError`.
pub record Disk : Type 0 where
  pub read_text : FilePath → Option Text
  pub writable : FilePath → Bool
  pub made_dirs : List FilePath

-- `mkdir(parents=True, exist_ok=True)`
abbrev mkdir : FilePath → Disk → Disk
mkdir dir d = record d { made_dirs = dir ∷ d.made_dirs }

abbrev disk_or : Disk → Option Disk → Disk
disk_or d none = d
disk_or d (some e) = e

abbrev dict_or_empty : Option (Option Config) → Config
dict_or_empty (some (some config)) = config
dict_or_empty _ = []

-- What a file stands for: without a dict, the empty configuration.
abbrev config_or_empty : (Text → Option (Option Config)) → Option Text → Config
config_or_empty loads none = []
config_or_empty loads (some contents) = dict_or_empty (loads contents)

module _ (path_of : Text → FilePath) where
  -- By whether the program is frozen, and LOCALAPPDATA without its outer spaces.
  abbrev data_dir_for : Bool → Text → Setup → Disk → FilePath × Disk
  data_dir_for true (c ∷ t) s d =
      let data_dir = child (path_of (c ∷ t)) (codes "SCMDB Log Watcher") in
      (data_dir, mkdir data_dir d)
  data_dir_for _ _ s d = (resolve_base_dir s, d)

  unfoldable pub resolve_data_dir : Setup → Disk → FilePath × Disk
  unfolding resolve_base_dir
  resolve_data_dir s d = data_dir_for s.frozen (strip s.local_appdata) s d

  unfoldable pub resolve_runtime_dir : Setup → Disk → FilePath × Disk
  unfolding resolve_data_dir
  resolve_runtime_dir s d =
      let (data_dir, d') = resolve_data_dir s d in
      let runtime_dir = child data_dir (codes "runtime") in (runtime_dir, mkdir runtime_dir d')

  unfoldable pub resolve_config_path : Setup → Disk → FilePath × Disk
  unfolding resolve_runtime_dir
  resolve_config_path s d =
      let (runtime_dir, d') = resolve_runtime_dir s d in
      (child runtime_dir (codes "watcher-config.json"), d')

  -- Where the file is does not depend on the disk.
  abbrev config_path_under : FilePath → FilePath
  config_path_under dir = child (child dir (codes "runtime")) (codes "watcher-config.json")

  path-data_dir_for :
      (b : Bool) (t : Text) (s : Setup) (d e : Disk)
      → (data_dir_for b t s d).0 ≡ (data_dir_for b t s e).0
  path-data_dir_for true (c ∷ t) s d e = refl
  path-data_dir_for true [] s d e = refl
  path-data_dir_for false t s d e = refl

  path-resolve_config_path :
      (s : Setup) (d e : Disk) → (resolve_config_path s d).0 ≡ (resolve_config_path s e).0
  unfolding resolve_config_path resolve_runtime_dir resolve_data_dir
  path-resolve_config_path s d e =
      ap config_path_under (path-data_dir_for s.frozen (strip s.local_appdata) s d e)

  -- Directories that are made leave the files alone.
  read_text-data_dir_for :
      (b : Bool) (t : Text) (s : Setup) (d : Disk)
      → (data_dir_for b t s d).1.read_text ≡ d.read_text
  read_text-data_dir_for true (c ∷ t) s d = refl
  read_text-data_dir_for true [] s d = refl
  read_text-data_dir_for false t s d = refl

  read_text-resolve_config_path :
      (s : Setup) (d : Disk) → (resolve_config_path s d).1.read_text ≡ d.read_text
  unfolding resolve_config_path resolve_runtime_dir resolve_data_dir
  read_text-resolve_config_path s d = read_text-data_dir_for s.frozen (strip s.local_appdata) s d

  module _ (same : FilePath → FilePath → Bool) where
    -- `write_text`, an `OSError` where the file cannot be written.
    abbrev write_text : FilePath → Text → Disk → Option Disk
    write_text path contents d =
        if d.writable path
        then some
            (record d { read_text = λ p. if same path p then some contents else d.read_text p })
        else none

    -- `json.loads`: `none` is an error, and `some none` a value that is no dict.
    unfoldable pub load_config : (Text → Option (Option Config)) → Setup → Disk → Config × Disk
    unfolding resolve_config_path
    load_config loads s d =
        let (path, d') = resolve_config_path s d in (config_or_empty loads (d'.read_text path), d')

    -- `none` is an `OSError`.
    unfoldable pub save_config : (Config → Text) → Setup → Config → Disk → Option Disk
    unfolding resolve_config_path
    save_config dumps s payload d =
        let (path, d') = resolve_config_path s d in write_text path (dumps payload) d'

    read_text-write_text :
        (path : FilePath) (contents : Text) (d saved : Disk)
        → same path path ≡ true
        → write_text path contents d ≡ some saved
        → saved.read_text path ≡ some contents
    read_text-write_text path contents d saved r e = elim (Bool-cases (d.writable path)) [
      | inl y ↦
          let same_disk = rw y at e in
          sym (ap (λ o. (disk_or saved o).read_text path) same_disk) ∙ rw r refl
      | inr n ↦ absurd (ground (arith, n, e))
    ]

    -- A configuration that was saved is the one that is loaded next, by the same program, whatever was on the
    -- disk before.
    pub load_config-save_config :
        (loads : Text → Option (Option Config)) (dumps : Config → Text) (s : Setup)
        (payload : Config) (d saved : Disk)
        → ((p : FilePath) → same p p ≡ true)
        → loads (dumps payload) ≡ some (some payload)
        → save_config dumps s payload d ≡ some saved
        → (load_config loads s saved).0 ≡ payload
    unfolding load_config save_config
    load_config-save_config loads dumps s payload d saved reflexive parses done =
        let path = (resolve_config_path s d).0 in
        let there : (load_config loads s saved).0 ≡ config_or_empty loads (saved.read_text path) =
          ap (λ f. config_or_empty loads (f (resolve_config_path s saved).0))
            (read_text-resolve_config_path s saved)
          ∙ ap (λ p. config_or_empty loads (saved.read_text p))
              (path-resolve_config_path s saved d) in
        there
        ∙ ap (config_or_empty loads) (
            read_text-write_text path (dumps payload) (resolve_config_path s d).1 saved
              (reflexive path) done)
        ∙ ap dict_or_empty parses
