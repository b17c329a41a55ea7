-- ===== src/Config/Settings/Live.antt =====
-- The log that the settings lead to: always that of the LIVE channel, and the same one in the form
-- and in the saved configuration.
use scmdb_log_watcher_es.Base.{
  ℕ, ◌≡◌, refl, ap, ◌∙◌, Bool, true, false, some, List, [], ◌∷◌, ◌++◌, arith, Bool-cases, inl, inr,
}
use scmdb_log_watcher_es.Text.{
  Text, codes, text_eq, text_eq_iff, contains, strip, strip-strip, upper, upper_code,
}
use scmdb_log_watcher_es.Dict.{lookup}
use scmdb_log_watcher_es.Config.Paths.{
  FilePath, name, parent, child, last_part, without_last, text, Config, tracked_channel, game_log,
  stripped, star_citizen_channels, log_of_install, resolve_log_path_from_config,
}
use scmdb_log_watcher_es.Config.Settings.{
  SettingsSaveResult, is_hotfix, validate_game_install_dir, build_log_path, tracked_dir,
  build_settings_save_result,
}

last_part-append : (parts : List Text) (part : Text) → last_part (parts ++ part ∷ []) ≡ part
last_part-append [] part = refl
last_part-append (p ∷ []) part = refl
last_part-append (p ∷ q ∷ parts) part = last_part-append (q ∷ parts) part

without_last-append : (parts : List Text) (part : Text) → without_last (parts ++ part ∷ []) ≡ parts
without_last-append [] part = refl
without_last-append (p ∷ []) part = refl
without_last-append (p ∷ q ∷ parts) part = ap (λ ps. p ∷ ps) (without_last-append (q ∷ parts) part)

pub name-child : (p : FilePath) (part : Text) → name (child p part) ≡ part
unfolding name
name-child p part = last_part-append p.parts part

parent-child : (p : FilePath) (part : Text) → parent (child p part) ≡ p
unfolding parent
parent-child p part = ap (λ ps. record p { parts = ps }) (without_last-append p.parts part)

-- A path to the log of a channel directory that is named LIVE, in any case.
abbrev pub IsLive : FilePath → Type 0
IsLive p = (name p ≡ game_log) × (upper (name (parent p)) ≡ tracked_channel)

child-IsLive : (p : FilePath) → upper (name p) ≡ tracked_channel → IsLive (child p game_log)
child-IsLive p h = (name-child p game_log, rw (parent-child p game_log) h)

upper-tracked : upper tracked_channel ≡ tracked_channel
unfolding upper upper_code
upper-tracked = refl

child-child-IsLive : (p : FilePath) → IsLive (child (child p tracked_channel) game_log)
child-child-IsLive p =
    child-IsLive (child p tracked_channel) (ap upper (name-child p tracked_channel) ∙ upper-tracked)

pub log_of_install-IsLive : (p : FilePath) → IsLive (log_of_install p)
unfolding log_of_install
log_of_install-IsLive p = elim (Bool-cases (text_eq (upper (name p)) tracked_channel)) [
  | inl y ↦ rw y (child-IsLive p ((text_eq_iff (upper (name p)) tracked_channel).0 y))
  | inr n ↦ elim (Bool-cases (contains star_citizen_channels (upper (name p)))) [
    | inl y' ↦ rw (n, y') (child-child-IsLive (parent p))
    | inr n' ↦ rw (n, n') (child-child-IsLive p)
  ]
]

module _ (path_of : Text → FilePath) (text_of : FilePath → Text) where
  build_log_path-log_of_install :
      (game_dir : Text)
      → is_hotfix (path_of game_dir) ≡ false
      → build_log_path path_of text_of game_dir tracked_channel
        ≡ text_of (log_of_install (path_of game_dir))
  unfolding build_log_path log_of_install contains
  build_log_path-log_of_install game_dir h =
      let u = upper (name (path_of game_dir)) in
      ground (
        arith,
        h,
        text_eq_iff u tracked_channel,
        text_eq_iff tracked_channel u,
        text_eq_iff u (codes "HOTFIX"),
        text_eq_iff (codes "HOTFIX") u,
      )

  -- The directory that is saved, where none is named HOTFIX twice over or has outer spaces.
  abbrev pub Saves : Text → Text → Type 0
  Saves raw dir = (is_hotfix (path_of dir) ≡ false) × (stripped (some (text dir)) ≡ some dir)

  -- What the form must look like above a directory that is named HOTFIX.
  abbrev pub Above : Text → Type 0
  Above raw =
      is_hotfix (path_of (strip raw)) ≡ true → Saves raw (text_of (parent (path_of (strip raw))))

  tracked_dir-Saves :
      (raw : Text) (c : ℕ) (s : Text)
      → strip raw ≡ c ∷ s
      → Above raw
      → Saves raw (tracked_dir path_of text_of (strip raw))
  unfolding tracked_dir
  tracked_dir-Saves raw c s e above = elim (Bool-cases (is_hotfix (path_of (strip raw)))) [
    | inl y ↦ rw y (above y)
    | inr n ↦ rw n (n, rw (strip-strip raw, e) refl)
  ]

  module _ (raw channel language : Text) (auto_start run_startup_tests : Bool) where
    abbrev result : SettingsSaveResult
    result =
        build_settings_save_result path_of text_of raw channel language auto_start run_startup_tests

    abbrev Filled : Text → Type 0
    Filled t =
        (c : ℕ) × (s : Text) × (t ≡ c ∷ s)
        × (result.game_dir ≡ tracked_dir path_of text_of t)
        × (result.log_path
            ≡ build_log_path path_of text_of (tracked_dir path_of text_of t) tracked_channel)

    result-Filled : (t : Text) → strip raw ≡ t → result.ok ≡ true → Filled t
    unfolding build_settings_save_result validate_game_install_dir
    result-Filled [] e ok = absurd (ground (arith, rw (e, validate_game_install_dir) at ok))
    result-Filled (c ∷ s) e ok =
        (c, s, refl, rw (e, validate_game_install_dir) refl, rw (e, validate_game_install_dir) refl)

  -- What the form shows as the path of the log is the log that the program finds when it reads the
  -- saved directory back from the configuration, and it is that of LIVE. If the directory in the form
  -- is named HOTFIX, then the one above it is not, and its text has no outer spaces.
  pub build_settings_save_result-resolve_log_path_from_config :
      (raw channel language : Text) (auto_start run_startup_tests : Bool) (config : Config)
      → Above raw
      → (build_settings_save_result path_of text_of raw channel language auto_start
          run_startup_tests).ok
        ≡ true
      → lookup (codes "game_install_dir") config
        ≡ some (
            text
              (build_settings_save_result path_of text_of raw channel language auto_start
                run_startup_tests).game_dir)
      → (p : FilePath) × (resolve_log_path_from_config path_of config ≡ some p)
        × IsLive p
        × ((build_settings_save_result path_of text_of raw channel language auto_start
              run_startup_tests).log_path
            ≡ text_of p)
  unfolding resolve_log_path_from_config
  build_settings_save_result-resolve_log_path_from_config raw channel language auto_start
        run_startup_tests config above ok kept =
      let (c, s, e, dir, path) =
        result-Filled raw channel language auto_start run_startup_tests (strip raw) refl ok in
      let d = tracked_dir path_of text_of (strip raw) in
      let (not_hotfix, plain) = tracked_dir-Saves raw c s e above in
      let found : lookup (codes "game_install_dir") config ≡ some (text d) =
        kept ∙ ap (λ t. some (text t)) dir in
      (
        log_of_install (path_of d),
        rw (found, resolve_log_path_from_config, plain) refl,
        log_of_install-IsLive (path_of d),
        path ∙ build_log_path-log_of_install d not_hotfix,
      )
