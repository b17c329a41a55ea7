-- ===== src/Gui/Launch.antt =====
-- What the window launches: the watcher of the log that the form shows, and never a second one.
use scmdb_log_watcher_es.Base.{◌≡◌, refl, sym, ap, ◌∙◌, subst, true, false, some}
use scmdb_log_watcher_es.Text.{codes, text_eq, strip}
use scmdb_log_watcher_es.Dict.{lookup, insert, lookup-insert, lookup-erase_other}
use scmdb_log_watcher_es.Config.Language.{normalize_language}
use scmdb_log_watcher_es.Config.Paths.{
  FilePath, text, Config, tracked_channel, resolve_log_path_from_config,
}
use scmdb_log_watcher_es.Config.Settings.{SettingsSaveResult, spanish, truth}
use scmdb_log_watcher_es.Config.Settings.Live.{
  IsLive, Above, build_settings_save_result-resolve_log_path_from_config,
}
use scmdb_log_watcher_es.Gui.State.{
  Machine, Gui, flag, inline_config, inline_result, take_result, save_config,
  apply_config_to_inputs, save_inline_config, configured_log_path,
}

-- The configuration after saving.
abbrev saved_config : SettingsSaveResult → Config → Config
saved_config r config =
    insert (codes "auto_start_with_sc") (flag false)
      (insert (codes "language") (text r.language) (inline_config r config))

lookup-saved_config :
    (r : SettingsSaveResult) (config : Config)
    → lookup (codes "game_install_dir") (saved_config r config) ≡ some (text r.game_dir)
unfolding text_eq
lookup-saved_config r config =
    rw
      (
        lookup-insert, lookup-insert, lookup-erase_other, lookup-insert, lookup-insert,
        lookup-insert,
      )
      refl

config-take_result :
    (m : Machine) (r : SettingsSaveResult) (g : Gui)
    → (take_result m true r g).1.config_data ≡ saved_config r g.config_data
unfolding take_result save_config apply_config_to_inputs
config-take_result m r g = refl

module _ (m : Machine) where
  config-save_inline_config :
      (g : Gui)
      → (inline_result m g).ok ≡ true
      → (save_inline_config m g).1.config_data ≡ saved_config (inline_result m g) g.config_data
  unfolding save_inline_config
  config-save_inline_config g ok =
      ap (λ b. (take_result m b (inline_result m g) g).1.config_data) ok
      ∙ config-take_result m (inline_result m g) g

  configured_log_path-resolved :
      (g : Gui) (p : FilePath)
      → resolve_log_path_from_config m.path_of g.config_data ≡ some p
      → configured_log_path m g ≡ p
  unfolding configured_log_path
  configured_log_path-resolved g p e = rw (e, configured_log_path) refl

  -- After the settings in the window are saved, the log that the window works with is that of the LIVE
  -- channel, at the very path of the result of saving. If the directory in the form is named HOTFIX,
  -- then the one above it is not, and its text has no outer spaces.
  pub configured_log_path-save_inline_config :
      (g : Gui)
      → Above m.path_of m.text_of (strip g.game_dir)
      → (inline_result m g).ok ≡ true
      → IsLive (configured_log_path m (save_inline_config m g).1)
        × ((inline_result m g).log_path
            ≡ m.text_of (configured_log_path m (save_inline_config m g).1))
  unfolding inline_result
  configured_log_path-save_inline_config g above ok =
      let g' = (save_inline_config m g).1 in
      let kept : lookup (codes "game_install_dir") g'.config_data
          ≡ some (text (inline_result m g).game_dir) =
        ap (λ c. lookup (codes "game_install_dir") c) (config-save_inline_config g ok)
        ∙ lookup-saved_config (inline_result m g) g.config_data in
      let (p, found, live, path) =
        build_settings_save_result-resolve_log_path_from_config m.path_of m.text_of
          (strip g.game_dir) tracked_channel (normalize_language g.combo_language spanish) false
          (truth (lookup (codes "run_startup_tests") g.config_data)) g'.config_data above ok kept in
      let e = configured_log_path-resolved g' p found in
      (subst IsLive (sym e) live, path ∙ ap m.text_of (sym e))
