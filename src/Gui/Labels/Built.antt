-- ===== src/Gui/Labels/Built.antt =====
-- `_build_ui` and the constructor of python/watcher_gui.py: the texts that the widgets have when the
-- window is made. `frozen` is `sys.frozen`. The label of the status is not among them.
use scmdb_log_watcher_es.Base.{Bool, [], ◌∷◌, ◌++◌, if◌then◌else◌}
use scmdb_log_watcher_es.Text.{Text, codes}
use scmdb_log_watcher_es.Dict.{Dict}
use scmdb_log_watcher_es.Gui.Labels.{Tracked, refresh_path_text}

abbrev labelled_with : (Text → Text) → Text → Text → Text × Text
labelled_with tr widget key = (widget, tr key)

-- The title of the window, the card at the top and the one of the status.
abbrev head : (Text → Text) → Dict Text
head tr =
    labelled_with tr (codes "window") (codes "window_title")
    ∷ labelled_with tr (codes "lbl_chip") (codes "hero_chip")
    ∷ labelled_with tr (codes "lbl_chip_status") (codes "hero_chip_status")
    ∷ (codes "btn_minimize", codes "_")
    ∷ (codes "btn_close_window", codes "X")
    ∷ labelled_with tr (codes "lbl_title") (codes "window_title")
    ∷ labelled_with tr (codes "lbl_subtitle") (codes "subtitle")
    ∷ labelled_with tr (codes "lbl_hero_hint") (codes "hero_hint")
    ∷ labelled_with tr (codes "lbl_status_hint") (codes "ui_summary")
    ∷ labelled_with tr (codes "btn_start") (codes "btn_start")
    ∷ labelled_with tr (codes "btn_stop") (codes "btn_stop")
    ∷ labelled_with tr (codes "btn_reload") (codes "btn_reload")
    ∷ labelled_with tr (codes "btn_settings") (codes "btn_settings")
    ∷ []

-- The card of the configuration.
abbrev config_card : (Text → Text) → Dict Text
config_card tr =
    labelled_with tr (codes "lbl_config_section") (codes "config_section_title")
    ∷ labelled_with tr (codes "lbl_game_dir") (codes "settings_game_dir")
    ∷ labelled_with tr (codes "btn_browse_game_dir") (codes "settings_browse")
    ∷ labelled_with tr (codes "lbl_backup_count") (codes "settings_backup_count")
    ∷ (codes "lbl_backup_count_value", codes "0")
    ∷ labelled_with tr (codes "lbl_language") (codes "settings_language")
    ∷ []

-- The button of the tests is left out of the installed program.
abbrev footer_card : Bool → (Text → Text) → Dict Text
footer_card frozen tr =
    labelled_with tr (codes "btn_open_runtime") (codes "btn_open_runtime")
    ∷ ((if frozen
          then []
          else labelled_with tr (codes "btn_run_tests") (codes "btn_run_tests") ∷ [])
        ++ labelled_with tr (codes "btn_tray") (codes "btn_tray")
          ∷ labelled_with tr (codes "btn_import") (codes "btn_import")
          ∷ labelled_with tr (codes "btn_save_config") (codes "settings_save")
          ∷ (codes "lbl_path", [])
          ∷ labelled_with tr (codes "txt_summary") (codes "ui_summary")
          ∷ [])

unfoldable pub build_ui : Bool → (Text → Text) → Dict Text
build_ui frozen tr = head tr ++ (config_card tr ++ footer_card frozen tr)

-- The end of the constructor.
unfoldable pub new_labels : (Text → Text → Text) → Bool → (Text → Text) → Tracked → Dict Text
unfolding build_ui
new_labels format frozen tr found = refresh_path_text format tr found (build_ui frozen tr)
