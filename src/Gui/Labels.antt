-- ===== src/Gui/Labels.antt =====
-- python/scmdb_watcher/gui_view.py, `apply_language_to_widgets`, and `_refresh_test_group_labels` and
-- `_apply_language_to_ui` of python/watcher_gui.py: the texts of the widgets, by the attribute that holds
-- the widget. `has` is `hasattr`, and `tr` the text of a key in the user's language.
pub mod Language
pub mod Built
use scmdb_log_watcher_es.Base.{
  Bool, true, false, List, [], ◌∷◌, ◌++◌, ◌||◌, if◌then◌else◌, Option, none, some,
}
use scmdb_log_watcher_es.Text.{Text, codes}
use scmdb_log_watcher_es.Dict
use scmdb_log_watcher_es.Dict.{Dict}
use scmdb_log_watcher_es.Runtime.Groups.Run.{TestGroup, default_test_groups}
use scmdb_log_watcher_es.Gui.Tests.{
  GroupStatus, status_idle, status_running, status_ok, status_fail,
}

-- A widget, the key of its text, and whether it is set without asking if it is there.
pub record Labelled : Type 0 where
  pub widget : Text
  pub key : Text
  pub required : Bool

abbrev required : Text → Text → Labelled
required widget key = record { widget = widget; key = key; required = true }

abbrev optional : Text → Text → Labelled
optional widget key = record { widget = widget; key = key; required = false }

-- The calls in their order; `window` is the title of the window.
abbrev pub labelled : List Labelled
labelled =
    required (codes "window") (codes "window_title")
    ∷ required (codes "lbl_title") (codes "window_title")
    ∷ required (codes "lbl_subtitle") (codes "subtitle")
    ∷ optional (codes "lbl_chip") (codes "hero_chip")
    ∷ optional (codes "lbl_chip_status") (codes "hero_chip_status")
    ∷ optional (codes "lbl_hero_hint") (codes "hero_hint")
    ∷ optional (codes "lbl_config_section") (codes "config_section_title")
    ∷ optional (codes "lbl_game_dir") (codes "settings_game_dir")
    ∷ optional (codes "lbl_backup_count") (codes "settings_backup_count")
    ∷ optional (codes "lbl_language") (codes "settings_language")
    ∷ optional (codes "chk_auto") (codes "auto_start_label")
    ∷ required (codes "btn_start") (codes "btn_start")
    ∷ required (codes "btn_stop") (codes "btn_stop")
    ∷ optional (codes "btn_reload") (codes "btn_reload")
    ∷ required (codes "btn_import") (codes "btn_import")
    ∷ optional (codes "btn_run_tests") (codes "btn_run_tests")
    ∷ required (codes "btn_tray") (codes "btn_tray")
    ∷ required (codes "btn_settings") (codes "btn_settings")
    ∷ optional (codes "btn_save_config") (codes "settings_save")
    ∷ optional (codes "btn_open_runtime") (codes "btn_open_runtime")
    ∷ optional (codes "btn_browse_game_dir") (codes "settings_browse")
    ∷ optional (codes "txt_summary") (codes "ui_summary")
    ∷ optional (codes "lbl_status_hint") (codes "ui_summary")
    ∷ optional (codes "frm_tests") (codes "tests_groups_title")
    ∷ optional (codes "btn_open_releases") (codes "btn_open_releases")
    ∷ optional (codes "lbl_help") (codes "help")
    ∷ []

abbrev pub is_set : (Text → Bool) → Labelled → Bool
is_set has l = l.required || has l.widget

unfoldable pub set_texts : (Text → Bool) → (Text → Text) → List Labelled → Dict Text → Dict Text
set_texts has tr [] labels = labels
set_texts has tr (l ∷ ls) labels =
    set_texts has tr ls (if is_set has l then Dict.insert l.widget (tr l.key) labels else labels)

-- What the window finds when it shows the path: the log, and the number of its backups, as `str` writes
-- them.
pub record Tracked : Type 0 where
  pub path : Text
  pub backups : Text

-- `format` puts the path into the text, as `str.format` does.
module _ (format : Text → Text → Text) where
  -- `_refresh_path_text`
  unfoldable pub refresh_path_text : (Text → Text) → Tracked → Dict Text → Dict Text
  refresh_path_text tr found labels =
      Dict.insert (codes "lbl_backup_count_value") found.backups
        (Dict.insert (codes "lbl_path") (format (tr (codes "path_prefix")) found.path) labels)

  unfoldable pub apply_language_to_widgets :
      (Text → Bool) → (Text → Text) → Tracked → Dict Text → Dict Text
  unfolding set_texts
  apply_language_to_widgets has tr found labels =
      refresh_path_text tr found (set_texts has tr labelled labels)

-- The key of the status, its colour and its mark.
abbrev pub shown_as : GroupStatus → Text × Text × Text
shown_as status_running = (codes "tests_status_running", codes "#ef6c00", codes "...")
shown_as status_ok = (codes "tests_status_ok", codes "#2e7d32", codes "OK")
shown_as status_fail = (codes "tests_status_fail", codes "#c62828", codes "X")
shown_as status_idle = (codes "tests_status_idle", codes "#777777", codes ".")

abbrev or_idle : Option GroupStatus → GroupStatus
or_idle none = status_idle
or_idle (some status) = status

-- A line of the window of the tests: the text, the mark, and the colour of both.
pub record GroupLabel : Type 0 where
  pub text : Text
  pub mark : Text
  pub color : Text

abbrev pub group_label : (Text → Text) → TestGroup → GroupStatus → GroupLabel
group_label tr group status =
    let (text_status, color, mark) = shown_as status in
    record { text = tr group.key ++ (codes ": " ++ tr text_status); mark = mark; color = color }

abbrev labels_of : (Text → Text) → Dict GroupStatus → List TestGroup → List GroupLabel
labels_of tr statuses [] = []
labels_of tr statuses (group ∷ groups) =
    group_label tr group (or_idle (Dict.lookup group.key statuses)) ∷ labels_of tr statuses groups

-- `_refresh_test_group_labels`, when the window of the tests has been made.
unfoldable pub refresh_test_group_labels : (Text → Text) → Dict GroupStatus → List GroupLabel
refresh_test_group_labels tr statuses = labels_of tr statuses default_test_groups
