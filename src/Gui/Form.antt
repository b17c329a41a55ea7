-- ===== src/Gui/Form.antt =====
-- python/watcher_gui.py, the dialog of the settings: `_set_combo_value`, `_close_action_options` and
-- the choice in `open_settings` with `save_and_close`. A combo box has the items of `QComboBox`.
pub mod CloseAction
use scmdb_log_watcher_es.Base.{
  ℕ, zero, suc, ◌+◌, ◌≡◌, refl, sym, ap, ◌∙◌, subst, Bool, true, false, ◌||◌, Option, none, some,
  List, [], ◌∷◌, ◌++◌, arith, length, inl, inr, ◌⊎◌, Bool-cases, if◌then◌else◌,
}
use scmdb_log_watcher_es.Text.{
  Text, codes, text_eq, text_eq_iff, text_eq_refl, contains, lower, strip,
}
use scmdb_log_watcher_es.Dict.{Dict, lookup, insert, lookup-insert}
use scmdb_log_watcher_es.Config.Paths.{text, Value}
use scmdb_log_watcher_es.Config.Settings.{str_or}
use scmdb_log_watcher_es.Gui.State.{Gui, close_action, save_config, flag}
use scmdb_log_watcher_es.Gui.Close.{save_settings}

pub record Combo : Type 0 where
  pub items : List Text
  pub current : ℕ

-- `combo.findText(value)`, `none` for -1.
unfoldable pub find_text : Text → List Text → Option ℕ
find_text value [] = none
find_text value (item ∷ items) =
    let rest = find_text value items in
    if text_eq item value then some 0 else elim rest [ none ↦ none | some i ↦ some (suc i) ]

-- `combo.currentText()`
unfoldable pub item_at : ℕ → List Text → Text
item_at i [] = []
item_at zero (item ∷ items) = item
item_at (suc i) (item ∷ items) = item_at i items

abbrev pub current_text : Combo → Text
current_text combo = item_at combo.current combo.items

-- What is done at the found index, or without one.
abbrev select_found : Option ℕ → Text → Combo → Combo
select_found (some idx) value combo = record combo { current = idx }
select_found none value combo = record {
  items = combo.items ++ value ∷ [];
  current = length combo.items;
}

-- `_set_combo_value`
unfoldable pub set_combo_value : Text → Combo → Combo
unfolding find_text
set_combo_value value combo = select_found (find_text value combo.items) value combo

-- `_close_action_options`
unfoldable pub close_action_options : (Text → Text) → Dict Text
close_action_options tr =
    insert (tr (codes "close_action_exit")) (codes "exit")
      ((tr (codes "close_action_tray"), codes "tray") ∷ [])

abbrev pub keys : Dict Text → List Text
keys [] = []
keys ((k, _) ∷ d) = k ∷ keys d

-- `next((label for label, value in ... if value == action), default)`
unfoldable pub label_of : Text → Text → Dict Text → Text
label_of default action [] = default
label_of default action ((label, value) ∷ d) =
    let rest = label_of default action d in if text_eq value action then label else rest

-- The combo box of the options, where the one of the action is chosen.
unfoldable pub combo_of : (Text → Text) → Text → Dict Text → Combo
unfolding label_of set_combo_value
combo_of tr action options =
    set_combo_value (label_of (tr (codes "close_action_tray")) action options)
      (record { items = keys options; current = 0 })

-- The combo box of a dialog that is opened.
unfoldable pub close_combo : (Text → Text) → Gui → Combo
unfolding close_action_options combo_of
close_combo tr g = combo_of tr (close_action g) (close_action_options tr)

-- The option that was looked up is saved; `none` is the error of a text that is no option.
unfoldable pub save_option : Option Text → Gui → Option Gui
unfolding save_settings
save_option none g = none
save_option (some action) g = some (save_settings action g)

-- `save_and_close`
unfoldable pub save_and_close : (Text → Text) → Combo → Gui → Option Gui
unfolding close_action_options save_option
save_and_close tr combo g = save_option (lookup (current_text combo) (close_action_options tr)) g
