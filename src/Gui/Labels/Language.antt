-- ===== src/Gui/Labels/Language.antt =====
-- A window whose language is changed shows what a window in that language would show.
use scmdb_log_watcher_es.Base.{◌≡◌, refl, ap, ◌∙◌, Bool, true, false, List, [], ◌∷◌, none, some}
use scmdb_log_watcher_es.Text.{Text, text_eq}
use scmdb_log_watcher_es.Dict
use scmdb_log_watcher_es.Dict.{Dict}
use scmdb_log_watcher_es.Config.Catalog.{Catalog, template}
use scmdb_log_watcher_es.Gui.Labels.{
  Tracked, set_texts, refresh_path_text, apply_language_to_widgets,
}
use scmdb_log_watcher_es.Gui.Labels.Built.{build_ui, new_labels}

-- `hasattr` for the widgets of a window.
abbrev pub has_widget : Dict Text → Text → Bool
has_widget labels widget = elim (Dict.lookup widget labels) [ none ↦ false | some _ ↦ true ]

module _ (format : Text → Text → Text) (c : Catalog) where
  -- The changes of the language, one after the other, with what the window finds at each.
  abbrev pub relabel : List (Text × Tracked) → Dict Text → Dict Text
  relabel [] labels = labels
  relabel ((language, found) ∷ changes) labels =
      relabel changes
        (apply_language_to_widgets format (has_widget labels) (template c language) found labels)

  -- A window that is made in this language.
  abbrev pub window_in : Bool → Text × Tracked → Dict Text
  window_in frozen (language, found) = new_labels format frozen (template c language) found

  abbrev pub last_change : Text × Tracked → List (Text × Tracked) → Text × Tracked
  last_change first [] = first
  last_change first (next ∷ changes) = last_change next changes

  apply_language_to_widgets-new_labels :
      (frozen : Bool) (old new : Text → Text) (before now : Tracked)
      → apply_language_to_widgets format
          (has_widget (new_labels format frozen old before))
          new
          now
          (new_labels format frozen old before)
        ≡ new_labels format frozen new now
  unfolding apply_language_to_widgets set_texts refresh_path_text new_labels build_ui text_eq
      Dict.lookup Dict.insert
  apply_language_to_widgets-new_labels true old new before now = refl
  apply_language_to_widgets-new_labels false old new before now = refl

  -- However often the language of a window is changed, its title and the texts of all its widgets but
  -- the label of the status are as in a window that is made in the last language and finds the same
  -- log and backups, in the installed program and from the sources: every text of the catalog is
  -- renewed, with the path of the log and the number of backups, and the others stay.
  pub relabel-window_in :
      (frozen : Bool) (first : Text × Tracked) (changes : List (Text × Tracked))
      → relabel changes (window_in frozen first) ≡ window_in frozen (last_change first changes)
  relabel-window_in frozen first [] = refl
  relabel-window_in frozen (language, before) ((next, now) ∷ changes) =
      ap (relabel changes) (
        apply_language_to_widgets-new_labels frozen (template c language) (template c next) before
          now)
      ∙ relabel-window_in frozen (next, now) changes
