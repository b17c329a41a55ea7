-- ===== src/Gui/Form/CloseAction.antt =====
-- The dialog of the settings and what closing the window does.
use scmdb_log_watcher_es.Base.{
  ℕ, ◌≡◌, refl, sym, ap, ◌∙◌, subst, false, ◌||◌, Option, some, [], ◌∷◌, arith, inl, inr, ◌⊎◌,
  Bool-cases, if◌then◌else◌,
}
use scmdb_log_watcher_es.Text.{
  Text, codes, text_eq, text_eq_iff, text_eq_refl, contains, lower, strip,
}
use scmdb_log_watcher_es.Dict.{Dict, lookup, insert, lookup-insert}
use scmdb_log_watcher_es.Config.Paths.{text}
use scmdb_log_watcher_es.Config.Settings.{str_or}
use scmdb_log_watcher_es.Gui.State.{Gui, close_action, save_config, flag}
use scmdb_log_watcher_es.Gui.Close.{save_settings}
use scmdb_log_watcher_es.Gui.Form.{
  Combo, find_text, item_at, select_found, set_combo_value, close_action_options, label_of,
  combo_of, close_combo, save_option, save_and_close,
}

-- The settings are saved, and closing the window does this from now on.
abbrev pub Saves : Text → Option Gui → Type 0
Saves action saved = (g : Gui) × (saved ≡ some g) × (close_action g ≡ action)

abbrev chosen : Text → Text
chosen a = if contains (codes "tray" ∷ codes "exit" ∷ []) a then a else codes "tray"

chosen-cases : (a : Text) → (chosen a ≡ codes "tray") ⊎ (chosen a ≡ codes "exit")
unfolding contains text_eq
chosen-cases a = elim (Bool-cases (text_eq (codes "tray") a)) [
  | inl y ↦ inl (subst (λ x. chosen x ≡ codes "tray") ((text_eq_iff (codes "tray") a).0 y) refl)
  | inr n ↦ elim (Bool-cases (text_eq (codes "exit") a)) [
    | inl y ↦ inr (subst (λ x. chosen x ≡ codes "exit") ((text_eq_iff (codes "exit") a).0 y) refl)
    | inr m ↦ inl (
        ap (λ b. if b then a else codes "tray")
          (ap (λ b. b || (text_eq (codes "exit") a || false)) n ∙ ap (λ b. b || false) m))
  ]
]

close_action-cases : (g : Gui) → (close_action g ≡ codes "tray") ⊎ (close_action g ≡ codes "exit")
unfolding close_action
close_action-cases g =
    chosen-cases
      (lower (strip (str_or (codes "tray") (lookup (codes "close_action") g.config_data))))

lookup-save_settings :
    (action : Text) (g : Gui)
    → lookup (codes "close_action") (save_settings action g).config_data ≡ some (text action)
unfolding save_settings save_config text_eq
lookup-save_settings action g =
    let first = insert (codes "close_action") (text action) g.config_data in
    let second = insert (codes "language") (text g.language) first in
    lookup-insert (codes "close_action") (codes "auto_start_with_sc") (flag false) second
    ∙ lookup-insert (codes "close_action") (codes "language") (text g.language) first
    ∙ lookup-insert (codes "close_action") (codes "close_action") (text action) g.config_data

close_action-save_settings :
    (action : Text) (g : Gui)
    → chosen (lower (strip action)) ≡ action
    → close_action (save_settings action g) ≡ action
unfolding close_action
close_action-save_settings action g h =
    ap (λ v. chosen (lower (strip (str_or (codes "tray") v)))) (lookup-save_settings action g) ∙ h

module _ (tr : Text → Text) (g : Gui)
    (differ : text_eq (tr (codes "close_action_tray")) (tr (codes "close_action_exit"))
      ≡ false) where
  abbrev tray_label : Text
  tray_label = tr (codes "close_action_tray")

  abbrev exit_label : Text
  exit_label = tr (codes "close_action_exit")

  abbrev two : Dict Text
  two = (tray_label, codes "tray") ∷ (exit_label, codes "exit") ∷ []

  options-two : close_action_options tr ≡ two
  unfolding close_action_options insert
  options-two =
      ap
        (λ b.
          if b
          then (tray_label, codes "exit") ∷ []
          else (tray_label, codes "tray") ∷ (exit_label, codes "exit") ∷ [])
        differ

  abbrev combo_at : ℕ → Combo
  combo_at i = record { items = tray_label ∷ exit_label ∷ []; current = i }

  found-tray : find_text tray_label (tray_label ∷ exit_label ∷ []) ≡ some 0
  unfolding find_text
  found-tray = ground (arith, text_eq_refl tray_label)

  found-exit : find_text exit_label (tray_label ∷ exit_label ∷ []) ≡ some 1
  unfolding find_text
  found-exit = ground (arith, differ, text_eq_refl exit_label)

  option-tray : lookup tray_label (close_action_options tr) ≡ some (codes "tray")
  unfolding lookup
  option-tray = ap (λ d. lookup tray_label d) options-two ∙ rw (text_eq_refl tray_label) refl

  option-exit : lookup exit_label (close_action_options tr) ≡ some (codes "exit")
  unfolding lookup
  option-exit =
      ap (λ d. lookup exit_label d) options-two ∙ rw (differ, text_eq_refl exit_label) refl

  tray-Saves : Saves (codes "tray") (save_and_close tr (combo_at 0) g)
  unfolding save_and_close save_option item_at contains lower strip text_eq
  tray-Saves = (
    save_settings (codes "tray") g,
    ap (λ o. save_option o g) option-tray,
    close_action-save_settings (codes "tray") g refl,
  )

  exit-Saves : Saves (codes "exit") (save_and_close tr (combo_at 1) g)
  unfolding save_and_close save_option item_at contains lower strip text_eq
  exit-Saves = (
    save_settings (codes "exit") g,
    ap (λ o. save_option o g) option-exit,
    close_action-save_settings (codes "exit") g refl,
  )

  combo_of-tray : combo_of tr (codes "tray") two ≡ combo_at 0
  unfolding combo_of label_of set_combo_value text_eq
  combo_of-tray = ap (λ o. select_found o tray_label (combo_at 0)) found-tray

  combo_of-exit : combo_of tr (codes "exit") two ≡ combo_at 1
  unfolding combo_of label_of set_combo_value text_eq
  combo_of-exit = ap (λ o. select_found o exit_label (combo_at 0)) found-exit

  close_combo-combo_of :
      (action : Text) → close_action g ≡ action → close_combo tr g ≡ combo_of tr action two
  unfolding close_combo
  close_combo-combo_of action e =
      ap (λ a. combo_of tr a (close_action_options tr)) e ∙ ap (combo_of tr action) options-two

  -- What the choices do, from any combo box of the two options.
  choices :
      (i : ℕ) (combo : Combo)
      → combo ≡ combo_at i
      → Saves (codes "tray") (save_and_close tr (record combo { current = 0 }) g)
        × Saves (codes "exit") (save_and_close tr (record combo { current = 1 }) g)
  choices i combo e =
      subst
        (λ k.
          Saves (codes "tray") (save_and_close tr (record k { current = 0 }) g)
          × Saves (codes "exit") (save_and_close tr (record k { current = 1 }) g))
        (sym e) (tray-Saves, exit-Saves)

  unchanged :
      (i : ℕ) (action : Text)
      → close_action g ≡ action
      → close_combo tr g ≡ combo_at i
      → Saves action (save_and_close tr (combo_at i) g)
      → Saves (close_action g) (save_and_close tr (close_combo tr g) g)
  unchanged i action e c h =
      subst (λ a. Saves a (save_and_close tr (close_combo tr g) g)) (sym e)
        (subst (λ k. Saves action (save_and_close tr k g)) (sym c) h)

  -- Whoever opens the settings and saves them changes nothing of what closing the window does, and
  -- whoever chooses the first or the second option has the window hide in the tray or exit. The texts
  -- of the two options differ.
  pub close_action-save_and_close :
      Saves (close_action g) (save_and_close tr (close_combo tr g) g)
      × Saves (codes "tray") (save_and_close tr (record (close_combo tr g) { current = 0 }) g)
      × Saves (codes "exit") (save_and_close tr (record (close_combo tr g) { current = 1 }) g)
  close_action-save_and_close = elim (close_action-cases g) [
    | inl e ↦
        let c = close_combo-combo_of (codes "tray") e ∙ combo_of-tray in
        let (hides, exits) = choices 0 (close_combo tr g) c in
        (unchanged 0 (codes "tray") e c tray-Saves, hides, exits)
    | inr e ↦
        let c = close_combo-combo_of (codes "exit") e ∙ combo_of-exit in
        let (hides, exits) = choices 1 (close_combo tr g) c in
        (unchanged 1 (codes "exit") e c exit-Saves, hides, exits)
  ]
