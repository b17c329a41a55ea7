-- ===== src/Gui/Valid/Close.antt =====
-- The import and the ways to close the window keep it valid.
use scmdb_log_watcher_es.Base.{
  ◌-◌, ◌≡◌, refl, sym, ap, ◌∙◌, Bool, true, false, Option, none, some, [], ◌∷◌, arith, if_both,
  if◌then◌else◌, ◌&&◌,
}
use scmdb_log_watcher_es.Text.{Text, codes, text_eq}
use scmdb_log_watcher_es.Gui.Command.{
  Command, command, lacking, Completed, ImportExecutionResult, import_result,
  resolve_import_command,
}
use scmdb_log_watcher_es.Gui.State.{Machine, Gui, show_message, close_action, save_inline_config}
use scmdb_log_watcher_es.Gui.Watch.{is_running, stop_running, stop_watcher}
use scmdb_log_watcher_es.Gui.Close.{
  hidden, hide_to_tray, begin_import, show_result, quit_application, on_close, run_import,
  import_message, import_done, handle_successful_import,
}
use scmdb_log_watcher_es.Gui.Valid.{Core, IsValid, Same, Same-IsValid}
use scmdb_log_watcher_es.Gui.Valid.Watch.{save_inline_config-Same}

handle_successful_import-Same : (path : Text) (g : Gui) → Same g (handle_successful_import path g)
unfolding handle_successful_import
handle_successful_import-Same [] g = refl
handle_successful_import-Same (c ∷ s) g = refl

module _ (m : Machine) where
  begin_import-IsValid :
      (ok : Bool) (g : Gui) → g.import_enabled ≡ true → IsValid g → IsValid (begin_import m ok g)
  begin_import-IsValid false g h v = v
  begin_import-IsValid true g h v = record {
    buttons = v.buttons;
    one_poll = v.one_poll;
    few_polls = v.few_polls;
    one_import = ground (arith, h, v.one_import);
    ended = v.ended;
    gone = v.gone;
  }

  pub run_import-IsValid :
      (g : Gui) → g.import_enabled ≡ true → IsValid g → IsValid (run_import m g)
  unfolding run_import
  run_import-IsValid g h v =
      let (ok, g') = save_inline_config m g in
      let s = save_inline_config-Same m g in
      begin_import-IsValid ok g' (sym (ap (λ (c : Core). c.import_enabled) s) ∙ h)
        (Same-IsValid g g' s v)

  show_result-Same : (r : ImportExecutionResult) (g : Gui) → Same g (show_result m r g)
  unfolding show_result
  show_result-Same r g =
      if_both (λ h. Same g h) r.ok (handle_successful_import r.output_path g)
        (show_message (codes "import_fail_msg") g) (handle_successful_import-Same r.output_path g)
        refl

  import_message-Same :
      (c : Command) (completed : Option Completed) (output_path : Text) (g : Gui)
      → Same g (import_message m c completed output_path g)
  unfolding import_message
  import_message-Same (lacking error) completed output_path g = refl
  import_message-Same (command base_cmd) none output_path g = refl
  import_message-Same (command base_cmd) (some result) output_path g =
      show_result-Same (import_result result (some output_path)) g

  finished-IsValid :
      (g : Gui) → IsValid g → IsValid (record g { import_enabled = true; imports = g.imports - 1 })
  finished-IsValid g v = record {
    buttons = v.buttons;
    one_poll = v.one_poll;
    few_polls = v.few_polls;
    one_import = ground (arith, v.one_import);
    ended = v.ended;
    gone = v.gone;
  }

  pub import_done-IsValid :
      (completed : Option Completed) (output_path : Text) (g : Gui)
      → IsValid g
      → IsValid (import_done m completed output_path g)
  unfolding import_done
  import_done-IsValid completed output_path g v =
      let base_cmd = resolve_import_command m.text_of m.files m.script_dir m.frozen in
      let g' = import_message m base_cmd completed output_path g in
      finished-IsValid g'
        (Same-IsValid g g' (import_message-Same base_cmd completed output_path g) v)

exited-IsValid :
    (runs : Bool) (g : Gui)
    → is_running g.proc ≡ runs
    → IsValid g
    → IsValid (record (stop_running runs (record g { exiting = true })) { visible = false })
unfolding stop_running
exited-IsValid false g e v = record {
  buttons = refl;
  one_poll = λ no. absurd (ground (arith, no));
  few_polls = v.few_polls;
  one_import = v.one_import;
  ended = λ yes. e;
  gone = λ yes. refl;
}
exited-IsValid true g e v = record {
  buttons = refl;
  one_poll = λ no. absurd (ground (arith, no));
  few_polls = v.few_polls;
  one_import = v.one_import;
  ended = λ yes. refl;
  gone = λ yes. refl;
}

pub quit_application-IsValid : (g : Gui) → IsValid g → IsValid (quit_application g)
unfolding quit_application stop_watcher
quit_application-IsValid g v =
    if_both IsValid g.exiting g
      (record (stop_watcher (record g { exiting = true })) { visible = false }) v
      (exited-IsValid (is_running g.proc) g refl v)

hidden-IsValid : (g : Gui) → IsValid g → IsValid (hidden g)
hidden-IsValid g v = record {
  buttons = v.buttons;
  one_poll = v.one_poll;
  few_polls = v.few_polls;
  one_import = v.one_import;
  ended = v.ended;
  gone = λ yes. refl;
}

pub hide_to_tray-IsValid : (g : Gui) → IsValid g → IsValid (hide_to_tray g)
unfolding hide_to_tray
hide_to_tray-IsValid g v =
    if_both IsValid g.tray_available
      (if g.close_hint_shown then hidden g else show_message (codes "tray_hint_msg") (hidden g))
      (show_message (codes "tray_unavailable_msg") g)
      (if_both IsValid g.close_hint_shown (hidden g)
        (show_message (codes "tray_hint_msg") (hidden g)) (hidden-IsValid g v) (hidden-IsValid g v))
      v

pub on_close-IsValid : (g : Gui) → IsValid g → IsValid (on_close g).1
unfolding on_close
on_close-IsValid g v =
    let tray = text_eq (close_action g) (codes "tray") && g.tray_available in
    if_both (λ (r : Bool × Gui). IsValid r.1) g.exiting (true, g)
      (if tray then (false, hide_to_tray g) else (false, quit_application g)) v
      (if_both (λ (r : Bool × Gui). IsValid r.1) tray (false, hide_to_tray g)
        (false, quit_application g) (hide_to_tray-IsValid g v) (quit_application-IsValid g v))
