-- ===== src/Gui/OneWatcher.antt =====
-- The window never runs two watchers: it launches one only while none runs.
pub mod Steps
use scmdb_log_watcher_es.Base.{
  ℕ, ◌≡◌, refl, sym, ap, ◌∙◌, subst, ◌⊎◌, inl, inr, Bool, true, false, not, ◌&&◌, Option, none,
  some, List, [], ◌∷◌, arith, Bool-cases, if◌then◌else◌, if_both,
}
use scmdb_log_watcher_es.Text.{Text, codes, text_eq}
use scmdb_log_watcher_es.Config.Paths.{text}
use scmdb_log_watcher_es.Config.Settings.{SettingsSaveResult}
use scmdb_log_watcher_es.Gui.Command.{
  Command, command, lacking, port_of, ping_ok, ImportExecutionResult, Completed, import_result,
  resolve_import_command,
}
use scmdb_log_watcher_es.Gui.Status.{
  PollDecision, decide_poll_status, plain, build_status_text, orange,
}
use scmdb_log_watcher_es.Gui.State.{
  Machine, Gui, show_message, inline_result, take_result, save_config, apply_config_to_inputs,
  save_inline_config, reload_inline_config, close_action,
}
use scmdb_log_watcher_es.Gui.Watch.{
  is_running, Answers, stop_running, stop_watcher, start_process, start_saved, start_watcher,
  watcher_command, default_port, install_dir, launch, set_status, toggle_buttons, poll_status,
  poll_body, poll_running, poll_port, apply_decision, forget_start, in_grace,
}
use scmdb_log_watcher_es.Gui.Close.{
  hidden, hide_to_tray, show_from_tray, quit_application, on_close, open_settings, save_settings,
  close_settings, handle_successful_import, begin_import, run_import, show_result, import_message,
  import_done,
}
use scmdb_log_watcher_es.Gui.Valid.Watch.{should_start-decide_poll_status}
use scmdb_log_watcher_es.Gui.Session.{
  Step, clicks_start, disconnects, process_ends, timer_fires, fills_in, reloads, clicks_import,
  import_ends, opens_settings, saves_settings, cancels_settings, closes, shows, quits,
}

-- The watchers launched so far, and the last one's process.
abbrev pub trail : Gui → List (List Text) × Option Bool
trail g = (g.launched, g.proc)

-- Nothing is launched and the process is as before or has ended; or one is launched where none ran.
pub data OneWatcher (g h : Gui) : Type 0 where
  same : h.launched ≡ g.launched → h.proc ≡ g.proc → OneWatcher g h
  ended : h.launched ≡ g.launched → is_running h.proc ≡ false → OneWatcher g h
  began :
      (cmd : List Text)
      → is_running g.proc ≡ false
      → h.launched ≡ cmd ∷ g.launched
      → h.proc ≡ some true
      → OneWatcher g h

-- From here on the trail is that of another window.
pub moved : (g g' h : Gui) → trail g' ≡ trail g → OneWatcher g' h → OneWatcher g h
moved g g' h e (same l p) =
    same (l ∙ ap (λ (t : List (List Text) × Option Bool). t.0) e)
      (p ∙ ap (λ (t : List (List Text) × Option Bool). t.1) e)
moved g g' h e (ended l p) = ended (l ∙ ap (λ (t : List (List Text) × Option Bool). t.0) e) p
moved g g' h e (began cmd n l p) =
    began cmd (sym (ap (λ (t : List (List Text) × Option Bool). is_running t.1) e) ∙ n)
      (l ∙ ap (λ (t : List (List Text) × Option Bool). cmd ∷ t.0) e) p

pub kept : (g h : Gui) → trail h ≡ trail g → OneWatcher g h
kept g h e = moved g h h e (same refl refl)

pub stop_running-OneWatcher : (runs : Bool) (g : Gui) → OneWatcher g (stop_running runs g)
unfolding stop_running
stop_running-OneWatcher false g = same refl refl
stop_running-OneWatcher true g = ended refl refl

pub stop_watcher-OneWatcher : (g : Gui) → OneWatcher g (stop_watcher g)
unfolding stop_watcher
stop_watcher-OneWatcher g = stop_running-OneWatcher (is_running g.proc) g

module _ (m : Machine) where
  trail-take_result :
      (ok : Bool) (r : SettingsSaveResult) (g : Gui) → trail (take_result m ok r g).1 ≡ trail g
  unfolding take_result save_config apply_config_to_inputs
  trail-take_result false r g = refl
  trail-take_result true r g = refl

  pub trail-save_inline_config : (g : Gui) → trail (save_inline_config m g).1 ≡ trail g
  unfolding save_inline_config
  trail-save_inline_config g = trail-take_result (inline_result m g).ok (inline_result m g) g

  start_process-OneWatcher :
      (c : Option Command) (creates : Bool) (now : ℕ) (g : Gui)
      → is_running g.proc ≡ false
      → OneWatcher g (start_process m c creates now g)
  unfolding start_process launch
  start_process-OneWatcher none creates now g n = same refl refl
  start_process-OneWatcher (some (lacking error)) creates now g n = same refl refl
  start_process-OneWatcher (some (command cmd)) false now g n = same refl refl
  start_process-OneWatcher (some (command cmd)) true now g n = began cmd n refl refl

  start_saved-OneWatcher :
      (a : Answers) (ok runs lacks : Bool) (g : Gui)
      → is_running g.proc ≡ runs
      → OneWatcher g (start_saved m a ok runs lacks g)
  unfolding start_saved
  start_saved-OneWatcher a false runs lacks g n = same refl refl
  start_saved-OneWatcher a true true lacks g n = same refl refl
  start_saved-OneWatcher a true false true g n = same refl refl
  start_saved-OneWatcher a true false false g n =
      start_process-OneWatcher (watcher_command m g) a.creates a.now g n

  pub start_watcher-OneWatcher : (a : Answers) (g : Gui) → OneWatcher g (start_watcher m a g)
  unfolding start_watcher
  start_watcher-OneWatcher a g =
      let (ok, g') = save_inline_config m g in
      moved g g' (start_watcher m a g) (trail-save_inline_config g)
        (start_saved-OneWatcher a ok (is_running g'.proc) (text_eq (install_dir m g') []) g' refl)

  trail-apply_decision :
      (a : Answers) (version : Text) (d : PollDecision) (g : Gui)
      → d.should_start ≡ false
      → trail (apply_decision m a version d g) ≡ trail g
  unfolding apply_decision
  trail-apply_decision a version d g h = rw h refl

  trail-poll_running :
      (a : Answers) (running : Bool) (p : Bool × Text) (grace : Bool) (g : Gui)
      → trail (poll_running m a running p grace g) ≡ trail g
  unfolding poll_running
  trail-poll_running a running (ok, version) grace g =
      let d = decide_poll_status running ok false false in
      if_both (λ h. trail h ≡ trail g) (running && (not ok && grace))
        (toggle_buttons running (set_status (plain (codes "status_starting")) orange g))
        (apply_decision m a version d g) refl
        (trail-apply_decision a version d g (should_start-decide_poll_status m running ok))

  trail-forget_start : (running : Bool) (g : Gui) → trail (forget_start m running g) ≡ trail g
  trail-forget_start false g = refl
  trail-forget_start true g = refl

  trail-poll_port :
      (port : Option Text) (a : Answers) (g : Gui) → trail (poll_port m port a g) ≡ trail g
  trail-poll_port none a g = refl
  trail-poll_port (some port) a g =
      let running = is_running g.proc in
      trail-poll_running a running (ping_ok a.ping) (in_grace m g.watcher_start_time a.now)
        (forget_start m running g)
      ∙ trail-forget_start running g

  pub trail-poll_status : (a : Answers) (g : Gui) → trail (poll_status m a g) ≡ trail g
  unfolding poll_status poll_body
  trail-poll_status a g =
      if_both (λ h. trail h ≡ trail g) g.settings_open (toggle_buttons (is_running g.proc) g)
        (poll_port m (port_of m.int_of default_port g.config_data) a g) refl
        (trail-poll_port (port_of m.int_of default_port g.config_data) a g)

  trail-begin_import : (ok : Bool) (g : Gui) → trail (begin_import m ok g) ≡ trail g
  trail-begin_import false g = refl
  trail-begin_import true g = refl

  pub trail-run_import : (g : Gui) → trail (run_import m g) ≡ trail g
  unfolding run_import
  trail-run_import g =
      let (ok, g') = save_inline_config m g in trail-begin_import ok g' ∙ trail-save_inline_config g

  trail-handle_successful_import :
      (path : Text) (g : Gui) → trail (handle_successful_import path g) ≡ trail g
  unfolding handle_successful_import
  trail-handle_successful_import [] g = refl
  trail-handle_successful_import (c ∷ s) g = refl

  trail-import_message :
      (c : Command) (completed : Option Completed) (output_path : Text) (g : Gui)
      → trail (import_message m c completed output_path g) ≡ trail g
  unfolding import_message show_result
  trail-import_message (lacking error) completed output_path g = refl
  trail-import_message (command base_cmd) none output_path g = refl
  trail-import_message (command base_cmd) (some result) output_path g =
      let r = import_result result (some output_path) in
      if_both (λ h. trail h ≡ trail g) r.ok (handle_successful_import r.output_path g)
        (show_message (codes "import_fail_msg") g) (trail-handle_successful_import r.output_path g)
        refl

  pub trail-import_done :
      (completed : Option Completed) (output_path : Text) (g : Gui)
      → trail (import_done m completed output_path g) ≡ trail g
  unfolding import_done
  trail-import_done completed output_path g =
      trail-import_message (resolve_import_command m.text_of m.files m.script_dir m.frozen)
        completed output_path g
