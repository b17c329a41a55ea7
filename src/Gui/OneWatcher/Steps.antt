-- ===== src/Gui/OneWatcher/Steps.antt =====
-- The same for every step that a session may take.
use scmdb_log_watcher_es.Base.{◌≡◌, refl, Bool, true, false, ◌&&◌, if◌then◌else◌, if_both}
use scmdb_log_watcher_es.Text.{codes, text_eq}
use scmdb_log_watcher_es.Gui.State.{
  Machine, Gui, show_message, save_config, apply_config_to_inputs, reload_inline_config,
  close_action, save_inline_config,
}
use scmdb_log_watcher_es.Gui.Watch.{is_running, stop_running, stop_watcher, poll_status}
use scmdb_log_watcher_es.Gui.Close.{
  hidden, hide_to_tray, show_from_tray, quit_application, on_close, open_settings, save_settings,
  close_settings, run_import, import_done,
}
use scmdb_log_watcher_es.Gui.Session.{
  Step, clicks_start, disconnects, process_ends, timer_fires, fills_in, reloads, clicks_save,
  clicks_tray, clicks_import, import_ends, opens_settings, saves_settings, cancels_settings, closes,
  shows, quits,
}
use scmdb_log_watcher_es.Gui.OneWatcher.{
  trail, OneWatcher, same, ended, kept, stop_watcher-OneWatcher, start_watcher-OneWatcher,
  trail-save_inline_config, trail-poll_status, trail-run_import, trail-import_done,
}

hidden-OneWatcher : (g : Gui) → OneWatcher g (hide_to_tray g)
unfolding hide_to_tray
hidden-OneWatcher g = kept g (hide_to_tray g) (
    if_both (λ h. trail h ≡ trail g) g.tray_available
      (if g.close_hint_shown then hidden g else show_message (codes "tray_hint_msg") (hidden g))
      (show_message (codes "tray_unavailable_msg") g)
      (if_both (λ h. trail h ≡ trail g) g.close_hint_shown (hidden g)
        (show_message (codes "tray_hint_msg") (hidden g)) refl refl)
      refl)

exited-OneWatcher :
    (runs : Bool) (g : Gui)
    → OneWatcher g (record (stop_running runs (record g { exiting = true })) { visible = false })
unfolding stop_running
exited-OneWatcher false g = same refl refl
exited-OneWatcher true g = ended refl refl

quit_application-OneWatcher : (g : Gui) → OneWatcher g (quit_application g)
unfolding quit_application stop_watcher
quit_application-OneWatcher g =
    if_both (λ h. OneWatcher g h) g.exiting g
      (record (stop_watcher (record g { exiting = true })) { visible = false }) (same refl refl)
      (exited-OneWatcher (is_running g.proc) g)

on_close-OneWatcher : (g : Gui) → OneWatcher g (on_close g).1
unfolding on_close
on_close-OneWatcher g =
    let tray = text_eq (close_action g) (codes "tray") && g.tray_available in
    if_both (λ (r : Bool × Gui). OneWatcher g r.1) g.exiting (true, g)
      (if tray then (false, hide_to_tray g) else (false, quit_application g)) (same refl refl)
      (if_both (λ (r : Bool × Gui). OneWatcher g r.1) tray (false, hide_to_tray g)
        (false, quit_application g) (hidden-OneWatcher g) (quit_application-OneWatcher g))

-- Whatever step is taken, at most one watcher is launched, and that only where none was running; and
-- the process that the window knows is then the new one. No other step makes a process run.
pub Step-OneWatcher : (m : Machine) {g h : Gui} → Step m g h → OneWatcher g h
unfolding reload_inline_config apply_config_to_inputs open_settings save_settings save_config
    close_settings show_from_tray
Step-OneWatcher m (clicks_start a g e s) = start_watcher-OneWatcher m a g
Step-OneWatcher m (disconnects g) = stop_watcher-OneWatcher g
Step-OneWatcher m (process_ends g e) = ended refl refl
Step-OneWatcher m (timer_fires a g p) = kept g (poll_status m a g) (trail-poll_status m a g)
Step-OneWatcher m (fills_in g d l) = same refl refl
Step-OneWatcher m (reloads g) = same refl refl
Step-OneWatcher m (clicks_save g s) =
    kept g (save_inline_config m g).1 (trail-save_inline_config m g)
Step-OneWatcher m (clicks_tray g s) = hidden-OneWatcher g
Step-OneWatcher m (clicks_import g e) = kept g (run_import m g) (trail-run_import m g)
Step-OneWatcher m (import_ends c o g p) = kept g (import_done m c o g) (trail-import_done m c o g)
Step-OneWatcher m (opens_settings g) = same refl refl
Step-OneWatcher m (saves_settings action g) = same refl refl
Step-OneWatcher m (cancels_settings g) = same refl refl
Step-OneWatcher m (closes g) = on_close-OneWatcher g
Step-OneWatcher m (shows g e) = same refl refl
Step-OneWatcher m (quits g) = quit_application-OneWatcher g
