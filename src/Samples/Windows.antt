-- ===== src/Samples/Windows.antt =====
-- Two processes of the window, and a run of the tests that cannot be started.
use scmdb_log_watcher_es.Gui.State.{close_action}
use scmdb_log_watcher_es.Gui.Session.{new_window}
use scmdb_log_watcher_es.Gui.Form.{Combo, close_combo, save_and_close}
use scmdb_log_watcher_es.Gui.Form.CloseAction.{Saves, close_action-save_and_close}
use scmdb_log_watcher_es.Base.{
  ◌++◌, ℕ, ◌+◌, ◌≡◌, ◌≢◌, refl, true, false, Option, none, some, [], ◌∷◌, arith,
}
use scmdb_log_watcher_es.Text.{Text, codes, text_eq}
use scmdb_log_watcher_es.Config.Catalog.{Catalog}
use scmdb_log_watcher_es.Gui.Labels.{Tracked}
use scmdb_log_watcher_es.Gui.Labels.Language.{relabel, window_in, relabel-window_in}
use scmdb_log_watcher_es.Gui.Lock
use scmdb_log_watcher_es.Gui.Lock.{
  out, in_window, Instances, idle, set_phase, close_handles, acquire, open_instance, close_window,
  is_open, launches,
}
use scmdb_log_watcher_es.Gui.Lock.Exclusion.{Reach-one, open_instance-close_window}
use scmdb_log_watcher_es.Runtime.Groups.Run.{
  TestGroup, Answer, not_run, group_result, run_test_groups,
}
use scmdb_log_watcher_es.Gui.Tests
use scmdb_log_watcher_es.Gui.Tests.{
  open_test_progress_window, run_grouped_tests_async, start_tests, all_idle, set_test_status, apply,
  Action, set_status, apply_done, status_running, worker_actions, Tests, first_tests,
  on_run_tests_clicked, clicks, posts, applies, Settling, steps_left,
}
use scmdb_log_watcher_es.Gui.Tests.Settles.{pending, ShowsLast}
use scmdb_log_watcher_es.Gui.Tests.Outcome.{Reach-settles, Reach-ShowsLast}

abbrev two : Instances
two = open_instance 1 true (open_instance 0 true idle)

two-Reach : Lock.Reach two
unfolding open_instance acquire set_phase
two-Reach =
    Lock.Reach.next (Lock.Reach.next Lock.Reach.here (launches idle 0 true refl))
      (launches (open_instance 0 true idle) 1 true refl)

shows-zero : two.phase 0 ≡ in_window
unfolding open_instance acquire set_phase
shows-zero = refl

Reach-one_example : two.phase 1 ≢ in_window
Reach-one_example = Reach-one 0 1 two-Reach shows-zero (λ e. ground (arith, e))

-- One has left its window, and another comes before its process has ended.
abbrev one : Instances
one = open_instance 0 true idle

one-Reach : Lock.Reach one
one-Reach = Lock.Reach.next Lock.Reach.here (launches idle 0 true refl)

others_out : (k : ℕ) → 0 ≢ k → one.phase k ≡ out
unfolding open_instance acquire set_phase
others_out k apart = ground (arith, apart)

open_instance-close_window_example :
    ((open_instance 1 true (close_window 0 one)).phase 1 ≡ in_window)
    × (is_open (close_window 0 one).handles ≡ false)
unfolding open_instance acquire set_phase
open_instance-close_window_example = open_instance-close_window 0 1 one-Reach refl others_out

-- No group can be run.
abbrev int_of : Text → Option ℕ
int_of s = none

abbrev answer : TestGroup → Answer
answer g = not_run

abbrev clicked : Tests
clicked = on_run_tests_clicked false (worker_actions int_of answer) first_tests

abbrev core_running : Action
core_running = set_status (codes "tests_group_core") status_running

abbrev all_posted : Tests
all_posted = record clicked { posted = core_running ∷ apply_done [] ∷ []; to_post = [] }

abbrev finished : Tests
finished = record all_posted {
  view = apply (apply_done []) (apply core_running clicked.view);
  posted = [];
}

clicked-Reach : Tests.Reach int_of false (some answer) clicked
unfolding first_tests all_idle set_test_status
clicked-Reach = clicks answer Tests.Reach.here

all_posted-Reach : Tests.Reach int_of false (some answer) all_posted
unfolding worker_actions run_test_groups group_result on_run_tests_clicked run_grouped_tests_async
    start_tests open_test_progress_window first_tests all_idle set_test_status
all_posted-Reach =
    posts (apply_done []) [] refl (posts core_running (apply_done [] ∷ []) refl clicked-Reach)

finished-Reach : Tests.Reach int_of false (some answer) finished
unfolding apply
finished-Reach =
    applies (apply_done []) [] refl
      (applies core_running (apply_done [] ∷ []) refl all_posted-Reach)

Reach-ShowsLast_example :
    (finished.view.tests_running ≡ false)
    × (finished.view.run_tests_enabled ≡ true)
    × ShowsLast int_of (some answer) finished.view
Reach-ShowsLast_example = Reach-ShowsLast int_of false finished-Reach refl

Reach-settles_example :
    ((n : ℕ) (t : Tests) → Settling n clicked t → n + steps_left t ≡ steps_left clicked)
    × (n : ℕ) × (t : Tests) × Settling n clicked t
    × (pending t ≡ [])
    × (t.view.tests_running ≡ false)
    × (t.view.run_tests_enabled ≡ true)
Reach-settles_example = Reach-settles int_of false clicked-Reach

-- A catalog with the title of the window in two languages.
abbrev two_titles : Catalog
two_titles = record {
  languages =
      (
        codes "es",
        record {
          code = codes "es";
          display_name = codes "es";
          native_name = codes "es";
          strings = (codes "window_title", codes "Visor") ∷ [];
        },
      )
      ∷ (
        codes "en",
        record {
          code = codes "en";
          display_name = codes "en";
          native_name = codes "en";
          strings = (codes "window_title", codes "Watcher") ∷ [];
        },
      )
      ∷ [];
  aliases = [];
}

-- The path behind the text.
abbrev behind : Text → Text → Text
behind text path = text ++ path

abbrev found_log : Tracked
found_log = record { path = codes "C:\\Game.log"; backups = codes "3" }

relabel-window_in_example :
    relabel behind two_titles
      ((codes "en", found_log) ∷ [])
      (window_in behind two_titles true (codes "es", found_log))
    ≡ window_in behind two_titles true (codes "en", found_log)
relabel-window_in_example =
    relabel-window_in behind two_titles true (codes "es", found_log) ((codes "en", found_log) ∷ [])

abbrev dialog : Combo
dialog = close_combo (λ key. key) (new_window [] true)

close_action-save_and_close_example :
    Saves
      (close_action (new_window [] true))
      (save_and_close (λ key. key) dialog (new_window [] true))
    × Saves
        (codes "tray")
        (save_and_close (λ key. key) (record dialog { current = 0 }) (new_window [] true))
    × Saves
        (codes "exit")
        (save_and_close (λ key. key) (record dialog { current = 1 }) (new_window [] true))
unfolding text_eq
close_action-save_and_close_example =
    close_action-save_and_close (λ key. key) (new_window [] true) refl
