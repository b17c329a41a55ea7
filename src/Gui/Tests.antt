-- ===== src/Gui/Tests.antt =====
-- python/watcher_gui.py, the window of the tests: `_on_run_tests_clicked`, `_run_grouped_tests_async`
-- and what its worker has the window's thread do.
pub mod Settles
pub mod Orderly
pub mod Outcome
use scmdb_log_watcher_es.Base.{
  ℕ, suc, ◌+◌, ◌-◌, ◌≡◌, Bool, true, false, Option, none, some, List, [], ◌∷◌, ◌++◌, length, ◌==◌,
  if◌then◌else◌,
}
use scmdb_log_watcher_es.Text.{Text}
use scmdb_log_watcher_es.Dict
use scmdb_log_watcher_es.Dict.{Dict}
use scmdb_log_watcher_es.Runtime.Groups.Run.{
  TestGroup, TestGroupResult, default_test_groups, Answer, Call, group_start, group_done,
  run_test_groups,
}

-- `_group_status`
pub data GroupStatus : Type 0 where
  status_idle : GroupStatus
  status_running : GroupStatus
  status_ok : GroupStatus
  status_fail : GroupStatus

-- The text of `_test_summary_label`; the numbers are those of the passed, the failed and all groups.
pub data Summary : Type 0 where
  blank : Summary
  skipped_frozen : Summary
  window_running : Summary
  done_ok : ℕ → ℕ → Summary
  done_fail : ℕ → ℕ → ℕ → Summary

pub record TestView : Type 0 where
  pub tests_running : Bool
  pub run_tests_enabled : Bool
  pub window_shown : Bool
  -- `none` before the first window.
  pub summary : Option Summary
  pub group_status : Dict GroupStatus

-- `_set_test_status`
unfoldable pub set_test_status : Text → GroupStatus → TestView → TestView
set_test_status key status v = record v { group_status = Dict.insert key status v.group_status }

abbrev pub retold : Summary → Option Summary → Option Summary
retold text none = none
retold text (some old) = some text

unfoldable pub update_test_summary : Summary → TestView → TestView
update_test_summary text v = record v { summary = retold text v.summary }

-- `_open_test_progress_window`: a new window has a new, empty label.
unfoldable pub open_test_progress_window : TestView → TestView
open_test_progress_window v = record v {
  window_shown = true;
  summary = if v.window_shown then v.summary else some blank;
}

-- What the worker has the window's thread do: `_invoke_later` keeps the order.
pub data Action : Type 0 where
  set_status : Text → GroupStatus → Action
  apply_done : List TestGroupResult → Action

abbrev passed_of : List TestGroupResult → ℕ
passed_of [] = 0
passed_of (r ∷ rs) = if r.ok then suc (passed_of rs) else passed_of rs

abbrev pub summary_of : ℕ → List TestGroupResult → Summary
summary_of total [] = done_fail 0 total total
summary_of total (r ∷ rs) =
    let passed = passed_of (r ∷ rs) in
    if passed == total then done_ok passed total else done_fail passed (total - passed) total

unfoldable pub apply : Action → TestView → TestView
unfolding set_test_status update_test_summary
apply (set_status key status) v = set_test_status key status v
apply (apply_done results) v =
    let shown = update_test_summary (summary_of (length default_test_groups) results) v in
    record shown { run_tests_enabled = true; tests_running = false }

-- `on_group_start` and `on_group_done`
abbrev pub action_of : Call → Action
action_of (group_start group) = set_status group.key status_running
action_of (group_done r) = set_status r.key (if r.ok then status_ok else status_fail)

abbrev pub actions_of : List Call → List Action
actions_of [] = []
actions_of (c ∷ cs) = action_of c ∷ actions_of cs

abbrev pub results_or_none : Option (List TestGroupResult) → List TestGroupResult
results_or_none none = []
results_or_none (some results) = results

-- `worker`: what it posts, from its start to its end.
unfoldable pub worker_actions : (Text → Option ℕ) → (TestGroup → Answer) → List Action
unfolding run_test_groups
worker_actions int_of answer =
    let (calls, results) = run_test_groups int_of answer default_test_groups in
    actions_of calls ++ apply_done (results_or_none results) ∷ []

unfoldable pub all_idle : List TestGroup → TestView → TestView
unfolding set_test_status
all_idle [] v = v
all_idle (group ∷ groups) v = all_idle groups (set_test_status group.key status_idle v)

-- The window, what is posted to its thread, and what the worker has still to post.
pub record Tests : Type 0 where
  pub view : TestView
  pub posted : List Action
  pub to_post : List Action

-- The part of `_run_grouped_tests_async` after its guards; the worker's thread is started.
unfoldable pub start_tests : List Action → Tests → Tests
unfolding update_test_summary all_idle
start_tests actions s =
    let disabled = record s.view { tests_running = true; run_tests_enabled = false } in
    record s {
      view = all_idle default_test_groups (update_test_summary window_running disabled);
      to_post = actions;
    }

unfoldable pub run_grouped_tests_async : Bool → List Action → Tests → Tests
unfolding start_tests update_test_summary
run_grouped_tests_async frozen actions s =
    if s.view.tests_running
    then s
    else if frozen
    then record s { view = update_test_summary skipped_frozen s.view }
    else start_tests actions s

unfoldable pub on_run_tests_clicked : Bool → List Action → Tests → Tests
unfolding open_test_progress_window run_grouped_tests_async
on_run_tests_clicked frozen actions s =
    run_grouped_tests_async frozen actions (record s { view = open_test_progress_window s.view })

abbrev pub first_view : TestView
first_view = record {
  tests_running = false;
  run_tests_enabled = true;
  window_shown = false;
  summary = none;
  group_status = [];
}

-- The window at its start: `_group_status` has every group as idle.
unfoldable pub first_tests : Tests
unfolding all_idle
first_tests = record { view = all_idle default_test_groups first_view; posted = []; to_post = [] }

-- The answers of the run that was started last: a click starts none while tests run, or if the program
-- is frozen.
abbrev pub last_run :
    Bool → Tests → (TestGroup → Answer) → Option (TestGroup → Answer) → Option (TestGroup → Answer)
last_run frozen s answer last =
    if s.view.tests_running then last else if frozen then last else some answer

-- What comes of clicks, closings of the window of the tests, posts of the worker, and the window's
-- thread that takes what was posted first, in any order.
pub data Reach (int_of : Text → Option ℕ) (frozen : Bool)
    : Option (TestGroup → Answer) → Tests → Type 0 where
  here : Reach int_of frozen none first_tests
  clicks :
      {last : Option (TestGroup → Answer)} {s : Tests} (answer : TestGroup → Answer)
      → Reach int_of frozen last s
      → Reach int_of frozen
          (last_run frozen s answer last)
          (on_run_tests_clicked frozen (worker_actions int_of answer) s)
  closes :
      {last : Option (TestGroup → Answer)} {s : Tests}
      → Reach int_of frozen last s
      → Reach int_of frozen last (record s { view = record s.view { window_shown = false } })
  posts :
      {last : Option (TestGroup → Answer)} {s : Tests} (a : Action) (rest : List Action)
      → s.to_post ≡ a ∷ rest
      → Reach int_of frozen last s
      → Reach int_of frozen last (record s { posted = s.posted ++ a ∷ []; to_post = rest })
  applies :
      {last : Option (TestGroup → Answer)} {s : Tests} (a : Action) (rest : List Action)
      → s.posted ≡ a ∷ rest
      → Reach int_of frozen last s
      → Reach int_of frozen last (record s { view = apply a s.view; posted = rest })

-- A number of posts of the worker and of turns of the window's thread, and nothing else.
pub data Settling : ℕ → Tests → Tests → Type 0 where
  settled : {s : Tests} → Settling 0 s s
  worker_posts :
      {n : ℕ} {s t : Tests} (a : Action) (rest : List Action)
      → s.to_post ≡ a ∷ rest
      → Settling n (record s { posted = s.posted ++ a ∷ []; to_post = rest }) t
      → Settling (suc n) s t
  window_applies :
      {n : ℕ} {s t : Tests} (a : Action) (rest : List Action)
      → s.posted ≡ a ∷ rest
      → Settling n (record s { view = apply a s.view; posted = rest }) t
      → Settling (suc n) s t

-- The steps that are left.
abbrev pub steps_left : Tests → ℕ
steps_left s = length s.to_post + (length s.to_post + length s.posted)
