-- ===== src/Gui/Tests/Orderly.antt =====
-- Every step keeps the window of the tests in order: what is to come is nothing, or the rest of one run.
use scmdb_log_watcher_es.Base.{
  ℕ, ◌≡◌, refl, sym, ap, ◌∙◌, subst, Bool, true, false, Option, none, some, List, [], ◌∷◌, ◌++◌,
  arith, if◌then◌else◌,
}
use scmdb_log_watcher_es.Text.{Text}
use scmdb_log_watcher_es.Dict
use scmdb_log_watcher_es.Dict.{Dict, lookup-insert}
use scmdb_log_watcher_es.Runtime.Groups.Run.{
  TestGroup, TestGroupResult, default_test_groups, Answer, run_test_groups,
}
use scmdb_log_watcher_es.Gui.Tests.{
  skipped_frozen, TestView, set_test_status, update_test_summary, open_test_progress_window, Action,
  set_status, apply_done, apply, results_or_none, worker_actions, Tests, start_tests,
  run_grouped_tests_async, on_run_tests_clicked, last_run,
}
use scmdb_log_watcher_es.Gui.Tests.Settles.{
  pending, apply_all, IsScript, ShowsLast, Flags, all_idle-Flags, actions-IsScript,
  start_tests-Shows,
}

-- Either nothing is to come and the tests are not running, or what is to come is the rest of the last
-- run; and when all of it has come the window shows that run.
pub data IsOrderly (int_of : Text → Option ℕ) (last : Option (TestGroup → Answer)) (s : Tests)
    : Type 0 where
  quiet :
      pending s ≡ []
      → Flags false true s.view
      → ShowsLast int_of last s.view
      → IsOrderly int_of last s
  busy :
      IsScript (pending s)
      → Flags true false s.view
      → ShowsLast int_of last (apply_all (pending s) s.view)
      → IsOrderly int_of last s

apply_all_same :
    (xs : List Action) (u v : TestView)
    → u.group_status ≡ v.group_status
    → (apply_all xs u).group_status ≡ (apply_all xs v).group_status
unfolding apply_all apply set_test_status update_test_summary
apply_all_same [] u v h = h
apply_all_same (set_status key shown ∷ xs) u v h =
    apply_all_same xs (set_test_status key shown u) (set_test_status key shown v)
      (ap (Dict.insert key shown) h)
apply_all_same (apply_done rs ∷ xs) u v h =
    apply_all_same xs (apply (apply_done rs) u) (apply (apply_done rs) v) h

ShowsLast-same :
    (int_of : Text → Option ℕ) (last : Option (TestGroup → Answer)) (u v : TestView)
    → u.group_status ≡ v.group_status
    → ShowsLast int_of last u
    → ShowsLast int_of last v
ShowsLast-same int_of none u v h l = λ k known. ap (Dict.lookup k) (sym h) ∙ l k known
ShowsLast-same int_of (some answer) u v h l = λ k known. ap (Dict.lookup k) (sym h) ∙ l k known

append-nil_left : (xs ys : List Action) → xs ++ ys ≡ [] → xs ≡ []
append-nil_left [] ys h = refl
append-nil_left (x ∷ xs) ys h = absurd (ground (arith, h))

last_one : (rs : List TestGroupResult) (xs : List Action) → IsScript (apply_done rs ∷ xs) → xs ≡ []
last_one rs [] i = refl
last_one rs (x ∷ xs) i = absurd i

-- A run that is started when nothing is to come.
module _ (int_of : Text → Option ℕ) (s : Tests) where
  start_tests-IsOrderly :
      (answer : TestGroup → Answer)
      → pending s ≡ []
      → IsOrderly int_of (some answer) (start_tests (worker_actions int_of answer) s)
  unfolding start_tests update_test_summary worker_actions
  start_tests-IsOrderly answer q =
      let free : s.posted ≡ [] = append-nil_left s.posted s.to_post q in
      let actions = worker_actions int_of answer in
      let t = start_tests actions s in
      let scripted : IsScript (s.posted ++ actions) =
        subst (λ xs. IsScript (xs ++ actions)) (sym free)
          (actions-IsScript int_of answer (run_test_groups int_of answer default_test_groups).0
            (results_or_none (run_test_groups int_of answer default_test_groups).1)) in
      busy scripted
        (all_idle-Flags true false default_test_groups _
          (record { runs = refl; enabled_is = refl }))
        (subst (λ xs. ShowsLast int_of (some answer) (apply_all (xs ++ actions) t.view)) (sym free)
          (start_tests-Shows int_of answer s actions refl))

module _ (int_of : Text → Option ℕ) (last : Option (TestGroup → Answer)) (s : Tests) where
  -- Other pending actions, the same in order, and a view that differs in the window only.
  pub IsOrderly-same :
      (t : Tests)
      → pending s ≡ pending t
      → t.view.tests_running ≡ s.view.tests_running
      → t.view.run_tests_enabled ≡ s.view.run_tests_enabled
      → s.view.group_status ≡ t.view.group_status
      → IsOrderly int_of last s
      → IsOrderly int_of last t
  IsOrderly-same t p r e g (quiet q f l) =
      quiet (sym p ∙ q) (record { runs = r ∙ f.runs; enabled_is = e ∙ f.enabled_is })
        (ShowsLast-same int_of last s.view t.view g l)
  IsOrderly-same t p r e g (busy i f l) =
      busy (subst IsScript p i) (record { runs = r ∙ f.runs; enabled_is = e ∙ f.enabled_is })
        (subst (λ xs. ShowsLast int_of last (apply_all xs t.view)) p
          (ShowsLast-same int_of last (apply_all (pending s) s.view) (apply_all (pending s) t.view)
            (apply_all_same (pending s) s.view t.view g) l))

  -- The next action, with what is to come after it.
  pub one-IsOrderly :
      (a : Action) (rest : List Action)
      → pending s ≡ a ∷ (rest ++ s.to_post)
      → IsOrderly int_of last s
      → IsOrderly int_of last (record s { view = apply a s.view; posted = rest })
  unfolding apply_all apply set_test_status update_test_summary
  one-IsOrderly a rest p (quiet q f l) = absurd (ground (arith, p, q))
  one-IsOrderly (set_status key shown) rest p (busy i f l) =
      busy (subst IsScript p i) (record { runs = f.runs; enabled_is = f.enabled_is })
        (subst (λ xs. ShowsLast int_of last (apply_all xs s.view)) p l)
  one-IsOrderly (apply_done rs) rest p (busy i f l) =
      let no_more : rest ++ s.to_post ≡ [] = last_one rs (rest ++ s.to_post) (subst IsScript p i) in
      quiet no_more (record { runs = refl; enabled_is = refl })
        (subst (λ xs. ShowsLast int_of last (apply_all xs s.view))
          (p ∙ ap (λ xs. apply_done rs ∷ xs) no_more) l)

  frozen-IsOrderly :
      (frozen : Bool) (answer : TestGroup → Answer)
      → pending s ≡ []
      → Flags false true s.view
      → ShowsLast int_of last s.view
      → IsOrderly int_of (if frozen then last else some answer) (
          if frozen
          then record s {
            view = update_test_summary skipped_frozen (open_test_progress_window s.view);
          }
          else start_tests
              (worker_actions int_of answer)
              (record s { view = open_test_progress_window s.view }))
  unfolding update_test_summary open_test_progress_window
  frozen-IsOrderly true answer q f l =
      quiet q (record { runs = f.runs; enabled_is = f.enabled_is })
        (ShowsLast-same int_of last s.view
          (update_test_summary skipped_frozen (open_test_progress_window s.view)) refl l)
  frozen-IsOrderly false answer q f l =
      start_tests-IsOrderly int_of (record s { view = open_test_progress_window s.view }) answer q

  pub click-IsOrderly :
      (frozen : Bool) (answer : TestGroup → Answer)
      → IsOrderly int_of last s
      → IsOrderly int_of
          (last_run frozen s answer last)
          (on_run_tests_clicked frozen (worker_actions int_of answer) s)
  unfolding on_run_tests_clicked run_grouped_tests_async open_test_progress_window
      update_test_summary
  click-IsOrderly frozen answer (quiet q f l) =
      let s' = record s { view = open_test_progress_window s.view } in
      subst
        (λ b. IsOrderly int_of (if b then last else if frozen then last else some answer) (
          if b
          then s'
          else if frozen
          then record s' { view = update_test_summary skipped_frozen s'.view }
          else start_tests (worker_actions int_of answer) s'))
        (sym f.runs) (frozen-IsOrderly frozen answer q f l)
  click-IsOrderly frozen answer (busy i f l) =
      let s' = record s { view = open_test_progress_window s.view } in
      subst
        (λ b. IsOrderly int_of (if b then last else if frozen then last else some answer) (
          if b
          then s'
          else if frozen
          then record s' { view = update_test_summary skipped_frozen s'.view }
          else start_tests (worker_actions int_of answer) s'))
        (sym f.runs) (IsOrderly-same s' refl refl refl refl (busy i f l))
