-- ===== src/Gui/Tests/Settles.antt =====
-- What one run of the tests makes of the window.
use scmdb_log_watcher_es.Base.{
  ℕ, ◌≡◌, refl, ap, ◌∙◌, Bool, true, false, Option, none, some, List, [], ◌∷◌, ◌++◌, arith,
  if◌then◌else◌,
}
use scmdb_log_watcher_es.Text.{Text, text_eq}
use scmdb_log_watcher_es.Dict
use scmdb_log_watcher_es.Dict.{Dict, lookup-insert}
use scmdb_log_watcher_es.Runtime.Groups.Run.{
  TestGroup, TestGroupResult, default_test_groups, Answer, Call, group_start, group_done,
  run_test_groups, group_result, one_group,
}
use scmdb_log_watcher_es.Gui.Tests.{
  GroupStatus, status_idle, status_running, status_ok, status_fail, window_running, retold,
  TestView, set_test_status, update_test_summary, Action, set_status, apply_done, apply, actions_of,
  results_or_none, worker_actions, all_idle, Tests, start_tests,
}

-- All that is to come to the window's thread, in order.
abbrev pub pending : Tests → List Action
pending s = s.posted ++ s.to_post

unfoldable pub apply_all : List Action → TestView → TestView
unfolding apply
apply_all [] v = v
apply_all (a ∷ xs) v = apply_all xs (apply a v)

-- Only the last action is the one that ends the run.
abbrev pub IsScript : List Action → Type 0
IsScript [] = ⊥
IsScript (set_status key shown ∷ xs) = IsScript xs
IsScript (apply_done results ∷ []) = Unit
IsScript (apply_done results ∷ a ∷ xs) = ⊥

abbrev pub is_key : Text → List TestGroup → Bool
is_key k [] = false
is_key k (g ∷ gs) = if text_eq g.key k then true else is_key k gs

abbrev verdict : Bool → GroupStatus
verdict ok = if ok then status_ok else status_fail

-- The status of a group after a run: that of its result, running if it was not finished, and idle
-- behind that. `later` is what the groups behind make of it.
abbrev pub one_status :
    Text
    → TestGroup
    → Option TestGroupResult
    → (GroupStatus → GroupStatus)
    → GroupStatus
    → GroupStatus
one_status k g none later before = if text_eq g.key k then status_running else before
one_status k g (some r) later before =
    later
      (if text_eq r.key k then verdict r.ok else if text_eq g.key k then status_running else before)

abbrev pub final_status :
    (Text → Option ℕ) → (TestGroup → Answer) → Text → List TestGroup → GroupStatus → GroupStatus
final_status int_of answer k [] before = before
final_status int_of answer k (g ∷ gs) before =
    one_status k g (group_result int_of (answer g) g) (final_status int_of answer k gs) before

-- The window shows this run.
abbrev pub Shows : (Text → Option ℕ) → (TestGroup → Answer) → TestView → Type 0
Shows int_of answer v =
    (k : Text)
    → is_key k default_test_groups ≡ true
    → Dict.lookup k v.group_status
      ≡ some (final_status int_of answer k default_test_groups status_idle)

pub lookup-all_idle :
    (k : Text) (gs : List TestGroup) (v : TestView)
    → Dict.lookup k (all_idle gs v).group_status
      ≡ (if is_key k gs then some status_idle else Dict.lookup k v.group_status)
unfolding all_idle set_test_status
lookup-all_idle k [] v = refl
lookup-all_idle k (g ∷ gs) v = ground (
  arith,
  lookup-all_idle k gs (set_test_status g.key status_idle v),
  lookup-insert k g.key status_idle v.group_status,
)

-- The flags of the view.
pub record Flags (running enabled : Bool) (v : TestView) : Type 0 where
  pub runs : v.tests_running ≡ running
  pub enabled_is : v.run_tests_enabled ≡ enabled

pub all_idle-Flags :
    (a b : Bool) (gs : List TestGroup) (v : TestView) → Flags a b v → Flags a b (all_idle gs v)
unfolding all_idle set_test_status
all_idle-Flags a b [] v f = f
all_idle-Flags a b (g ∷ gs) v f =
    all_idle-Flags a b gs (set_test_status g.key status_idle v)
      (record { runs = f.runs; enabled_is = f.enabled_is })

lookup-set :
    (k key : Text) (status before : GroupStatus) (v : TestView)
    → Dict.lookup k v.group_status ≡ some before
    → Dict.lookup k (set_test_status key status v).group_status
      ≡ some (if text_eq key k then status else before)
unfolding set_test_status
lookup-set k key status before v h = ground (arith, lookup-insert k key status v.group_status, h)

module _ (int_of : Text → Option ℕ) (answer : TestGroup → Answer) where
  -- The actions of a run over some of the groups.
  abbrev script : List TestGroup → List Action
  script gs =
      actions_of (run_test_groups int_of answer gs).0
      ++ apply_done (results_or_none (run_test_groups int_of answer gs).1) ∷ []

  pub actions-IsScript :
      (cs : List Call) (rs : List TestGroupResult) → IsScript (actions_of cs ++ apply_done rs ∷ [])
  actions-IsScript [] rs = tt
  actions-IsScript (group_start g ∷ cs) rs = actions-IsScript cs rs
  actions-IsScript (group_done r ∷ cs) rs = actions-IsScript cs rs

  lookup-apply_done :
      (k : Text) (rs : List TestGroupResult) (v : TestView)
      → Dict.lookup k (apply (apply_done rs) v).group_status ≡ Dict.lookup k v.group_status
  unfolding apply update_test_summary
  lookup-apply_done k rs v = refl

  -- What the calls of a run make of the status of one group, whatever the results come to.
  abbrev Ends : Text → List Call → (GroupStatus → GroupStatus) → Type 0
  Ends k calls later =
      (rs : List TestGroupResult) (before : GroupStatus) (v : TestView)
      → Dict.lookup k v.group_status ≡ some before
      → Dict.lookup k (apply_all (actions_of calls ++ apply_done rs ∷ []) v).group_status
        ≡ some (later before)

  one_group-Ends :
      (k : Text) (g : TestGroup) (o : Option TestGroupResult)
      (more : List Call × Option (List TestGroupResult)) (later : GroupStatus → GroupStatus)
      → Ends k more.0 later
      → Ends k (one_group g o more).0 (one_status k g o later)
  unfolding apply_all apply update_test_summary
  one_group-Ends k g none more later h rs before v e = lookup-set k g.key status_running before v e
  one_group-Ends k g (some r) more later h rs before v e =
      let v' = set_test_status g.key status_running v in
      h rs _ (set_test_status r.key (verdict r.ok) v')
        (lookup-set k r.key (verdict r.ok) _ v' (lookup-set k g.key status_running before v e))

  run_test_groups-Ends :
      (k : Text) (gs : List TestGroup)
      → Ends k (run_test_groups int_of answer gs).0 (final_status int_of answer k gs)
  unfolding apply_all apply run_test_groups update_test_summary
  run_test_groups-Ends k [] = λ rs before v e. e
  run_test_groups-Ends k (g ∷ gs) =
      one_group-Ends k g (group_result int_of (answer g) g) (run_test_groups int_of answer gs)
        (final_status int_of answer k gs) (run_test_groups-Ends k gs)

  pub start_tests-Shows :
      (s : Tests) (actions : List Action)
      → actions ≡ worker_actions int_of answer
      → Shows int_of answer (apply_all actions (start_tests actions s).view)
  unfolding worker_actions start_tests update_test_summary
  start_tests-Shows s actions e k known =
      ap (λ x. Dict.lookup k (apply_all x (start_tests x s).view).group_status) e
      ∙ (let v : TestView = record s.view {
        tests_running = true;
        run_tests_enabled = false;
        summary = retold window_running s.view.summary;
      } in
          run_test_groups-Ends k default_test_groups
            (results_or_none (run_test_groups int_of answer default_test_groups).1) status_idle
            (all_idle default_test_groups v)
            (lookup-all_idle k default_test_groups v ∙ rw known refl))

-- The window shows the last run, or idle groups before the first.
abbrev pub ShowsLast : (Text → Option ℕ) → Option (TestGroup → Answer) → TestView → Type 0
ShowsLast int_of none v =
    (k : Text)
    → is_key k default_test_groups ≡ true
    → Dict.lookup k v.group_status ≡ some status_idle
ShowsLast int_of (some answer) v = Shows int_of answer v
