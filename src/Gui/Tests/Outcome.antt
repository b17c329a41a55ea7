-- ===== src/Gui/Tests/Outcome.antt =====
-- However clicks, posts and the window's thread take turns, the tests run once at a time, and the window
-- shows their results in the end.
use scmdb_log_watcher_es.Base.{
  ℕ, ◌≡◌, refl, sym, ap, ◌∙◌, subst, Bool, true, false, Option, List, [], ◌∷◌, ◌++◌, append_assoc,
  arith, length, length-append, suc, ◌+◌, if◌then◌else◌,
}
use scmdb_log_watcher_es.Text.{Text}
use scmdb_log_watcher_es.Runtime.Groups.Run.{TestGroup, default_test_groups, Answer}
use scmdb_log_watcher_es.Gui.Tests.{
  open_test_progress_window, worker_actions, Action, apply, Tests, run_grouped_tests_async,
  on_run_tests_clicked, clicks, closes, posts, applies, first_view, first_tests, last_run, Reach,
  here, Settling, settled, worker_posts, window_applies, steps_left,
}
use scmdb_log_watcher_es.Gui.Tests.Settles.{
  pending, IsScript, ShowsLast, all_idle-Flags, lookup-all_idle,
}
use scmdb_log_watcher_es.Gui.Tests.Orderly.{
  IsOrderly, quiet, busy, click-IsOrderly, IsOrderly-same, one-IsOrderly,
}

Reach-IsOrderly :
    (int_of : Text → Option ℕ) (frozen : Bool) {last : Option (TestGroup → Answer)} {s : Tests}
    → Reach int_of frozen last s
    → IsOrderly int_of last s
unfolding first_tests
Reach-IsOrderly int_of frozen here =
    quiet refl
      (all_idle-Flags false true default_test_groups first_view
        (record { runs = refl; enabled_is = refl }))
      (λ k known. lookup-all_idle k default_test_groups first_view ∙ rw known refl)
Reach-IsOrderly int_of frozen (clicks {last} {s} answer r) =
    click-IsOrderly int_of last s frozen answer (Reach-IsOrderly int_of frozen r)
Reach-IsOrderly int_of frozen (closes {last} {s} r) =
    IsOrderly-same int_of last s (record s { view = record s.view { window_shown = false } }) refl
      refl refl refl (Reach-IsOrderly int_of frozen r)
Reach-IsOrderly int_of frozen (posts {last} {s} a rest e r) =
    IsOrderly-same int_of last s (record s { posted = s.posted ++ a ∷ []; to_post = rest })
      (ap (λ xs. s.posted ++ xs) e ∙ sym (append_assoc s.posted (a ∷ []) rest)) refl refl refl
      (Reach-IsOrderly int_of frozen r)
Reach-IsOrderly int_of frozen (applies {last} {s} a rest e r) =
    one-IsOrderly int_of last s a rest (ap (λ xs. xs ++ s.to_post) e)
      (Reach-IsOrderly int_of frozen r)

if_true {ℓ κ} :
    {A : Type ℓ} (P : A → Type κ) (b : Bool) (x y : A) → b ≡ true → P x → P (if b then x else y)
if_true P true x y e h = h
if_true P false x y e h = absurd (ground (arith, e))

-- However clicks, closings, posts of the worker and the window's thread take turns: as soon as nothing is
-- left to come, the tests are not running, the button is enabled again, and every group has the status
-- of the run that was started last.
pub Reach-ShowsLast :
    (int_of : Text → Option ℕ) (frozen : Bool) {last : Option (TestGroup → Answer)} {s : Tests}
    → Reach int_of frozen last s
    → pending s ≡ []
    → (s.view.tests_running ≡ false)
      × (s.view.run_tests_enabled ≡ true)
      × ShowsLast int_of last s.view
Reach-ShowsLast int_of frozen r e = elim (Reach-IsOrderly int_of frozen r) [
  | quiet p f l ↦ (f.runs, f.enabled_is, l)
  | busy i f l ↦ absurd (subst IsScript e i)
]

-- And while something is to come, a click starts no second run.
pub Reach-one_run :
    (int_of : Text → Option ℕ) (frozen : Bool) {last : Option (TestGroup → Answer)} {s : Tests}
    (answer : TestGroup → Answer)
    → Reach int_of frozen last s
    → (pending s ≡ [] → ⊥)
    → (pending (on_run_tests_clicked frozen (worker_actions int_of answer) s) ≡ pending s)
      × (last_run frozen s answer last ≡ last)
unfolding on_run_tests_clicked run_grouped_tests_async open_test_progress_window
Reach-one_run int_of frozen {last} {s} answer r more = elim (Reach-IsOrderly int_of frozen r) [
  | quiet p f l ↦ absurd (more p)
  | busy i f l ↦ (
    if_true (λ t. pending t ≡ pending s) s.view.tests_running _ _ f.runs refl,
    if_true (λ o. o ≡ last) s.view.tests_running _ _ f.runs refl,
  )
]

steps_left-Settling : {n : ℕ} {s t : Tests} → Settling n s t → n + steps_left t ≡ steps_left s
steps_left-Settling settled = omega arith
steps_left-Settling (worker_posts {n} {s} {t} a rest e r) =
    let l : length s.to_post ≡ suc (length rest) = ap (λ (xs : List Action). length xs) e in
    omega (arith, steps_left-Settling r, l, length-append s.posted (a ∷ []))
steps_left-Settling (window_applies {n} {s} {t} a rest e r) =
    let l : length s.posted ≡ suc (length rest) = ap (λ (xs : List Action). length xs) e in
    omega (arith, steps_left-Settling r, l)

-- The window's thread takes what is posted, and the worker posts what it has left.
settle_posted :
    (posted : List Action) (s : Tests)
    → s.posted ≡ posted
    → s.to_post ≡ []
    → (n : ℕ) × (t : Tests) × Settling n s t × (pending t ≡ [])
settle_posted [] s p w = (0, s, settled, ap (λ xs. xs ++ s.to_post) p ∙ w)
settle_posted (a ∷ rest) s p w =
    let (n, t, r, e) =
      settle_posted rest (record s { view = apply a s.view; posted = rest }) refl w in
    (suc n, t, window_applies a rest p r, e)

settle_worker :
    (left : List Action) (s : Tests)
    → s.to_post ≡ left
    → (n : ℕ) × (t : Tests) × Settling n s t × (pending t ≡ [])
settle_worker [] s w = settle_posted s.posted s refl w
settle_worker (a ∷ rest) s w =
    let (n, t, r, e) =
      settle_worker rest (record s { posted = s.posted ++ a ∷ []; to_post = rest }) refl in
    (suc n, t, worker_posts a rest w r, e)

Settling-Reach :
    (int_of : Text → Option ℕ) (frozen : Bool) {last : Option (TestGroup → Answer)} {n : ℕ}
    {s t : Tests}
    → Settling n s t
    → Reach int_of frozen last s
    → Reach int_of frozen last t
Settling-Reach int_of frozen settled r = r
Settling-Reach int_of frozen (worker_posts a rest e more) r =
    Settling-Reach int_of frozen more (posts a rest e r)
Settling-Reach int_of frozen (window_applies a rest e more) r =
    Settling-Reach int_of frozen more (applies a rest e r)

-- From wherever a run of the tests stands, its worker and the window's thread have a fixed number of
-- steps left, in whatever order they take them; and by such steps alone it comes to its end, where the
-- tests are not running and the button is enabled, whatever the groups answered, an exception
-- included, and even if the window of the tests was closed.
pub Reach-settles :
    (int_of : Text → Option ℕ) (frozen : Bool) {last : Option (TestGroup → Answer)} {s : Tests}
    → Reach int_of frozen last s
    → ((n : ℕ) (t : Tests) → Settling n s t → n + steps_left t ≡ steps_left s)
      × (n : ℕ) × (t : Tests) × Settling n s t
      × (pending t ≡ [])
      × (t.view.tests_running ≡ false)
      × (t.view.run_tests_enabled ≡ true)
Reach-settles int_of frozen {last} {s} r =
    let (n, t, more, done) = settle_worker s.to_post s refl in
    let l = Reach-ShowsLast int_of frozen (Settling-Reach int_of frozen more r) done in
    (λ n t more. steps_left-Settling more, n, t, more, done, l.0, l.1)
