-- ===== src/Gui/Lock/Exclusion.antt =====
-- At most one process has a window, and no lock is left behind.
use scmdb_log_watcher_es.Base.{
  ℕ, ◌≡◌, ◌≢◌, refl, sym, ap, subst, ◌∙◌, Bool, true, false, not, List, [], ◌∷◌, ◌==◌, ==_iff,
  arith, inl, inr, Bool-cases, if◌then◌else◌,
}
use scmdb_log_watcher_es.Server.Bus.Delivery.{member}
use scmdb_log_watcher_es.Gui.Lock.{
  Phase, out, in_window, leaving, Instances, is_open, set_phase, close_handles, acquire, release,
  open_instance, close_window, end_process, Step, launches, closes_window, ends, Reach, here, next,
}

-- A process with a window has a handle, one that does not run has none, and windows are one at most.
record IsLocked (s : Instances) : Type 0 where
  held : (i : ℕ) → s.phase i ≡ in_window → member i s.handles ≡ true
  gone : (i : ℕ) → s.phase i ≡ out → member i s.handles ≡ false
  one : (i j : ℕ) → s.phase i ≡ in_window → s.phase j ≡ in_window → i ≡ j

member-close_handles :
    (i j : ℕ) (hs : List ℕ)
    → member j (close_handles i hs) ≡ (if i == j then false else member j hs)
unfolding close_handles
member-close_handles i j [] = ground arith
member-close_handles i j (h ∷ hs) = ground (arith, member-close_handles i j hs)

set_phase_other :
    (i j : ℕ) (v w : Phase) (phase : ℕ → Phase)
    → set_phase i v phase j ≡ w
    → (v ≡ w → ⊥)
    → (i ≢ j) × (phase j ≡ w)
unfolding set_phase
set_phase_other i j v w phase e d = elim (Bool-cases (i == j)) [
  | inl y ↦ absurd (d (rw y at e))
  | inr n ↦ (ground arith, rw n at e)
]

phase-elsewhere :
    (i j : ℕ) (v : Phase) (phase : ℕ → Phase) → (i == j) ≡ false → phase j ≡ set_phase i v phase j
unfolding set_phase
phase-elsewhere i j v phase n = rw n refl

phase-here : (i : ℕ) (v : Phase) (phase : ℕ → Phase) → set_phase i v phase i ≡ v
unfolding set_phase
phase-here i v phase = ground arith

member-none : (j : ℕ) (hs : List ℕ) → is_open hs ≡ false → member j hs ≡ false
member-none j [] e = refl
member-none j (h ∷ hs) e = absurd (ground (arith, e))

-- Taking the window or the handles from a process keeps the rest as it was.
close-IsLocked :
    (i : ℕ) (v : Phase) (s : Instances)
    → (v ≡ in_window → ⊥)
    → IsLocked s
    → IsLocked (record { handles = close_handles i s.handles; phase = set_phase i v s.phase })
close-IsLocked i v s d l = record {
  held = λ j e.
      let o = set_phase_other i j v in_window s.phase e d in
      ground (arith, member-close_handles i j s.handles, l.held j o.1, o.0);
  gone = λ j e. elim (Bool-cases (i == j)) [
    | inl y ↦ ground (arith, member-close_handles i j s.handles)
    | inr n ↦
        let there : s.phase j ≡ out = phase-elsewhere i j v s.phase n ∙ e in
        ground (arith, member-close_handles i j s.handles, l.gone j there)
  ];
  one = λ j k e f.
      l.one j k (set_phase_other i j v in_window s.phase e d).1
        (set_phase_other i k v in_window s.phase f d).1;
}

-- A open_instance that gets the lock finds no handle open, so no window either.
granted-IsLocked :
    (i : ℕ) (s : Instances)
    → is_open s.handles ≡ false
    → IsLocked s
    → IsLocked (record { handles = i ∷ s.handles; phase = set_phase i in_window s.phase })
granted-IsLocked i s free l =
    let alone : (j : ℕ) → set_phase i in_window s.phase j ≡ in_window → i ≡ j = λ j e.
      elim (Bool-cases (i == j)) [
        | inl y ↦ (==_iff i j).0 y
        | inr n ↦
            let h = l.held j (phase-elsewhere i j in_window s.phase n ∙ e) in
            absurd (ground (arith, h, member-none j s.handles free))
      ] in
    record {
      held = λ j e. ground (arith, (==_iff i j).1 (alone j e));
      gone = λ j e. elim (Bool-cases (i == j)) [
        | inl y ↦
            let shown : set_phase i in_window s.phase j ≡ in_window =
              ap (set_phase i in_window s.phase) (sym ((==_iff i j).0 y))
              ∙ phase-here i in_window s.phase in
            absurd (ground (arith, e, shown))
        | inr n ↦ rw n (member-none j s.handles free)
      ];
      one = λ j k e f. sym (alone j e) ∙ alone k f;
    }

-- A open_instance that does not get it is on its way out.
refused-IsLocked :
    (i : ℕ) (handles : List ℕ) (s : Instances)
    → ((j : ℕ) → (i == j) ≡ false → member j handles ≡ member j s.handles)
    → ((j : ℕ) → member j s.handles ≡ true → member j handles ≡ true)
    → IsLocked s
    → IsLocked (record { handles = handles; phase = set_phase i leaving s.phase })
refused-IsLocked i handles s same more l = record {
  held = λ j e.
      more j
        (l.held j (set_phase_other i j leaving in_window s.phase e (λ x. ground (arith, x))).1);
  gone = λ j e. elim (Bool-cases (i == j)) [
    | inl y ↦
        let shown : set_phase i leaving s.phase j ≡ leaving =
          ap (set_phase i leaving s.phase) (sym ((==_iff i j).0 y))
          ∙ phase-here i leaving s.phase in
        absurd (ground (arith, e, shown))
    | inr n ↦ same j n ∙ l.gone j (phase-elsewhere i j leaving s.phase n ∙ e)
  ];
  one = λ j k e f.
      l.one j k (set_phase_other i j leaving in_window s.phase e (λ x. ground (arith, x))).1
        (set_phase_other i k leaving in_window s.phase f (λ x. ground (arith, x))).1;
}

open_instance-IsLocked :
    (i : ℕ) (created : Bool) (s : Instances) → IsLocked s → IsLocked (open_instance i created s)
unfolding open_instance acquire
open_instance-IsLocked i false s l = refused-IsLocked i s.handles s (λ j n. refl) (λ j m. m) l
open_instance-IsLocked i true s l = elim (Bool-cases (is_open s.handles)) [
  | inl y ↦
      subst
        (λ b. IsLocked (record {
          handles = i ∷ s.handles;
          phase = set_phase i (if not b then in_window else leaving) s.phase;
        }))
        (sym y)
        (refused-IsLocked i (i ∷ s.handles) s (λ j n. rw n refl) (λ j m. ground (arith, m)) l)
  | inr n ↦
      subst
        (λ b. IsLocked (record {
          handles = i ∷ s.handles;
          phase = set_phase i (if not b then in_window else leaving) s.phase;
        }))
        (sym n) (granted-IsLocked i s n l)
]

Step-IsLocked : {s t : Instances} → Step s t → IsLocked s → IsLocked t
unfolding close_window end_process release
Step-IsLocked (launches s i created e) l = open_instance-IsLocked i created s l
Step-IsLocked (closes_window s i e) l = close-IsLocked i leaving s (λ x. ground (arith, x)) l
Step-IsLocked (ends s i) l = close-IsLocked i out s (λ x. ground (arith, x)) l

Reach-IsLocked : {s : Instances} → Reach s → IsLocked s
Reach-IsLocked here = record {
  held = λ i e. absurd (ground (arith, e));
  gone = λ i e. refl;
  one = λ i j e f. absurd (ground (arith, e));
}
Reach-IsLocked (next r st) = Step-IsLocked st (Reach-IsLocked r)

-- However the processes of the window are started, closed, ended or killed: while one has its window,
-- no other has one.
pub Reach-one :
    {s : Instances} (i j : ℕ) → Reach s → s.phase i ≡ in_window → i ≢ j → s.phase j ≢ in_window
Reach-one i j r e d f = d ((Reach-IsLocked r).one i j e f)

none_open : (hs : List ℕ) → ((j : ℕ) → member j hs ≡ false) → is_open hs ≡ false
none_open [] h = refl
none_open (i ∷ hs) h = absurd (ground (arith, h i))

-- When the only process of the window that runs has left its window, and `finally` has released the
-- lock, then the next process that gets its handle has a window, although the first may still be on
-- its way out.
pub open_instance-close_window :
    {s : Instances} (i j : ℕ)
    → Reach s
    → s.phase i ≡ in_window
    → ((k : ℕ) → i ≢ k → s.phase k ≡ out)
    → ((open_instance j true (close_window i s)).phase j ≡ in_window)
      × (is_open (close_window i s).handles ≡ false)
unfolding open_instance acquire close_window release
open_instance-close_window {s} i j r showing others =
    let free = none_open (close_handles i s.handles) (λ k. elim (Bool-cases (i == k)) [
      | inl y ↦ ground (arith, member-close_handles i k s.handles)
      | inr n ↦
          let apart : i ≢ k = λ e. ground (arith, n, (==_iff i k).1 e) in
          ground
            (arith, member-close_handles i k s.handles, (Reach-IsLocked r).gone k (others k apart))
    ]) in
    (rw free (phase-here j in_window (close_window i s).phase), free)
