-- ===== src/Domain/Correlate.antt =====
-- `correlate_blueprint`: which lifecycle event a received blueprint is put down to.
use scmdb_log_watcher_es.Base.{
  ℕ, ◌+◌, ◌-◌, ◌≤◌, ◌<◌, ◌≡◌, refl, sym, subst, true, false, Option, none, some, List, [], ◌∷◌,
  ◌++◌, arith, All, All-append, append_assoc, append-nil, Bool-cases, inl, inr, ap, ◌∙◌,
}
use scmdb_log_watcher_es.Domain.State.{
  Instant, second, correlation_window, MissionLifecycleEvent, WatcherState, closer, correlate_loop,
  correlate_blueprint,
}

abbrev pub age : Instant → MissionLifecycleEvent → ℕ
age ts e = ts - e.ts

-- The event lies in the five seconds up to `ts`.
abbrev pub InWindow : Instant → MissionLifecycleEvent → Type 0
InWindow ts e = (e.ts ≤ ts) × (age ts e ≤ correlation_window)

-- The youngest event of the window, and the first of those that are as young.
pub record IsClosest (ts : Instant) (es : List MissionLifecycleEvent) (e : MissionLifecycleEvent)
    : Type 0 where
  pub before : List MissionLifecycleEvent
  pub after : List MissionLifecycleEvent
  pub splits : es ≡ before ++ e ∷ after
  pub in_window : InWindow ts e
  pub older_before : All (λ d. InWindow ts d → age ts e < age ts d) before
  pub none_younger : All (λ d. InWindow ts d → age ts e ≤ age ts d) after

abbrev pub Correlated : Instant → List MissionLifecycleEvent → Option MissionLifecycleEvent → Type 0
Correlated ts es none = All (λ d. ¬ InWindow ts d) es
Correlated ts es (some e) = IsClosest ts es e

-- `best_delta` belongs to `best`.
abbrev Delta : Instant → Option MissionLifecycleEvent → ℕ → Type 0
Delta ts none best_delta = correlation_window < best_delta
Delta ts (some e) best_delta = best_delta ≡ age ts e

module _ (ts : Instant) where
  weaken :
      (e : MissionLifecycleEvent) (bd : ℕ) (es : List MissionLifecycleEvent)
      → closer ts bd e ≡ true
      → All (λ d. ¬ InWindow ts d) es
      → All (λ d. InWindow ts d → age ts e < age ts d) es
  weaken e bd [] h a = tt
  weaken e bd (d ∷ es) h a = (λ w. absurd (a.0 w), weaken e bd es h a.1)

  shrink :
      (e f : MissionLifecycleEvent) (es : List MissionLifecycleEvent)
      → age ts f < age ts e
      → All (λ d. InWindow ts d → age ts e ≤ age ts d) es
      → All (λ d. InWindow ts d → age ts f < age ts d) es
  shrink e f [] h a = tt
  shrink e f (d ∷ es) h a = (λ w. omega (arith, a.0 w), shrink e f es h a.1)

  loosen :
      (e f : MissionLifecycleEvent) (es : List MissionLifecycleEvent)
      → age ts f < age ts e
      → All (λ d. InWindow ts d → age ts e < age ts d) es
      → All (λ d. InWindow ts d → age ts f < age ts d) es
  loosen e f [] h a = tt
  loosen e f (d ∷ es) h a = (λ w. omega (arith, a.0 w), loosen e f es h a.1)

  -- A closer event takes the place of the best one so far.
  replaced :
      (best : Option MissionLifecycleEvent) (bd : ℕ) (seen : List MissionLifecycleEvent)
      (e : MissionLifecycleEvent)
      → closer ts bd e ≡ true
      → Delta ts best bd
      → Correlated ts seen best
      → Correlated ts (seen ++ e ∷ []) (some e)
  replaced none bd seen e h d c = record {
    before = seen;
    after = [];
    splits = refl;
    in_window = ground arith;
    older_before = weaken e bd seen h c;
    none_younger = tt;
  }
  replaced (some b) bd seen e h d c = record {
    before = seen;
    after = [];
    splits = refl;
    in_window = ground arith;
    older_before =
        subst (λ x. All (λ d. InWindow ts d → age ts e < age ts d) x) (sym c.splits)
          (All-append (λ d. InWindow ts d → age ts e < age ts d) c.before (b ∷ c.after)
            (loosen b e c.before (ground arith) c.older_before)
            (λ w. ground arith, shrink b e c.after (ground arith) c.none_younger));
    none_younger = tt;
  }

  -- Any other event leaves it in place.
  kept :
      (best : Option MissionLifecycleEvent) (bd : ℕ) (seen : List MissionLifecycleEvent)
      (e : MissionLifecycleEvent)
      → closer ts bd e ≡ false
      → Delta ts best bd
      → Correlated ts seen best
      → Correlated ts (seen ++ e ∷ []) best
  kept none bd seen e h d c =
      All-append (λ d. ¬ InWindow ts d) seen (e ∷ []) c (λ w. ground arith, tt)
  kept (some b) bd seen e h d c = record {
    before = c.before;
    after = c.after ++ e ∷ [];
    splits = ap (λ x. x ++ e ∷ []) c.splits ∙ append_assoc c.before (b ∷ c.after) (e ∷ []);
    in_window = c.in_window;
    older_before = c.older_before;
    none_younger =
        All-append (λ d. InWindow ts d → age ts b ≤ age ts d) c.after (e ∷ []) c.none_younger
          (λ w. ground arith, tt);
  }

  loop-Correlated :
      (best : Option MissionLifecycleEvent) (bd : ℕ) (seen es : List MissionLifecycleEvent)
      → Delta ts best bd
      → Correlated ts seen best
      → Correlated ts (seen ++ es) (correlate_loop ts best bd es)
  unfolding correlate_loop
  loop-Correlated best bd seen [] d c = rw append-nil c
  loop-Correlated best bd seen (e ∷ es) d c = elim (Bool-cases (closer ts bd e)) [
    | inl y ↦
        rw (y, correlate_loop)
          (subst (λ x. Correlated ts x (correlate_loop ts (some e) (age ts e) es))
            (append_assoc seen (e ∷ []) es)
            (loop-Correlated (some e) (age ts e) (seen ++ e ∷ []) es refl
              (replaced best bd seen e y d c)))
    | inr n ↦
        rw (n, correlate_loop)
          (subst (λ x. Correlated ts x (correlate_loop ts best bd es))
            (append_assoc seen (e ∷ []) es)
            (loop-Correlated best bd (seen ++ e ∷ []) es d (kept best bd seen e n d c)))
  ]

-- A blueprint is put down to the youngest event of the last five seconds, to the first of several
-- that are as young, and to none exactly if the memory holds no event of these seconds.
pub correlate_blueprint-Correlated :
    (ts : Instant) (s : WatcherState) → Correlated ts s.recent_lifecycle (correlate_blueprint ts s)
unfolding correlate_blueprint
correlate_blueprint-Correlated ts s =
    loop-Correlated ts none (correlation_window + second) [] s.recent_lifecycle (omega arith) tt
