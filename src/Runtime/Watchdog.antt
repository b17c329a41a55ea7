-- ===== src/Runtime/Watchdog.antt =====
-- `start_parent_watchdog` of python/watcher.py.
use scmdb_log_watcher_es.Base.{
  ℕ, ◌≡◌, ◌↔◌, ◌⊎◌, refl, Bool, true, false, Option, none, some, List, [], ◌∷◌, ◌==◌, arith, inl,
  inr, if◌then◌else◌,
}

-- `_is_process_alive`: `signals` is whether the system finds the process.
unfoldable pub is_process_alive : (ℕ → Bool) → ℕ → Bool
is_process_alive signals pid = if pid == 0 then false else signals pid

-- One turn of the worker: whether `stop_event` is set within the interval, and whether the system
-- finds the parent then.
pub record Tick : Type 0 where
  pub stopped : Bool
  pub finds : ℕ → Bool

-- What the worker has done after some turns: it goes on, has been stopped, or asked for the shutdown.
pub data Worker : Type 0 where
  watching : Worker
  ended : Worker
  requested_shutdown : Worker

unfoldable pub worker : ℕ → List Tick → Worker
unfolding is_process_alive
worker parent_pid [] = watching
worker parent_pid (t ∷ ts) =
    let rest = worker parent_pid ts in
    if t.stopped
    then ended
    else if is_process_alive t.finds parent_pid
    then rest
    else requested_shutdown

-- `none` is no watchdog.
unfoldable pub start_parent_watchdog : Option ℕ → List Tick → Option Worker
unfolding worker
start_parent_watchdog none ts = none
start_parent_watchdog (some parent_pid) ts = some (worker parent_pid ts)

-- The turn neither stops the worker nor finds the parent gone.
abbrev pub Passes : ℕ → Tick → Type 0
Passes pid t = (t.stopped ≡ false) × (is_process_alive t.finds pid ≡ true)

abbrev pub Gone : ℕ → Tick → Type 0
Gone pid t = (t.stopped ≡ false) × (is_process_alive t.finds pid ≡ false)

-- The first turn that does not pass is one at which the parent is gone.
abbrev pub ParentGone : ℕ → List Tick → Type 0
ParentGone pid [] = ⊥
ParentGone pid (t ∷ ts) = Gone pid t ⊎ (Passes pid t × ParentGone pid ts)

one_turn :
    (stopped alive : Bool) (rest : Worker) (More : Type 0)
    → ((rest ≡ requested_shutdown) ↔ More)
    → ((if stopped then ended else if alive then rest else requested_shutdown) ≡ requested_shutdown)
      ↔ (((stopped ≡ false) × (alive ≡ false)) ⊎ (((stopped ≡ false) × (alive ≡ true)) × More))
one_turn true alive rest More ih = (
  λ e. ground (arith, e),
  λ h. elim h [ inl (s, a) ↦ ground (arith, s) | inr ((s, a), m) ↦ ground (arith, s) ],
)
one_turn false false rest More ih = (λ e. inl (refl, refl), λ h. refl)
one_turn false true rest More ih = (
  λ e. inr ((refl, refl), ih.0 e),
  λ h. elim h [ inl (s, a) ↦ ground (arith, a) | inr (p, m) ↦ ih.1 m ],
)

-- The worker asks for the shutdown exactly if it finds the parent gone before it is stopped.
pub worker_iff :
    (parent_pid : ℕ) (ts : List Tick)
    → (worker parent_pid ts ≡ requested_shutdown) ↔ ParentGone parent_pid ts
unfolding worker
worker_iff pid [] = (λ e. ground (arith, e), λ h. absurd h)
worker_iff pid (t ∷ ts) =
    one_turn t.stopped (is_process_alive t.finds pid) (worker pid ts) (ParentGone pid ts)
      (worker_iff pid ts)
