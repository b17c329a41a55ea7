-- ===== src/Gui/Lock.antt =====
-- python/watcher_gui.py, `SingleInstanceLock` and `main`: the processes of the window on one machine.
-- Of the named mutex of Windows the model has what is documented: the object exists as long as a
-- handle to it is open, `CreateMutexW` opens one more handle and says whether the object existed, and
-- the handles of a process are closed when it ends.
pub mod Exclusion
use scmdb_log_watcher_es.Base.{ℕ, ◌≡◌, Bool, true, false, not, List, [], ◌∷◌, ◌==◌, if◌then◌else◌}

-- Where a process stands in `main`.
pub data Phase : Type 0 where
  -- It does not run.
  out : Phase
  -- `app.mainloop()`
  in_window : Phase
  -- On its way to its exit.
  leaving : Phase

-- The owners of the open handles, and the processes.
pub record Instances : Type 0 where
  pub handles : List ℕ
  pub phase : ℕ → Phase

abbrev pub idle : Instances
idle = record { handles = []; phase = λ i. out }

abbrev pub is_open : List ℕ → Bool
is_open [] = false
is_open (i ∷ is) = true

unfoldable pub set_phase : ℕ → Phase → (ℕ → Phase) → ℕ → Phase
set_phase i v phase j = if i == j then v else phase j

unfoldable pub close_handles : ℕ → List ℕ → List ℕ
close_handles i [] = []
close_handles i (j ∷ js) = let rest = close_handles i js in if j == i then rest else j ∷ rest

-- `acquire`, where `created` is whether `CreateMutexW` gives a handle.
unfoldable pub acquire : ℕ → Bool → List ℕ → List ℕ × Bool
acquire i created handles =
    if created then (i ∷ handles, not (is_open handles)) else (handles, false)

-- `release`
unfoldable pub release : ℕ → List ℕ → List ℕ
unfolding close_handles
release i handles = close_handles i handles

-- `main`, up to the window or the return of 0.
unfoldable pub open_instance : ℕ → Bool → Instances → Instances
unfolding acquire set_phase
open_instance i created s =
    let (handles, ok) = acquire i created s.handles in
    record { handles = handles; phase = set_phase i (if ok then in_window else leaving) s.phase }

-- `finally`
unfoldable pub close_window : ℕ → Instances → Instances
unfolding release set_phase
close_window i s = record { handles = release i s.handles; phase = set_phase i leaving s.phase }

-- The process ends, by itself or not.
unfoldable pub end_process : ℕ → Instances → Instances
unfolding close_handles set_phase
end_process i s = record { handles = close_handles i s.handles; phase = set_phase i out s.phase }

pub data Step : Instances → Instances → Type 0 where
  launches :
      (s : Instances) (i : ℕ) (created : Bool)
      → s.phase i ≡ out
      → Step s (open_instance i created s)
  closes_window : (s : Instances) (i : ℕ) → s.phase i ≡ in_window → Step s (close_window i s)
  ends : (s : Instances) (i : ℕ) → Step s (end_process i s)

pub data Reach : Instances → Type 0 where
  here : Reach idle
  next : {s t : Instances} → Reach s → Step s t → Reach t
