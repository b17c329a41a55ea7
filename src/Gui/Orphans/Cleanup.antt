-- ===== src/Gui/Orphans/Cleanup.antt =====
-- Which processes the cleanup of orphans leaves.
use scmdb_log_watcher_es.Base.{
  ◌≡◌, refl, sym, subst, Bool, true, false, ◌&&◌, List, [], ◌∷◌, arith, Bool-cases, inl, inr, In,
  ◌⊎◌, &&_elim, if◌then◌else◌, ◌↔◌,
}
use scmdb_log_watcher_es.Gui.Orphans.{Process, is_orphan, force_cleanup_orphan_watchers}
use scmdb_log_watcher_es.Gui.Orphans.Filter.{Orphan, is_orphan-Orphan, Orphan-is_orphan}

-- No orphan, or it cannot be stopped.
abbrev Stays : (Process → Bool) → Process → Type 0
Stays stops p = ¬ Orphan p ⊎ (stops p ≡ false)

spared : (stops : Process → Bool) (q : Process) → (is_orphan q && stops q) ≡ false → Stays stops q
spared stops q n = elim (Bool-cases (is_orphan q)) [
  | inl y ↦ inr (ground (arith, n, y))
  | inr o ↦ inl (λ h. let y = Orphan-is_orphan q h in cc)
]

stopped : (stops : Process → Bool) (q : Process) → (is_orphan q && stops q) ≡ true → ¬ Stays stops q
stopped stops q y (inl n) = n (is_orphan-Orphan q (&&_elim (is_orphan q) (stops q) y).0)
stopped stops q y (inr n) = let s = (&&_elim (is_orphan q) (stops q) y).1 in ground (arith, s, n)

-- One step of the filter.
module _ (stops : Process → Bool) (p q : Process) (qs rest : List Process) where
  step_iff :
      (b : Bool)
      → (is_orphan q && stops q) ≡ b
      → In p rest ↔ (In p qs × Stays stops p)
      → In p (if b then rest else q ∷ rest) ↔ (In p (q ∷ qs) × Stays stops p)
  step_iff true e ih = (
    λ h. (inr (ih.0 h).0, (ih.0 h).1),
    λ h. elim (h.0) [
      | inl same ↦ absurd (stopped stops q e (subst (λ x. Stays stops x) same h.1))
      | inr i ↦ ih.1 (i, h.1)
    ],
  )
  step_iff false e ih = (
    λ h. elim h [
      | inl same ↦ (inl same, subst (λ x. Stays stops x) (sym same) (spared stops q e))
      | inr i ↦ (inr (ih.0 i).0, (ih.0 i).1)
    ],
    λ h. elim (h.0) [ inl same ↦ inl same | inr i ↦ inr (ih.1 (i, h.1)) ],
  )

-- The processes that are left are those that were there and are no orphans, or cannot be stopped.
-- An orphan is a Python interpreter whose command line has a word that ends with launcher.py or
-- watcher.py, or the program with core or import as one of the words behind the first.
pub force_cleanup_orphan_watchers_lem :
    (stops : Process → Bool) (p : Process) (ps : List Process)
    → In p (force_cleanup_orphan_watchers stops ps) ↔ (In p ps × (¬ Orphan p ⊎ (stops p ≡ false)))
unfolding force_cleanup_orphan_watchers
force_cleanup_orphan_watchers_lem stops p [] = (λ h. absurd h, λ h. absurd (h.0))
force_cleanup_orphan_watchers_lem stops p (q ∷ qs) =
    step_iff stops p q qs (force_cleanup_orphan_watchers stops qs) (is_orphan q && stops q) refl
      (force_cleanup_orphan_watchers_lem stops p qs)
