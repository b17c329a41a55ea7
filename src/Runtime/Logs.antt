-- ===== src/Runtime/Logs.antt =====
-- Old log files: `prune_old_log_files` of python/scmdb_watcher/runtime_service.py. A file is its time
-- of change and its number; `unlinks` says whether it can be removed.
use scmdb_log_watcher_es.Base.{
  ℕ, zero, suc, ◌+◌, ◌-◌, ◌≤◌, ◌≡◌, refl, sym, subst, Bool, List, [], ◌∷◌, ◌++◌, leb, arith, All,
  All-map, All-drop, length, take, drop, Bool-cases, if_both, ap, ◌∙◌, length-append, length-drop,
  inl, inr, if◌then◌else◌,
}

pub record LogFile : Type 0 where
  pub mtime : ℕ
  pub number : ℕ

-- `sorted(..., key=...)`: stable.
unfoldable pub insert_by_mtime : LogFile → List LogFile → List LogFile
insert_by_mtime f [] = f ∷ []
insert_by_mtime f (g ∷ fs) =
    let rest = insert_by_mtime f fs in if leb f.mtime g.mtime then f ∷ g ∷ fs else g ∷ rest

unfoldable pub sorted : List LogFile → List LogFile
unfolding insert_by_mtime
sorted [] = []
sorted (f ∷ fs) = insert_by_mtime f (sorted fs)

-- The loop over the files to delete: how many are deleted, and which stay.
unfoldable pub unlink_all : (LogFile → Bool) → List LogFile → ℕ × List LogFile
unlink_all unlinks [] = (0, [])
unlink_all unlinks (f ∷ fs) =
    let (deleted, stay) = unlink_all unlinks fs in
    if unlinks f then (deleted + 1, stay) else (deleted, f ∷ stay)

-- The number of deleted files, and the files that are left.
unfoldable pub prune_old_log_files : (LogFile → Bool) → List LogFile → ℕ → ℕ × List LogFile
unfolding sorted unlink_all
prune_old_log_files unlinks log_files keep =
    let files = sorted log_files in
    let excess = length files - keep in
    let (deleted, stay) = unlink_all unlinks (take excess files) in
    if leb (length files) keep then (0, files) else (deleted, stay ++ drop excess files)

-- Each file is at most as new as those behind it.
abbrev pub Sorted : List LogFile → Type 0
Sorted [] = Unit
Sorted (f ∷ fs) = All (λ g. f.mtime ≤ g.mtime) fs × Sorted fs

All-insert_by_mtime :
    (t : ℕ) (f : LogFile) (fs : List LogFile)
    → t ≤ f.mtime
    → All (λ g. t ≤ g.mtime) fs
    → All (λ g. t ≤ g.mtime) (insert_by_mtime f fs)
unfolding insert_by_mtime
All-insert_by_mtime t f [] h k = (h, tt)
All-insert_by_mtime t f (g ∷ fs) h k =
    if_both (All (λ g'. t ≤ g'.mtime)) (leb f.mtime g.mtime) (f ∷ g ∷ fs) (g ∷ insert_by_mtime f fs)
      (h, k) (k.0, All-insert_by_mtime t f fs h k.1)

behind_first :
    (t u : ℕ) (fs : List LogFile) → t ≤ u → All (λ g. u ≤ g.mtime) fs → All (λ g. t ≤ g.mtime) fs
behind_first t u fs h k =
    All-map (λ g. u ≤ g.mtime) (λ g. t ≤ g.mtime) (λ g e. omega (arith, h, e)) fs k

insert_by_mtime-Sorted :
    (f : LogFile) (fs : List LogFile) → Sorted fs → Sorted (insert_by_mtime f fs)
unfolding insert_by_mtime
insert_by_mtime-Sorted f [] s = (tt, tt)
insert_by_mtime-Sorted f (g ∷ fs) s = elim (Bool-cases (leb f.mtime g.mtime)) [
  | inl y ↦
      let h : f.mtime ≤ g.mtime = ground (arith, y) in
      subst (λ b. Sorted (if b then f ∷ g ∷ fs else g ∷ insert_by_mtime f fs)) (sym y)
        ((h, behind_first f.mtime g.mtime fs h s.0), s)
  | inr n ↦
      let h : g.mtime ≤ f.mtime = ground (arith, n) in
      subst (λ b. Sorted (if b then f ∷ g ∷ fs else g ∷ insert_by_mtime f fs)) (sym n)
        (All-insert_by_mtime g.mtime f fs h s.0, insert_by_mtime-Sorted f fs s.1)
]

sorted-Sorted : (fs : List LogFile) → Sorted (sorted fs)
unfolding sorted
sorted-Sorted [] = tt
sorted-Sorted (f ∷ fs) = insert_by_mtime-Sorted f (sorted fs) (sorted-Sorted fs)

length-insert_by_mtime :
    (f : LogFile) (fs : List LogFile) → length (insert_by_mtime f fs) ≡ suc (length fs)
unfolding insert_by_mtime
length-insert_by_mtime f [] = refl
length-insert_by_mtime f (g ∷ fs) =
    if_both (λ gs. length gs ≡ suc (suc (length fs))) (leb f.mtime g.mtime) (f ∷ g ∷ fs)
      (g ∷ insert_by_mtime f fs) refl (ap suc (length-insert_by_mtime f fs))

length-sorted : (fs : List LogFile) → length (sorted fs) ≡ length fs
unfolding sorted
length-sorted [] = refl
length-sorted (f ∷ fs) = length-insert_by_mtime f (sorted fs) ∙ ap suc (length-sorted fs)

-- In a sorted list, what comes first is no newer than what comes after.
abbrev pub OlderThan : List LogFile → List LogFile → Type 0
OlderThan fs gs = All (λ f. All (λ g. f.mtime ≤ g.mtime) gs) fs

Sorted-OlderThan : (n : ℕ) (fs : List LogFile) → Sorted fs → OlderThan (take n fs) (drop n fs)
Sorted-OlderThan zero fs s = tt
Sorted-OlderThan (suc n) [] s = tt
Sorted-OlderThan (suc n) (f ∷ fs) s =
    (All-drop (λ g. f.mtime ≤ g.mtime) n fs s.0, Sorted-OlderThan n fs s.1)

module _ (unlinks : LogFile → Bool) where
  length-unlink_all :
      (fs : List LogFile) → (unlink_all unlinks fs).0 + length (unlink_all unlinks fs).1 ≡ length fs
  unfolding unlink_all
  length-unlink_all [] = refl
  length-unlink_all (f ∷ fs) = ground (arith, length-unlink_all fs)

  length-take-drop :
      (n : ℕ) (fs : List LogFile) → length (take n fs) + length (drop n fs) ≡ length fs
  length-take-drop zero fs = omega arith
  length-take-drop (suc n) [] = omega arith
  length-take-drop (suc n) (f ∷ fs) = omega (arith, length-take-drop n fs)

  -- What is left after pruning, and how many files were deleted, make up the files there were; the
  -- files that pruning tries to delete are all but the last `keep` in the order of their times, so
  -- that none of them is newer than one that it lets be.
  pub prune_old_log_files_lem :
      (log_files : List LogFile) (keep : ℕ)
      → let (deleted, left) = prune_old_log_files unlinks log_files keep in
        let excess = length log_files - keep in
        (deleted + length left ≡ length log_files)
        × (deleted ≤ excess)
        × OlderThan (take excess (sorted log_files)) (drop excess (sorted log_files))
  unfolding prune_old_log_files
  prune_old_log_files_lem log_files keep =
      let files = sorted log_files in
      let n = length files - keep in
      let gone = take n files in
      let stay = (unlink_all unlinks gone).1 in
      let same = length-sorted log_files in
      let all = length-unlink_all gone in
      let parts = length-take-drop n files in
      let behind = length-drop n files in
      let both = length-append stay (drop n files) in
      let counts =
        if_both
          (λ (r : ℕ × List LogFile).
            (r.0 + length r.1 ≡ length log_files) × (r.0 ≤ length log_files - keep))
          (leb (length files) keep) (0, files) ((unlink_all unlinks gone).0, stay ++ drop n files)
          (omega (arith, same), omega arith)
          (omega (arith, same, all, parts, both), omega (arith, same, all, parts, behind)) in
      (
        counts.0,
        counts.1,
        subst (λ k. OlderThan (take (k - keep) files) (drop (k - keep) files)) same
            (Sorted-OlderThan n files (sorted-Sorted log_files)),
      )
