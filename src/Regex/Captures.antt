-- ===== src/Regex/Captures.antt =====
-- How many groups a pattern captures, and what a group can hold.
use scmdb_log_watcher_es.Base.{◌≢◌, List, [], ◌∷◌}
use scmdb_log_watcher_es.Text.{Text}
use scmdb_log_watcher_es.Regex.Defs.{Class, lit, dots, dots_lazy, group, Pattern, Groups}
use scmdb_log_watcher_es.Regex.Laws.{
  IsRun, Matches, done, byte, leave, skip, leave_lazy, skip_lazy, run, Found, here, later,
}

-- The classes of the groups, from left to right.
abbrev pub classes : Pattern → List Class
classes [] = []
classes (lit x ∷ p) = classes p
classes (dots ∷ p) = classes p
classes (dots_lazy ∷ p) = classes p
classes (group cl ∷ p) = cl ∷ classes p

-- One captured text for each group: not empty, and of its class throughout.
abbrev pub Captured : List Class → Groups → Type 0
Captured [] [] = Unit
Captured (cl ∷ cls) (t ∷ g) = (t ≢ []) × IsRun cl t × Captured cls g
Captured _ _ = ⊥

pub Matches-Captured :
    {p : Pattern} {s : Text} {g : Groups} → Matches p s g → Captured (classes p) g
Matches-Captured done = tt
Matches-Captured (byte e m) = Matches-Captured m
Matches-Captured (leave m) = Matches-Captured m
Matches-Captured (skip e m) = Matches-Captured m
Matches-Captured (leave_lazy m) = Matches-Captured m
Matches-Captured (skip_lazy e m) = Matches-Captured m
Matches-Captured (run y r e m) = (λ h. cc, (y, r), Matches-Captured m)

pub Found-Captured : {p : Pattern} {s : Text} {g : Groups} → Found p s g → Captured (classes p) g
Found-Captured (here m) = Matches-Captured m
Found-Captured (later f) = Found-Captured f
