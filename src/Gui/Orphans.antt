-- ===== src/Gui/Orphans.antt =====
-- `force_cleanup_orphan_watchers` of python/scmdb_watcher/process_service.py: which processes the
-- filter of its PowerShell command stops. The operators of PowerShell ignore the case of letters.
pub mod Filter
pub mod Cleanup
pub mod Lines
pub mod Commands
use scmdb_log_watcher_es.Base.{
  ℕ, zero, suc, ◌≡◌, refl, sym, ap, ◌∙◌, subst, Bool, true, false, not, ◌&&◌, ◌||◌, List, [], ◌∷◌,
  ◌++◌, ◌==◌, leb, arith, Bool-cases, inl, inr, if◌then◌else◌,
}
use scmdb_log_watcher_es.Text.{Text, codes, text_eq, lower, lower_code, is_space}

pub record Process : Type 0 where
  pub process_id : ℕ
  pub name : Text
  pub command_line : Text

-- `\s` of .NET.
unfoldable pub white_space : ℕ → Bool
unfolding is_space
white_space c = is_space c && not (leb 28 c && leb c 31)

-- The pattern `w(\s|$)` at the beginning of a text.
unfoldable pub word_at : Text → Text → Bool
unfolding white_space lower_code
word_at [] [] = true
word_at [] (c ∷ s) = white_space c
word_at (x ∷ w) [] = false
word_at (x ∷ w) (c ∷ s) = lower_code c == x && word_at w s

-- `\s(core|import)(\s|$)` at the beginning of a text.
unfoldable pub mode_at : Text → Bool
unfolding word_at
mode_at [] = false
mode_at (c ∷ s) = white_space c && (word_at (codes "core") s || word_at (codes "import") s)

-- A match somewhere.
unfoldable pub somewhere : (Text → Bool) → Text → Bool
somewhere at [] = at []
somewhere at (c ∷ s) = at (c ∷ s) || somewhere at s

unfoldable pub is_python : Text → Bool
unfolding text_eq lower
is_python name =
    text_eq (lower name) (codes "python.exe") || text_eq (lower name) (codes "pythonw.exe")

unfoldable pub is_program : Text → Bool
unfolding text_eq lower
is_program name = text_eq (lower name) (codes "scmdb-watcher.exe")

-- The filter. The name of a process has no line feed, so `$` is its end.
unfoldable pub is_orphan : Process → Bool
unfolding is_python is_program somewhere mode_at
is_orphan p =
    (is_python p.name
      && (somewhere (word_at (codes "launcher.py")) p.command_line
          || somewhere (word_at (codes "watcher.py")) p.command_line))
    || (is_program p.name && somewhere mode_at p.command_line)

-- The processes that are left; `stops` says whether a process can be stopped.
unfoldable pub force_cleanup_orphan_watchers : (Process → Bool) → List Process → List Process
unfolding is_orphan
force_cleanup_orphan_watchers stops [] = []
force_cleanup_orphan_watchers stops (p ∷ ps) =
    let rest = force_cleanup_orphan_watchers stops ps in
    if is_orphan p && stops p then rest else p ∷ rest

-- What `subprocess` makes of a command, where `quote` puts an argument in quotes if it has to.
abbrev pub spaced : (Text → Text) → List Text → Text
spaced quote [] = []
spaced quote (arg ∷ args) = b' ' ∷ (quote arg ++ spaced quote args)

abbrev pub line_of : (Text → Text) → List Text → Text
line_of quote [] = []
line_of quote (program ∷ args) = quote program ++ spaced quote args
