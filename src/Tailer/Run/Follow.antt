-- ===== src/Tailer/Run/Follow.antt =====
-- A log that grows by pieces, and the tailer that stands at its end.
use scmdb_log_watcher_es.Base.{
  ℕ, ◌+◌, ◌≤◌, ◌≡◌, refl, sym, ap, ◌∙◌, false, none, some, List, [], ◌∷◌, ◌++◌, arith, append_assoc,
  length, drop, ◌==◌, inl, inr, Bool-cases, if◌then◌else◌,
}
use native.Mathlib.Nat.{le_refl}
use scmdb_log_watcher_es.Text.{Text}
use scmdb_log_watcher_es.Domain.State.{Instant, WatcherState}
use scmdb_log_watcher_es.Domain.Line.{FromIso}
use scmdb_log_watcher_es.Domain.Process.{Event, process_line, process_lines}
use scmdb_log_watcher_es.Tailer.Lines.{Bytes}
use scmdb_log_watcher_es.Tailer.Lines.Cut.{NoNewline}
use scmdb_log_watcher_es.Tailer.Run.{stat, readable, Turn, LogTailer, rotated, with_clock, decoded}

pub process_lines-append :
    (iso : FromIso) (xs ys : List (Instant × Text)) (s : WatcherState)
    → process_lines iso (xs ++ ys) s ≡ (
      (process_lines iso ys (process_lines iso xs s).0).0,
      (process_lines iso xs s).1 ++ (process_lines iso ys (process_lines iso xs s).0).1,
    )
unfolding process_lines
process_lines-append iso [] ys s = refl
process_lines-append iso ((now, line) ∷ xs) ys s =
    let s' = (process_line iso now line s).0 in
    let out = (process_line iso now line s).1 in
    ap {B = WatcherState × List Event} (λ (r : WatcherState × List Event). (r.0, out ++ r.1))
      (process_lines-append iso xs ys s')
    ∙ ap (λ o. ((process_lines iso ys (process_lines iso xs s').0).0, o))
        (sym (
          append_assoc out (process_lines iso xs s').1
            (process_lines iso ys (process_lines iso xs s').0).1))

-- The lines of clocked lines.
abbrev pub texts : List (Instant × Text) → List Text
texts [] = []
texts ((now, line) ∷ lines) = line ∷ texts lines

pub texts-append : (xs ys : List (Instant × Text)) → texts (xs ++ ys) ≡ texts xs ++ texts ys
texts-append [] ys = refl
texts-append ((now, line) ∷ xs) ys = ap (λ x. line ∷ x) (texts-append xs ys)

pub texts-with_clock :
    (clock : ℕ → Instant) (i : ℕ) (lines : List Text) → texts (with_clock clock i lines) ≡ lines
texts-with_clock clock i [] = refl
texts-with_clock clock i (line ∷ lines) = ap (λ x. line ∷ x) (texts-with_clock clock (i + 1) lines)

pub decoded-append :
    (decode : Bytes → Text) (xs ys : List Bytes)
    → decoded decode (xs ++ ys) ≡ decoded decode xs ++ decoded decode ys
decoded-append decode [] ys = refl
decoded-append decode (x ∷ xs) ys = ap (λ t. decode x ∷ t) (decoded-append decode xs ys)

pub drop-length : (xs ys : Bytes) → drop (length xs) (xs ++ ys) ≡ ys
drop-length [] ys = refl
drop-length (x ∷ xs) ys = drop-length xs ys

-- The turns at which the log `held` gets the pieces one after the other: each finds the same file, of
-- a size between what was there before and what is read.
abbrev pub Grows : ℕ → Bytes → List Turn → List Bytes → Type 0
Grows ino held [] [] = Unit
Grows ino held (t ∷ ts) (piece ∷ pieces) =
    ((size : ℕ) × (t.stats ≡ stat ino size)
      × (length held ≤ size)
      × (size ≤ length (held ++ piece)))
    × (t.reads ≡ readable (held ++ piece))
    × Grows ino (held ++ piece) ts pieces
Grows _ _ _ _ = ⊥

-- The tailer stands at the end of `held`.
pub record AtEnd (ino : ℕ) (held : Bytes) (w : LogTailer) : Type 0 where
  pub position : w.fh ≡ some (length held)
  pub inode : w.last_inode ≡ (if ino == 0 then none else some ino)
  pub size : w.last_size ≤ length held
  pub no_line : NoNewline w.buffer

-- The first log has been opened.
abbrev pub at_end : ℕ → Bytes → WatcherState → LogTailer
at_end ino held s = record {
  fh = some (length held);
  last_inode = if ino == 0 then none else some ino;
  last_size = length held;
  buffer = [];
  first_open = false;
  state = s;
}

pub at_end-AtEnd : (ino : ℕ) (held : Bytes) (s : WatcherState) → AtEnd ino held (at_end ino held s)
at_end-AtEnd ino held s = record {
  position = refl;
  inode = refl;
  size = le_refl (length held);
  no_line = tt;
}

pub AtEnd-not_rotated :
    (ino : ℕ) (held : Bytes) (w : LogTailer) (size : ℕ)
    → AtEnd ino held w
    → length held ≤ size
    → rotated w ino size ≡ false
unfolding rotated
AtEnd-not_rotated ino held w size a h = elim (Bool-cases (ino == 0)) [
  | inl y ↦ ground (arith, a.position, a.inode, a.size)
  | inr n ↦ ground (arith, a.position, a.inode, a.size)
]
