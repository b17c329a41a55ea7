-- ===== src/Tailer/Run/Rotation.antt =====
-- What a rotation of the log does, and what it does not.
use scmdb_log_watcher_es.Base.{
  ℕ, ◌+◌, ◌≡◌, refl, sym, ap, ◌∙◌, true, false, none, some, List, [], ◌∷◌, ◌++◌, arith, append-nil,
  length, subst, ◌==◌, if◌then◌else◌,
}
use scmdb_log_watcher_es.Text.{Text}
use scmdb_log_watcher_es.Domain.State.{Instant, init, reset}
use scmdb_log_watcher_es.Domain.Line.{FromIso}
use scmdb_log_watcher_es.Domain.Process.{Event, session_reset, process_lines}
use scmdb_log_watcher_es.Tailer.Lines.{Bytes, feed}
use scmdb_log_watcher_es.Tailer.Run.{
  missing, stat, opened, readable, Turn, take_chunk, with_clock, decoded, LogTailer, is_open,
  rotated, not_found, close_old, open_new, read_on, reopen, turn, run,
}

-- The tailer when a later log has just been opened.
abbrev pub at_beginning : ℕ → LogTailer
at_beginning ino = record {
  fh = some 0;
  last_inode = if ino == 0 then none else some ino;
  last_size = 0;
  buffer = [];
  first_open = false;
  state = init;
}

close_old-open :
    (w : LogTailer)
    → is_open w.fh ≡ true
    → close_old w ≡ (record w { fh = none; state = init }, session_reset ∷ [])
unfolding close_old reset
close_old-open w h = ground arith

close_old-closed : (w : LogTailer) → is_open w.fh ≡ false → close_old w ≡ (w, [])
unfolding close_old
close_old-closed w h = ground arith

open_new-later :
    (ino : ℕ) (content : Bytes) (w : LogTailer)
    → w.first_open ≡ false
    → open_new ino content w ≡ record (at_beginning ino) { state = w.state }
unfolding open_new
open_new-later ino content w h = ground arith

not_found-open :
    (w : LogTailer)
    → is_open w.fh ≡ true
    → not_found w ≡ record w { fh = none; last_inode = none; buffer = [] }
unfolding not_found
not_found-open w h = ground arith

module _ (decode : Bytes → Text) (iso : FromIso) where
  abbrev pub behind : List Event → LogTailer × List Event → LogTailer × List Event
  behind out r = (r.0, out ++ r.1)

  pub reopen-opened :
      (t : Turn) (w : LogTailer) (ino size : ℕ) (content : Bytes)
      → t.opens ≡ opened content
      → reopen decode iso t ino size w
        ≡ behind (close_old w).1 (read_on decode iso t size (open_new ino content (close_old w).0))
  unfolding reopen
  reopen-opened t w ino size content op = ground arith

  reopen-open :
      (t : Turn) (w : LogTailer) (ino size : ℕ) (content : Bytes)
      → t.opens ≡ opened content
      → is_open w.fh ≡ true
      → w.first_open ≡ false
      → reopen decode iso t ino size w
        ≡ behind (session_reset ∷ []) (read_on decode iso t size (at_beginning ino))
  reopen-open t w ino size content op opn first =
      reopen-opened t w ino size content op
      ∙ ap (λ c. behind c.1 (read_on decode iso t size (open_new ino content c.0)))
          (close_old-open w opn)
      ∙ ap (λ x. behind (session_reset ∷ []) (read_on decode iso t size x))
          (open_new-later ino content (record w { fh = none; state = init }) first)

  -- Where no log is open, the state stays.
  reopen-closed :
      (t : Turn) (w : LogTailer) (ino size : ℕ) (content : Bytes)
      → t.opens ≡ opened content
      → is_open w.fh ≡ false
      → w.first_open ≡ false
      → reopen decode iso t ino size w
        ≡ read_on decode iso t size (record (at_beginning ino) { state = w.state })
  reopen-closed t w ino size content op opn first =
      reopen-opened t w ino size content op
      ∙ ap (λ c. behind c.1 (read_on decode iso t size (open_new ino content c.0)))
          (close_old-closed w opn)
      ∙ ap (read_on decode iso t size) (open_new-later ino content w first)

  pub turn-stat :
      (t : Turn) (w : LogTailer) (ino size : ℕ)
      → t.stats ≡ stat ino size
      → turn decode iso t w ≡ (
          if rotated w ino size
          then reopen decode iso t ino size w
          else read_on decode iso t size w)
  unfolding turn
  turn-stat t w ino size st = ground arith

  turn-missing :
      (t : Turn) (w : LogTailer) → t.stats ≡ missing → turn decode iso t w ≡ (not_found w, [])
  unfolding turn
  turn-missing t w st = ground arith

  turn-rotated :
      (t : Turn) (w : LogTailer) (ino size : ℕ)
      → t.stats ≡ stat ino size
      → rotated w ino size ≡ true
      → turn decode iso t w ≡ reopen decode iso t ino size w
  turn-rotated t w ino size st rot = turn-stat t w ino size st ∙ rw rot

  read_on-beginning :
      (t : Turn) (size ino : ℕ) (content : Bytes)
      → t.reads ≡ readable content
      → read_on decode iso t size (at_beginning ino)
        ≡ take_chunk decode iso t.clock size content
            (record (at_beginning ino) { fh = some (length content) })
  unfolding read_on
  read_on-beginning t size ino content re =
      let e : 0 + length content ≡ length content = omega arith in
      rw re (
        ap
          (λ n.
            take_chunk decode iso t.clock size content (record (at_beginning ino) { fh = some n }))
          e)

  -- The clocked lines of a log that is read from its first byte in one turn.
  abbrev pub first_lines : Turn → Bytes → List (Instant × Text)
  first_lines t content = with_clock t.clock 0 (decoded decode (feed [] content).0)

  -- This was read of a new log, from its first byte and into an empty state, and told to the clients
  -- behind the reset.
  abbrev pub Renewed : Turn → Bytes → LogTailer × List Event → Type 0
  Renewed t content (w, out) =
      (w.fh ≡ some (length content))
      × (w.buffer ≡ (feed [] content).1)
      × (w.state ≡ (process_lines iso (first_lines t content) init).0)
      × (out ≡ session_reset ∷ (process_lines iso (first_lines t content) init).1)

  take_chunk-Renewed :
      (t : Turn) (size ino : ℕ) (content : Bytes)
      → Renewed t content (
          behind (session_reset ∷ []) (
            take_chunk decode iso t.clock size content
              (record (at_beginning ino) { fh = some (length content) })))
  unfolding take_chunk feed process_lines
  take_chunk-Renewed t size ino [] = (refl, refl, refl, refl)
  take_chunk-Renewed t size ino (c ∷ chunk) = (refl, refl, refl, refl)

  -- When an open log is found to be rotated, and the new one opens and is read, its lines are
  -- processed from its first byte on, starting from an empty state, and the clients are told of them
  -- behind a `session_reset`: nothing of the old session is left, and nothing of the new log skipped.
  pub turn-Renewed :
      (t : Turn) (w : LogTailer) (ino size : ℕ) (there content : Bytes)
      → t.stats ≡ stat ino size
      → t.opens ≡ opened there
      → t.reads ≡ readable content
      → is_open w.fh ≡ true
      → w.first_open ≡ false
      → rotated w ino size ≡ true
      → Renewed t content (turn decode iso t w)
  turn-Renewed t w ino size there content st op re opn first rot =
      subst (Renewed t content)
        (sym (
          turn-rotated t w ino size st rot
          ∙ reopen-open t w ino size there op opn first
          ∙ ap (behind (session_reset ∷ [])) (read_on-beginning t size ino content re)))
        (take_chunk-Renewed t size ino content)

  run-single : (t : Turn) (w : LogTailer) → run decode iso (t ∷ []) w ≡ turn decode iso t w
  unfolding run
  run-single t w = ap (λ out. ((turn decode iso t w).0, out)) (append-nil (turn decode iso t w).1)

  -- When the log is missing for a turn and then there again, its state is not reset: the next turn
  -- reads the new log from its beginning into the state of the old session, and tells no client.
  pub turn-reappears :
      (gone back : Turn) (w : LogTailer) (ino size : ℕ) (content : Bytes)
      → gone.stats ≡ missing
      → back.stats ≡ stat ino size
      → back.opens ≡ opened content
      → is_open w.fh ≡ true
      → w.first_open ≡ false
      → run decode iso (gone ∷ back ∷ []) w
        ≡ read_on decode iso back size (record (at_beginning ino) { state = w.state })
  unfolding run rotated
  turn-reappears gone back w ino size content out st op opn first =
      let lost : LogTailer = record w { fh = none; last_inode = none; buffer = [] } in
      let closed : turn decode iso gone w ≡ (lost, []) =
        turn-missing gone w out ∙ ap (λ x. (x, [])) (not_found-open w opn) in
      let again =
        turn-rotated back lost ino size st refl
        ∙ reopen-closed back lost ino size content op refl first in
      ap (λ r. behind r.1 (run decode iso (back ∷ []) r.0)) closed ∙ run-single back lost ∙ again
