-- ===== src/Tailer/Run.antt =====
-- python/watcher.py, `LogTailer.run`: one turn of the loop. What the operating system answers in a
-- turn is the turn's data. `raw.decode("utf-8", errors="replace")` is a parameter. The waits between
-- turns and the messages to the logger change nothing and are left out.
pub mod Rotation
pub mod Follow
pub mod Growth
pub mod Traces
use scmdb_log_watcher_es.Base.{
  ℕ, ◌+◌, Bool, true, false, not, ◌&&◌, ◌||◌, Option, none, some, List, [], ◌∷◌, ◌++◌, length, drop,
  ltb, ◌==◌, if◌then◌else◌,
}
use scmdb_log_watcher_es.Text.{Text}
use scmdb_log_watcher_es.Domain.State.{Instant, WatcherState, reset}
use scmdb_log_watcher_es.Domain.Line.{FromIso}
use scmdb_log_watcher_es.Domain.Process.{Event, session_reset, process_lines}
use scmdb_log_watcher_es.Tailer.Lines.{Bytes, feed}

-- `self.path.stat()`: `FileNotFoundError`, another `OSError`, or `st_ino` and `st_size`.
pub data Stat : Type 0 where
  missing : Stat
  stat_failed : Stat
  stat : ℕ → ℕ → Stat

-- `open`: an `OSError`, or the file, with what it holds when the end is sought.
pub data Opening : Type 0 where
  open_failed : Opening
  opened : Bytes → Opening

-- `fh.read()`: an `OSError`, or what the open file holds, of which the read takes what stands behind
-- the position.
pub data Reading : Type 0 where
  read_failed : Reading
  readable : Bytes → Reading

pub record Turn : Type 0 where
  pub stats : Stat
  pub opens : Opening
  pub reads : Reading
  -- What `time.time()` returns at each line of the turn.
  pub clock : ℕ → Instant

pub record LogTailer : Type 0 where
  -- The position in the open file; `none` is `fh is None`.
  pub fh : Option ℕ
  pub last_inode : Option ℕ
  pub last_size : ℕ
  pub buffer : Bytes
  pub first_open : Bool
  pub state : WatcherState

-- The variables at the start of `run`.
abbrev pub tailer : WatcherState → LogTailer
tailer s = record {
  fh = none;
  last_inode = none;
  last_size = 0;
  buffer = [];
  first_open = true;
  state = s;
}

abbrev pub is_open : Option ℕ → Bool
is_open none = false
is_open (some position) = true

-- `last_inode is not None and st.st_ino and st.st_ino != last_inode`
abbrev pub other_inode : Option ℕ → ℕ → Bool
other_inode none ino = false
other_inode (some last) ino = not (ino == 0) && not (ino == last)

unfoldable pub rotated : LogTailer → ℕ → ℕ → Bool
rotated w ino size = not (is_open w.fh) || other_inode w.last_inode ino || ltb size w.last_size

unfoldable pub not_found : LogTailer → LogTailer
not_found w = if is_open w.fh then record w { fh = none; last_inode = none; buffer = [] } else w

-- `if fh:` under `if rotated:`, the old log is closed.
unfoldable pub close_old : LogTailer → LogTailer × List Event
close_old w =
    if is_open w.fh
    then (record w { fh = none; state = reset w.state }, session_reset ∷ [])
    else (w, [])

-- The new log, opened: the first is read from its end, the later ones from their beginning.
unfoldable pub open_new : ℕ → Bytes → LogTailer → LogTailer
open_new ino content w = record w {
  fh = some (if w.first_open then length content else 0);
  last_inode = if ino == 0 then none else some ino;
  last_size = if w.first_open then length content else 0;
  buffer = [];
  first_open = false;
}

abbrev pub with_clock : (ℕ → Instant) → ℕ → List Text → List (Instant × Text)
with_clock clock i [] = []
with_clock clock i (line ∷ lines) = (clock i, line) ∷ with_clock clock (i + 1) lines

abbrev pub decoded : (Bytes → Text) → List Bytes → List Text
decoded decode [] = []
decoded decode (line ∷ lines) = decode line ∷ decoded decode lines

module _ (decode : Bytes → Text) (iso : FromIso) where
  -- `if chunk:` and the loop over the lines of the block.
  unfoldable pub take_chunk : (ℕ → Instant) → ℕ → Bytes → LogTailer → LogTailer × List Event
  take_chunk clock size [] w = (w, [])
  take_chunk clock size (c ∷ chunk) w =
      let (lines, rest) = feed w.buffer (c ∷ chunk) in
      let (s, out) = process_lines iso (with_clock clock 0 (decoded decode lines)) w.state in
      (record w { buffer = rest; last_size = size; state = s }, out)

  unfoldable pub read_on : Turn → ℕ → LogTailer → LogTailer × List Event
  read_on t size w = elim w.fh [
    | none ↦ (w, [])
    | some position ↦ elim t.reads [
      | read_failed ↦ (w, [])
      | readable content ↦
          let chunk = drop position content in
          take_chunk t.clock size chunk (record w { fh = some (position + length chunk) })
    ]
  ]

  unfoldable pub reopen : Turn → ℕ → ℕ → LogTailer → LogTailer × List Event
  reopen t ino size w =
      let (closed, out) = close_old w in
      elim t.opens [
        | open_failed ↦ (record closed { fh = none }, out)
        | opened content ↦
            let (w', more) = read_on t size (open_new ino content closed) in (w', out ++ more)
      ]

  unfoldable pub turn : Turn → LogTailer → LogTailer × List Event
  turn t w = elim t.stats [
    | missing ↦ (not_found w, [])
    | stat_failed ↦ (w, [])
    | stat ino size ↦ if rotated w ino size then reopen t ino size w else read_on t size w
  ]

  -- The loop, until `stop` is called.
  unfoldable pub run : List Turn → LogTailer → LogTailer × List Event
  run [] w = (w, [])
  run (t ∷ ts) w = let (w', out) = turn t w in let (w'', more) = run ts w' in (w'', out ++ more)
