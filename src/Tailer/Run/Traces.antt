-- ===== src/Tailer/Run/Traces.antt =====
-- What a tailer does to the state and broadcasts, whatever it meets: runs of `process_line`, and
-- resets that clients are told of. A relation that holds of these holds of the whole.
use scmdb_log_watcher_es.Base.{
  none, some, List, [], ◌∷◌, ◌++◌, if_both, ℕ, Option, ◌+◌, drop, length,
}
use scmdb_log_watcher_es.Text.{Text}
use scmdb_log_watcher_es.Domain.State.{Instant, WatcherState, reset}
use scmdb_log_watcher_es.Domain.Line.{FromIso}
use scmdb_log_watcher_es.Domain.Process.{Event, session_reset, process_lines}
use scmdb_log_watcher_es.Tailer.Lines.{Bytes, feed}
use scmdb_log_watcher_es.Tailer.Run.{
  missing, stat_failed, stat, open_failed, opened, read_failed, readable, Stat, Opening, Reading,
  Turn, LogTailer, is_open, rotated, not_found, close_old, open_new, with_clock, decoded,
  take_chunk, read_on, reopen, turn, run,
}

-- A relation between a state and what came of it, the new state and the events in between.
abbrev pub Relation : Type 1
Relation = WatcherState → WatcherState × List Event → Type 0

-- The relation holds of nothing, of one thing after the other, of lines and of resets.
pub record Traces (iso : FromIso) (R : Relation) : Type 0 where
  pub nothing : (s : WatcherState) → R s (s, [])
  pub append :
      (s t u : WatcherState) (xs ys : List Event) → R s (t, xs) → R t (u, ys) → R s (u, xs ++ ys)
  pub lines : (ls : List (Instant × Text)) (s : WatcherState) → R s (process_lines iso ls s)
  pub resets : (s : WatcherState) → R s (reset s, session_reset ∷ [])

module _ (decode : Bytes → Text) (iso : FromIso) (R : Relation) (traces : Traces iso R) where
  -- The events that a part of a turn broadcasts.
  abbrev Keeps : LogTailer → LogTailer × List Event → Type 0
  Keeps w r = R w.state (r.0.state, r.1)

  take_chunk-Keeps :
      (clock : ℕ → Instant) (size : ℕ) (chunk : Bytes) (w : LogTailer)
      → Keeps w (take_chunk decode iso clock size chunk w)
  unfolding take_chunk
  take_chunk-Keeps clock size [] w = traces.nothing w.state
  take_chunk-Keeps clock size (c ∷ chunk) w =
      traces.lines (with_clock clock 0 (decoded decode (feed w.buffer (c ∷ chunk)).0)) w.state

  read_on-Keeps :
      (fh : Option ℕ) (reads : Reading) (t : Turn) (size : ℕ) (w : LogTailer)
      → Keeps w (read_on decode iso (record t { reads = reads }) size (record w { fh = fh }))
  unfolding read_on
  read_on-Keeps none reads t size w = traces.nothing w.state
  read_on-Keeps (some position) read_failed t size w = traces.nothing w.state
  read_on-Keeps (some position) (readable content) t size w =
      take_chunk-Keeps t.clock size (drop position content)
        (record w { fh = some (position + length (drop position content)) })

  reopen-Keeps :
      (fh : Option ℕ) (opens : Opening) (t : Turn) (ino size : ℕ) (w : LogTailer)
      → Keeps w (reopen decode iso (record t { opens = opens }) ino size (record w { fh = fh }))
  unfolding reopen close_old open_new
  reopen-Keeps none open_failed t ino size w = traces.nothing w.state
  reopen-Keeps (some position) open_failed t ino size w = traces.resets w.state
  reopen-Keeps none (opened content) t ino size w =
      let there = open_new ino content (record w { fh = none }) in
      read_on-Keeps there.fh t.reads (record t { opens = opened content }) size there
  reopen-Keeps (some position) (opened content) t ino size w =
      let there = open_new ino content (record w { fh = none; state = reset w.state }) in
      let r = read_on decode iso (record t { opens = opened content }) size there in
      traces.append w.state (reset w.state) r.0.state (session_reset ∷ []) r.1
        (traces.resets w.state)
        (read_on-Keeps there.fh t.reads (record t { opens = opened content }) size there)

  not_found-Keeps : (w : LogTailer) → Keeps w (not_found w, [])
  unfolding not_found
  not_found-Keeps w =
      if_both (λ (v : LogTailer). R w.state (v.state, [])) (is_open w.fh)
        (record w { fh = none; last_inode = none; buffer = [] }) w (traces.nothing w.state)
        (traces.nothing w.state)

  turn-Keeps :
      (stats : Stat) (t : Turn) (w : LogTailer)
      → Keeps w (turn decode iso (record t { stats = stats }) w)
  unfolding turn
  turn-Keeps missing t w = not_found-Keeps w
  turn-Keeps stat_failed t w = traces.nothing w.state
  turn-Keeps (stat ino size) t w =
      let t' = record t { stats = stat ino size } in
      if_both (λ (r : LogTailer × List Event). Keeps w r) (rotated w ino size)
        (reopen decode iso t' ino size w) (read_on decode iso t' size w)
        (reopen-Keeps w.fh t.opens t' ino size w) (read_on-Keeps w.fh t.reads t' size w)

  pub run-Traced :
      (ts : List Turn) (w : LogTailer)
      → R w.state ((run decode iso ts w).0.state, (run decode iso ts w).1)
  unfolding run
  run-Traced [] w = traces.nothing w.state
  run-Traced (t ∷ ts) w =
      let r = turn decode iso t w in
      traces.append w.state r.0.state (run decode iso ts r.0).0.state r.1 (run decode iso ts r.0).1
        (turn-Keeps t.stats t w) (run-Traced ts r.0)
