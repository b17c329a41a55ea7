-- ===== src/Tailer/Run/Growth.antt =====
-- A log that only grows: the tailer processes exactly the lines that are completed after it has
-- opened the log, each once and in order.
use scmdb_log_watcher_es.Base.{◌≡◌, List}
use scmdb_log_watcher_es.Text.{Text}
use scmdb_log_watcher_es.Domain.State.{Instant, WatcherState}
use scmdb_log_watcher_es.Domain.Line.{FromIso}
use scmdb_log_watcher_es.Domain.Process.{Event, process_lines}
use scmdb_log_watcher_es.Tailer.Lines.{Bytes, feed_all}
use scmdb_log_watcher_es.Tailer.Run.{LogTailer, decoded}
use scmdb_log_watcher_es.Tailer.Run.Follow.{texts}

module _ (decode : Bytes → Text) (iso : FromIso) where
  -- What a turn, or several, have made of the pieces.
  record Processed (start : Bytes) (state : WatcherState) (pieces : List Bytes)
      (r : LogTailer × List Event) : Type 0 where
    lines : List (Instant × Text)
    buffer : r.0.buffer ≡ (feed_all start pieces).1
    cut : texts lines ≡ decoded decode (feed_all start pieces).0
    result : process_lines iso lines state ≡ (r.0.state, r.1)
