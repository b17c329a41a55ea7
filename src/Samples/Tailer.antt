-- ===== src/Samples/Tailer.antt =====
-- The tailer on a small log that grows and is rotated.
use scmdb_log_watcher_es.Base.{ℕ, ◌≡◌, refl, false, some, List, [], ◌∷◌}
use scmdb_log_watcher_es.Text.{Text, codes}
use scmdb_log_watcher_es.Domain.State.{Instant, second}
use scmdb_log_watcher_es.Tailer.Lines.{Bytes, feed_all, non_empty, splitlines}
use scmdb_log_watcher_es.Tailer.Lines.Cut.{complete, remainder}
use scmdb_log_watcher_es.Tailer.Lines.Chunks.{joined, feed_all-joined}
use scmdb_log_watcher_es.Tailer.Run.{
  stat, missing, opened, readable, Turn, LogTailer, rotated, read_on, turn, run,
}
use scmdb_log_watcher_es.Tailer.Run.Rotation.{Renewed, at_beginning, turn-Renewed, turn-reappears}
use scmdb_log_watcher_es.Samples.Domain.{no_iso, with_mission}

-- A log of plain ASCII.
abbrev pub plain : Bytes → Text
plain bytes = bytes

abbrev clock : ℕ → Instant
clock i = second

-- Two pieces that cut a line.
abbrev pieces : List Bytes
pieces = codes "one\ntw" ∷ codes "o\nthr" ∷ []

feed_all-joined_example :
    feed_all [] pieces
    ≡ (non_empty (splitlines (complete (joined pieces))), remainder (joined pieces))
feed_all-joined_example = feed_all-joined pieces [] tt

abbrev turn_of : ℕ → Bytes → Turn
turn_of size content = record {
  stats = stat 7 size;
  opens = opened (codes "old\n");
  reads = readable content;
  clock = clock;
}

abbrev two_turns : List Turn
two_turns = turn_of 4 (codes "old\none\ntw") ∷ turn_of 15 (codes "old\none\ntwo\nthr") ∷ []

-- A tailer in the middle of a log, with a mission under way.
abbrev pub midway : LogTailer
midway = record {
  fh = some 40;
  last_inode = some 7;
  last_size = 40;
  buffer = codes "half";
  first_open = false;
  state = with_mission;
}

-- The log is now a shorter one.
abbrev pub shorter : Turn
shorter = record {
  stats = stat 7 4;
  opens = opened (codes "new\n");
  reads = readable (codes "new\n");
  clock = clock;
}

turn-Renewed_example :
    Renewed plain no_iso shorter (codes "new\n") (turn plain no_iso shorter midway)
unfolding rotated
turn-Renewed_example =
    turn-Renewed plain no_iso shorter midway 7 4 (codes "new\n") (codes "new\n") refl refl refl refl
      refl refl

abbrev gone : Turn
gone = record shorter { stats = missing }

turn-reappears_example :
    run plain no_iso (gone ∷ shorter ∷ []) midway
    ≡ read_on plain no_iso shorter 4 (record (at_beginning 7) { state = with_mission })
turn-reappears_example =
    turn-reappears plain no_iso gone shorter midway 7 4 (codes "new\n") refl refl refl refl refl
