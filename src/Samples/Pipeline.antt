-- ===== src/Samples/Pipeline.antt =====
-- A client that watches the rotation of a log.
use scmdb_log_watcher_es.Base.{
  ◌<◌, length, ◌≡◌, refl, Option, none, some, List, [], ◌∷◌, ◌++◌, arith, if◌then◌else◌,
}
use scmdb_log_watcher_es.Text.{Text, codes, text_eq}
use scmdb_log_watcher_es.Dict
use scmdb_log_watcher_es.Domain.State.{snapshot_active}
use scmdb_log_watcher_es.Domain.Process.{
  process_lines, process_line, handle, Event, mission_start, mission_end, blueprint_received,
  session_reset, state_snapshot,
}
use scmdb_log_watcher_es.Server.Bus.{
  queue_maxsize, empty_bus, subscribe, update, broadcast, deliver, put_nowait, get,
}
use scmdb_log_watcher_es.Server.Bus.Valid.{empty_bus-IsValid}
use scmdb_log_watcher_es.Server.Stream.{stream, open_stream}
use scmdb_log_watcher_es.Server.Stream.Laws.{OneLine}
use scmdb_log_watcher_es.Domain.Line.{
  timestamp_or, parse_log_timestamp, pattern_timestamp, classify, pattern_marker, pattern_accepted,
  pattern_end_mission, pattern_blueprint,
}
use scmdb_log_watcher_es.Regex.{search_in, match}
use scmdb_log_watcher_es.Tailer.Lines.{feed, cut_at_last, splitlines}
use scmdb_log_watcher_es.Tailer.Run.{
  run, turn, rotated, reopen, close_old, open_new, read_on, take_chunk,
}
use scmdb_log_watcher_es.Pipeline.Feed.{Move, sends, serves, move, play, ahead}
use scmdb_log_watcher_es.Pipeline.Picture.{Speaks, picture, connected, picture-stream}
use scmdb_log_watcher_es.Samples.Domain.{no_iso, with_mission, with_mission-IsConsistent}
use scmdb_log_watcher_es.Samples.Tailer.{plain, midway, shorter}

-- Texts for the events that occur.
abbrev dumps : Event → Text
dumps session_reset = codes "reset"
dumps (state_snapshot missions) = codes "snapshot"
dumps (mission_start guid debug_name generator ts) = codes "start"
dumps (mission_end type guid debug_name generator completion reason ts) = codes "end"
dumps (blueprint_received name guid debug_name trigger ts) = codes "blueprint"

abbrev loads : Text → Option Event
loads payload =
    if text_eq payload (codes "reset")
    then some session_reset
    else if text_eq payload (codes "snapshot")
    then some (state_snapshot (snapshot_active with_mission))
    else none

abbrev moves : List Move
moves = sends ∷ serves 0 1 ∷ []

-- The only event is the reset, since the new log has no line of interest.
only_reset : (run plain no_iso ([] ++ shorter ∷ []) midway).1 ≡ session_reset ∷ []
unfolding run turn rotated reopen close_old open_new read_on take_chunk feed cut_at_last splitlines
    process_lines process_line timestamp_or parse_log_timestamp pattern_timestamp classify search_in
    match pattern_marker pattern_accepted pattern_end_mission pattern_blueprint handle
only_reset = refl

OneLine-reset : OneLine (dumps session_reset)
OneLine-reset = (refl, (refl, (refl, (refl, (refl, tt)))))

spoken : Speaks loads dumps (
    state_snapshot (snapshot_active (run plain no_iso [] midway).0.state)
    ∷ (run plain no_iso ([] ++ shorter ∷ []) midway).1)
unfolding run text_eq
spoken = (
  (refl, (refl, (refl, (refl, (refl, (refl, (refl, (refl, (refl, tt))))))))),
  rw only_reset ((refl, OneLine-reset), tt),
)

room : length ((open_stream empty_bus).0.queue (open_stream empty_bus).1) < queue_maxsize
unfolding open_stream subscribe update
room = omega arith

served_all :
    (es : List Event)
    → es ≡ session_reset ∷ []
    → ahead dumps
        (open_stream empty_bus).1
        (play dumps (open_stream empty_bus).1 moves (connected empty_bus es)).0
      ≡ []
unfolding play move open_stream subscribe update broadcast deliver put_nowait get
served_all es e = rw e refl

picture-stream_example :
    Dict.lookup (codes "g") (
      picture loads (
        stream dumps
          (run plain no_iso [] midway).0.state
          0
          (play dumps
            (open_stream empty_bus).1
            moves
            (connected empty_bus (run plain no_iso ([] ++ shorter ∷ []) midway).1)).1))
    ≡ Dict.lookup (codes "g") (run plain no_iso ([] ++ shorter ∷ []) midway).0.state.active
picture-stream_example =
    picture-stream plain no_iso loads dumps empty_bus empty_bus-IsValid midway
      with_mission-IsConsistent [] (shorter ∷ []) moves 0 spoken (room, (tt, tt))
      (served_all (run plain no_iso ([] ++ shorter ∷ []) midway).1 only_reset) (codes "g")
