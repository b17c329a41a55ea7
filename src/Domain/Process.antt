-- ===== src/Domain/Process.antt =====
-- python/scmdb_watcher/domain.py, `process_line`: the new state, and what is broadcast. The calls of
-- the logger change no state and are left out.
use scmdb_log_watcher_es.Base.{Option, none, some, List, [], ◌∷◌, ◌++◌, if◌then◌else◌}
use scmdb_log_watcher_es.Text.{Text, codes, text_eq, strip}
use scmdb_log_watcher_es.Dict
use scmdb_log_watcher_es.Domain.State.{
  Instant, MissionEntry, ActiveMission, MissionLifecycleEvent, WatcherState, record_marker,
  record_accepted, record_end, correlate_blueprint,
}
use scmdb_log_watcher_es.Domain.Line.{
  FromIso, timestamp_or, LogLine, marker, accepted, end_mission, blueprint, other, classify,
}

-- The dicts that are broadcast, one constructor for each shape.
pub data Event : Type 0 where
  -- type "mission_start"; guid, debugName, generator, startTs
  mission_start : Text → Text → Text → Instant → Event
  -- type; guid, debugName, generator, completion, reason, endTs
  mission_end : Text → Text → Option Text → Option Text → Text → Text → Instant → Event
  -- type "blueprint_received"; productName, missionGuid, missionDebugName, missionTrigger, ts
  blueprint_received : Text → Option Text → Option Text → Option Text → Instant → Event
  -- type "session_reset"
  session_reset : Event
  -- type "state_snapshot"; active
  state_snapshot : List ActiveMission → Event

abbrev started : ActiveMission → Event
started m = mission_start m.guid m.debug_name m.generator m.start_ts

abbrev pub accept_report : Option ActiveMission → List Event
accept_report none = []
accept_report (some m) = started m ∷ []

-- `active.x if active else (entry.x if entry else None)`
abbrev pub name_of : Option ActiveMission → Option MissionEntry → Option Text
name_of (some m) entry = some m.debug_name
name_of none (some e) = some e.debug_name
name_of none none = none

abbrev pub generator_of : Option ActiveMission → Option MissionEntry → Option Text
generator_of (some m) entry = some m.generator
generator_of none (some e) = some e.generator
generator_of none none = none

abbrev pub end_type : Text → Text
end_type completion =
    if text_eq completion (codes "Complete")
    then codes "mission_complete"
    else codes "mission_ended"

abbrev pub received : Text → Option MissionLifecycleEvent → Instant → Event
received name none ts = blueprint_received name none none none ts
received name (some e) ts =
    blueprint_received name (some e.guid) (some e.debug_name) (some e.trigger) ts

unfoldable pub handle : LogLine → Instant → WatcherState → WatcherState × List Event
handle (marker guid generator contract) ts s = (record_marker guid generator contract s, [])
handle (accepted guid) ts s =
    let (s', active) = record_accepted guid ts s in (s', accept_report active)
handle (end_mission guid completion reason) ts s =
    let (s', active) = record_end guid completion ts s in
    let entry = Dict.lookup guid s'.guid_map in
    (
      s',
      mission_end (end_type completion) guid (name_of active entry) (generator_of active entry)
            completion reason ts
          ∷ [],
    )
handle (blueprint name) ts s = (s, received (strip name) (correlate_blueprint ts s) ts ∷ [])
handle other ts s = (s, [])

-- `now` is what `time.time()` returns.
unfoldable pub process_line : FromIso → Instant → Text → WatcherState → WatcherState × List Event
unfolding timestamp_or classify handle
process_line iso now line s = handle (classify line) (timestamp_or iso now line) s

-- The lines of a log one after the other, with the clock at each.
unfoldable pub process_lines :
    FromIso → List (Instant × Text) → WatcherState → WatcherState × List Event
unfolding process_line
process_lines iso [] s = (s, [])
process_lines iso ((now, line) ∷ lines) s =
    let (s', out) = process_line iso now line s in
    let (s'', rest) = process_lines iso lines s' in (s'', out ++ rest)
