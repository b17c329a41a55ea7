-- ===== src/Samples/Domain.antt =====
-- python/scmdb_watcher/domain.py on the lines of one mission: tests, and the theorems at this log.
use scmdb_log_watcher_es.Base.{◌*◌, ◌≡◌, refl, none, List, [], ◌∷◌, All, arith}
use scmdb_log_watcher_es.Text.{Text, codes, text_eq, replace_by}
use scmdb_log_watcher_es.Dict.{lookup, insert}
use scmdb_log_watcher_es.Regex.{search_in, match}
use scmdb_log_watcher_es.Domain.State.{
  Instant, second, max_recent, WatcherState, record_marker, record_accepted, append_bounded,
  MissionEntry, ActiveMission, init, correlate_blueprint,
}
use scmdb_log_watcher_es.Domain.Line.{
  classify, marker, accepted, end_mission, blueprint, FromIso, timestamp_or, parse_log_timestamp,
  pattern_timestamp, pattern_marker, pattern_accepted, pattern_end_mission, pattern_blueprint,
}
use scmdb_log_watcher_es.Domain.Process.{process_lines, process_line, handle}
use scmdb_log_watcher_es.Domain.Invariant.{
  IsConsistent, init-IsConsistent, process_lines-IsConsistent,
}
use scmdb_log_watcher_es.Domain.Mission.{view, mission_run, view-process_lines}
use scmdb_log_watcher_es.Domain.Correlate.{Correlated, correlate_blueprint-Correlated}
use scmdb_log_watcher_es.Domain.Recent.{last, history, recent-process_lines}
use scmdb_log_watcher_es.Domain.Remembered.{Known}
use scmdb_log_watcher_es.Domain.Report.{Reports, process_lines-Reports}
use scmdb_log_watcher_es.Domain.Classify.{Describes, classify-Describes}

abbrev pub marker_line : Text
marker_line =
    codes
      "<2025-01-02T03:04:05.678Z> [Notice] <CreateMarker> CreateMarker: missionId [g-1], generator name [Gen], contract [Haul_A]"

abbrev pub accepted_line : Text
accepted_line = codes "x Added notification \"Contract Accepted: Haul\" [1] MissionId: [g-1]"

abbrev pub end_line : Text
end_line = codes "<EndMission> Ending MissionId[g-1] CompletionType[Complete] Reason[Done]"

abbrev pub blueprint_line : Text
blueprint_line = codes "Added notification \"Received Blueprint: Gun : x"

classify_marker : classify marker_line ≡ marker (codes "g-1") (codes "Gen") (codes "Haul_A")
unfolding classify search_in match pattern_marker pattern_accepted pattern_end_mission
    pattern_blueprint
classify_marker = refl

classify_accepted : classify accepted_line ≡ accepted (codes "g-1")
unfolding classify search_in match pattern_marker pattern_accepted pattern_end_mission
    pattern_blueprint
classify_accepted = refl

classify_end : classify end_line ≡ end_mission (codes "g-1") (codes "Complete") (codes "Done")
unfolding classify search_in match pattern_marker pattern_accepted pattern_end_mission
    pattern_blueprint
classify_end = refl

classify_blueprint : classify blueprint_line ≡ blueprint (codes "Gun ")
unfolding classify search_in match pattern_marker pattern_accepted pattern_end_mission
    pattern_blueprint
classify_blueprint = refl

-- No line has a time of its own here, so the clock counts.
abbrev pub no_iso : FromIso
no_iso text = none

abbrev pub session : List (Instant × Text)
session =
    (1 * second, marker_line)
    ∷ (2 * second, accepted_line)
    ∷ (3 * second, end_line)
    ∷ (4 * second, blueprint_line)
    ∷ []

abbrev pub guid : Text
guid = codes "g-1"

abbrev mission : ActiveMission
mission = record {
  guid = guid;
  debug_name = codes "Haul_A";
  generator = codes "Gen";
  start_ts = 2 * second;
}

abbrev pub with_mission : WatcherState
with_mission = record {
  guid_map = (guid, record { debug_name = codes "Haul_A"; generator = codes "Gen" }) ∷ [];
  active = (guid, mission) ∷ [];
  recent_lifecycle =
      record { trigger = codes "accept"; guid = guid; debug_name = codes "Haul_A"; ts = 2 * second }
      ∷ [];
}

process_lines-IsConsistent_example : IsConsistent (process_lines no_iso session init).0
process_lines-IsConsistent_example =
    process_lines-IsConsistent no_iso session init init-IsConsistent

view-process_lines_example :
    view guid (process_lines no_iso session init).0
    ≡ mission_run no_iso guid session (view guid init)
view-process_lines_example = view-process_lines no_iso guid session init init-IsConsistent

correlate_blueprint-Correlated_example :
    Correlated
      (4 * second)
      with_mission.recent_lifecycle
      (correlate_blueprint (4 * second) with_mission)
correlate_blueprint-Correlated_example = correlate_blueprint-Correlated (4 * second) with_mission

recent-process_lines_example :
    (process_lines no_iso session init).0.recent_lifecycle
    ≡ last max_recent (history no_iso session init)
recent-process_lines_example = recent-process_lines no_iso session

classify-Describes_example : Describes end_line (classify end_line)
classify-Describes_example = classify-Describes end_line

-- What the markers of the log say.
abbrev Named : Text → MissionEntry → Type 0
Named g e = (g ≡ guid) × (e ≡ record { debug_name = codes "Haul_A"; generator = codes "Gen" })

Known-none : Known Named init
unfolding lookup
Known-none g e h = ground (arith, h)

process_lines-Reports_example : All (Reports Named) (process_lines no_iso session init).1
unfolding classify search_in match pattern_marker pattern_accepted pattern_end_mission
    pattern_blueprint
process_lines-Reports_example =
    process_lines-Reports Named no_iso session init ((refl, refl), (tt, (tt, (tt, tt))))
      init-IsConsistent Known-none tt

pub with_mission-IsConsistent : IsConsistent with_mission
unfolding process_lines process_line timestamp_or parse_log_timestamp pattern_timestamp classify
    search_in match pattern_marker pattern_accepted pattern_end_mission pattern_blueprint handle
    record_marker record_accepted lookup insert append_bounded text_eq replace_by
with_mission-IsConsistent =
    process_lines-IsConsistent no_iso ((1 * second, marker_line) ∷ (2 * second, accepted_line) ∷ [])
      init init-IsConsistent
