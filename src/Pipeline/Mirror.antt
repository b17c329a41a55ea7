-- ===== src/Pipeline/Mirror.antt =====
-- What the events of python/scmdb_watcher/domain.py and python/watcher.py mean to a client: a picture
-- of the active missions, which each event changes. The picture is a specification; the client is
-- the web page, which is not part of the repository.
use scmdb_log_watcher_es.Base.{
  ◌≡◌, refl, sym, ap, ◌∙◌, none, some, List, [], ◌∷◌, ◌++◌, inl, inr, Option-cases, Option,
}
use scmdb_log_watcher_es.Text.{Text, strip}
use scmdb_log_watcher_es.Dict
use scmdb_log_watcher_es.Dict.{Dict}
use scmdb_log_watcher_es.Domain.State.{
  Instant, ActiveMission, WatcherState, MissionLifecycleEvent, record_marker, record_accepted,
  record_end, correlate_blueprint, reset,
}
use scmdb_log_watcher_es.Domain.Line.{
  FromIso, LogLine, timestamp_or, marker, accepted, end_mission, blueprint, other, classify,
}
use scmdb_log_watcher_es.Domain.Process.{
  Event, mission_start, mission_end, blueprint_received, session_reset, state_snapshot, handle,
  process_line, process_lines, received,
}
use scmdb_log_watcher_es.Tailer.Lines.{Bytes}
use scmdb_log_watcher_es.Tailer.Run.{Turn, LogTailer, run}
use scmdb_log_watcher_es.Tailer.Run.Traces.{Traces, run-Traced}

-- The missions of a list are put under their guids, one after the other.
unfoldable pub insert_all : List ActiveMission → Dict ActiveMission → Dict ActiveMission
insert_all [] d = d
insert_all (m ∷ ms) d = insert_all ms (Dict.insert m.guid m d)

abbrev pub keyed : List ActiveMission → Dict ActiveMission
keyed missions = insert_all missions []

-- What an event makes of the picture.
unfoldable pub follow : Event → Dict ActiveMission → Dict ActiveMission
follow (mission_start guid debug_name generator start_ts) d =
    Dict.insert guid
      (record { guid = guid; debug_name = debug_name; generator = generator; start_ts = start_ts })
      d
follow (mission_end type guid debug_name generator completion reason end_ts) d = Dict.erase guid d
follow (blueprint_received name guid debug_name trigger ts) d = d
follow session_reset d = []
follow (state_snapshot missions) d = keyed missions

unfoldable pub follow_all : List Event → Dict ActiveMission → Dict ActiveMission
unfolding follow
follow_all [] d = d
follow_all (e ∷ es) d = follow_all es (follow e d)

pub follow_all-append :
    (xs ys : List Event) (d : Dict ActiveMission)
    → follow_all (xs ++ ys) d ≡ follow_all ys (follow_all xs d)
unfolding follow_all
follow_all-append [] ys d = refl
follow_all-append (e ∷ xs) ys d = follow_all-append xs ys (follow e d)

-- The events of a step keep the picture true to the active missions.
abbrev pub IsFollowed : Dict ActiveMission → WatcherState × List Event → Type 0
IsFollowed d r = follow_all r.1 d ≡ r.0.active

active-record_marker :
    (guid generator contract : Text) (s : WatcherState)
    → (record_marker guid generator contract s).active ≡ s.active
unfolding record_marker
active-record_marker guid generator contract s = elim (Option-cases (Dict.lookup guid s.guid_map)) [
  | inl e ↦ rw (e, record_marker) refl
  | inr (entry, e) ↦ rw (e, record_marker) refl
]

handle-accepted-IsFollowed :
    (guid : Text) (ts : Instant) (s : WatcherState)
    → IsFollowed s.active (handle (accepted guid) ts s)
unfolding handle record_accepted follow_all follow
handle-accepted-IsFollowed guid ts s = elim (Option-cases (Dict.lookup guid s.guid_map)) [
  | inl e ↦ rw (e, record_accepted) refl
  | inr (entry, e) ↦ rw (e, record_accepted) refl
]

received-IsFollowed :
    (name : Text) (ts : Instant) (d : Dict ActiveMission) (e : Option MissionLifecycleEvent)
    → follow_all (received name e ts ∷ []) d ≡ d
unfolding follow_all follow
received-IsFollowed name ts d none = refl
received-IsFollowed name ts d (some e) = refl

handle-IsFollowed :
    (l : LogLine) (ts : Instant) (s : WatcherState) → IsFollowed s.active (handle l ts s)
unfolding handle record_end follow_all follow
handle-IsFollowed (marker guid generator contract) ts s =
    sym (active-record_marker guid generator contract s)
handle-IsFollowed (accepted guid) ts s = handle-accepted-IsFollowed guid ts s
handle-IsFollowed (end_mission guid completion reason) ts s = refl
handle-IsFollowed (blueprint name) ts s =
    received-IsFollowed (strip name) ts s.active (correlate_blueprint ts s)
handle-IsFollowed other ts s = refl

-- The events of one step and of the next.
append-IsFollowed :
    (d : Dict ActiveMission) (s t : WatcherState) (xs ys : List Event)
    → IsFollowed d (s, xs)
    → IsFollowed s.active (t, ys)
    → IsFollowed d (t, xs ++ ys)
append-IsFollowed d s t xs ys h k = follow_all-append xs ys d ∙ ap (follow_all ys) h ∙ k

process_lines-IsFollowed :
    (iso : FromIso) (lines : List (Instant × Text)) (s : WatcherState)
    → IsFollowed s.active (process_lines iso lines s)
unfolding process_lines process_line follow_all
process_lines-IsFollowed iso [] s = refl
process_lines-IsFollowed iso ((now, line) ∷ lines) s =
    let r = process_line iso now line s in
    append-IsFollowed s.active r.0 (process_lines iso lines r.0).0 r.1
      (process_lines iso lines r.0).1
      (handle-IsFollowed (classify line) (timestamp_or iso now line) s)
      (process_lines-IsFollowed iso lines r.0)

Picture-Traces : (iso : FromIso) → Traces iso (λ s r. IsFollowed s.active r)
unfolding follow_all follow reset
Picture-Traces iso = record {
  nothing = λ s. refl;
  append = λ s t u xs ys h k. append-IsFollowed s.active t u xs ys h k;
  lines = process_lines-IsFollowed iso;
  resets = λ s. refl;
}

-- Whatever a tailer meets in its turns, a missing, rotated or unreadable log included, a client that
-- begins with the missions active before and follows every event that is broadcast has the missions
-- that are active after.
pub run-follow_all :
    (decode : Bytes → Text) (iso : FromIso) (ts : List Turn) (w : LogTailer)
    → follow_all (run decode iso ts w).1 w.state.active ≡ (run decode iso ts w).0.state.active
run-follow_all decode iso ts w =
    run-Traced decode iso (λ s r. IsFollowed s.active r) (Picture-Traces iso) ts w
