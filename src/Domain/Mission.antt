-- ===== src/Domain/Mission.antt =====
-- The specification of one mission: an automaton that reads only the lines of its own guid. The
-- state of the watcher is, at every guid, the state of that automaton.
use scmdb_log_watcher_es.Base.{
  ◌≡◌, refl, ap, ◌∙◌, Option, none, some, List, [], ◌∷◌, arith, Option-cases, inl, inr,
  if◌then◌else◌,
}
use scmdb_log_watcher_es.Text.{Text, text_eq, text_eq_iff}
use scmdb_log_watcher_es.Dict
use scmdb_log_watcher_es.Dict.{lookup-insert, lookup-erase}
use scmdb_log_watcher_es.Domain.State.{
  Instant, MissionEntry, ActiveMission, WatcherState, activate, record_marker, record_accepted,
  record_end,
}
use scmdb_log_watcher_es.Domain.Line.{
  FromIso, timestamp_or, LogLine, marker, accepted, end_mission, blueprint, other, classify,
}
use scmdb_log_watcher_es.Domain.Process.{handle, process_lines}
use scmdb_log_watcher_es.Domain.Invariant.{IsConsistent, handle-IsConsistent}

-- What is known of one guid: its marker, and whether it is active.
pub record Mission : Type 0 where
  pub entry : Option MissionEntry
  pub active : Option ActiveMission

-- The first marker counts.
abbrev marked : Text → Text → Mission → Mission
marked generator contract m = elim m.entry [
  | some _ ↦ m
  | none ↦ record m { entry = some (record { debug_name = contract; generator = generator }) }
]

-- A mission without a marker cannot become active.
abbrev begun : Text → Instant → Mission → Mission
begun guid ts m = elim m.entry [
  | none ↦ m
  | some e ↦ record m { active = some (activate guid e ts) }
]

pub mission_step : Text → LogLine → Instant → Mission → Mission
mission_step guid (marker k generator contract) ts m =
    if text_eq k guid then marked generator contract m else m
mission_step guid (accepted k) ts m = if text_eq k guid then begun guid ts m else m
mission_step guid (end_mission k completion reason) ts m =
    if text_eq k guid then record m { active = none } else m
mission_step guid (blueprint name) ts m = m
mission_step guid other ts m = m

pub mission_run : FromIso → Text → List (Instant × Text) → Mission → Mission
unfolding mission_step
mission_run iso guid [] m = m
mission_run iso guid ((now, line) ∷ lines) m =
    mission_run iso guid lines (mission_step guid (classify line) (timestamp_or iso now line) m)

abbrev pub view : Text → WatcherState → Mission
view guid s = record { entry = Dict.lookup guid s.guid_map; active = Dict.lookup guid s.active }

view-handle :
    (guid : Text) (l : LogLine) (ts : Instant) (s : WatcherState)
    → IsConsistent s
    → view guid (handle l ts s).0 ≡ mission_step guid l ts (view guid s)
unfolding handle record_marker record_accepted record_end mission_step
view-handle guid (marker k generator contract) ts s c = ground (
  arith,
  lookup-insert guid k (record { debug_name = contract; generator = generator }) s.guid_map,
  text_eq_iff k guid,
)
view-handle guid (accepted k) ts s c = elim (Option-cases (Dict.lookup k s.guid_map)) [
  | inl unknown ↦ ground (arith, text_eq_iff k guid)
  | inr (e, known) ↦
      ground (arith, lookup-insert guid k (activate k e ts) s.active, text_eq_iff k guid)
]
view-handle guid (end_mission k completion reason) ts s c =
    ground (arith, lookup-erase guid k s.active c.active_keys)
view-handle guid (blueprint name) ts s c = refl
view-handle guid other ts s c = refl

-- Seen at one guid, the watcher runs the mission's automaton on the lines.
pub view-process_lines :
    (iso : FromIso) (guid : Text) (lines : List (Instant × Text)) (s : WatcherState)
    → IsConsistent s
    → view guid (process_lines iso lines s).0 ≡ mission_run iso guid lines (view guid s)
unfolding process_lines mission_run
view-process_lines iso guid [] s c = refl
view-process_lines iso guid ((now, line) ∷ lines) s c =
    let ts = timestamp_or iso now line in
    view-process_lines iso guid lines _ (handle-IsConsistent (classify line) ts s c)
    ∙ ap (mission_run iso guid lines) (view-handle guid (classify line) ts s c)
