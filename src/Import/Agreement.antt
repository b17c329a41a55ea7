-- ===== src/Import/Agreement.antt =====
-- The import of a log against the live processing of the same lines.
use scmdb_log_watcher_es.Base.{◌≡◌, some, List, [], ◌∷◌, All, In}
use scmdb_log_watcher_es.Text.{Text, codes}
use scmdb_log_watcher_es.Domain.State.{WatcherState}
use scmdb_log_watcher_es.Domain.Process.{Event, mission_end, blueprint_received}
use scmdb_log_watcher_es.Import.Scan.{ExportedMission, ExportedBlueprint, Scan}

-- The blueprints of a broadcast that are put down to a mission.
abbrev pub correlated : List Event → List ExportedBlueprint
correlated [] = []
correlated (blueprint_received name (some guid) (some debug_name) (some trigger) ts ∷ out) =
    record {
      product_name = name;
      ts = ts;
      mission_guid = guid;
      mission_debug_name = debug_name;
      mission_trigger = trigger;
    }
    ∷ correlated out
correlated (e ∷ out) = correlated out

-- The event by which the end of an exported mission is broadcast.
abbrev pub completion_of : ExportedMission → Event
completion_of m =
    mission_end (codes "mission_complete") m.guid (some m.debug_name) (some m.generator)
      (codes "Complete") m.reason m.end_ts

abbrev Broadcast : List Event → ExportedMission → Type 0
Broadcast out m = In (completion_of m) out

-- The scan's state, blueprints and missions against a live run that broadcast `out` so far.
abbrev Agrees : Scan → WatcherState × List Event → Type 0
Agrees c (s, out) = (c.state ≡ s) × (c.blueprints ≡ correlated out) × All (Broadcast out) c.missions
