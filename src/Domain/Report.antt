-- ===== src/Domain/Report.antt =====
-- What `process_line` broadcasts.
use scmdb_log_watcher_es.Base.{
  ◌≡◌, refl, sym, subst, Bool-cases, Option, none, some, List, [], ◌∷◌, arith, All, All-append,
  Option-cases, inl, inr,
}
use mathlib.Core.Option
use mathlib.Core.Path.{subst₂}
use scmdb_log_watcher_es.Text.{Text, text_eq, text_eq_iff, strip}
use scmdb_log_watcher_es.Dict
use scmdb_log_watcher_es.Dict.{lookup-insert}
use scmdb_log_watcher_es.Domain.State.{
  Instant, MissionEntry, ActiveMission, MissionLifecycleEvent, WatcherState, activate,
  record_marker, record_accepted, record_end, correlate_blueprint,
}
use scmdb_log_watcher_es.Domain.Line.{
  FromIso, timestamp_or, LogLine, marker, accepted, end_mission, blueprint, other, classify,
}
use scmdb_log_watcher_es.Domain.Process.{
  Event, mission_start, mission_end, blueprint_received, session_reset, state_snapshot, end_type,
  received, accept_report, name_of, generator_of, handle, process_lines,
}
use scmdb_log_watcher_es.Domain.Remembered.{
  Known, Named, Remembered, FromMemory, handle-Remembered, correlate_blueprint-FromMemory,
}
use scmdb_log_watcher_es.Domain.Invariant.{Agrees, IsConsistent, handle-IsConsistent}

-- `P` holds of the names under which an event reports a mission, if it reports any.
abbrev pub Reports : (Text → MissionEntry → Type 0) → Event → Type 0
Reports P (mission_start guid debug_name generator ts) =
    P guid (record { debug_name = debug_name; generator = generator })
Reports P (mission_end type guid (some debug_name) (some generator) completion reason ts) =
    P guid (record { debug_name = debug_name; generator = generator })
Reports P (mission_end type guid none none completion reason ts) = Unit
Reports P (mission_end type guid none (some generator) completion reason ts) = ⊥
Reports P (mission_end type guid (some debug_name) none completion reason ts) = ⊥
Reports P (blueprint_received name none none trigger ts) = Unit
Reports P (blueprint_received name none (some debug_name) trigger ts) = ⊥
Reports P (blueprint_received name (some guid) none trigger ts) = ⊥
Reports P (blueprint_received name (some guid) (some debug_name) trigger ts) =
    Named P guid debug_name
Reports P session_reset = ⊥
Reports P (state_snapshot active) = ⊥

-- `P` holds of what a line marks, if it is a marker.
abbrev pub Marks : (Text → MissionEntry → Type 0) → LogLine → Type 0
Marks P (marker guid generator contract) =
    P guid (record { debug_name = contract; generator = generator })
Marks P _ = Unit

abbrev entry : Text → Text → MissionEntry
entry generator contract = record { debug_name = contract; generator = generator }

-- A mission starts exactly if its marker is known, under the names of the marker.
pub result-record_accepted :
    (guid : Text) (ts : Instant) (s : WatcherState)
    → (record_accepted guid ts s).1
      ≡ Option.map (λ e. activate guid e ts) (Dict.lookup guid s.guid_map)
unfolding record_accepted
result-record_accepted guid ts s = ground arith

module _ (P : Text → MissionEntry → Type 0) where
  handle-Known :
      (l : LogLine) (ts : Instant) (s : WatcherState)
      → Marks P l
      → Known P s
      → Known P (handle l ts s).0
  unfolding handle record_marker record_accepted record_end
  handle-Known (marker k generator contract) ts s m h guid e found =
      elim (Option-cases (Dict.lookup k s.guid_map)) [
        | inr (e', known) ↦ h guid e (ground arith)
        | inl unknown ↦ elim (Bool-cases (text_eq k guid)) [
          | inr differ ↦
              h guid e (ground (arith, lookup-insert guid k (entry generator contract) s.guid_map))
          | inl same ↦
              let new : entry generator contract ≡ e =
                ground (arith, lookup-insert guid k (entry generator contract) s.guid_map) in
              subst₂ P ((text_eq_iff k guid).0 same) new m
        ]
      ]
  handle-Known (accepted k) ts s m h guid e found = h guid e (ground arith)
  handle-Known (end_mission k completion reason) ts s m h guid e found = h guid e found
  handle-Known (blueprint name) ts s m h guid e found = h guid e found
  handle-Known other ts s m h guid e found = h guid e found

  accept_report-Reports :
      (guid : Text) (ts : Instant) (found : Option MissionEntry)
      → ((e : MissionEntry) → found ≡ some e → P guid e)
      → All (Reports P) (accept_report (Option.map (λ e. activate guid e ts) found))
  accept_report-Reports guid ts none h = tt
  accept_report-Reports guid ts (some e) h = (h e refl, tt)

  end_report-Reports :
      (type guid completion reason : Text) (ts : Instant) (active : Option ActiveMission)
      (found : Option MissionEntry)
      → ((m : ActiveMission) → active ≡ some m → Agrees guid m found)
      → ((e : MissionEntry) → found ≡ some e → P guid e)
      → Reports P (
          mission_end type guid
            (name_of active found)
            (generator_of active found)
            completion
            reason
            ts)
  end_report-Reports type guid completion reason ts none none a h = tt
  end_report-Reports type guid completion reason ts none (some e) a h = h e refl
  end_report-Reports type guid completion reason ts (some m) found a h =
      h (record { debug_name = m.debug_name; generator = m.generator }) ((a m refl).known)

  received-Reports :
      (name : Text) (corr : Option MissionLifecycleEvent) (ts : Instant)
      → FromMemory P corr
      → Reports P (received name corr ts)
  received-Reports name none ts m = tt
  received-Reports name (some e) ts m = m

  handle-Reports :
      (l : LogLine) (ts : Instant) (s : WatcherState)
      → IsConsistent s
      → Known P s
      → Remembered P s
      → All (Reports P) (handle l ts s).1
  unfolding handle record_end
  handle-Reports (marker k generator contract) ts s c h r = tt
  handle-Reports (accepted k) ts s c h r =
      subst (λ r. All (Reports P) (accept_report r)) (sym (result-record_accepted k ts s))
        (accept_report-Reports k ts (Dict.lookup k s.guid_map) (h k))
  handle-Reports (end_mission k completion reason) ts s c h r = (
    end_report-Reports (end_type completion) k completion reason ts (Dict.lookup k s.active)
        (Dict.lookup k s.guid_map) (c.agrees k) (h k),
    tt,
  )
  handle-Reports (blueprint name) ts s c h r = (
    received-Reports (strip name) (correlate_blueprint ts s) ts
        (correlate_blueprint-FromMemory P ts s r),
    tt,
  )
  handle-Reports other ts s c h r = tt

  -- Every name under which the watcher broadcasts a mission comes from a marker: what holds of all
  -- markers of the log, and of those known or remembered before, holds of the names in each start and
  -- each end of a mission, and of the mission of each blueprint, unless that is the "?" of a mission
  -- without a marker. Nothing else is broadcast of lines.
  pub process_lines-Reports :
      (iso : FromIso) (lines : List (Instant × Text)) (s : WatcherState)
      → All (λ (_, line). Marks P (classify line)) lines
      → IsConsistent s
      → Known P s
      → Remembered P s
      → All (Reports P) (process_lines iso lines s).1
  unfolding process_lines
  process_lines-Reports iso [] s m c h r = tt
  process_lines-Reports iso ((now, line) ∷ lines) s m c h r =
      let ts = timestamp_or iso now line in
      All-append (Reports P) (handle (classify line) ts s).1 _
        (handle-Reports (classify line) ts s c h r)
        (process_lines-Reports iso lines (handle (classify line) ts s).0 m.1
          (handle-IsConsistent (classify line) ts s c) (handle-Known (classify line) ts s m.0 h)
          (handle-Remembered P (classify line) ts s c h r))
