-- ===== src/Domain/Invariant.antt =====
-- What holds of the state of the watcher at all times: every active mission stands under its own
-- guid, with the names that the map of markers has for it, and the memory of lifecycle events is
-- bounded.
use scmdb_log_watcher_es.Base.{
  ◌-◌, ◌≤◌, ◌≡◌, true, Option, some, List, [], ◌∷◌, ◌++◌, arith, length, length-drop, inl, inr,
  Option-cases, Bool-cases,
}
use scmdb_log_watcher_es.Text.{Text, text_eq, text_eq_iff}
use scmdb_log_watcher_es.Dict
use scmdb_log_watcher_es.Dict.{
  Dict, NodupKeys, lookup-insert, lookup-erase, insert-NodupKeys, erase-NodupKeys,
}
use scmdb_log_watcher_es.Domain.State.{
  Instant, max_recent, MissionEntry, ActiveMission, MissionLifecycleEvent, WatcherState, init,
  append_bounded, record_marker, record_accepted, record_end, activate, complete_event,
}
use scmdb_log_watcher_es.Domain.Line.{
  FromIso, timestamp_or, LogLine, marker, accepted, end_mission, blueprint, other, classify,
}
use scmdb_log_watcher_es.Domain.Process.{handle, process_lines}

-- The map of markers knows the mission under this guid, by the same names.
pub record Agrees (guid : Text) (m : ActiveMission) (found : Option MissionEntry) : Type 0 where
  pub own_guid : m.guid ≡ guid
  pub known : found ≡ some (record { debug_name = m.debug_name; generator = m.generator })

pub record IsConsistent (s : WatcherState) : Type 0 where
  pub map_keys : NodupKeys s.guid_map
  pub active_keys : NodupKeys s.active
  pub agrees :
      (guid : Text) (m : ActiveMission)
      → Dict.lookup guid s.active ≡ some m
      → Agrees guid m (Dict.lookup guid s.guid_map)
  pub bounded : length s.recent_lifecycle ≤ max_recent

pub length-append_bounded :
    (x : MissionLifecycleEvent) (xs : List MissionLifecycleEvent)
    → length (append_bounded max_recent x xs) ≤ max_recent
unfolding append_bounded
length-append_bounded x xs =
    omega (arith, length-drop (length (xs ++ x ∷ []) - max_recent) (xs ++ x ∷ []))

pub init-IsConsistent : IsConsistent init
unfolding Dict.lookup
init-IsConsistent = record {
  map_keys = tt;
  active_keys = tt;
  agrees = λ guid m h. absurd (ground arith);
  bounded = omega arith;
}

pub record_marker-IsConsistent :
    (guid generator contract : Text) (s : WatcherState)
    → IsConsistent s
    → IsConsistent (record_marker guid generator contract s)
unfolding record_marker
record_marker-IsConsistent guid generator contract s c =
    elim (Option-cases (Dict.lookup guid s.guid_map)) [
      | inr (e, known) ↦ rw (known, record_marker) c
      | inl unknown ↦
          rw (unknown, record_marker)
            (record {
              map_keys = insert-NodupKeys guid _ s.guid_map c.map_keys;
              active_keys = c.active_keys;
              agrees = λ k m h. record {
                own_guid = (c.agrees k m h).own_guid;
                known = ground (
                  arith,
                  lookup-insert k guid (record { debug_name = contract; generator = generator })
                      s.guid_map,
                  text_eq_iff guid k,
                  (c.agrees k m h).known,
                );
              };
              bounded = c.bounded;
            })
    ]

accepted-Agrees :
    (guid k : Text) (ts : Instant) (m : ActiveMission) (e : MissionEntry) (map : Dict MissionEntry)
    (active : Dict ActiveMission)
    → Dict.lookup guid map ≡ some e
    → text_eq guid k ≡ true
    → Dict.lookup k (Dict.insert guid (activate guid e ts) active) ≡ some m
    → Agrees k m (Dict.lookup k map)
accepted-Agrees guid k ts m e map active known same h =
    let started : activate guid e ts ≡ m =
      ground (arith, lookup-insert k guid (activate guid e ts) active) in
    let here : guid ≡ k = (text_eq_iff guid k).0 same in
    record { own_guid = ground arith; known = ground arith }

pub record_accepted-IsConsistent :
    (guid : Text) (ts : Instant) (s : WatcherState)
    → IsConsistent s
    → IsConsistent (record_accepted guid ts s).0
unfolding record_accepted
record_accepted-IsConsistent guid ts s c = elim (Option-cases (Dict.lookup guid s.guid_map)) [
  | inl unknown ↦ rw (unknown, record_accepted) c
  | inr (e, known) ↦
      rw (known, record_accepted)
        (record {
          map_keys = c.map_keys;
          active_keys = insert-NodupKeys guid _ s.active c.active_keys;
          agrees = λ k m h. elim (Bool-cases (text_eq guid k)) [
            | inl same ↦ accepted-Agrees guid k ts m e s.guid_map s.active known same h
            | inr differ ↦
                c.agrees k m (ground (arith, lookup-insert k guid (activate guid e ts) s.active))
          ];
          bounded = length-append_bounded _ s.recent_lifecycle;
        })
]

pub record_end-IsConsistent :
    (guid completion : Text) (ts : Instant) (s : WatcherState)
    → IsConsistent s
    → IsConsistent (record_end guid completion ts s).0
unfolding record_end
record_end-IsConsistent guid completion ts s c = record {
  map_keys = c.map_keys;
  active_keys = erase-NodupKeys guid s.active c.active_keys;
  agrees = λ k m h. c.agrees k m (ground (arith, lookup-erase k guid s.active c.active_keys));
  bounded = ground (arith, length-append_bounded (complete_event guid s ts) s.recent_lifecycle);
}

pub handle-IsConsistent :
    (l : LogLine) (ts : Instant) (s : WatcherState)
    → IsConsistent s
    → IsConsistent (handle l ts s).0
unfolding handle
handle-IsConsistent (marker guid generator contract) ts s c =
    record_marker-IsConsistent guid generator contract s c
handle-IsConsistent (accepted guid) ts s c = record_accepted-IsConsistent guid ts s c
handle-IsConsistent (end_mission guid completion reason) ts s c =
    record_end-IsConsistent guid completion ts s c
handle-IsConsistent (blueprint name) ts s c = c
handle-IsConsistent other ts s c = c

-- Whatever lines a log holds, processing them keeps the state consistent.
pub process_lines-IsConsistent :
    (iso : FromIso) (lines : List (Instant × Text)) (s : WatcherState)
    → IsConsistent s
    → IsConsistent (process_lines iso lines s).0
unfolding process_lines
process_lines-IsConsistent iso [] s c = c
process_lines-IsConsistent iso ((now, line) ∷ lines) s c =
    process_lines-IsConsistent iso lines _
      (handle-IsConsistent (classify line) (timestamp_or iso now line) s c)
