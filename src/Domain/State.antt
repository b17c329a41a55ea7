-- ===== src/Domain/State.antt =====
-- python/scmdb_watcher/domain.py, `WatcherState`: every method runs under the one lock, so a method
-- is one function from the state to the new state and the result.
-- An `Instant` counts steps of 2^-22 s from a fixed origin before year 1. That is the spacing of the
-- doubles that stand for instants between 2004 and 2038, whose differences are exact.
use scmdb_log_watcher_es.Base.{
  ℕ, ◌+◌, ◌-◌, ◌*◌, Bool, ◌&&◌, Option, none, some, List, [], ◌∷◌, ◌++◌, length, drop, ltb, leb,
  if◌then◌else◌,
}
use scmdb_log_watcher_es.Text.{Text, codes, text_eq}
use scmdb_log_watcher_es.Dict
use scmdb_log_watcher_es.Dict.{Dict}

abbrev pub Instant : Type 0
Instant = ℕ

abbrev pub second : ℕ
second = 4194304

-- `BLUEPRINT_CORRELATION_WINDOW_SEC`
abbrev pub correlation_window : ℕ
correlation_window = 5 * second

-- `deque(maxlen=32)`
abbrev pub max_recent : ℕ
max_recent = 32

pub record MissionEntry : Type 0 where
  pub debug_name : Text
  pub generator : Text

pub record ActiveMission : Type 0 where
  pub guid : Text
  pub debug_name : Text
  pub generator : Text
  pub start_ts : Instant

pub record MissionLifecycleEvent : Type 0 where
  pub trigger : Text
  pub guid : Text
  pub debug_name : Text
  pub ts : Instant

pub record WatcherState : Type 0 where
  pub guid_map : Dict MissionEntry
  pub active : Dict ActiveMission
  pub recent_lifecycle : List MissionLifecycleEvent

abbrev pub init : WatcherState
init = record { guid_map = []; active = []; recent_lifecycle = [] }

-- `append` of a `deque` with a `maxlen`: the oldest items go.
unfoldable pub append_bounded {ℓ} : {A : Type ℓ} → ℕ → A → List A → List A
append_bounded n x xs = let ys = xs ++ x ∷ [] in drop (length ys - n) ys

unfoldable pub reset : WatcherState → WatcherState
reset s = record { guid_map = []; active = []; recent_lifecycle = [] }

-- The first marker of a mission stays.
unfoldable pub record_marker : Text → Text → Text → WatcherState → WatcherState
record_marker guid generator contract s = elim (Dict.lookup guid s.guid_map) [
  | some _ ↦ s
  | none ↦ record s {
    guid_map =
        Dict.insert guid (record { debug_name = contract; generator = generator }) s.guid_map;
  }
]

abbrev pub activate : Text → MissionEntry → Instant → ActiveMission
activate guid entry ts = record {
  guid = guid;
  debug_name = entry.debug_name;
  generator = entry.generator;
  start_ts = ts;
}

unfoldable pub record_accepted : Text → Instant → WatcherState → WatcherState × Option ActiveMission
unfolding append_bounded
record_accepted guid ts s = elim (Dict.lookup guid s.guid_map) [
  | none ↦ (s, none)
  | some entry ↦ (
    record s {
      active = Dict.insert guid (activate guid entry ts) s.active;
      recent_lifecycle =
          append_bounded max_recent
            (record {
              trigger = codes "accept";
              guid = guid;
              debug_name = entry.debug_name;
              ts = ts;
            })
            s.recent_lifecycle;
    },
    some (activate guid entry ts),
  )
]

-- `active.debug_name if active else (entry.debug_name if entry else "?")`
abbrev pub completed_name : Option ActiveMission → Option MissionEntry → Text
completed_name (some mission) entry = mission.debug_name
completed_name none (some entry) = entry.debug_name
completed_name none none = codes "?"

abbrev pub complete_event : Text → WatcherState → Instant → MissionLifecycleEvent
complete_event guid s ts = record {
  trigger = codes "complete";
  guid = guid;
  debug_name = completed_name (Dict.lookup guid s.active) (Dict.lookup guid s.guid_map);
  ts = ts;
}

unfoldable pub record_end :
    Text → Text → Instant → WatcherState → WatcherState × Option ActiveMission
unfolding append_bounded
record_end guid completion ts s = (
  record s {
    active = Dict.erase guid s.active;
    recent_lifecycle =
        if text_eq completion (codes "Complete")
        then append_bounded max_recent (complete_event guid s ts) s.recent_lifecycle
        else s.recent_lifecycle;
  },
  Dict.lookup guid s.active,
)

-- `0.0 <= delta <= BLUEPRINT_CORRELATION_WINDOW_SEC and delta < best_delta`, with `delta` the time
-- from the event to `ts`.
abbrev pub closer : Instant → ℕ → MissionLifecycleEvent → Bool
closer ts best_delta e =
    leb e.ts ts && leb (ts - e.ts) correlation_window && ltb (ts - e.ts) best_delta

unfoldable pub correlate_loop :
    Instant
    → Option MissionLifecycleEvent
    → ℕ
    → List MissionLifecycleEvent
    → Option MissionLifecycleEvent
correlate_loop ts best best_delta [] = best
correlate_loop ts best best_delta (e ∷ es) =
    correlate_loop ts (if closer ts best_delta e then some e else best)
      (if closer ts best_delta e then ts - e.ts else best_delta) es

unfoldable pub correlate_blueprint : Instant → WatcherState → Option MissionLifecycleEvent
unfolding correlate_loop
correlate_blueprint ts s = correlate_loop ts none (correlation_window + second) s.recent_lifecycle

unfoldable pub snapshot_active : WatcherState → List ActiveMission
unfolding Dict.values
snapshot_active s = Dict.values s.active
