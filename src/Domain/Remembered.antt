-- ===== src/Domain/Remembered.antt =====
-- The names in the memory of lifecycle events, from which a blueprint takes its mission.
use scmdb_log_watcher_es.Base.{
  ◌≡◌, refl, subst, Option-cases, Option, none, some, List, [], ◌∷◌, ◌++◌, All, All-append,
  All-drop, ◌-◌, length, inl, inr, ◌⊎◌, if_both,
}
use scmdb_log_watcher_es.Text.{Text, codes, text_eq}
use scmdb_log_watcher_es.Dict
use scmdb_log_watcher_es.Domain.State.{
  Instant, max_recent, MissionEntry, ActiveMission, MissionLifecycleEvent, WatcherState,
  append_bounded, record_marker, record_accepted, record_end, complete_event, completed_name,
  correlate_blueprint,
}
use scmdb_log_watcher_es.Domain.Line.{LogLine, marker, accepted, end_mission, blueprint, other}
use scmdb_log_watcher_es.Domain.Process.{handle}
use scmdb_log_watcher_es.Domain.Invariant.{Agrees, IsConsistent}
use scmdb_log_watcher_es.Domain.Correlate.{Correlated, correlate_blueprint-Correlated}

module _ (P : Text → MissionEntry → Type 0) where
  abbrev pub Known : WatcherState → Type 0
  Known s = (guid : Text) (e : MissionEntry) → Dict.lookup guid s.guid_map ≡ some e → P guid e

  -- The name is one of a marker, or the "?" of a mission that has none.
  abbrev pub Named : Text → Text → Type 0
  Named guid name =
      (name ≡ codes "?")
      ⊎ ((generator : Text) × P guid (record { debug_name = name; generator = generator }))

  abbrev pub Remembered : WatcherState → Type 0
  Remembered s = All (λ e. Named e.guid e.debug_name) s.recent_lifecycle

  remembered-append :
      (e : MissionLifecycleEvent) (es : List MissionLifecycleEvent)
      → Named e.guid e.debug_name
      → All (λ e. Named e.guid e.debug_name) es
      → All (λ e. Named e.guid e.debug_name) (append_bounded max_recent e es)
  unfolding append_bounded
  remembered-append e es n h =
      All-drop (λ e. Named e.guid e.debug_name) (length (es ++ e ∷ []) - max_recent) (es ++ e ∷ [])
        (All-append (λ e. Named e.guid e.debug_name) es (e ∷ []) h (n, tt))

  completed_name-Named :
      (guid : Text) (active : Option ActiveMission) (found : Option MissionEntry)
      → ((m : ActiveMission) → active ≡ some m → Agrees guid m found)
      → ((e : MissionEntry) → found ≡ some e → P guid e)
      → Named guid (completed_name active found)
  completed_name-Named guid none none a h = inl refl
  completed_name-Named guid none (some e) a h = inr (e.generator, h e refl)
  completed_name-Named guid (some m) found a h = inr (
    m.generator,
    h (record { debug_name = m.debug_name; generator = m.generator }) ((a m refl).known),
  )

  accepted-Remembered :
      (guid : Text) (ts : Instant) (s : WatcherState)
      → (o : Option MissionEntry) → Dict.lookup guid s.guid_map ≡ o
      → ((e : MissionEntry) → o ≡ some e → P guid e)
      → Remembered s
      → Remembered (record_accepted guid ts s).0
  unfolding record_accepted
  accepted-Remembered guid ts s none e k h = rw (e, record_accepted) h
  accepted-Remembered guid ts s (some entry) e k h =
      rw (e, record_accepted)
        (remembered-append _ s.recent_lifecycle (inr (entry.generator, k entry refl)) h)

  pub handle-Remembered :
      (l : LogLine) (ts : Instant) (s : WatcherState)
      → IsConsistent s
      → Known s
      → Remembered s
      → Remembered (handle l ts s).0
  unfolding handle record_end record_marker
  handle-Remembered (marker k generator contract) ts s c h r =
      elim (Option-cases (Dict.lookup k s.guid_map)) [
        | inl unknown ↦ rw (unknown, record_marker) r
        | inr (e, known) ↦ rw (known, record_marker) r
      ]
  handle-Remembered (accepted k) ts s c h r =
      accepted-Remembered k ts s (Dict.lookup k s.guid_map) refl (h k) r
  handle-Remembered (end_mission k completion reason) ts s c h r =
      if_both (λ es. All (λ e. Named e.guid e.debug_name) es)
        (text_eq completion (codes "Complete"))
        (append_bounded max_recent (complete_event k s ts) s.recent_lifecycle) s.recent_lifecycle
        (remembered-append (complete_event k s ts) s.recent_lifecycle
          (completed_name-Named k (Dict.lookup k s.active) (Dict.lookup k s.guid_map) (c.agrees k)
            (h k))
          r)
        r
  handle-Remembered (blueprint name) ts s c h r = r
  handle-Remembered other ts s c h r = r

  All-middle :
      (Q : MissionLifecycleEvent → Type 0) (xs : List MissionLifecycleEvent)
      (e : MissionLifecycleEvent) (ys : List MissionLifecycleEvent)
      → All Q (xs ++ e ∷ ys)
      → Q e
  All-middle Q [] e ys h = h.0
  All-middle Q (x ∷ xs) e ys h = All-middle Q xs e ys h.1

  -- The mission of a blueprint is one of the memory.
  abbrev pub FromMemory : Option MissionLifecycleEvent → Type 0
  FromMemory none = Unit
  FromMemory (some e) = Named e.guid e.debug_name

  from_memory :
      (ts : Instant) (es : List MissionLifecycleEvent) (o : Option MissionLifecycleEvent)
      → Correlated ts es o
      → All (λ e. Named e.guid e.debug_name) es
      → FromMemory o
  from_memory ts es none c h = tt
  from_memory ts es (some e) c h =
      All-middle (λ e. Named e.guid e.debug_name) c.before e c.after
        (subst (λ xs. All (λ e. Named e.guid e.debug_name) xs) c.splits h)

  pub correlate_blueprint-FromMemory :
      (ts : Instant) (s : WatcherState) → Remembered s → FromMemory (correlate_blueprint ts s)
  correlate_blueprint-FromMemory ts s h =
      from_memory ts s.recent_lifecycle (correlate_blueprint ts s)
        (correlate_blueprint-Correlated ts s) h
