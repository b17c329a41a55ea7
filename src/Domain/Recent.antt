-- ===== src/Domain/Recent.antt =====
-- The bounded memory of lifecycle events holds the last 32 of all that happened.
use scmdb_log_watcher_es.Base.{
  ℕ, ◌-◌, ◌≡◌, refl, sym, ap, ◌∙◌, none, some, List, [], ◌∷◌, ◌++◌, arith, length, drop,
  length-append, length-drop, drop-append, drop-drop, append-nil, append_assoc, if◌then◌else◌,
  Option-cases, Bool-cases, inl, inr,
}
use scmdb_log_watcher_es.Text.{Text, codes, text_eq}
use scmdb_log_watcher_es.Dict
use scmdb_log_watcher_es.Domain.State.{
  Instant, max_recent, MissionEntry, MissionLifecycleEvent, WatcherState, init, append_bounded,
  record_marker, record_accepted, record_end, complete_event,
}
use scmdb_log_watcher_es.Domain.Line.{
  FromIso, timestamp_or, LogLine, marker, accepted, end_mission, blueprint, other, classify,
}
use scmdb_log_watcher_es.Domain.Process.{handle, process_line, process_lines}

pub last {ℓ} : {A : Type ℓ} → ℕ → List A → List A
last n xs = drop (length xs - n) xs

pub append_bounded-last {ℓ} :
    {A : Type ℓ} (n : ℕ) (x : A) (xs : List A)
    → append_bounded n x (last n xs) ≡ last n (xs ++ x ∷ [])
unfolding append_bounded last
append_bounded-last n x xs =
    let k = length xs - n in
    let zs = xs ++ x ∷ [] in
    let e : drop k xs ++ x ∷ [] ≡ drop k zs = sym (drop-append k xs (x ∷ []) (omega arith)) in
    ap (λ ys. drop (length ys - n) ys) e
    ∙ drop-drop (length (drop k zs) - n) k zs
    ∙ ap (λ m. drop m zs) (omega (arith, length-drop k zs, length-append xs (x ∷ [])))

-- What a line adds to the history of lifecycle events.
abbrev accept_event : Text → Instant → MissionEntry → MissionLifecycleEvent
accept_event guid ts entry = record {
  trigger = codes "accept";
  guid = guid;
  debug_name = entry.debug_name;
  ts = ts;
}

pub lifecycle : LogLine → Instant → WatcherState → List MissionLifecycleEvent
lifecycle (marker guid generator contract) ts s = []
lifecycle (accepted guid) ts s = elim (Dict.lookup guid s.guid_map) [
  | none ↦ []
  | some entry ↦ accept_event guid ts entry ∷ []
]
lifecycle (end_mission guid completion reason) ts s =
    if text_eq completion (codes "Complete") then complete_event guid s ts ∷ [] else []
lifecycle (blueprint name) ts s = []
lifecycle other ts s = []

pub history : FromIso → List (Instant × Text) → WatcherState → List MissionLifecycleEvent
history iso [] s = []
history iso ((now, line) ∷ lines) s =
    lifecycle (classify line) (timestamp_or iso now line) s
    ++ history iso lines (process_line iso now line s).0

-- The memory before and after one line, if it is the end of the history `h`.
recent-handle :
    (l : LogLine) (ts : Instant) (s : WatcherState) (h : List MissionLifecycleEvent)
    → s.recent_lifecycle ≡ last max_recent h
    → (handle l ts s).0.recent_lifecycle ≡ last max_recent (h ++ lifecycle l ts s)
unfolding handle record_marker record_accepted record_end lifecycle
recent-handle (marker guid generator contract) ts s h e = rw append-nil (ground arith)
recent-handle (accepted guid) ts s h e = elim (Option-cases (Dict.lookup guid s.guid_map)) [
  | inl unknown ↦ ground (arith, append-nil h)
  | inr (entry, known) ↦
      ground (arith, append_bounded-last max_recent (accept_event guid ts entry) h)
]
recent-handle (end_mission guid completion reason) ts s h e =
    elim (Bool-cases (text_eq completion (codes "Complete"))) [
      | inr n ↦ ground (arith, append-nil h)
      | inl y ↦ ground (arith, append_bounded-last max_recent (complete_event guid s ts) h)
    ]
recent-handle (blueprint name) ts s h e = rw append-nil e
recent-handle other ts s h e = rw append-nil e

recent-process_lines_from :
    (iso : FromIso) (lines : List (Instant × Text)) (s : WatcherState)
    (h : List MissionLifecycleEvent)
    → s.recent_lifecycle ≡ last max_recent h
    → (process_lines iso lines s).0.recent_lifecycle ≡ last max_recent (h ++ history iso lines s)
unfolding process_lines history
recent-process_lines_from iso [] s h e = rw append-nil e
recent-process_lines_from iso ((now, line) ∷ lines) s h e =
    let ts = timestamp_or iso now line in
    recent-process_lines_from iso lines (process_line iso now line s).0
      (h ++ lifecycle (classify line) ts s) (recent-handle (classify line) ts s h e)
    ∙ ap (last max_recent) (
        append_assoc h (lifecycle (classify line) ts s)
          (history iso lines (process_line iso now line s).0))

-- After any lines, the memory is the last 32 events of the whole history since the start.
pub recent-process_lines :
    (iso : FromIso) (lines : List (Instant × Text))
    → (process_lines iso lines init).0.recent_lifecycle ≡ last max_recent (history iso lines init)
unfolding last
recent-process_lines iso lines = recent-process_lines_from iso lines init [] refl
