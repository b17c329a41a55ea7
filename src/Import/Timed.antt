-- ===== src/Import/Timed.antt =====
-- Logs whose lines carry their own time, so that it does not matter when they are read.
use scmdb_log_watcher_es.Base.{
  ◌≡◌, refl, sym, ap, ◌∙◌, some, List, [], ◌∷◌, ◌++◌, All, inl, inr, ◌⊎◌, ◌==◌, false,
}
use scmdb_log_watcher_es.Text.{Text}
use scmdb_log_watcher_es.Domain.State.{Instant, WatcherState}
use scmdb_log_watcher_es.Domain.Line.{
  FromIso, unix_epoch, timestamp_or, parse_log_timestamp, other, classify,
}
use scmdb_log_watcher_es.Domain.Process.{Event, handle, process_line, process_lines}
use scmdb_log_watcher_es.Tailer.Run.Follow.{texts}

-- The import reads every line with the clock at 0.0.
abbrev pub at_epoch : List Text → List (Instant × Text)
at_epoch [] = []
at_epoch (line ∷ lines) = (unix_epoch, line) ∷ at_epoch lines

-- The line says nothing, or it has a time of its own, that is not the one of 1970.
abbrev pub IsTimed : FromIso → Text → Type 0
IsTimed iso line =
    (classify line ≡ other)
    ⊎ ((t : Instant) × (parse_log_timestamp iso line ≡ some t) × ((t == unix_epoch) ≡ false))

timestamp_or-stamped :
    (iso : FromIso) (now : Instant) (line : Text) (t : Instant)
    → parse_log_timestamp iso line ≡ some t
    → (t == unix_epoch) ≡ false
    → timestamp_or iso now line ≡ t
unfolding timestamp_or
timestamp_or-stamped iso now line t e n = rw (e, n) refl

process_line-IsTimed :
    (iso : FromIso) (now : Instant) (line : Text) (s : WatcherState)
    → IsTimed iso line
    → process_line iso now line s ≡ process_line iso unix_epoch line s
unfolding process_line handle
process_line-IsTimed iso now line s (inl silent) = rw silent refl
process_line-IsTimed iso now line s (inr (t, e, n)) =
    ap (λ ts. handle (classify line) ts s)
      (timestamp_or-stamped iso now line t e n
        ∙ sym (timestamp_or-stamped iso unix_epoch line t e n))

pub process_lines-IsTimed :
    (iso : FromIso) (lines : List (Instant × Text)) (s : WatcherState)
    → All (λ (now, line). IsTimed iso line) lines
    → process_lines iso lines s ≡ process_lines iso (at_epoch (texts lines)) s
unfolding process_lines
process_lines-IsTimed iso [] s h = refl
process_lines-IsTimed iso ((now, line) ∷ lines) s h =
    let continued : List (Instant × Text) → WatcherState × List Event → WatcherState × List Event =
      λ rest r. ((process_lines iso rest r.0).0, r.1 ++ (process_lines iso rest r.0).1) in
    let first = process_line iso unix_epoch line s in
    ap (continued lines) (process_line-IsTimed iso now line s h.0)
    ∙ ap {B = WatcherState × List Event} (λ (r : WatcherState × List Event). (r.0, first.1 ++ r.1))
        (process_lines-IsTimed iso lines first.0 h.1)
