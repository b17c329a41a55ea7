-- ===== src/Import/Scan.antt =====
-- python/scmdb_watcher/import_service.py, `scan_file_for_export`. `raw.decode("utf-8",
-- errors="replace")` is a parameter; `none` in place of a file's bytes is an `OSError` of `open`.
use scmdb_log_watcher_es.Base.{
  ℕ, zero, suc, ◌+◌, ◌-◌, ◌*◌, ◌/◌, ◌%◌, Bool, ◌&&◌, ◌||◌, Option, none, some, List, [], ◌∷◌, ◌++◌,
  ltb, leb, ◌==◌, if◌then◌else◌,
}
use scmdb_log_watcher_es.Text.{Text, codes, text_eq, strip, rstrip_if, newline, carriage_return}
use scmdb_log_watcher_es.Domain.State.{
  Instant, second, ActiveMission, MissionLifecycleEvent, WatcherState, init, record_marker,
  record_accepted, record_end, correlate_blueprint,
}
use scmdb_log_watcher_es.Domain.Line.{
  FromIso, unix_epoch, timestamp_or, LogLine, marker, accepted, end_mission, blueprint, other,
  classify,
}
use scmdb_log_watcher_es.Tailer.Lines.{Bytes}

-- A whole number: `negsuc n` is -(n + 1).
pub data ℤ : Type 0 where
  pos : ℕ → ℤ
  negsuc : ℕ → ℤ

abbrev pub negated : ℕ → ℤ
negated zero = pos zero
negated (suc n) = negsuc n

-- `round(x, 3)` of a duration, in milliseconds: the nearest, and the even one of two as near.
unfoldable pub rounded_ms : ℕ → ℕ
rounded_ms d =
    let q = d * 1000 / second in
    let r = d * 1000 % second in
    if ltb (2 * r) second || (2 * r == second && q % 2 == 0) then q else q + 1

-- `round(ts - start_ts, 3)`, in milliseconds.
unfoldable pub duration_ms : Instant → Instant → ℤ
unfolding rounded_ms
duration_ms ts start_ts =
    if leb start_ts ts
    then pos (rounded_ms (ts - start_ts))
    else negated (rounded_ms (start_ts - ts))

pub record ExportedMission : Type 0 where
  pub guid : Text
  pub debug_name : Text
  pub generator : Text
  pub start_ts : Instant
  pub end_ts : Instant
  pub duration : ℤ
  pub reason : Text

pub record ExportedBlueprint : Type 0 where
  pub product_name : Text
  pub ts : Instant
  pub mission_guid : Text
  pub mission_debug_name : Text
  pub mission_trigger : Text

-- The local variables of the scan.
pub record Scan : Type 0 where
  pub state : WatcherState
  pub missions : List ExportedMission
  pub blueprints : List ExportedBlueprint

abbrev pub empty_scan : Scan
empty_scan = record { state = init; missions = []; blueprints = [] }

abbrev exported : ActiveMission → Text → Instant → ExportedMission
exported m reason ts = record {
  guid = m.guid;
  debug_name = m.debug_name;
  generator = m.generator;
  start_ts = m.start_ts;
  end_ts = ts;
  duration = duration_ms ts m.start_ts;
  reason = reason;
}

-- `completion == "Complete" and active is not None`; the guid is the line's.
abbrev pub completed_mission :
    Text → Text → Text → Instant → Option ActiveMission → List ExportedMission
completed_mission guid completion reason ts none = []
completed_mission guid completion reason ts (some m) =
    if text_eq completion (codes "Complete")
    then record (exported m reason ts) { guid = guid } ∷ []
    else []

abbrev pub correlated_blueprint :
    Text → Instant → Option MissionLifecycleEvent → List ExportedBlueprint
correlated_blueprint name ts none = []
correlated_blueprint name ts (some e) =
    record {
      product_name = name;
      ts = ts;
      mission_guid = e.guid;
      mission_debug_name = e.debug_name;
      mission_trigger = e.trigger;
    }
    ∷ []

unfoldable pub scan_line : LogLine → Instant → Scan → Scan
scan_line (marker guid generator contract) ts c = record c {
  state = record_marker guid generator contract c.state;
}
scan_line (accepted guid) ts c = record c { state = (record_accepted guid ts c.state).0 }
scan_line (end_mission guid completion reason) ts c =
    let (s, active) = record_end guid completion ts c.state in
    record c {
      state = s;
      missions = c.missions ++ completed_mission guid completion reason ts active;
    }
scan_line (blueprint name) ts c = record c {
  blueprints =
      c.blueprints ++ correlated_blueprint (strip name) ts (correlate_blueprint ts c.state);
}
scan_line other ts c = c

-- The loop over the lines that are not empty.
unfoldable pub scan_lines : FromIso → List Text → Scan → Scan
unfolding scan_line
scan_lines iso [] c = c
scan_lines iso (line ∷ lines) c =
    scan_lines iso lines (scan_line (classify line) (timestamp_or iso unix_epoch line) c)

-- `for raw in f`: the lines of a binary file, each with its line feed, in the middle of one.
file_lines : Bytes → Bytes → List Bytes
file_lines [] [] = []
file_lines (b ∷ line) [] = (b ∷ line) ∷ []
file_lines line (c ∷ s) =
    let rest = file_lines (if c == newline then [] else line ++ c ∷ []) s in
    if c == newline then (line ++ c ∷ []) ∷ rest else rest

is_line_end : ℕ → Bool
is_line_end c = c == newline || c == carriage_return

-- `raw.decode(...).rstrip("\r\n")`, without the lines that are empty then.
text_lines : (Bytes → Text) → List Bytes → List Text
text_lines decode [] = []
text_lines decode (raw ∷ raws) =
    let rest = text_lines decode raws in
    elim (rstrip_if is_line_end (decode raw)) [ [] ↦ rest | c ∷ s ↦ (c ∷ s) ∷ rest ]

unfoldable pub scan_file_for_export :
    (Bytes → Text) → FromIso → Option Bytes → List ExportedMission × List ExportedBlueprint
unfolding scan_lines text_lines file_lines is_line_end
scan_file_for_export decode iso none = ([], [])
scan_file_for_export decode iso (some content) =
    let c = scan_lines iso (text_lines decode (file_lines [] content)) empty_scan in
    (c.missions, c.blueprints)
