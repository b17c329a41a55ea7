-- ===== src/Domain/Line.antt =====
-- python/scmdb_watcher/domain.py: the patterns of the log's lines, and the time stamp of a line.
-- `datetime.fromisoformat(raw).timestamp()` is a parameter, since it depends on the machine's time
-- zone where the text names none; `none` is its `ValueError`.
use scmdb_log_watcher_es.Base.{◌*◌, Option, none, some, [], ◌∷◌, ◌++◌, ◌==◌, if◌then◌else◌}
use scmdb_log_watcher_es.Text.{Text, codes, replace_by}
use scmdb_log_watcher_es.Regex.{
  not_of, word, stamp, lit, dots, dots_lazy, group, Pattern, lits, Groups, match, search_in,
}
use scmdb_log_watcher_es.Domain.State.{Instant, second}

-- Up to the closing bracket.
abbrev bracketed : Pattern → Pattern
bracketed p = group (not_of b']') ∷ lit b']' ∷ p

unfoldable pub pattern_timestamp : Pattern
pattern_timestamp = lit b'<' ∷ group stamp ∷ lit b'>' ∷ []

unfoldable pub pattern_marker : Pattern
pattern_marker =
    lits (codes "CreateMarker")
    ++ (dots
        ∷ (lits (codes "missionId [")
            ++ bracketed (
                dots
                ∷ (lits (codes "generator name [")
                    ++ bracketed (dots ∷ (lits (codes "contract [") ++ bracketed []))))))

unfoldable pub pattern_accepted : Pattern
pattern_accepted =
    lits (codes "Added notification \"Contract Accepted:")
    ++ (dots_lazy ∷ (lits (codes "MissionId: [") ++ bracketed []))

unfoldable pub pattern_end_mission : Pattern
pattern_end_mission =
    lits (codes "<EndMission>")
    ++ (dots
        ∷ (lits (codes "MissionId[")
            ++ bracketed (
                dots
                ∷ (lits (codes "CompletionType[")
                    ++ (group word ∷ lit b']' ∷ dots ∷ (lits (codes "Reason[") ++ bracketed []))))))

unfoldable pub pattern_blueprint : Pattern
pattern_blueprint =
    lits (codes "Added notification \"Received Blueprint: ")
    ++ (group (not_of b':') ∷ lit b':' ∷ [])

-- `m.group(1)`, `m.group(2)`, `m.group(3)`
abbrev pub group1 : Groups → Text
group1 [] = []
group1 (a ∷ g) = a

abbrev pub group2 : Groups → Text
group2 [] = []
group2 (a ∷ g) = group1 g

abbrev pub group3 : Groups → Text
group3 [] = []
group3 (a ∷ g) = group2 g

-- The instant 0.0, 1970-01-01T00:00:00 UTC: the origin is one day before the year 1.
abbrev pub unix_epoch : Instant
unix_epoch = 719163 * 86400 * second

abbrev pub FromIso : Type 0
FromIso = Text → Option Instant

unfoldable pub parse_log_timestamp : FromIso → Text → Option Instant
unfolding match pattern_timestamp replace_by
parse_log_timestamp iso line = elim (match pattern_timestamp line) [
  | none ↦ none
  | some g ↦ iso (replace_by b'Z' (codes "+00:00") (group1 g))
]

-- `parse_log_timestamp(line) or default`: the instant 0.0 is false, too.
unfoldable pub timestamp_or : FromIso → Instant → Text → Instant
unfolding parse_log_timestamp
timestamp_or iso default line = elim (parse_log_timestamp iso line) [
  | none ↦ default
  | some t ↦ if t == unix_epoch then default else t
]

-- What a line says, by the first pattern that is found in it.
pub data LogLine : Type 0 where
  marker : Text → Text → Text → LogLine
  accepted : Text → LogLine
  end_mission : Text → Text → Text → LogLine
  blueprint : Text → LogLine
  other : LogLine

-- The chain of `if m := PATTERN.search(line)`, the same in `process_line` and in the import.
unfoldable pub classify : Text → LogLine
classify line = elim (search_in pattern_marker line) [
  | some g ↦ marker (group1 g) (group2 g) (group3 g)
  | none ↦ elim (search_in pattern_accepted line) [
    | some g ↦ accepted (group1 g)
    | none ↦ elim (search_in pattern_end_mission line) [
      | some g ↦ end_mission (group1 g) (group2 g) (group3 g)
      | none ↦ elim (search_in pattern_blueprint line) [
        | some g ↦ blueprint (group1 g)
        | none ↦ other
      ]
    ]
  ]
]
