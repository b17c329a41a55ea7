-- ===== src/Samples/Import.antt =====
-- The import of the log of one mission, and missions that two logs both export.
use scmdb_log_watcher_es.Base.{◌+◌, ◌≡◌, refl, Option, some, List, [], ◌∷◌, ◌++◌, length}
use scmdb_log_watcher_es.Text.{Text, codes, text_eq}
use scmdb_log_watcher_es.Domain.State.{Instant, second}
use scmdb_log_watcher_es.Domain.Line.{FromIso}
use scmdb_log_watcher_es.Import.Dedupe.{
  dedupe_missions_by_guid, first, without_guid, Nodup, dedupe_missions_by_guid_lem,
}
use scmdb_log_watcher_es.Samples.Domain.{marker_line, accepted_line, end_line, blueprint_line}

-- Every line has its time, and a clock that goes on its own.
abbrev iso : FromIso
iso text = some second

abbrev stamped : Text → Text
stamped line = codes "<2025-01-02T03:04:05.678Z> " ++ line

abbrev clocked : List (Instant × Text)
clocked =
    (7, stamped marker_line)
    ∷ (8, stamped accepted_line)
    ∷ (9, stamped end_line)
    ∷ (9, stamped blueprint_line)
    ∷ (10, codes "nothing of interest")
    ∷ []

-- Missions that are their guids.
abbrev own : Text → Option Text
own guid = some guid

abbrev three : List Text
three = codes "a" ∷ codes "b" ∷ codes "a" ∷ []

dedupe_three : dedupe_missions_by_guid own three ≡ (codes "a" ∷ codes "b" ∷ [], 1)
unfolding dedupe_missions_by_guid text_eq
dedupe_three = refl

dedupe_missions_by_guid_example :
    Nodup own (dedupe_missions_by_guid own three).0
    × ((guid : Text) → first own guid (dedupe_missions_by_guid own three).0 ≡ first own guid three)
    × (without_guid own (dedupe_missions_by_guid own three).0 ≡ without_guid own three)
    × ((dedupe_missions_by_guid own three).1 + length (dedupe_missions_by_guid own three).0
        ≡ length three)
dedupe_missions_by_guid_example = dedupe_missions_by_guid_lem own three
