-- ===== src/Import/Command.antt =====
-- `run_import` of python/watcher.py, with `collect_log_files` and `build_export_payload` of
-- python/scmdb_watcher/import_service.py. `str` of a number, the numbers as they are padded and the
-- sizes as they are printed are parameters, and so are the files and what each is scanned to.
pub mod Output
use scmdb_log_watcher_es.Base.{
  ℕ, zero, suc, ◌+◌, ◌==◌, Bool, true, false, not, ◌&&◌, ◌||◌, Option, none, some, List, [], ◌∷◌,
  ◌++◌, length, if◌then◌else◌,
}
use scmdb_log_watcher_es.Text.{Text, codes}
use scmdb_log_watcher_es.Import.Scan.{ExportedMission, ExportedBlueprint}
use scmdb_log_watcher_es.Import.Dedupe.{dedupe_missions_by_guid}

-- A log file: its name, its size, and what scanning it gives.
pub record Log : Type 0 where
  pub name : Text
  pub size : ℕ
  pub missions : List ExportedMission
  pub blueprints : List ExportedBlueprint

-- What the system answers: the backups in the order of their paths, if their directory is there, and
-- the current log, if it is a file.
pub record Source : Type 0 where
  pub directory : Text
  pub backups : Option (List Log)
  pub current : Option Log

pub record Format : Type 0 where
  pub digits : ℕ → Text
  pub padded : ℕ → Text
  pub megabytes : ℕ → Text

unfoldable pub collect_log_files : List Log → Option Log → Bool → List Log
collect_log_files backups none include_current = backups
collect_log_files backups (some log) include_current =
    if include_current then backups ++ log ∷ [] else backups

-- `build_export_payload`; the time of the export is a parameter.
pub record Payload : Type 0 where
  pub watcher_version : Text
  pub exported_at : Text
  pub source_logs : List Text
  pub missions : List ExportedMission
  pub blueprints : List ExportedBlueprint

-- The exit code, the lines on the standard output, and the payload that is written.
pub record Ended : Type 0 where
  pub code : ℕ
  pub stdout : List Text
  pub written : Option Payload

abbrev pub is_something : List ExportedMission → List ExportedBlueprint → Bool
is_something [] [] = false
is_something _ _ = true

abbrev pub output_at : Text → List Text
output_at output = codes "Output written to:" ∷ (codes "  " ++ output) ∷ []

module _ (fmt : Format) where
  -- `if m or b:`
  abbrev pub found_line : Bool → Log → List Text
  found_line false log = []
  found_line true log =
      (codes "           -> "
        ++ (fmt.digits (length log.missions)
            ++ (codes " mission(s), "
                ++ (fmt.digits (length log.blueprints) ++ codes " blueprint(s)"))))
      ∷ []

  abbrev pub log_lines : ℕ → ℕ → Log → List Text
  log_lines i n log =
      (codes "  ["
        ++ (fmt.padded i
            ++ (codes "/"
                ++ (fmt.digits n
                    ++ (codes "] "
                        ++ (log.name
                            ++ (codes "  (" ++ (fmt.megabytes log.size ++ codes " MB)"))))))))
      ∷ found_line (is_something log.missions log.blueprints) log

  -- The loop over the files: the lines, the missions, the blueprints and the names.
  unfoldable pub all_logs : ℕ → ℕ → List Log → List Text
  all_logs i n [] = []
  all_logs i n (log ∷ logs) = log_lines i n log ++ all_logs (i + 1) n logs

  abbrev pub all_missions : List Log → List ExportedMission
  all_missions [] = []
  all_missions (log ∷ logs) = log.missions ++ all_missions logs

  abbrev pub all_blueprints : List Log → List ExportedBlueprint
  all_blueprints [] = []
  all_blueprints (log ∷ logs) = log.blueprints ++ all_blueprints logs

  abbrev pub all_names : List Log → List Text
  all_names [] = []
  all_names (log ∷ logs) = log.name ∷ all_names logs

  abbrev pub deduped : List Log → List ExportedMission × ℕ
  deduped logs =
      dedupe_missions_by_guid (λ (mission : ExportedMission). some mission.guid) (all_missions logs)

  -- `if dropped:`
  abbrev pub dropped_line : ℕ → List Text
  dropped_line zero = []
  dropped_line (suc n) =
      (codes "  (" ++ (fmt.digits (suc n) ++ codes " duplicate mission GUID(s) merged.)")) ∷ []

  -- The lines before the last two.
  abbrev pub report : Text → Text → List Log → List Text
  report version directory logs =
      let n = length logs in
      (codes "SCMDB Log Watcher v" ++ (version ++ codes " — import mode"))
      ∷ (codes "Scanning " ++ (fmt.digits n ++ (codes " log file(s) from: " ++ directory)))
      ∷ []
      ∷ (all_logs 1 n logs
          ++ ([]
              ∷ (codes "Done. "
                  ++ (fmt.digits (length (deduped logs).0)
                      ++ (codes " mission(s), "
                          ++ (fmt.digits (length (all_blueprints logs))
                              ++ codes " blueprint(s)."))))
              ∷ dropped_line (deduped logs).1))

  abbrev failed : Ended
  failed = record { code = 1; stdout = []; written = none }

  -- `run_import` once the files are collected: no file is an error.
  unfoldable pub export_logs : Text → Text → Text → Text → List Log → Ended
  unfolding all_logs
  export_logs version exported_at directory output [] = failed
  export_logs version exported_at directory output (log ∷ logs) = record {
    code = 0;
    stdout = report version directory (log ∷ logs) ++ output_at output;
    written = some (record {
      watcher_version = version;
      exported_at = exported_at;
      source_logs = all_names (log ∷ logs);
      missions = (deduped (log ∷ logs)).0;
      blueprints = all_blueprints (log ∷ logs);
    });
  }

  -- `run_import`: what is printed with an error goes to the standard error.
  unfoldable pub run_import : Text → Text → Source → Bool → Text → Ended
  unfolding export_logs collect_log_files
  run_import version exported_at source include_current output = elim source.backups [
    | none ↦ failed
    | some backups ↦
        export_logs version exported_at source.directory output
          (collect_log_files backups source.current include_current)
  ]
