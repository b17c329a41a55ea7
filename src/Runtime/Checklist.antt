-- ===== src/Runtime/Checklist.antt =====
-- python/scmdb_watcher/startup_checklist.py. Making the directories and running the tests are the
-- system's; whether the tests pass is a parameter.
use scmdb_log_watcher_es.Base.{
  ◌≡◌, refl, Bool, true, false, not, ◌&&◌, ◌||◌, Option, none, some, List, [], ◌∷◌, ◌++◌, arith,
  if◌then◌else◌, if_both,
}
use scmdb_log_watcher_es.Text.{Text, codes, starts_with}
use scmdb_log_watcher_es.Config.Paths.{FilePath, Files, Config, resolve_log_path_from_config}
use scmdb_log_watcher_es.Gui.Command.{Command, command, lacking, resolve_watcher_launch_command}

pub record StartupChecklistResult : Type 0 where
  pub ok : Bool
  pub details : List Text

-- `_check_launcher`
unfoldable pub check_launcher : Command → List Text
check_launcher (command cmd) = codes "watcher runtime: ok" ∷ []
check_launcher (lacking error) = (codes "watcher runtime: missing (" ++ (error ++ codes ")")) ∷ []

-- `_check_log_path`
unfoldable pub check_log_path : (FilePath → Text) → Files → Option FilePath → List Text
check_log_path text_of files none = codes "log path: missing" ∷ []
check_log_path text_of files (some log_path) =
    if files.exists log_path
    then codes "log path: found" ∷ []
    else (codes "log path: " ++ text_of log_path) ∷ []

-- The line about the tests, by whether they are to run, the program is frozen, and they pass.
unfoldable pub tests_detail : Bool → Bool → Bool → Text
tests_detail true false true = codes "startup tests: ok"
tests_detail true false false = codes "startup tests: failed"
tests_detail true true pass = codes "startup tests: skipped (frozen)"
tests_detail false frozen pass = codes "startup tests: disabled"

abbrev pub tests_ok : Bool → Bool → Bool → Bool
tests_ok true false pass = pass
tests_ok true true pass = true
tests_ok false frozen pass = true

-- `any(line.startswith("watcher runtime: missing") for line in details)`
unfoldable pub has_missing_runtime : List Text → Bool
has_missing_runtime [] = false
has_missing_runtime (line ∷ lines) =
    starts_with line (codes "watcher runtime: missing") || has_missing_runtime lines

abbrev pub is_command : Command → Bool
is_command (command cmd) = true
is_command (lacking error) = false

module _ (path_of : Text → FilePath) (text_of : FilePath → Text) (files : Files)
    (script_dir : FilePath) where
  unfoldable pub run_startup_checklist : Config → Bool → Bool → Bool → StartupChecklistResult
  unfolding check_launcher check_log_path tests_detail has_missing_runtime
  run_startup_checklist config_data frozen run_tests pass =
      let details =
        codes "runtime dirs: ok"
        ∷ (check_launcher (resolve_watcher_launch_command text_of files script_dir frozen)
            ++ (check_log_path text_of files (resolve_log_path_from_config path_of config_data)
                ++ (tests_detail run_tests frozen pass ∷ []))) in
      record {
        ok = not (has_missing_runtime details) && tests_ok run_tests frozen pass;
        details = details;
      }

  no_runtime-tests_detail :
      (run_tests frozen pass : Bool)
      → has_missing_runtime (tests_detail run_tests frozen pass ∷ []) ≡ false
  unfolding has_missing_runtime tests_detail starts_with
  no_runtime-tests_detail true false true = refl
  no_runtime-tests_detail true false false = refl
  no_runtime-tests_detail true true pass = refl
  no_runtime-tests_detail false frozen pass = refl

  no_runtime-check_log_path :
      (o : Option FilePath) (rest : List Text)
      → has_missing_runtime (check_log_path text_of files o ++ rest) ≡ has_missing_runtime rest
  unfolding has_missing_runtime check_log_path starts_with
  no_runtime-check_log_path none rest = refl
  no_runtime-check_log_path (some p) rest =
      if_both (λ ls. has_missing_runtime (ls ++ rest) ≡ has_missing_runtime rest) (files.exists p)
        (codes "log path: found" ∷ []) ((codes "log path: " ++ text_of p) ∷ []) refl refl

  no_runtime-check_launcher :
      (c : Command) (rest : List Text)
      → has_missing_runtime (codes "runtime dirs: ok" ∷ (check_launcher c ++ rest))
        ≡ (if is_command c then has_missing_runtime rest else true)
  unfolding has_missing_runtime check_launcher starts_with
  no_runtime-check_launcher (command cmd) rest = refl
  no_runtime-check_launcher (lacking error) rest = refl

  -- The verdict depends on two things alone: whether the command of the watcher resolves, and whether
  -- the tests pass, if they are to run and the program is not frozen. No path of a log, whatever its
  -- text, is taken for a missing runtime.
  pub run_startup_checklist_lem :
      (config_data : Config) (frozen run_tests pass : Bool)
      → (run_startup_checklist config_data frozen run_tests pass).ok ≡ (
          is_command (resolve_watcher_launch_command text_of files script_dir frozen)
          && tests_ok run_tests frozen pass)
  unfolding run_startup_checklist
  run_startup_checklist_lem config_data frozen run_tests pass =
      let c = resolve_watcher_launch_command text_of files script_dir frozen in
      let o = resolve_log_path_from_config path_of config_data in
      let last = tests_detail run_tests frozen pass ∷ [] in
      let log = no_runtime-check_log_path o last in
      ground (
        arith,
        no_runtime-check_launcher c (check_log_path text_of files o ++ last),
        log,
        no_runtime-tests_detail run_tests frozen pass,
      )
