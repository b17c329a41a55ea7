-- ===== src/Import/Args.antt =====
-- `parse_import_args` of python/watcher.py. Of argparse, the options in their full spelling with the
-- value as the next argument.
use scmdb_log_watcher_es.Base.{
  Bool, true, false, ◌||◌, Option, none, some, List, [], ◌∷◌, if◌then◌else◌,
}
use scmdb_log_watcher_es.Text.{Text, codes, text_eq}
use scmdb_log_watcher_es.Runtime.Entry.{value_of, and_then}
use scmdb_log_watcher_es.Import.Command.{Source, Format, Ended, run_import}

pub record ImportArgs : Type 0 where
  pub log_path : Text
  pub logbackups_dir : Option Text
  pub include_current : Bool
  pub output : Option Text
  pub verbose : Bool

pub data ImportFlag : Type 0 where
  log_path_flag : ImportFlag
  logbackups_dir_flag : ImportFlag
  include_current_flag : ImportFlag
  output_flag : ImportFlag
  verbose_flag : ImportFlag
  unknown_flag : ImportFlag

unfoldable pub import_flag_of : Text → ImportFlag
unfolding text_eq
import_flag_of arg =
    if text_eq arg (codes "--log-path")
    then log_path_flag
    else if text_eq arg (codes "--logbackups-dir")
    then logbackups_dir_flag
    else if text_eq arg (codes "--include-current")
    then include_current_flag
    else if text_eq arg (codes "--output")
    then output_flag
    else if text_eq arg (codes "--verbose") || text_eq arg (codes "-v")
    then verbose_flag
    else unknown_flag

-- What an option with a value makes of the arguments.
abbrev pub with_import_value : ImportFlag → Text → ImportArgs → Option ImportArgs
with_import_value log_path_flag v args =
    and_then (value_of v) (λ t. some (record args { log_path = t }))
with_import_value logbackups_dir_flag v args =
    and_then (value_of v) (λ t. some (record args { logbackups_dir = some t }))
with_import_value output_flag v args =
    and_then (value_of v) (λ t. some (record args { output = some t }))
with_import_value _ v args = none

-- The state of the parser: an option that waits for its value, or none.
unfoldable pub parse_import_loop : Option ImportFlag → ImportArgs → List Text → Option ImportArgs
unfolding import_flag_of
parse_import_loop none args [] = some args
parse_import_loop (some option) args [] = none
parse_import_loop (some option) args (arg ∷ rest) =
    and_then (with_import_value option arg args) (λ args'. parse_import_loop none args' rest)
parse_import_loop none args (arg ∷ rest) = elim (import_flag_of arg) [
  | include_current_flag ↦ parse_import_loop none (record args { include_current = true }) rest
  | verbose_flag ↦ parse_import_loop none (record args { verbose = true }) rest
  | unknown_flag ↦ none
  | option ↦ parse_import_loop (some option) args rest
]

-- `parse_import_args`, with the default of the log's path; `none` is argparse's exit with an error.
unfoldable pub parse_import_args : Text → List Text → Option ImportArgs
unfolding parse_import_loop
parse_import_args default_log_path argv =
    parse_import_loop none
      (record {
        log_path = default_log_path;
        logbackups_dir = none;
        include_current = false;
        output = none;
        verbose = false;
      })
      argv

-- `resolve_output_path`, where the second path is the one in the runtime's directory.
unfoldable pub resolve_output_path : Option Text → Text → Text
resolve_output_path (some output_arg) default_output = output_arg
resolve_output_path none default_output = default_output

-- `args.logbackups_dir or args.log_path.parent / "logbackups"`
abbrev pub logbackups_of : (Text → Text) → ImportArgs → Text
logbackups_of beside args = elim args.logbackups_dir [
  | none ↦ beside args.log_path
  | some dir ↦ dir
]

-- What an import process finds: the default paths, the directory beside a log, and the files.
pub record Site : Type 0 where
  pub default_log_path : Text
  pub default_output : Text
  pub beside : Text → Text
  pub source_at : Text → Text → Source

abbrev pub run_parsed : Format → Text → Text → Site → Option ImportArgs → Ended
run_parsed fmt version exported_at site none = record { code = 2; stdout = []; written = none }
run_parsed fmt version exported_at site (some args) =
    run_import fmt version exported_at
      (site.source_at (logbackups_of site.beside args) args.log_path) args.include_current
      (resolve_output_path args.output site.default_output)

-- An import process from its arguments to its end; argparse exits with 2.
unfoldable pub import_process : Format → Text → Text → Site → List Text → Ended
unfolding parse_import_args resolve_output_path
import_process fmt version exported_at site argv =
    run_parsed fmt version exported_at site (parse_import_args site.default_log_path argv)
