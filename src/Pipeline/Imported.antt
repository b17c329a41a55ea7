-- ===== src/Pipeline/Imported.antt =====
-- The window and the import it starts: the command of python/scmdb_watcher/gui_controller.py, the
-- arguments and the run of python/watcher.py, and what the window makes of its end.
use scmdb_log_watcher_es.Base.{
  ℕ, ◌≡◌, refl, sym, ap, ◌∙◌, subst, true, false, Option, none, some, List, [], ◌∷◌,
}
use scmdb_log_watcher_es.Text.{Text, codes, text_eq, strip, or_default}
use scmdb_log_watcher_es.Gui.Command.{Completed, ImportExecutionResult, import_args, import_result}
use scmdb_log_watcher_es.Runtime.Entry.{importing, launcher_main, watcher_main, value_of, and_then}
use scmdb_log_watcher_es.Import.Command.{
  Log, Source, Format, Ended, collect_log_files, export_logs, run_import,
}
use scmdb_log_watcher_es.Import.Command.Output.{extract_output_path-export_logs}
use scmdb_log_watcher_es.Import.Args.{
  ImportArgs, ImportFlag, log_path_flag, output_flag, with_import_value, import_flag_of,
  parse_import_loop, parse_import_args, resolve_output_path, Site, run_parsed, import_process,
}

-- What `subprocess.run` returns of the process; the texts are those of its outputs.
abbrev pub completed : (List Text → Text) → Text → Ended → Completed
completed text_of stderr e = record {
  returncode = e.code;
  stdout_lines = e.stdout;
  stdout = text_of e.stdout;
  stderr = stderr;
}

-- The options of the command.
abbrev pub import_options : Text → Text → List Text
import_options log_path output = codes "--log-path" ∷ log_path ∷ codes "--output" ∷ output ∷ []

abbrev pub parsed_options : Text → Text → ImportArgs
parsed_options log_path output = record {
  log_path = log_path;
  logbackups_dir = none;
  include_current = false;
  output = some output;
  verbose = false;
}

abbrev pub done_at : Text → ImportExecutionResult
done_at output = record { ok = true; output_path = output; error_text = [] }

-- With a backup at least the import is a success with this output, without it is none.
abbrev pub Outcome : Option (List Log) → Text → ImportExecutionResult → Type 0
Outcome (some (log ∷ logs)) output r = r ≡ done_at output
Outcome _ output r = (r.ok ≡ false) × (r.output_path ≡ [])

flag-log_path :
    (args : ImportArgs) (rest : List Text)
    → parse_import_loop none args (codes "--log-path" ∷ rest)
      ≡ parse_import_loop (some log_path_flag) args rest
unfolding parse_import_loop import_flag_of text_eq
flag-log_path args rest = refl

flag-output :
    (args : ImportArgs) (rest : List Text)
    → parse_import_loop none args (codes "--output" ∷ rest)
      ≡ parse_import_loop (some output_flag) args rest
unfolding parse_import_loop import_flag_of text_eq
flag-output args rest = refl

value-parsed :
    (flag : ImportFlag) (args args' : ImportArgs) (v : Text) (rest : List Text)
    → with_import_value flag v args ≡ some args'
    → parse_import_loop (some flag) args (v ∷ rest) ≡ parse_import_loop none args' rest
unfolding parse_import_loop
value-parsed flag args args' v rest e =
    ap (λ o. and_then o (λ args''. parse_import_loop none args'' rest)) e

parse_import_args-import_options :
    (default log_path output : Text)
    → value_of log_path ≡ some log_path
    → value_of output ≡ some output
    → parse_import_args default (import_options log_path output)
      ≡ some (parsed_options log_path output)
unfolding parse_import_args parse_import_loop
parse_import_args-import_options default log_path output l o =
    let zeroth : ImportArgs = record {
      log_path = default;
      logbackups_dir = none;
      include_current = false;
      output = none;
      verbose = false;
    } in
    let first : ImportArgs = record zeroth { log_path = log_path } in
    let rest = codes "--output" ∷ output ∷ [] in
    flag-log_path zeroth (log_path ∷ rest)
    ∙ value-parsed log_path_flag zeroth first log_path rest
        (ap (λ v. and_then v (λ t. some (record zeroth { log_path = t }))) l)
    ∙ flag-output first (output ∷ [])
    ∙ value-parsed output_flag first (parsed_options log_path output) output []
        (ap (λ v. and_then v (λ t. some (record first { output = some t }))) o)

-- What the window makes of the end of a run over some backups.
module _ (fmt : Format) (version exported_at : Text) (text_of : List Text → Text) (stderr : Text)
    (directory output : Text) (current : Option Log) where
  source : Option (List Log) → Source
  source backups = record { directory = directory; backups = backups; current = current }

  source_collected :
      (held : Option Log) (backups : List Log) → collect_log_files backups held false ≡ backups
  unfolding collect_log_files
  source_collected none backups = refl
  source_collected (some log) backups = refl

  abbrev shown_of : List Log → ImportExecutionResult
  shown_of files =
      import_result
        (completed text_of stderr (export_logs fmt version exported_at directory output files))
        (some output)

  shown_of-some :
      (log : Log) (logs : List Log) (c : ℕ) (t : Text)
      → strip output ≡ output
      → output ≡ c ∷ t
      → shown_of (log ∷ logs) ≡ done_at output
  unfolding import_result export_logs
  shown_of-some log logs c t s e = ap done_at (
      ap (λ o. or_default o output)
        (extract_output_path-export_logs fmt version exported_at directory output log logs c t s e)
      ∙ subst (λ o. or_default o o ≡ o) (sym e) refl)

  shown_of-none : Outcome (some []) output (shown_of [])
  unfolding import_result export_logs
  shown_of-none = (refl, refl)

  run_import-Outcome :
      (backups : Option (List Log)) (c : ℕ) (t : Text)
      → strip output ≡ output
      → output ≡ c ∷ t
      → Outcome backups output (
          import_result
            (completed text_of stderr
              (run_import fmt version exported_at (source backups) false output))
            (some output))
  unfolding run_import import_result source
  run_import-Outcome none c t s e = (refl, refl)
  run_import-Outcome (some []) c t s e =
      subst (λ files. Outcome (some []) output (shown_of files)) (sym (source_collected current []))
        shown_of-none
  run_import-Outcome (some (log ∷ logs)) c t s e =
      ap shown_of (source_collected current (log ∷ logs)) ∙ shown_of-some log logs c t s e

-- The window's command for an import is its base command and the options of an import. The launcher
-- reads them back as an import of these options, and when the process ends the window shows the
-- output it asked for, if there was a backup beside the log, and an error without an output if the
-- directory or the backups are missing. The log's path and the output are no options themselves, and
-- the output has no outer spaces and is not empty.
pub import_process-launcher_main :
    (fmt : Format) (version exported_at : Text) (text_of : List Text → Text) (stderr : Text)
    (site : Site) (exe log_path output : Text) (c : ℕ) (t : Text)
    → value_of log_path ≡ some log_path
    → value_of output ≡ some output
    → strip output ≡ output
    → output ≡ c ∷ t
    → (import_args (exe ∷ codes "import" ∷ []) log_path (some output)
        ≡ exe ∷ codes "import" ∷ import_options log_path output)
      × (launcher_main (codes "import" ∷ import_options log_path output)
          ≡ importing (import_options log_path output))
      × Outcome (site.source_at (site.beside log_path) log_path).backups output (
          import_result
            (completed text_of stderr
              (import_process fmt version exported_at site (import_options log_path output)))
            (some output))
unfolding import_args launcher_main watcher_main text_eq import_process resolve_output_path source
import_process-launcher_main fmt version exported_at text_of stderr site exe log_path output c t l o
      s e =
    let src = site.source_at (site.beside log_path) log_path in
    let shown : Option ImportArgs → Type 0 = λ args. Outcome src.backups output (
      import_result (completed text_of stderr (run_parsed fmt version exported_at site args))
        (some output)) in
    (
      refl,
      refl,
      subst shown (sym (parse_import_args-import_options site.default_log_path log_path output l o))
          (run_import-Outcome fmt version exported_at text_of stderr src.directory output
            src.current src.backups c t s e),
    )
