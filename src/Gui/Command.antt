-- ===== src/Gui/Command.antt =====
-- python/scmdb_watcher/process_service.py and python/scmdb_watcher/gui_controller.py: the commands of
-- the processes that the window starts, and what their answers mean.
use scmdb_log_watcher_es.Base.{
  ℕ, Bool, true, false, Option, none, some, List, [], ◌∷◌, ◌++◌, ◌==◌, if◌then◌else◌,
}
use scmdb_log_watcher_es.Text.{Text, codes, text_eq, strip, lower, starts_with, or_default}
use scmdb_log_watcher_es.Dict.{lookup}
use scmdb_log_watcher_es.Config.Paths.{FilePath, child, text, other, Config, Files}

-- A command, or the key of what is missing.
pub data Command : Type 0 where
  command : List Text → Command
  lacking : Text → Command

module _ (text_of : FilePath → Text) (files : Files) (script_dir : FilePath) where
  abbrev pub watcher_exe : FilePath
  watcher_exe = child script_dir (codes "SCMDB-Watcher.exe")

  abbrev pub venv_python : Text → FilePath
  venv_python exe = child (child (child script_dir (codes ".venv")) (codes "Scripts")) exe

  unfoldable pub resolve_watcher_launch_command : Bool → Command
  resolve_watcher_launch_command true =
      if files.exists watcher_exe
      then command (text_of watcher_exe ∷ codes "core" ∷ [])
      else lacking (codes "missing_core")
  resolve_watcher_launch_command false =
      let pythonw = venv_python (codes "pythonw.exe") in
      let python_exe = if files.exists pythonw then pythonw else venv_python (codes "python.exe") in
      if files.exists python_exe
      then command (text_of python_exe ∷ codes "launcher.py" ∷ codes "core" ∷ [])
      else lacking (codes "missing_env")

  unfoldable pub resolve_import_command : Bool → Command
  resolve_import_command true =
      if files.exists watcher_exe
      then command (text_of watcher_exe ∷ codes "import" ∷ [])
      else lacking (codes "missing_core")
  resolve_import_command false =
      let python_exe = venv_python (codes "python.exe") in
      if files.exists python_exe
      then command (text_of python_exe ∷ codes "launcher.py" ∷ codes "import" ∷ [])
      else lacking (codes "missing_env")

-- `str(int(config_data.get("port", default_port)))`: `none` where `int` raises. What `int` makes of a
-- string is a parameter.
unfoldable pub port_of : (Text → Option Text) → Text → Config → Option Text
port_of int_of default_port config = elim (lookup (codes "port") config) [
  | none ↦ some default_port
  | some v ↦ elim v [ text t ↦ int_of t | other s b n ↦ n ]
]

-- `if parent_pid is not None and parent_pid > 0`
abbrev pub parent_args : (ℕ → Text) → Option ℕ → List Text
parent_args digits none = []
parent_args digits (some pid) = if pid == 0 then [] else codes "--parent-pid" ∷ digits pid ∷ []

-- `resolve_start_command`: `none` where the port is no number. `digits` is `str` of a number.
unfoldable pub resolve_start_command :
    (Text → Option Text) → (ℕ → Text) → Command → Text → Config → Text → Option ℕ → Option Command
unfolding port_of
resolve_start_command int_of digits (lacking error) default_port config log_path parent_pid =
    some (lacking error)
resolve_start_command int_of digits (command base_cmd) default_port config log_path parent_pid =
    elim (port_of int_of default_port config) [
      | none ↦ none
      | some port ↦ some (
          command (
            base_cmd
            ++ (codes "--log-path"
                ∷ log_path
                ∷ codes "--port"
                ∷ port
                ∷ parent_args digits parent_pid)))
    ]

-- The answer of `/ping`: `none` is an error of the connection or of the JSON, otherwise the status and
-- the version.
unfoldable pub ping_ok : Option (Text × Text) → Bool × Text
ping_ok none = (false, [])
ping_ok (some (status, version)) = (text_eq status (codes "ok"), version)

-- `[ln.strip() for ln in lines if ln.strip()]`
unfoldable pub output_lines : List Text → List Text
output_lines [] = []
output_lines (line ∷ lines) =
    let rest = output_lines lines in elim (strip line) [ [] ↦ rest | c ∷ s ↦ (c ∷ s) ∷ rest ]

abbrev pub next_line : List Text → Text
next_line [] = []
next_line (line ∷ lines) = line

-- The loop of `extract_output_path`: the line behind the first that has one and begins so.
unfoldable pub find_output : List Text → Text
find_output [] = []
find_output (line ∷ []) = []
find_output (line ∷ next ∷ lines) =
    let rest = find_output (next ∷ lines) in
    if starts_with (lower line) (codes "output written to") then next else rest

-- `extract_output_path`, on the lines of the output.
unfoldable pub extract_output_path : List Text → Text
unfolding output_lines find_output
extract_output_path lines = find_output (output_lines lines)

pub record ImportExecutionResult : Type 0 where
  pub ok : Bool
  pub output_path : Text
  pub error_text : Text

-- What `subprocess.run` returns: `stdout` by its lines, and as one text.
pub record Completed : Type 0 where
  pub returncode : ℕ
  pub stdout_lines : List Text
  pub stdout : Text
  pub stderr : Text

abbrev pub text_or : Option Text → Text
text_or none = []
text_or (some t) = t

-- The command of `run_import_process`.
unfoldable pub import_args : List Text → Text → Option Text → List Text
import_args base_cmd log_path none = base_cmd ++ codes "--log-path" ∷ log_path ∷ []
import_args base_cmd log_path (some output) =
    base_cmd ++ codes "--log-path" ∷ log_path ∷ codes "--output" ∷ output ∷ []

-- `run_import_process`, when the process has ended.
unfoldable pub import_result : Completed → Option Text → ImportExecutionResult
unfolding extract_output_path
import_result result output_path =
    if result.returncode == 0
    then record {
      ok = true;
      output_path = or_default (extract_output_path result.stdout_lines) (text_or output_path);
      error_text = [];
    }
    else record {
      ok = false;
      output_path = [];
      error_text =
          or_default (strip (or_default result.stderr result.stdout)) (codes "Unknown error");
    }
