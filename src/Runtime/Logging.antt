-- ===== src/Runtime/Logging.antt =====
-- The set-up of logging: `setup_session_logging` of python/scmdb_watcher/runtime_service.py and
-- `setup_app_file_logger` of python/scmdb_watcher/app_logging.py, on the loggers and handlers of
-- Python's `logging`. A handler is an object: it has a number of its own.
pub mod Written
pub mod Session
pub mod Setup
use scmdb_log_watcher_es.Base.{
  ℕ, zero, suc, Bool, true, false, not, ◌&&◌, List, [], ◌∷◌, ◌++◌, leb, ◌==◌, if◌then◌else◌,
}
use scmdb_log_watcher_es.Text.{Text, codes, text_eq}

pub data Target : Type 0 where
  console : Target
  -- `FileHandler(path)`
  file : Text → Target

pub record Handler : Type 0 where
  pub object : ℕ
  pub target : Target
  pub level : ℕ
  pub format : Text
  pub datefmt : Text

pub record Logger : Type 0 where
  pub level : ℕ
  pub propagate : Bool
  pub handlers : List Handler

-- The loggers by their names, the root logger under the empty name, and the number of the next object.
pub record Loggers : Type 0 where
  pub named : Text → Logger
  pub next_object : ℕ

-- The lines of the console and of the files.
abbrev pub Output : Type 0
Output = Target → List Text

-- `logging.NOTSET`, with which a logger begins, `DEBUG` and `INFO`.
abbrev pub notset : ℕ
notset = 0

abbrev pub debug : ℕ
debug = 10

abbrev pub info : ℕ
info = 20

abbrev pub new_logger : Logger
new_logger = record { level = notset; propagate = true; handlers = [] }

abbrev pub root : Text
root = []

-- `logger.addHandler(handler)`, and `logger.removeHandler(handler)`.
unfoldable pub has_handler : Handler → List Handler → Bool
has_handler h [] = false
has_handler h (k ∷ ks) = let rest = has_handler h ks in if k.object == h.object then true else rest

unfoldable pub add_handler : Handler → List Handler → List Handler
unfolding has_handler
add_handler h hs = if has_handler h hs then hs else hs ++ h ∷ []

unfoldable pub remove_handler : Handler → List Handler → List Handler
remove_handler h [] = []
remove_handler h (k ∷ ks) =
    let rest = remove_handler h ks in if k.object == h.object then ks else k ∷ rest

-- `for handler in list(logger.handlers)`: the loop runs over a copy.
unfoldable pub remove_all : List Handler → List Handler → List Handler
unfolding remove_handler
remove_all [] handlers = handlers
remove_all (h ∷ copy) handlers = remove_all copy (remove_handler h handlers)

unfoldable pub set_logger : Text → Logger → (Text → Logger) → Text → Logger
unfolding text_eq
set_logger name logger named other = if text_eq other name then logger else named other

abbrev pub is_target : Target → Target → Bool
is_target console console = true
is_target (file path) (file other) = text_eq path other
is_target _ _ = false

-- `FileHandler(path, mode="w")`: what was in the file is gone.
unfoldable pub truncate : Text → Output → Output
unfolding text_eq
truncate path out t = if is_target t (file path) then [] else out t

abbrev pub session_format : Text
session_format = codes "%(asctime)s [%(levelname)s] %(message)s"

abbrev pub app_format : Text
app_format =
    codes "%(asctime)s [%(levelname)s] %(name)s %(filename)s:%(lineno)d %(funcName)s - %(message)s"

abbrev pub console_handler : ℕ → ℕ → Handler
console_handler object level = record {
  object = object;
  target = console;
  level = level;
  format = session_format;
  datefmt = codes "%H:%M:%S";
}

abbrev pub file_handler : ℕ → Text → ℕ → Text → Handler
file_handler object log_file level format = record {
  object = object;
  target = file log_file;
  level = level;
  format = format;
  datefmt = codes "%Y-%m-%d %H:%M:%S";
}

abbrev pub session_level : Bool → ℕ
session_level true = debug
session_level false = info

-- `setup_session_logging`, with the path of the log file.
unfoldable pub setup_session_logging : Bool → Text → Loggers → Output → Loggers × Output
unfolding add_handler remove_all set_logger truncate
setup_session_logging verbose log_file l out =
    let level = session_level verbose in
    let logger = l.named root in
    let handlers = add_handler (file_handler (suc l.next_object) log_file level session_format) (
      add_handler (console_handler l.next_object level)
        (remove_all logger.handlers logger.handlers)) in
    (
      record {
        named = set_logger root (record logger { level = level; handlers = handlers }) l.named;
        next_object = suc (suc l.next_object);
      },
      truncate log_file out,
    )

-- `setup_app_file_logger`, with the name of the logger and the path of the log file.
unfoldable pub setup_app_file_logger : Text → Text → ℕ → Loggers → Output → Loggers × Output
unfolding add_handler remove_all set_logger truncate
setup_app_file_logger name log_file level l out =
    let logger = l.named name in
    (
      record {
        named =
            set_logger name
              (record {
                level = level;
                propagate = false;
                handlers =
                    add_handler (file_handler l.next_object log_file level app_format)
                      (remove_all logger.handlers logger.handlers);
              })
              l.named;
        next_object = suc l.next_object;
      },
      truncate log_file out,
    )

pub record LogRecord : Type 0 where
  pub level : ℕ
  pub message : Text

-- `logger.getEffectiveLevel()`
unfoldable pub effective_level : Loggers → Text → ℕ
effective_level l name =
    if (l.named name).level == notset then (l.named root).level else (l.named name).level

-- The handlers that a record of the logger comes to.
unfoldable pub handlers_for : Loggers → Text → List Handler
unfolding text_eq
handlers_for l name =
    if (l.named name).propagate && not (text_eq name root)
    then (l.named name).handlers ++ (l.named root).handlers
    else (l.named name).handlers

-- `line_of` formats a record.
module _ (line_of : Handler → LogRecord → Text) where
  unfoldable pub emit : LogRecord → Handler → Output → Output
  unfolding text_eq
  emit r h out t =
      if leb h.level r.level && is_target t h.target then out t ++ line_of h r ∷ [] else out t

  unfoldable pub emit_all : LogRecord → List Handler → Output → Output
  unfolding emit
  emit_all r [] out = out
  emit_all r (h ∷ hs) out = emit_all r hs (emit r h out)

  -- The records of a logger, one after the other.
  unfoldable pub log_all : Loggers → Text → List LogRecord → Output → Output
  unfolding effective_level handlers_for emit_all
  log_all l name [] out = out
  log_all l name (r ∷ rs) out =
      log_all l name rs
        (if leb (effective_level l name) r.level then emit_all r (handlers_for l name) out else out)
