-- ===== src/Runtime/Logging/Session.antt =====
-- What a session logs, whatever was set up before.
use scmdb_log_watcher_es.Base.{
  ℕ, suc, ◌≡◌, refl, ap, ◌∙◌, Bool, true, false, not, ◌&&◌, List, [], ◌∷◌, ◌++◌, ◌==◌, arith,
  append-nil, if◌then◌else◌,
}
use scmdb_log_watcher_es.Text.{Text, text_eq, text_eq_refl}
use scmdb_log_watcher_es.Runtime.Logging.{
  Target, console, file, Handler, Logger, Loggers, Output, new_logger, root, notset, add_handler,
  remove_all, set_logger, truncate, session_level, session_format, console_handler, file_handler,
  setup_session_logging, setup_app_file_logger, LogRecord, effective_level, handlers_for, log_all,
}
use scmdb_log_watcher_es.Runtime.Logging.Written.{
  remove_all_self, add_handler-one, log_all-added, all_added, written, console-written,
  file-written,
}

abbrev pub session_output :
    (Handler → LogRecord → Text) → Bool → Text → Loggers → Output → Text → List LogRecord → Output
session_output line_of verbose log_file l out name rs =
    let (l', out') = setup_session_logging verbose log_file l out in log_all line_of l' name rs out'

abbrev pub app_output :
    (Handler → LogRecord → Text) → Text → Text → ℕ → Loggers → Output → List LogRecord → Output
app_output line_of name log_file level l out rs =
    let (l', out') = setup_app_file_logger name log_file level l out in
    log_all line_of l' name rs out'

-- A file that was emptied has what is written then, and another what it had.
pub emptied :
    (q : Bool) (before after : List Text)
    → (if q then [] else before) ++ (if q then after else []) ≡ (if q then after else before)
emptied true before after = refl
emptied false before after = append-nil before

pub set_logger_other :
    (name other : Text) (logger : Logger) (named : Text → Logger)
    → text_eq other name ≡ false
    → set_logger name logger named other ≡ named other
unfolding set_logger
set_logger_other name other logger named e = ap (λ b. if b then logger else named other) e

pub set_logger_self :
    (name : Text) (logger : Logger) (named : Text → Logger)
    → set_logger name logger named name ≡ logger
unfolding set_logger
set_logger_self name logger named = ap (λ b. if b then logger else named name) (text_eq_refl name)

-- A logger that was only named leaves all to the root logger.
module _ (l : Loggers) (name : Text) (new : l.named name ≡ new_logger) where
  new-level : effective_level l name ≡ (l.named root).level
  unfolding effective_level
  new-level =
      ap (λ logger. if logger.level == notset then (l.named root).level else logger.level) new

  new-handlers : text_eq name root ≡ false → handlers_for l name ≡ (l.named root).handlers
  unfolding handlers_for
  new-handlers e =
      ap
        (λ logger.
          if logger.propagate && not (text_eq name root)
          then logger.handlers ++ (l.named root).handlers
          else logger.handlers)
        new
      ∙ ap (λ b. if not b then (l.named root).handlers else []) e

module _ (l : Loggers) (out : Output) (log_file : Text) where
  session_handlers :
      (level : ℕ)
      → add_handler (file_handler (suc l.next_object) log_file level session_format) (
          add_handler
            (console_handler l.next_object level)
            (remove_all (l.named root).handlers (l.named root).handlers))
        ≡ console_handler l.next_object level
          ∷ file_handler (suc l.next_object) log_file level session_format
          ∷ []
  unfolding add_handler
  session_handlers level =
      ap
        (λ hs.
          add_handler (file_handler (suc l.next_object) log_file level session_format)
            (add_handler (console_handler l.next_object level) hs))
        (remove_all_self (l.named root).handlers)
      ∙ add_handler-one (file_handler (suc l.next_object) log_file level session_format)
          (console_handler l.next_object level) (ground arith)

  module _ (verbose : Bool) (name : Text) (new : l.named name ≡ new_logger)
      (other : text_eq name root ≡ false) where
    abbrev set_up : Loggers
    set_up = (setup_session_logging verbose log_file l out).0

    session_new : set_up.named name ≡ new_logger
    unfolding setup_session_logging
    session_new = set_logger_other root name _ l.named other ∙ new

    session_root-level : (set_up.named root).level ≡ session_level verbose
    unfolding setup_session_logging set_logger text_eq
    session_root-level = refl

    session_root-handlers :
        (set_up.named root).handlers
        ≡ console_handler l.next_object (session_level verbose)
          ∷ file_handler (suc l.next_object) log_file (session_level verbose) session_format
          ∷ []
    unfolding setup_session_logging set_logger text_eq
    session_root-handlers = session_handlers (session_level verbose)

    session-log_all :
        (line_of : Handler → LogRecord → Text) (rs : List LogRecord) (t : Target)
        → session_output line_of verbose log_file l out name rs t
          ≡ (setup_session_logging verbose log_file l out).1 t
            ++ all_added line_of t
                (session_level verbose)
                (console_handler l.next_object (session_level verbose)
                  ∷ file_handler (suc l.next_object) log_file (session_level verbose) session_format
                  ∷ [])
                rs
    session-log_all line_of rs t =
        log_all-added line_of t set_up name (session_level verbose) _
          (new-level set_up name session_new ∙ session_root-level)
          (new-handlers set_up name session_new other ∙ session_root-handlers) rs
          (setup_session_logging verbose log_file l out).1

    pub session-console :
        (line_of : Handler → LogRecord → Text) (rs : List LogRecord)
        → session_output line_of verbose log_file l out name rs console
          ≡ out console
            ++ written
                (line_of (console_handler l.next_object (session_level verbose)))
                (session_level verbose)
                rs
    unfolding setup_session_logging truncate
    session-console line_of rs =
        session-log_all line_of rs console
        ∙ ap (λ lines. out console ++ lines)
            (console-written line_of log_file (session_level verbose) l.next_object rs)

    pub session-file :
        (line_of : Handler → LogRecord → Text) (rs : List LogRecord) (path : Text)
        → session_output line_of verbose log_file l out name rs (file path) ≡ (
            if text_eq path log_file
            then written
                (line_of (
                  file_handler (suc l.next_object) log_file (session_level verbose) session_format))
                (session_level verbose)
                rs
            else out (file path))
    unfolding setup_session_logging truncate
    session-file line_of rs path =
        session-log_all line_of rs (file path)
        ∙ ap (λ lines. (if text_eq path log_file then [] else out (file path)) ++ lines)
            (file-written line_of log_file (session_level verbose) l.next_object path rs)
        ∙ emptied (text_eq path log_file) (out (file path)) _
