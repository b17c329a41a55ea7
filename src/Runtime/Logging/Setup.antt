-- ===== src/Runtime/Logging/Setup.antt =====
-- What a session and an application log, whatever was set up before.
use scmdb_log_watcher_es.Base.{
  ℕ, suc, ◌≡◌, ap, ◌∙◌, Bool, false, not, ◌&&◌, List, [], ◌∷◌, ◌++◌, ◌==◌, if◌then◌else◌,
}
use scmdb_log_watcher_es.Text.{Text, text_eq}
use scmdb_log_watcher_es.Runtime.Logging.{
  Target, console, file, Handler, Logger, Loggers, Output, new_logger, root, notset, add_handler,
  is_target, truncate, session_level, session_format, app_format, console_handler, file_handler,
  setup_app_file_logger, LogRecord, effective_level, handlers_for,
}
use scmdb_log_watcher_es.Runtime.Logging.Written.{
  remove_all_self, log_all-added, written, app-written,
}
use scmdb_log_watcher_es.Runtime.Logging.Session.{
  session_output, app_output, emptied, set_logger_self, session-console, session-file,
}

module _ (l : Loggers) (out : Output) (log_file : Text) where
  module _ (app : Text) (level : ℕ) (given : (level == notset) ≡ false) where
    abbrev app_logger : Logger
    app_logger = record {
      level = level;
      propagate = false;
      handlers = file_handler l.next_object log_file level app_format ∷ [];
    }

    app_set : (setup_app_file_logger app log_file level l out).0.named app ≡ app_logger
    unfolding setup_app_file_logger add_handler
    app_set =
        set_logger_self app _ l.named
        ∙ ap
            (λ hs. record app_logger {
              handlers = add_handler (file_handler l.next_object log_file level app_format) hs;
            })
            (remove_all_self (l.named app).handlers)

    app-level : effective_level (setup_app_file_logger app log_file level l out).0 app ≡ level
    unfolding effective_level
    app-level =
        ap
          (λ logger.
            if logger.level == notset
            then ((setup_app_file_logger app log_file level l out).0.named root).level
            else logger.level)
          app_set
        ∙ ap
            (λ b.
              if b
              then ((setup_app_file_logger app log_file level l out).0.named root).level
              else level)
            given

    app-handlers :
        handlers_for (setup_app_file_logger app log_file level l out).0 app
        ≡ file_handler l.next_object log_file level app_format ∷ []
    unfolding handlers_for
    app-handlers =
        ap
          (λ logger.
            if logger.propagate && not (text_eq app root)
            then logger.handlers
              ++ ((setup_app_file_logger app log_file level l out).0.named root).handlers
            else logger.handlers)
          app_set

    app-output :
        (line_of : Handler → LogRecord → Text) (rs : List LogRecord) (t : Target)
        → app_output line_of app log_file level l out rs t ≡ (
            if is_target t (file log_file)
            then written (line_of (file_handler l.next_object log_file level app_format)) level rs
            else out t)
    unfolding setup_app_file_logger truncate
    app-output line_of rs t =
        log_all-added line_of t (setup_app_file_logger app log_file level l out).0 app level _
          app-level app-handlers rs (setup_app_file_logger app log_file level l out).1
        ∙ ap (λ lines. (if is_target t (file log_file) then [] else out t) ++ lines)
            (app-written line_of log_file level l.next_object t rs)
        ∙ emptied (is_target t (file log_file)) (out t) _

-- Whatever loggers and handlers there are, from the set-up of a session on the console and the log
-- file get each record of the program's logger that is as high as the session's level, once and in
-- order; the file has nothing else, and other files are left alone. From the set-up of an
-- application's logger on, its file alone gets its records. The program's logger was only named, and
-- the level of the application's is not NOTSET.
pub log_all-setup :
    (line_of : Handler → LogRecord → Text) (verbose : Bool) (log_file : Text) (l : Loggers)
    (out : Output) (name app : Text) (level : ℕ) (rs : List LogRecord)
    → l.named name ≡ new_logger
    → text_eq name root ≡ false
    → (level == notset) ≡ false
    → (session_output line_of verbose log_file l out name rs console
        ≡ out console
          ++ written
              (line_of (console_handler l.next_object (session_level verbose)))
              (session_level verbose)
              rs)
      × ((path : Text)
          → session_output line_of verbose log_file l out name rs (file path) ≡ (
              if text_eq path log_file
              then written
                  (line_of (
                    file_handler
                      (suc l.next_object)
                      log_file
                      (session_level verbose)
                      session_format))
                  (session_level verbose)
                  rs
              else out (file path)))
      × ((t : Target)
          → app_output line_of app log_file level l out rs t ≡ (
              if is_target t (file log_file)
              then written (line_of (file_handler l.next_object log_file level app_format)) level rs
              else out t))
log_all-setup line_of verbose log_file l out name app level rs new other given = (
  session-console l out log_file verbose name new other line_of rs,
  session-file l out log_file verbose name new other line_of rs,
  app-output l out log_file app level given line_of rs,
)
