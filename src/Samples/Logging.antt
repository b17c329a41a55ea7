-- ===== src/Samples/Logging.antt =====
-- The logging of a session at concrete loggers and records.
use scmdb_log_watcher_es.Base.{◌≡◌, refl, true, false, List, [], ◌∷◌, ◌++◌, suc, if◌then◌else◌}
use scmdb_log_watcher_es.Text.{Text, codes, text_eq}
use scmdb_log_watcher_es.Runtime.Logging.{
  Target, console, file, Handler, Loggers, Output, new_logger, root, info, is_target, session_level,
  session_format, app_format, console_handler, file_handler, LogRecord,
}
use scmdb_log_watcher_es.Runtime.Logging.Written.{written}
use scmdb_log_watcher_es.Runtime.Logging.Session.{session_output, app_output}
use scmdb_log_watcher_es.Runtime.Logging.Setup.{log_all-setup}

-- The root logger has a handler already.
abbrev loggers : Loggers
loggers = record {
  named = λ name.
      if text_eq name root
      then record { level = 30; propagate = true; handlers = console_handler 0 30 ∷ [] }
      else new_logger;
  next_object = 1;
}

abbrev out : Output
out t = codes "old" ∷ []

abbrev message_of : Handler → LogRecord → Text
message_of h r = r.message

abbrev records : List LogRecord
records =
    record { level = 10; message = codes "debug" }
    ∷ record { level = 20; message = codes "info" }
    ∷ []

abbrev watcher_log : Text
watcher_log = codes "watcher.log"

session_file_written :
    session_output message_of false watcher_log loggers out
      (codes "scmdb-watcher")
      records
      (file watcher_log)
    ≡ codes "info" ∷ []
unfolding text_eq
session_file_written =
    (log_all-setup message_of false watcher_log loggers out (codes "scmdb-watcher")
        (codes "scmdb-gui") info records refl refl refl).1
      watcher_log

log_all-setup_example :
    (session_output message_of false watcher_log loggers out (codes "scmdb-watcher") records console
      ≡ out console
        ++ written
            (message_of (console_handler loggers.next_object (session_level false)))
            (session_level false)
            records)
    × ((path : Text)
        → session_output message_of false watcher_log loggers out
            (codes "scmdb-watcher")
            records
            (file path)
          ≡ (if text_eq path watcher_log
              then written
                  (message_of (
                    file_handler
                      (suc loggers.next_object)
                      watcher_log
                      (session_level false)
                      session_format))
                  (session_level false)
                  records
              else out (file path)))
    × ((t : Target)
        → app_output message_of (codes "scmdb-gui") watcher_log info loggers out records t ≡ (
            if is_target t (file watcher_log)
            then written
                (message_of (file_handler loggers.next_object watcher_log info app_format))
                info
                records
            else out t))
unfolding text_eq
log_all-setup_example =
    log_all-setup message_of false watcher_log loggers out (codes "scmdb-watcher")
      (codes "scmdb-gui") info records refl refl refl
