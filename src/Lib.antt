-- ===== src/Lib.antt =====
-- SCMDB log watcher: the Python program under python/, which follows the Game.log of Star Citizen,
-- keeps track of missions, tells web clients of them, and exports historical logs; and the window that
-- starts and watches it.
--
-- How the parts interact. `LogTailer.run` (python/watcher.py) polls the log, cuts what it reads into
-- lines and calls `process_line` (python/scmdb_watcher/domain.py) on each. That changes the
-- `WatcherState` and broadcasts events on the `EventBus` (python/scmdb_watcher/server.py), from whose
-- queues the streams of the clients are served. The import (python/scmdb_watcher/import_service.py,
-- `run_import` of python/watcher.py) runs the same patterns and the same state over old logs. The
-- window (python/watcher_gui.py) keeps the settings, launches the watcher and the import as processes
-- through python/launcher.py, polls the watcher's `/ping`, and reads what the import prints.
--
-- Files.
--   Base, Text, Dict, Regex: helpers. A text is the list of its code points, a dict an association
--     list in order of insertion. Regex is the matcher of Python's `re` for the few forms that the
--     source uses, with what it finds described by relations.
--   Domain: domain.py. State has `WatcherState` and its methods, Line the patterns and
--     `parse_log_timestamp`, Process `process_line`. Each other file is one kind of theorem.
--   Tailer: `LogTailer` of watcher.py. Lines has the cutting of a buffer into lines, Run the loop.
--   Server: server.py. Bus has `EventBus`, App the answers and the CORS hook, Stream the generator of
--     `/events`. Bus/Threads runs the bus under several threads, as a step
--     relation, and Bus/Schedule has what holds then.
--   Import: import_service.py. Scan has `scan_file_for_export`, Dedupe `dedupe_missions_by_guid`,
--     Command `run_import` of watcher.py with what it prints, Args its command line.
--   Config: validators.py (Language), paths.py (Paths), gui_settings.py (Settings), gui_i18n.py
--     (Catalog) and config.py (Store).
--   Gui: process_service.py and gui_controller.py (Command), gui_status.py (Status), and of
--     watcher_gui.py the state of the window (State), the watcher's process (Watch), closing and the
--     import (Close), and the dialog of the settings (Form). Session is the step relation of the
--     window: its buttons, its dialog, its timer, its closing and the end of its processes. Lock has `SingleInstanceLock` with the processes of several windows,
--     Tests the window of the tests with its worker, both as step relations, Labels the texts of the
--     widgets (gui_view.py, and `_build_ui`), and Orphans the filter of `force_cleanup_orphan_watchers`
--     (process_service.py).
--   Runtime: runtime_service.py (Ports, Logs, and Logging with app_logging.py),
--     live_runtime_service.py (Origins, Live), launcher.py and the command line of watcher.py (Entry),
--     its watchdog (Watchdog) and `run_live` (Live),
--     update_service.py (Update), startup_checklist.py (Checklist) and test_groups_service.py (Groups,
--     and Groups/Run for `run_test_groups`).
--   Pipeline: the parts put together. Feed has the threads of the tailer and of a client around the bus,
--     Mirror and Replay what the events mean to a client, Picture the way from the log to the client,
--     Launched the watcher that the window starts, from its command line to its end, and Imported the
--     import that it starts.
--   Samples: the theorems at concrete inputs, and tests.
--
-- Conventions. A method that runs under the one lock of its object is one function from the state to
-- the new state and the result. An instant is a natural number of 2^-22 s, the spacing of doubles for
-- the instants of this century. What the operating system answers in a turn of a loop is the data of
-- this turn. `raw.decode`, `datetime.fromisoformat(...).timestamp()`, `json.dumps`, `Path(text)`,
-- `str(path)`, and `int` and `str` of numbers are parameters. Lower and upper case are those of ASCII
-- letters. A message box or a text of a widget is its key in the catalog. Messages to the logger are
-- left out.
--
-- Narrower than Python. `\w` has ASCII characters only, and no argument that begins with a dash and has
-- a blank is a value to `argparse`. The monotonic clock of the window is counted in steps of 2^-22 s
-- too. `make_server` returns or raises `OSError`, as create_server_with_fallback expects of it; what a
-- release of Werkzeug does else at a port in use is not in the repository. An error in writing the file
-- of the export is not modelled.
--
-- No loop needs fuel: each is recursion on the list that it runs over, on the list of its turns, or on
-- the number of attempts that the code itself gives it.
--
-- While `serve_forever` runs, what happens is a list of signals, turns of the watchdog and polls of the
-- server's own loop. A client is the web page, which is not in the repository: of it the model has
-- that it reads the `data:` lines and keeps the missions that events tell it of. The named mutex of
-- Windows has its documented meaning: it exists while a handle is open. An event is broadcast to all
-- queues at once in Feed, where the queue of one client is of interest; Bus/Threads has the puts one by
-- one.
--
-- Not modelled: the building of widgets and their places, sockets and processes themselves, the
-- hooks for exceptions, the listing of processes, which is another program's work, the feed of
-- releases, the installer, which does not parse, and the C# part.
pub mod Base
pub mod Text
pub mod Dict
pub mod Regex
pub mod Domain
pub mod Server
pub mod Tailer
pub mod Import
pub mod Config
pub mod Gui
pub mod Runtime
pub mod Pipeline
mod Samples
