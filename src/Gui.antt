-- ===== src/Gui.antt =====
-- python/watcher_gui.py and its helpers: the window that starts, stops and watches the watcher.
pub mod Command
pub mod Status
pub mod State
pub mod Watch
pub mod Close
pub mod Valid
pub mod Session
pub mod Launch
pub mod OneWatcher
pub mod Poll
pub mod Lock
pub mod Tests
pub mod Labels
pub mod Orphans
pub mod Form
