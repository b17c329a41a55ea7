-- ===== src/Tailer.antt =====
-- python/watcher.py, `LogTailer`: the thread that follows Game.log.
pub mod Lines
pub mod Run
