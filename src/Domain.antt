-- ===== src/Domain.antt =====
-- python/scmdb_watcher/domain.py: the state of the watcher, the patterns of the game's log, and the
-- processing of one line.
pub mod State
pub mod Line
pub mod Process
pub mod Invariant
pub mod Mission
pub mod Correlate
pub mod Recent
pub mod Remembered
pub mod Report
pub mod Snapshot
pub mod Classify
