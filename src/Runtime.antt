-- ===== src/Runtime.antt =====
-- The services around the live watcher: its port, its old log files, the origins it lets in, and the
-- command line.
pub mod Ports
pub mod Logs
pub mod Origins
pub mod Entry
pub mod Update
pub mod Checklist
pub mod Groups
pub mod Watchdog
pub mod Live
pub mod Logging
