-- ===== src/Pipeline.antt =====
-- The log, the tailer, the bus and a client put together.
pub mod Mirror
pub mod Replay
pub mod Feed
pub mod Picture
pub mod Launched
pub mod Imported
