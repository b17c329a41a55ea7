-- ===== src/Server.antt =====
-- python/scmdb_watcher/server.py: the event bus and the HTTP application.
pub mod Bus
pub mod App
pub mod Stream
