-- ===== src/Import.antt =====
-- python/scmdb_watcher/import_service.py and `run_import` of python/watcher.py: the export of
-- historical logs.
pub mod Scan
pub mod Dedupe
pub mod Timed
pub mod Agreement
pub mod Command
pub mod Args
