-- ===== src/Config.antt =====
-- The settings of the program and the path of the log that they lead to.
pub mod Language
pub mod Paths
pub mod Settings
pub mod Catalog
pub mod Store
