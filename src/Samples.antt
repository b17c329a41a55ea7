-- ===== src/Samples.antt =====
-- Each theorem at a concrete input of the program it is about, and tests of the definitions.
mod Domain
mod Server
mod Catalog
mod Windows
mod Live
mod Pipeline
mod Tailer
mod Import
mod Config
mod Gui
mod Runtime
mod Checks
mod Orphans
mod Logging
