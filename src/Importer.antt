-- ===== src/Importer.antt =====
-- tools/state/importer.py: pinned manuals to state entries, every source record accounted for.
pub mod Rules
pub mod Access
pub mod Classify
pub mod Records
pub mod Tables
pub mod Declared
pub mod Report
pub mod Target
pub mod Manual
