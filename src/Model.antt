-- ===== src/Model.antt =====
-- tools/state/model.py: the normalized architectural-state model that importers produce and
-- generators consume.
pub mod Kinds
pub mod Entry
pub mod Identifier
