-- ===== src/Profiles.antt =====
-- tools/state/profiles.py: the row parsers for the shapes that the tables of the manuals have.
pub mod Patterns
pub mod Expand
pub mod Row
pub mod Summary
pub mod Named
pub mod Indexed
