-- ===== src/Pdf.antt =====
-- tools/state/armpdf.py: tables of a manual as the text extractor prints them.
pub mod Table
pub mod Lines
pub mod Caption
pub mod Extract
pub mod Range
pub mod Decisions
