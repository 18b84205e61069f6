-- ===== src/Prose.antt =====
-- State that a manual defines in prose: the scan, the review of its candidates, and the sweep of the
-- headings (tools/state/prose.py, tools/state_prose_candidates.py, tools/state_prose_sweep.py).
pub mod Names
pub mod Patterns
pub mod Vocabulary
pub mod Classify
pub mod Candidates
pub mod Target
pub mod Summary
pub mod Sweep
pub mod Scan
