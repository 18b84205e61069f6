-- ===== src/Examples.antt =====
-- The theorems at concrete data, and runs of the modelled code.
mod Documents
mod Imports
mod Manuals
mod Targets
mod Manifests
mod Rows
mod Reviews
mod Probes
mod Prose
mod Headers
