-- ===== src/Manifest.antt =====
-- The tools that read manifests: tools/state/generate.py, tools/state_gen.py, and the scripts
-- tools/state_import.py, tools/state_source_diff.py and tools/state_encoding_check.py, and
-- `diff_against` of tools/state/cmsis.py. A manifest's
-- rows are the records that `to_dict` of tools/state/model.py makes, as the YAML loader returns them.
pub mod Coverage
pub mod Written
pub mod Generate
pub mod Architecture
pub mod Diff
pub mod Oracle
pub mod Cmsis
