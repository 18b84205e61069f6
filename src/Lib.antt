-- ===== src/Lib.antt =====
-- A verification library for libhw: the Python tools that turn pinned architecture manuals into a
-- state database (tools/state and the scripts tools/state_*.py), and the Python bindings to the C
-- library (utils/python/libhw).
--
-- The program. A lock names the manuals by digest and size (tools/state/sources.py). The importer
-- (tools/state/importer.py) verifies one of them, has its tables cut out of the printed pages
-- (tools/state/armpdf.py), has each kept table parsed by the row profile that its rule names
-- (tools/state/profiles.py), and classifies each row into a state entry (tools/state/model.py). The
-- entries are a manifest, and from a manifest the generator (tools/state/generate.py,
-- tools/state_gen.py) makes the macro lines of a .def file and a coverage report. The C library is
-- built with these; the bindings call it through ctypes to query states and to take snapshots.
--
-- The files, by folder:
--   Base       Python's text, dict, numbers in text and exceptions, and `re`: a pattern is a `Regex`,
--              and `match_at` backtracks with what is to match next as a function.
--   Sources    tools/state/sources.py. `Source.resolve`, `Source.verify`, `load_sources`,
--              `get_source` are `resolve`, `verify`, `load_sources`, `get_source`.
--   Pdf        tools/state/armpdf.py. `_split_cells`, `_is_header`, `strip_footnote` and
--              `_looks_like_row` are in Lines, the captions in Caption, `expand_range` in Range, and
--              `extract_tables` with `_parse_table_body` in Extract: an index into the lines of a page
--              is the list of the lines from it on, and the dicts that the loop changes are a `Walk`.
--              The rules files of tools/state_tables.py are in Decisions.
--   Profiles   tools/state/profiles.py. The standard summary with its balance check is Summary; the
--              other parsers are in Named and Indexed. What a parser notes on its table
--              (`consumed_lines`, `rejected_rows`) is part of its result.
--   Model      tools/state/model.py, with `c_identifier` and `state_id`.
--   Importer   tools/state/importer.py. One record is Records (with the verdict of Classify), one
--              table is Tables, the declared registers and register files are Declared, the checks at
--              the end are Report, and `import_target` is Target. The lists and dicts that the loops
--              change are passed on (`Progress`, `Import`, `Book`). `Target.Document` is the interface
--              to the document code, and Manual fills it with Pdf and Profiles.
--   Manifest   `write_manifest`, `coverage`, `generate_def`, the exit status of tools/state_gen.py, the
--              architecture manifest of an overlay (tools/state_import.py), the comparison of
--              tools/state_source_diff.py, and the check of encodings against an assembler
--              (tools/state_encoding_check.py), which is a parameter. Cmsis is tools/state/cmsis.py:
--              `diff_against`, and in Header `parse_header`, with its patterns in Patterns; `eval` of an
--              expression over literals is a parameter, and its value is not negative.
--   Prose      tools/state/prose.py (Patterns, Names, Scan and Vocabulary), the classification and the
--              review of its candidates (tools/state_prose_candidates.py: Classify, Candidates and
--              Target), the sweep of the headings (tools/state_prose_sweep.py: Sweep), and
--              `_prose_summary` of tools/state/generate.py (Summary). `scan` keeps its dict of
--              candidates and the open section in a `Scanned`.
--   Bindings   utils/python/libhw. A call into the library is an action on an abstract world, and the
--              C library (`Library`) is a parameter, as are the structures that it fills. `load_library`
--              is in Loader, and the command libhw-probe (cli.py) in Probe.
--   Examples   the theorems at concrete data, and runs: a page of a manual through the whole import.
--
-- Bounds and fuel. Numbers are unbounded, as Python's are. The loop over the chunks of a file, the
-- digits of a number, the repetition in a pattern, the search for all matches and the walk over the
-- lines of a page run on fuel, which is the number of bytes, the number, the length of the text (twice)
-- and the number of lines. Each step makes that measure smaller, so the fuel does not run out; a round
-- of a repetition that reads nothing ends it.
--
-- Not modelled: the text of messages and printed reports, `__str__` and `__repr__`; YAML and JSON
-- readers and writers, whose results come in as records; the PDF text extractor, SHA-256, SHA-1, `eval`,
-- the file system and the environment, which are parameters; the parsing of command lines and setup.py,
-- which only calls setuptools and make. Letters and digits in patterns and in `upper` are those of ASCII.
pub mod Base
pub mod Model
pub mod Sources
pub mod Pdf
pub mod Importer
pub mod Manifest
pub mod Prose
pub mod Bindings
pub mod Examples
pub mod Profiles
