-- ===== src/Prose/Target.antt =====
-- `run` and `main` of tools/state_prose_candidates.py, and `main` of tools/state_prose_sweep.py, from the
-- pinned source on.
use libhw.Base.{
  All, Bool, Dict, List, Option, Result, Text, [], codes, err, false, key_error, lookup, map, ok,
  ok-injective, refl, require, source_error, upper, ℕ, ◌>>=◌, ◌↔◌, ◌∷◌, ◌≡◌,
}
use libhw.Manifest.Generate.Print.{join_lines}
use libhw.Prose.Candidates.{Reviews, Run, run_candidates}
use libhw.Prose.Candidates.Status.{IsDecided, run_candidates-zero}
use libhw.Prose.Classify.{Vocabulary, family_base}
use libhw.Prose.Scan.{scan}
use libhw.Prose.Sweep.{sweep_status}
use libhw.Prose.Vocabulary.{field_names, front_matter_pages, instruction_mnemonics}
use libhw.Sources.{Machine, verify}
use libhw.Sources.Lock.{Lock, get_source}

-- `TARGET_SOURCE`, the same in both programs
unfoldable pub target_source : Dict Text
target_source =
    (codes "armv7m", codes "armv7m_arm")
    ∷ (codes "cortex_m7_r0p2", codes "cortex_m7_trm")
    ∷ (codes "cortex_m4_r0p0", codes "cortex_m4_trm")
    ∷ []

-- What the programs ask of code that they only call: `pdf_pages`, `hashlib.sha1(...).hexdigest()`,
-- and the names of the manifest that `load_manifest` reads.
pub record Services : Type 0 where
  pub pdf_pages : Text → Result (List Text)
  pub sha1 : Text → Text
  pub manifest_names : Text → Result (List Text)

-- The two sets of names of the manifest, and what the document says itself.
unfoldable pub vocabulary_of : List Text → List Text → Vocabulary
unfolding upper family_base instruction_mnemonics field_names front_matter_pages
vocabulary_of names pages = record {
  known = map upper names;
  families = map (λ n. upper (family_base n)) names;
  mnemonics = instruction_mnemonics pages;
  fields = field_names pages;
  front_matter = front_matter_pages pages;
}

-- `except SourceError: ... return 0`
unfoldable pub skip_source_error : Result ℕ → Result ℕ
skip_source_error (ok status) = ok status
skip_source_error (err source_error) = ok 0
skip_source_error (err e) = err e

module _ (m : Machine) (lock : Option Lock) (s : Services) where
  -- The pages of the target's verified document.
  unfoldable pub pages_of : Text → Result (List Text)
  unfolding lookup target_source get_source verify
  pages_of target = do
    key ← require (lookup target target_source) key_error
    src ← get_source key lock
    path ← verify m src
    s.pdf_pages path

  -- `run(target, seed)`, with the review file of the target
  unfoldable pub run_target : Reviews → Text → Bool → Result Run
  unfolding pages_of vocabulary_of run_candidates scan
  run_target reviewed target seeding = do
    pages ← pages_of target
    names ← s.manifest_names target
    ok (run_candidates (vocabulary_of names pages) reviewed (scan s.sha1 pages) seeding)

  unfoldable pub candidates_main : Reviews → Text → Bool → Result ℕ
  unfolding skip_source_error run_target
  candidates_main reviewed target seeding =
      skip_source_error (run_target reviewed target seeding >>= λ r. ok r.status)

  -- `main` of the sweep, with the entries of `not_registers`
  unfoldable pub sweep_main : Dict (Option Text) → Text → Result ℕ
  unfolding skip_source_error pages_of sweep_status join_lines
  sweep_main reviewed target = skip_source_error do
    pages ← pages_of target
    names ← s.manifest_names target
    ok (sweep_status (join_lines pages) names reviewed)

  -- A check of a target whose document is there returns 0 exactly when every candidate of the scan of
  -- that document has a valid class.
  pub candidates_main-zero :
      (reviewed : Reviews) (target : Text) (pages names : List Text)
      → pages_of target ≡ ok pages
      → s.manifest_names target ≡ ok names
      → (candidates_main reviewed target false ≡ ok 0)
        ↔ All (IsDecided (vocabulary_of names pages) reviewed) (scan s.sha1 pages)
  unfolding candidates_main run_target skip_source_error
  candidates_main-zero reviewed target pages names there listed =
      let (to, from) =
        run_candidates-zero (vocabulary_of names pages) reviewed (scan s.sha1 pages) in
      rw (there, listed) (λ h. to (ok-injective _ 0 h), λ h. rw (from h) refl)
