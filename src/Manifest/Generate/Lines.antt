-- ===== src/Manifest/Generate/Lines.antt =====
-- The lines of a generated file against the entries of its manifest.
use libhw.Base.{
  All, All-append, All-mono, Bool, Bool-cases, List, Option, Text, [], any, any-append, arith,
  codes, count, count-append, false, if◌then◌else◌, inl, inr, none, refl, some, subst, sym, text_eq,
  text_eq_iff, text_eq_refl, true, ℕ, ◌++◌, ◌+◌, ◌||◌, ◌∙◌, ◌∷◌, ◌≡◌,
}
use libhw.Manifest.Coverage.{Manifest, coverage, reported}
use libhw.Manifest.Coverage.Counted.{reported-coverage}
use libhw.Manifest.Generate.{
  Macro, alias_lines, dbgreg_line, dbgreg_lines, entry_lines, hw_dbgreg, hw_state, is_emitted,
  manifest_c_name, state_lines,
}
use libhw.Model.Entry.{ManifestEntry}

unfoldable pub is_state_line : Macro → Bool
is_state_line (hw_state s) = true
is_state_line _ = false

-- The line is the descriptor with the id.
unfoldable pub is_state_of : Text → Macro → Bool
unfolding text_eq
is_state_of id (hw_state s) = text_eq s.id id
is_state_of id _ = false

-- The id of a debug access path has a descriptor among the lines.
abbrev pub HasDescriptor : List Macro → Macro → Type 0
HasDescriptor lines (hw_dbgreg id name regsel lsb width) = any (is_state_of id) lines ≡ true
HasDescriptor lines _ = ⊥

entry_lines-descriptor :
    (e : ManifestEntry)
    → is_emitted e ≡ true
    → any (is_state_of (manifest_c_name e)) (entry_lines e) ≡ true
unfolding entry_lines is_state_of
entry_lines-descriptor e h = rw h (ground (arith, text_eq_refl (manifest_c_name e)))

or_true : (a b : Bool) → b ≡ true → (a || b) ≡ true
or_true a b h = ground arith

HasDescriptor-append :
    (first lines : List Macro) (x : Macro)
    → HasDescriptor lines x
    → HasDescriptor (first ++ lines) x
HasDescriptor-append first lines (hw_dbgreg id name regsel lsb width) h =
    any-append (is_state_of id) first lines ∙ or_true (any (is_state_of id) first) _ h
HasDescriptor-append first lines _ h = elim h [ ]

dbgreg_line-HasDescriptor :
    (e : ManifestEntry) (o : Option ℕ) (lines : List Macro)
    → All (HasDescriptor (entry_lines e ++ lines)) (dbgreg_line e o)
unfolding dbgreg_line
dbgreg_line-HasDescriptor e none lines = tt
dbgreg_line-HasDescriptor e (some regsel) lines = elim (Bool-cases (is_emitted e)) [
  | inr quiet ↦ rw quiet tt
  | inl emitted ↦ rw emitted (
    any-append (is_state_of (manifest_c_name e)) (entry_lines e) lines
        ∙ (rw (entry_lines-descriptor e emitted) refl),
    tt,
  )
]

-- Every debug access path in a generated file has the id of a state descriptor of the same file.
pub dbgreg_lines-HasDescriptor :
    (es : List ManifestEntry) → All (HasDescriptor (state_lines es)) (dbgreg_lines es)
unfolding state_lines dbgreg_lines
dbgreg_lines-HasDescriptor [] = tt
dbgreg_lines-HasDescriptor (e ∷ es) =
    All-append (HasDescriptor (entry_lines e ++ state_lines es)) (dbgreg_line e e.debug_regsel)
      (dbgreg_lines es) (dbgreg_line-HasDescriptor e e.debug_regsel (state_lines es))
      (All-mono (HasDescriptor-append (entry_lines e) (state_lines es)) (dbgreg_lines es)
        (dbgreg_lines-HasDescriptor es))

count-entry_lines :
    (e : ManifestEntry) → count is_state_line (entry_lines e) ≡ (if is_emitted e then 1 else 0)
unfolding entry_lines is_state_line alias_lines
count-entry_lines e = ground arith

count-state_lines :
    (es : List ManifestEntry) → count is_state_line (state_lines es) ≡ count is_emitted es
unfolding state_lines
count-state_lines [] = refl
count-state_lines (e ∷ es) =
    count-append is_state_line (entry_lines e) (state_lines es)
    ∙ (omega (arith, count-entry_lines e, count-state_lines es))

abbrev emitted_state : Text
emitted_state = codes "emitted_state"

abbrev conditional_state : Text
conditional_state = codes "conditional_state"

abbrev SplitsUp : Text → Type 0
SplitsUp k =
    (if text_eq k emitted_state || text_eq k conditional_state then 1 else 0)
    ≡ (if text_eq k emitted_state then 1 else 0) + (if text_eq k conditional_state then 1 else 0)

-- No classification is both.
splits_up : (k : Text) → SplitsUp k
splits_up k = elim (Bool-cases (text_eq k emitted_state)) [
  | inl e ↦ subst SplitsUp (sym ((text_eq_iff k emitted_state).0 e)) (unfold text_eq in refl)
  | inr n ↦ rw n (omega arith)
]

count-is_emitted :
    (es : List ManifestEntry)
    → count is_emitted es
      ≡ count (λ (e : ManifestEntry). text_eq e.classification emitted_state) es
        + count (λ (e : ManifestEntry). text_eq e.classification conditional_state) es
unfolding is_emitted
count-is_emitted [] = refl
count-is_emitted (e ∷ es) = omega (arith, count-is_emitted es, splits_up e.classification)

-- A generated file has as many state descriptors as the coverage report counts entries of emitted and
-- of conditional state.
pub count-descriptors :
    (doc : Manifest)
    → count is_state_line (state_lines doc.entries)
      ≡ reported (codes "emitted_state") (coverage doc).counts
        + reported (codes "conditional_state") (coverage doc).counts
count-descriptors doc = omega (
  arith,
  count-state_lines doc.entries,
  count-is_emitted doc.entries,
  (reported-coverage doc (codes "emitted_state")).0,
  (reported-coverage doc (codes "conditional_state")).0,
)
