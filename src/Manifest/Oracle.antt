-- ===== src/Manifest/Oracle.antt =====
-- `main` of tools/state_encoding_check.py: the special registers of a manifest against an assembler, which
-- is a parameter: the field that it emits for a register, if it takes the name.
pub mod Agreed
use libhw.Base.{
  List, Option, Result, Text, [], codes, fold_result, if◌then◌else◌, none, ok, or_else, require,
  some, strip_prefix, value_error, ℕ, ◌++◌, ◌+◌, ◌==◌, ◌>>=◌, ◌>>◌, ◌∷◌,
}
use libhw.Base.Numeral.{decimal, int_10}
use libhw.Base.Regex.Texts.{lower}
use libhw.Model.Entry.{ManifestEntry}
use libhw.Sources.Lock.{is_empty}

pub record Tally : Type 0 where
  pub checked : ℕ
  pub agreed : ℕ
  pub mismatches : List Text
  pub unsupported : List Text

unfoldable pub no_tally : Tally
no_tally = record { checked = 0; agreed = 0; mismatches = []; unsupported = [] }

-- The digits behind `SYSm=`, if the encoding has that prefix.
unfoldable pub sysm_digits : ManifestEntry → Option Text
unfolding strip_prefix or_else
sysm_digits e = strip_prefix (or_else e.encoding []) (codes "SYSm=")

-- `f"{name}: manifest SYSm={ours}, {tool} SYSm={theirs}"`
unfoldable pub mismatch : Text → Text → ℕ → ℕ → Text
unfolding decimal
mismatch tool name ours theirs =
    name
    ++ (codes ": manifest SYSm="
        ++ (decimal ours ++ (codes ", " ++ (tool ++ (codes " SYSm=" ++ decimal theirs)))))

unfoldable pub compare_sysm : Text → Text → ℕ → Option ℕ → Tally → Tally
unfolding mismatch
compare_sysm tool name ours none t = record t { unsupported = t.unsupported ++ (name ∷ []) }
compare_sysm tool name ours (some theirs) t =
    if theirs == ours
    then record t { checked = t.checked + 1; agreed = t.agreed + 1 }
    else record t {
      checked = t.checked + 1;
      mismatches = t.mismatches ++ (mismatch tool name ours theirs ∷ []);
    }

-- `int` of the digits raises where they are none.
unfoldable pub check_entry : Text → (Text → Option ℕ) → ManifestEntry → Tally → Result Tally
unfolding sysm_digits int_10 compare_sysm lower
check_entry tool assemble e t = elim (sysm_digits e) [
  | none ↦ ok t
  | some ds ↦ (do
    ours ← require (int_10 ds) value_error
    ok (compare_sysm tool e.canonical_name ours (assemble (lower e.canonical_name)) t))
]

unfoldable pub check_entries : Text → (Text → Option ℕ) → List ManifestEntry → Result Tally
unfolding fold_result check_entry no_tally
check_entries tool assemble es = fold_result (check_entry tool assemble) es no_tally

-- The status that `main` returns where there is an assembler.
unfoldable pub oracle_status : Tally → ℕ
unfolding is_empty
oracle_status t = if is_empty t.mismatches then 0 else 1
