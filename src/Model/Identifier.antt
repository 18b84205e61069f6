-- ===== src/Model/Identifier.antt =====
-- `c_identifier` and `StateEntry.c_name` of tools/state/model.py.
pub mod Shape
use libhw.Base.{
  Bool, Text, [], if◌then◌else◌, is_digit, is_lower, is_upper, lstrip_by, map, not, rstrip_by, some,
  starts_with, strip, truthy, upper, ℕ, ◌&&◌, ◌++◌, ◌==◌, ◌||◌, ◌∷◌,
}
use libhw.Model.Entry.{StateEntry}

-- What `_C_IDENT_RE` leaves alone: `[A-Za-z0-9_]`.
unfoldable pub is_ident : ℕ → Bool
unfolding is_digit is_upper is_lower
is_ident c = is_upper c || is_lower c || is_digit c || c == b'_'

unfoldable pub is_underscore : ℕ → Bool
is_underscore c = c == b'_'

-- `_C_IDENT_RE.sub("_", s)`
unfoldable pub sub_ident : Text → Text
unfolding is_ident
sub_ident s = map (λ c. if is_ident c then c else b'_') s

-- `s.strip("_")`
unfoldable pub strip_underscores : Text → Text
unfolding lstrip_by rstrip_by is_underscore
strip_underscores s = rstrip_by is_underscore (lstrip_by is_underscore s)

-- One character in front of a text in which no run is left.
unfoldable pub collapse_step : ℕ → Text → Text
collapse_step c [] = c ∷ []
collapse_step c (d ∷ r) = if c == b'_' && d == b'_' then d ∷ r else c ∷ d ∷ r

-- `re.sub(r"_{2,}", "_", s)`
unfoldable pub collapse : Text → Text
unfolding collapse_step
collapse [] = []
collapse (c ∷ s) = collapse_step c (collapse s)

-- `if ident and ident[0].isdigit(): ident = "_" + ident`
unfoldable pub guard_digit : Text → Text
unfolding is_digit
guard_digit [] = []
guard_digit (c ∷ s) = if is_digit c then b'_' ∷ c ∷ s else c ∷ s

unfoldable pub c_identifier : Text → Text
unfolding strip sub_ident strip_underscores collapse guard_digit upper
c_identifier name = upper (guard_digit (collapse (strip_underscores (sub_ident (strip name)))))

-- The base name, with its component in front unless it already begins with it.
unfoldable pub qualified_name : Text → Text → Text
unfolding upper starts_with
qualified_name component base =
    if truthy (some component) && not (starts_with (upper base) (upper component))
    then component ++ b'_' ∷ base
    else base

unfoldable pub c_name : StateEntry → Text
unfolding qualified_name c_identifier
c_name e = c_identifier (qualified_name e.component e.canonical_name)
