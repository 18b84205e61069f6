-- ===== src/Pdf/Table.antt =====
-- The data classes `Row` and `Table` of tools/state/armpdf.py.
use libhw.Base.{
  Dict, List, Option, Text, [], codes, if◌then◌else◌, lookup, none, truthy, ℕ, ◌++◌, ◌∷◌,
}

pub record Row : Type 0 where
  pub cells : Dict Text
  pub page : ℕ
  pub raw : Text

pub record Table : Type 0 where
  pub table_id : Text
  pub caption : Text
  pub section : Text
  pub page : ℕ
  pub columns : List Text
  pub rows : List Row
  pub raw_lines : List (ℕ × Text)
  pub consumed_lines : List ℕ
  pub rejected_rows : List (ℕ × Text)

-- `Table.label`
unfoldable pub label : Table → Text
label t = codes "Table " ++ (t.table_id ++ (b' ' ∷ t.caption))

-- `Row.get`: the first named cell that is there and not empty.
unfoldable pub get_cell : Row → List Text → Option Text
unfolding lookup truthy
get_cell row [] = none
get_cell row (n ∷ names) =
    let v = lookup n row.cells in let rest = get_cell row names in if truthy v then v else rest
