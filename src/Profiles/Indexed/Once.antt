-- ===== src/Profiles/Indexed/Once.antt =====
-- The special registers: each name once, as the table has it first.
use libhw.Base.{
  Bool, List, Option, Text, [], ap, arith, count, if◌then◌else◌, member, none, some, text_eq,
  text_eq_iff, true, ◌+◌, ◌||◌, ◌∷◌, ◌≡◌, ◌≤◌,
}
use libhw.Importer.Rules.{RawRecord}
use libhw.Pdf.Table.{Table}
use libhw.Profiles.Indexed.{first_of_each, name_of, parse_special_register_sysm, sysm_line}
use libhw.Profiles.Named.{flat_map}

unfoldable pub has_name : Text → RawRecord → Bool
unfolding text_eq name_of
has_name n r = text_eq (name_of r) n

-- The first record of the list with the name.
unfoldable pub first_with : Text → List RawRecord → Option RawRecord
unfolding has_name
first_with n [] = none
first_with n (r ∷ rs) = if has_name n r then some r else first_with n rs

text_eq_comm : (a b : Text) → text_eq a b ≡ text_eq b a
text_eq_comm a b = ground (arith, text_eq_iff a b, text_eq_iff b a)

member_name :
    (n : Text) (seen : List Text) (r : RawRecord)
    → has_name n r ≡ true
    → member (name_of r) seen ≡ member n seen
unfolding has_name
member_name n seen r h = ap (λ x. member x seen) ((text_eq_iff (name_of r) n).0 h)

member-cons :
    (n : Text) (seen : List Text) (r : RawRecord)
    → member n (name_of r ∷ seen) ≡ (has_name n r || member n seen)
unfolding member has_name
member-cons n seen r = ap (λ b. b || member n seen) (text_eq_comm n (name_of r))

first_of_each-first :
    (n : Text) (seen : List Text) (rs : List RawRecord)
    → first_with n (first_of_each seen rs) ≡ (if member n seen then none else first_with n rs)
unfolding first_of_each first_with
first_of_each-first n seen [] = ground arith
first_of_each-first n seen (r ∷ rs) = ground (
  arith,
  first_of_each-first n seen rs,
  first_of_each-first n (name_of r ∷ seen) rs,
  member-cons n seen r,
  member_name n seen r,
)

count-first_of_each :
    (n : Text) (seen : List Text) (rs : List RawRecord)
    → count (has_name n) (first_of_each seen rs) + (if member n seen then 1 else 0) ≤ 1
unfolding first_of_each
count-first_of_each n seen [] = ground arith
count-first_of_each n seen (r ∷ rs) = ground (
  arith,
  count-first_of_each n seen rs,
  count-first_of_each n (name_of r ∷ seen) rs,
  member-cons n seen r,
  member_name n seen r,
)

-- A name has at most one record among the special registers, and it is the one that the table has
-- first; a name that the table has is not lost.
pub parse_special_register_sysm_first :
    (table : Table) (n : Text)
    → let records = parse_special_register_sysm table in
      (count (has_name n) records ≤ 1)
      × (first_with n records ≡ first_with n (flat_map sysm_line table.raw_lines))
unfolding parse_special_register_sysm member
parse_special_register_sysm_first table n =
    let rs = flat_map sysm_line table.raw_lines in
    (omega (arith, count-first_of_each n [] rs), first_of_each-first n [] rs)
