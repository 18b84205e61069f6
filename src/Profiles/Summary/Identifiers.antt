-- ===== src/Profiles/Summary/Identifiers.antt =====
-- The names in the records of a summary.
use libhw.Base.{Text, none, some, true, ◌≡◌, ◌⊎◌}
use libhw.Importer.Rules.{RawRecord}
use libhw.Pdf.Table.{Table}
use libhw.Profiles.Row.{is_identifier}

-- The record is reserved and has no name, or its name is an identifier.
abbrev pub IsNamed : RawRecord → Type 0
IsNamed r =
    ((r.reserved ≡ true) × (r.name ≡ none))
    ⊎ ((n : Text) × (r.name ≡ some n) × (is_identifier n ≡ true))
