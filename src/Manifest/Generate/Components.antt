-- ===== src/Manifest/Generate/Components.antt =====
-- The components that a generated file names.
use libhw.Base.{All, Dict, List, Text, [], or_else, some, true, ℕ, ◌+◌, ◌∷◌, ◌≡◌, ◌≤◌, ◌⊎◌}
use libhw.Base.Numeral.{int_16}
use libhw.Manifest.Generate.{Macro, cidr_offset, hw_component, names_block, ppb_base}
use libhw.Model.Entry.{ManifestEntry}

-- The base belongs to an entry that is the CIDR0 of the component, and lies on the private peripheral
-- bus.
abbrev pub IsBlock : Text → ℕ → ManifestEntry → Type 0
IsBlock name base e =
    (names_block e ≡ true)
    × (e.component ≡ name)
    × (int_16 (or_else e.encoding []) ≡ some (base + cidr_offset))
    × (ppb_base ≤ base)

abbrev pub Found : Text → ℕ → List ManifestEntry → Type 0
Found name base [] = ⊥
Found name base (e ∷ es) = IsBlock name base e ⊎ Found name base es

module _ (Q : Text → ℕ → Type 0) where
  abbrev Items : Dict ℕ → Type 0
  Items d = All (λ (name, base). Q name base) d

  abbrev Serves : ManifestEntry → Type 0
  Serves e = (name : Text) (base : ℕ) → IsBlock name base e → Q name base

  -- The line names a component for which `Q` holds.
  abbrev pub NamesBlock : Macro → Type 0
  NamesBlock (hw_component name base) = Q name base
  NamesBlock _ = ⊥
