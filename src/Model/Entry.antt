-- ===== src/Model/Entry.antt =====
-- `Provenance`, `Alias` and `StateEntry` of tools/state/model.py, the identifier `state_id`, and the
-- row `to_dict` that a manifest holds.
use libhw.Base.{
  Bool, Option, Text, [], any, any-append, arith, codes, none, some, true, ℕ, ◌++◌, ◌==◌, ◌∷◌, ◌≡◌,
}
use libhw.Model.Kinds.{
  Access, Classification, Namespace, access_value, classification_value, namespace_value,
}

pub record Provenance : Type 0 where
  pub document : Text
  pub revision : Text
  pub section : Text
  pub table : Text
  pub row : Text
  pub page : Option ℕ

-- A named view onto storage that another entry owns.
pub record Alias : Type 0 where
  pub target : Text
  pub bit_offset : ℕ
  pub bit_width : ℕ

pub record StateEntry : Type 0 where
  pub canonical_name : Text
  pub source_id : Text
  pub architecture : Text
  pub namespace : Namespace
  pub classification : Classification
  pub provenance : Provenance
  pub width : Option ℕ
  pub access : Option Access
  pub encoding : Option Text
  pub encoding_kind : Text
  pub readable : Bool
  pub writable : Bool
  pub feature_requirement : Option Text
  pub alias_of : Option Alias
  pub reason : Option Text
  pub snapshot : Bool
  pub derivation : Text
  pub source_family : Text
  pub source_release : Text
  pub debug_regsel : Option ℕ
  pub debug_lsb : ℕ
  pub debug_width : ℕ
  pub component : Text

-- The component and a colon, or nothing.
unfoldable pub component_prefix : Text → Text
component_prefix [] = []
component_prefix (c ∷ s) = (c ∷ s) ++ codes ":"

unfoldable pub state_id : StateEntry → Text
unfolding component_prefix namespace_value
state_id e =
    e.architecture
    ++ (codes ":"
        ++ (namespace_value e.namespace
            ++ (codes ":" ++ (component_prefix e.component ++ e.canonical_name))))

-- A row of a manifest: the fields of an entry, the members of enumerations by their values.
pub record ManifestEntry : Type 0 where
  pub canonical_name : Text
  pub source_id : Text
  pub architecture : Text
  pub namespace : Text
  pub classification : Text
  pub provenance : Provenance
  pub width : Option ℕ
  pub access : Option Text
  pub encoding : Option Text
  pub encoding_kind : Text
  pub readable : Bool
  pub writable : Bool
  pub feature_requirement : Option Text
  pub alias_of : Option Alias
  pub reason : Option Text
  pub snapshot : Bool
  pub derivation : Text
  pub source_family : Text
  pub source_release : Text
  pub debug_regsel : Option ℕ
  pub debug_lsb : ℕ
  pub debug_width : ℕ
  pub component : Text
  pub id : Text

unfoldable pub access_text : Option Access → Option Text
unfolding access_value
access_text none = none
access_text (some a) = some (access_value a)

unfoldable pub to_dict : StateEntry → ManifestEntry
unfolding access_text classification_value namespace_value state_id
to_dict e = record {
  canonical_name = e.canonical_name;
  source_id = e.source_id;
  architecture = e.architecture;
  namespace = namespace_value e.namespace;
  classification = classification_value e.classification;
  provenance = e.provenance;
  width = e.width;
  access = access_text e.access;
  encoding = e.encoding;
  encoding_kind = e.encoding_kind;
  readable = e.readable;
  writable = e.writable;
  feature_requirement = e.feature_requirement;
  alias_of = e.alias_of;
  reason = e.reason;
  snapshot = e.snapshot;
  derivation = e.derivation;
  source_family = e.source_family;
  source_release = e.source_release;
  debug_regsel = e.debug_regsel;
  debug_lsb = e.debug_lsb;
  debug_width = e.debug_width;
  component = e.component;
  id = state_id e;
}

-- A text in which no colon stands.
unfoldable pub has_colon : Text → Bool
has_colon s = any (λ c. c == b':') s

-- Every identifier has a colon in it, so none is equal to a name that has none.
pub has_colon-state_id : (e : StateEntry) → has_colon (state_id e) ≡ true
unfolding has_colon state_id
has_colon-state_id e =
    let tail = component_prefix e.component ++ e.canonical_name in
    let rest = namespace_value e.namespace ++ (codes ":" ++ tail) in
    ground (arith, any-append (λ (c : ℕ). c == b':') e.architecture (codes ":" ++ rest))
