-- ===== src/Bindings/Views.antt =====
-- utils/python/libhw/state.py: what `StateDb` shows of a database besides its states, and the names of the
-- built-in databases.
use libhw.Base.{List, Option, Text, [], length, map, none, or_else, some, take, ℕ, ◌∷◌}
use libhw.Bindings.Library.{Library}
use libhw.Bindings.StateDb.{text_of}
use libhw.Bindings.Structs.{
  HwStateAlias, HwStateComponent, HwStateDb, HwStateDbgReg, HwStateOperation,
}

pub record StateAlias : Type 0 where
  pub name : Text
  pub target : Text
  pub bit_offset : ℕ
  pub bit_width : ℕ

-- A memory-mapped location whose write performs an action.
pub record Operation : Type 0 where
  pub name : Text
  pub encoding : Option Text
  pub reason : Option Text

pub record DebugReg : Type 0 where
  pub name : Text
  pub regsel : ℕ
  pub lsb : ℕ
  pub width : ℕ

pub record Component : Type 0 where
  pub name : Text
  pub base : ℕ

-- `_s(p) or ""`
unfoldable pub text_or_empty : Option Text → Text
unfolding text_of or_else
text_or_empty p = or_else (text_of p) []

unfoldable pub db_name : HwStateDb → Text
unfolding text_or_empty
db_name db = text_or_empty db.name

unfoldable pub db_source : HwStateDb → Text
unfolding text_or_empty
db_source db = text_or_empty db.source

-- `len(db)`
unfoldable pub state_count : HwStateDb → ℕ
state_count db = length db.states

unfoldable pub db_aliases : HwStateDb → List StateAlias
unfolding text_or_empty
db_aliases db =
    map
      (λ (a : HwStateAlias). record {
        name = text_or_empty a.name;
        target = text_or_empty a.target;
        bit_offset = a.bit_offset;
        bit_width = a.bit_width;
      })
      db.aliases

unfoldable pub db_operations : HwStateDb → List Operation
unfolding text_or_empty text_of
db_operations db =
    map
      (λ (o : HwStateOperation). record {
        name = text_or_empty o.name;
        encoding = text_of o.encoding;
        reason = text_of o.reason;
      })
      db.operations

unfoldable pub db_components : HwStateDb → List Component
unfolding text_or_empty
db_components db =
    map (λ (c : HwStateComponent). record { name = text_or_empty c.name; base = c.base })
      db.components

unfoldable pub debug_reg_of : HwStateDbgReg → DebugReg
unfolding text_or_empty
debug_reg_of d = record {
  name = text_or_empty d.name;
  regsel = d.regsel;
  lsb = d.lsb;
  width = d.width;
}

unfoldable pub debug_regs : HwStateDb → List DebugReg
unfolding debug_reg_of
debug_regs db = map debug_reg_of db.dbgregs

-- The entries of the array up to the first without a name, or the 64 that are looked at.
unfoldable pub until_unnamed : List HwStateDb → List HwStateDb
unfolding text_of
until_unnamed [] = []
until_unnamed (db ∷ dbs) =
    let rest = until_unnamed dbs in elim (text_of db.name) [ none ↦ [] | some name ↦ db ∷ rest ]

module _ (l : Library) where
  -- `StateDb.debug_reg`
  unfoldable pub debug_reg : HwStateDb → Text → Option DebugReg
  unfolding debug_reg_of
  debug_reg db name = elim (l.hw_state_dbgreg db name) [
    | none ↦ none
    | some d ↦ some (debug_reg_of d)
  ]

  -- `databases()`
  unfoldable pub databases : List HwStateDb
  unfolding until_unnamed
  databases = until_unnamed (take 64 l.hw_state_databases)

  unfoldable pub database_names : List Text
  unfolding databases db_name
  database_names = map db_name databases
