-- ===== src/Importer/Records/Unique.antt =====
-- The records of tables give each register one entry that becomes a state descriptor.
use libhw.Base.{
  Bool, Bool-cases, Dict, List, Text, [], arith, count, count-append, false, has_key,
  has_key-insert, has_key-lookup, if◌then◌else◌, inl, inr, insert, lookup, none, refl, subst,
  text_eq, text_eq_iff, true, ◌&&◌, ◌++◌, ◌∷◌, ◌≡◌, ◌≤◌,
}
use libhw.Model.Kinds.{Classification, conditional_state, emitted_state}
use libhw.Model.Entry.{StateEntry, state_id}

-- A class that becomes a state descriptor in generated code.
unfoldable pub is_emitting : Classification → Bool
is_emitting emitted_state = true
is_emitting conditional_state = true
is_emitting _ = false

-- The entry is such state, under the identifier `k`.
unfoldable pub emits : Text → StateEntry → Bool
unfolding is_emitting
emits k e = is_emitting e.classification && text_eq (state_id e) k

-- At most one entry emits state under an identifier, and none if the identifier is new.
abbrev pub IsUnique : List StateEntry → Dict StateEntry → Type 0
IsUnique entries seen = (k : Text) → count (emits k) entries ≤ (if has_key k seen then 1 else 0)

count_one : (k : Text) (e : StateEntry) → emits k e ≡ false → count (emits k) (e ∷ []) ≡ 0
count_one k e h = rw h refl

pub IsUnique-quiet :
    (entries : List StateEntry) (seen : Dict StateEntry) (e : StateEntry)
    → is_emitting e.classification ≡ false
    → IsUnique entries seen
    → IsUnique (entries ++ (e ∷ [])) seen
unfolding emits
IsUnique-quiet entries seen e quiet h k =
    omega (arith, h k, count-append (emits k) entries (e ∷ []), count_one k e (rw quiet refl))

count-emits-le :
    (k : Text) (e : StateEntry)
    → count (emits k) (e ∷ []) ≤ (if text_eq (state_id e) k then 1 else 0)
unfolding emits
count-emits-le k e = ground arith

pub IsUnique-new :
    (entries : List StateEntry) (seen : Dict StateEntry) (e : StateEntry)
    → lookup (state_id e) seen ≡ none
    → IsUnique entries seen
    → IsUnique (entries ++ (e ∷ [])) (insert (state_id e) e seen)
IsUnique-new entries seen e new h k = elim (Bool-cases (text_eq (state_id e) k)) [
  | inl same ↦
      let absent =
        subst (λ i. has_key i seen ≡ false) ((text_eq_iff (state_id e) k).0 same)
          (has_key-lookup (state_id e) seen new) in
      let none_before = rw absent at (h k) in
      let one : count (emits k) (e ∷ []) ≤ 1 = rw same at (count-emits-le k e) in
      rw (has_key-insert (state_id e) k e seen, same)
        (omega (arith, none_before, one, count-append (emits k) entries (e ∷ [])))
  | inr other ↦
      let zero_here : count (emits k) (e ∷ []) ≤ 0 = rw other at (count-emits-le k e) in
      rw (has_key-insert (state_id e) k e seen, other)
        (omega (arith, h k, zero_here, count-append (emits k) entries (e ∷ [])))
]
