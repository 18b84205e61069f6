-- ===== src/Base/Maps.antt =====
-- Python's `dict` with text keys: an association list in insertion order. A write to a key that is
-- there changes its value in place, and a new key goes to the end.
use Prim.Native.Nat.{ℕ, ◌+◌}
use mathlib.Core.Path.{◌≡◌, refl}
use mathlib.Core.Logic.{inl, inr}
use mathlib.Core.Bool.{Bool, true, false}
use mathlib.Core.Option.{Option, none, some}
use mathlib.Core.List.{List, [], ◌∷◌, ◌++◌}
use native.Mathlib.Omega.{arith}
use libhw.Base.Strings.{Text, text_eq, text_eq_iff}
use libhw.Base.Tests.{Bool-cases, Option-cases, if◌then◌else◌}

abbrev pub Dict {ℓ} : Type ℓ → Type ℓ
Dict V = List (Text × V)

module _ {ℓ} {V : Type ℓ} where
  -- `d.get(k)`
  unfoldable pub lookup : Text → Dict V → Option V
  lookup k [] = none
  lookup k ((j, v) ∷ d) = if text_eq j k then some v else lookup k d

  -- `d[k] = v`
  unfoldable pub insert : Text → V → Dict V → Dict V
  insert k v [] = (k, v) ∷ []
  insert k v ((j, w) ∷ d) = if text_eq j k then (j, v) ∷ d else (j, w) ∷ insert k v d

  -- `k in d`
  unfoldable pub has_key : Text → Dict V → Bool
  has_key k [] = false
  has_key k ((j, v) ∷ d) = if text_eq j k then true else has_key k d

  -- `d.setdefault(k, v)`
  unfoldable pub set_default : Text → V → Dict V → Dict V
  unfolding has_key insert
  set_default k v d = if has_key k d then d else insert k v d

  abbrev pub keys : Dict V → List Text
  keys [] = []
  keys ((k, v) ∷ d) = k ∷ keys d

  pub lookup-insert :
      (k j : Text) (v : V) (d : Dict V)
      → lookup j (insert k v d) ≡ (if text_eq k j then some v else lookup j d)
  unfolding lookup insert
  lookup-insert k j v [] = refl
  lookup-insert k j v ((i, w) ∷ d) =
      ground (arith, text_eq_iff k j, text_eq_iff i k, text_eq_iff i j, lookup-insert k j v d)

  pub has_key-insert :
      (k j : Text) (v : V) (d : Dict V)
      → has_key j (insert k v d) ≡ (if text_eq k j then true else has_key j d)
  unfolding has_key insert
  has_key-insert k j v [] = refl
  has_key-insert k j v ((i, w) ∷ d) =
      ground (arith, text_eq_iff k j, text_eq_iff i k, text_eq_iff i j, has_key-insert k j v d)

  pub lookup-has_key : (k : Text) (d : Dict V) → has_key k d ≡ false → lookup k d ≡ none
  unfolding has_key lookup
  lookup-has_key k [] h = refl
  lookup-has_key k ((j, v) ∷ d) h = ground (arith, lookup-has_key k d)

  pub has_key-lookup : (k : Text) (d : Dict V) → lookup k d ≡ none → has_key k d ≡ false
  unfolding has_key lookup
  has_key-lookup k [] h = refl
  has_key-lookup k ((j, v) ∷ d) h = ground (arith, has_key-lookup k d)

  -- A new key goes to the end.
  pub insert-append :
      (k : Text) (v : V) (d : Dict V) → has_key k d ≡ false → insert k v d ≡ d ++ ((k, v) ∷ [])
  unfolding insert has_key
  insert-append k v [] h = refl
  insert-append k v ((j, w) ∷ d) h = ground (arith, insert-append k v d)

-- `d[k] = d.get(k, 0) + 1`
unfoldable pub count_up : Text → Dict ℕ → Dict ℕ
unfolding lookup insert
count_up k d = insert k (elim (lookup k d) [ none ↦ 1 | some n ↦ n + 1 ]) d

-- `sum(d.values())`
abbrev pub sum_values : Dict ℕ → ℕ
sum_values [] = 0
sum_values ((k, n) ∷ d) = n + sum_values d

abbrev or_zero : Option ℕ → ℕ
or_zero none = 0
or_zero (some n) = n

sum_values-insert :
    (k : Text) (v : ℕ) (d : Dict ℕ)
    → sum_values (insert k v d) + or_zero (lookup k d) ≡ sum_values d + v
unfolding lookup insert
sum_values-insert k v [] = omega arith
sum_values-insert k v ((j, n) ∷ d) = elim (Bool-cases (text_eq j k)) [
  | inl h ↦ rw h (omega arith)
  | inr h ↦ rw h (omega (arith, sum_values-insert k v d))
]

pub sum_values-count_up : (k : Text) (d : Dict ℕ) → sum_values (count_up k d) ≡ sum_values d + 1
unfolding count_up
sum_values-count_up k d = elim (Option-cases (lookup k d)) [
  | inl e ↦ rw e (omega (arith, rw e at (sum_values-insert k 1 d)))
  | inr (n, e) ↦ rw e (omega (arith, rw e at (sum_values-insert k (n + 1) d)))
]
