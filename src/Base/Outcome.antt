-- ===== src/Base/Outcome.antt =====
-- A call that returns or raises. The exceptions are those that the modelled code raises itself or
-- meets in a built-in operation; a message is not modelled.
use mathlib.Core.Path.{◌≡◌, refl, subst}
use mathlib.Core.Bool.{Bool, true, false}
use mathlib.Core.List.{List, [], ◌∷◌}
use mathlib.Core.Option.{Option, none, some}

pub data Error : Type 0 where
  source_error hw_connect_error hw_flash_error hw_state_error hw_error : Error
  hw_library_not_found file_not_found : Error
  key_error value_error type_error attribute_error : Error

pub data Result {ℓ} (X : Type ℓ) : Type ℓ where
  ok : X → Result X
  err : Error → Result X

-- A statement after one that may raise.
infixl 5 ◌>>=◌ ◌>>◌
abbrev pub ◌>>=◌ {ℓ κ} : {X : Type ℓ} {Y : Type κ} → Result X → (X → Result Y) → Result Y
err raised >>= next = err raised
ok x >>= next = next x

abbrev pub ◌>>◌ {ℓ} : {Y : Type ℓ} → Result (Unit {0}) → Result Y → Result Y
first >> next = first >>= λ _. next

-- `if test: raise e`
abbrev pub raise_if : Bool → Error → Result (Unit {0})
raise_if true e = err e
raise_if false e = ok tt

-- `d[k]`, where a missing key raises
abbrev pub require {ℓ} : {A : Type ℓ} → Option A → Error → Result A
require none e = err e
require (some a) e = ok a

pub required_at {ℓ} :
    {A : Type ℓ} {a : A} (o : Option A) (e : Error) → require o e ≡ ok a → o ≡ some a
required_at none e h = cc
required_at (some x) e h = cc

-- A loop whose body may raise, over the items of a list.
unfoldable pub fold_result {ℓ κ} :
    {A : Type ℓ} {S : Type κ} → (A → S → Result S) → List A → S → Result S
fold_result f [] s = ok s
fold_result f (x ∷ xs) s = f x s >>= fold_result f xs

-- What holds of a returned value.
abbrev pub Returns {ℓ κ} : {A : Type ℓ} → (A → Type κ) → Result A → Type κ
Returns P (ok a) = P a
Returns P (err e) = Unit

-- The two parts of a call that returned.
pub >>=-eq-ok {ℓ κ} :
    {X : Type ℓ} {Y : Type κ} (m : Result X) (next : X → Result Y) {b : Y}
    → (m >>= next) ≡ ok b
    → (x : X) × (m ≡ ok x) × (next x ≡ ok b)
>>=-eq-ok (err raised) next h = cc
>>=-eq-ok (ok x) next h = (x, refl, h)

pub ok-injective {ℓ} : {A : Type ℓ} (a b : A) → ok a ≡ ok b → a ≡ b
ok-injective a b h = cc

pub some-injective {ℓ} : {A : Type ℓ} (a b : A) → some a ≡ some b → a ≡ b
some-injective a b h = cc

-- The invariant rule of the loop.
pub fold_result_inv {ℓ κ μ} :
    {A : Type ℓ} {S : Type κ} (P : S → Type μ) (f : A → S → Result S)
    → ((x : A) (s t : S) → f x s ≡ ok t → P s → P t)
    → (xs : List A) (s t : S) → fold_result f xs s ≡ ok t
    → P s
    → P t
unfolding fold_result
fold_result_inv P f step [] s t h p = subst P (ok-injective s t h) p
fold_result_inv P f step (x ∷ xs) s t h p =
    let (u, first, rest) = >>=-eq-ok (f x s) (fold_result f xs) h in
    fold_result_inv P f step xs u t rest (step x s u first p)
