-- ===== src/Bindings/Action.antt =====
-- A method that acts on the world and may raise. What it did before a raise stays done.
use libhw.Base.{Error, List, Result, [], err, ok, ok-injective, refl, subst, ◌∷◌, ◌≡◌}

abbrev pub Action : Type 0 → Type 0 → Type 0
Action W A = W → Result A × W

module _ {W A : Type 0} where
  abbrev pub pure : A → Action W A
  pure a w = (ok a, w)

  abbrev pub raise : Error → Action W A
  raise e w = (err e, w)

  abbrev pub lift : Result A → Action W A
  lift r w = (r, w)

module _ {W A B : Type 0} where
  abbrev pub continue : Result A → (A → Action W B) → Action W B
  continue (ok a) f w = f a w
  continue (err e) f w = (err e, w)

  abbrev pub and_then : Action W A → (A → Action W B) → Action W B
  and_then m f w = continue (m w).0 f (m w).1

-- A loop over the items of a list whose body acts.
unfoldable pub fold_action : {W A S : Type 0} → (A → S → Action W S) → List A → S → Action W S
fold_action f [] s = pure s
fold_action f (x ∷ xs) s = and_then (f x s) (fold_action f xs)

-- What holds of the value that an action returns, if it returns.
abbrev pub OnReturn {ℓ} : {W A : Type 0} → (A → Type ℓ) → Result A × W → Type ℓ
OnReturn P (ok a, w) = P a
OnReturn P (err e, w) = Unit

and_then-OnReturn {ℓ κ} :
    {W A B : Type 0} (P : A → Type ℓ) (Q : B → Type κ) (r : Result A × W) (f : A → Action W B)
    → OnReturn P r
    → ((a : A) (w : W) → P a → OnReturn Q (f a w))
    → OnReturn Q (continue r.0 f r.1)
and_then-OnReturn P Q (ok a, w) f p h = h a w p
and_then-OnReturn P Q (err e, w) f p h = tt

-- The invariant rule of the loop.
pub fold_action-OnReturn {ℓ} :
    {W A S : Type 0} (P : S → Type ℓ) (f : A → S → Action W S)
    → ((x : A) (s : S) (w : W) → P s → OnReturn P (f x s w))
    → (xs : List A) (s : S) (w : W) → P s
    → OnReturn P (fold_action f xs s w)
unfolding fold_action
fold_action-OnReturn P f step [] s w p = p
fold_action-OnReturn P f step (x ∷ xs) s w p =
    and_then-OnReturn P P (f x s w) (fold_action f xs) (step x s w p)
      (λ t u q. fold_action-OnReturn P f step xs t u q)

continue-OnReturn {κ} :
    {W A B : Type 0} (Q : B → Type κ) (r : Result A) (f : A → Action W B) (w : W)
    → ((a : A) → r ≡ ok a → OnReturn Q (f a w))
    → OnReturn Q (continue r f w)
continue-OnReturn Q (ok a) f w h = h a refl
continue-OnReturn Q (err e) f w h = tt

-- The rule for a bind, with the equation of what the first action returned.
pub bind-OnReturn {κ} :
    {W A B : Type 0} (Q : B → Type κ) (m : Action W A) (f : A → Action W B) (w : W)
    → ((a : A) → (m w).0 ≡ ok a → OnReturn Q (f a (m w).1))
    → OnReturn Q (and_then m f w)
bind-OnReturn Q m f w h = continue-OnReturn Q (m w).0 f (m w).1 h

pub OnReturn-at {ℓ} :
    {W A : Type 0} (P : A → Type ℓ) (r : Result A × W) (a : A) → OnReturn P r → r.0 ≡ ok a → P a
OnReturn-at P (ok b, w) a p e = subst P (ok-injective b a e) p
OnReturn-at P (err x, w) a p e = cc e
