-- ===== src/Model/Identifier/Shape.antt =====
-- What a text that `c_identifier` returns looks like.
use libhw.Base.{
  All, Bool, Bool-cases, Text, [], ap₂, arith, false, inl, inr, is_digit, is_upper, lstrip_by, refl,
  rstrip_by, rstrip_step, strip, true, upper, upper_char, ℕ, ◌&&◌, ◌==◌, ◌||◌, ◌∙◌, ◌∷◌, ◌≡◌,
}
use libhw.Model.Identifier.{
  c_identifier, collapse, collapse_step, guard_digit, is_ident, is_underscore, strip_underscores,
  sub_ident,
}

-- An ASCII capital, a digit or an underscore.
abbrev pub IsNameChar : ℕ → Type 0
IsNameChar c = (is_upper c || is_digit c || c == b'_') ≡ true

abbrev pub StartsNoDigit : Text → Type 0
StartsNoDigit [] = Unit
StartsNoDigit (c ∷ s) = is_digit c ≡ false

-- No two underscores stand side by side.
abbrev pub NoRun : Text → Type 0
NoRun [] = Unit
NoRun (c ∷ []) = Unit
NoRun (c ∷ d ∷ s) = ((c == b'_' && d == b'_') ≡ false) × NoRun (d ∷ s)

abbrev pub IsIdentChar : ℕ → Type 0
IsIdentChar c = is_ident c ≡ true

sub_ident-All : (s : Text) → All IsIdentChar (sub_ident s)
unfolding sub_ident
sub_ident-All [] = tt
sub_ident-All (c ∷ s) = (ground arith, sub_ident-All s)

module _ {ℓ} (P : ℕ → Type ℓ) where
  pub lstrip_by-All : (p : ℕ → Bool) (s : Text) → All P s → All P (lstrip_by p s)
  unfolding lstrip_by
  lstrip_by-All p [] h = tt
  lstrip_by-All p (c ∷ s) h = elim (Bool-cases (p c)) [
    | inl e ↦ rw e (lstrip_by-All p s h.1)
    | inr e ↦ rw e h
  ]

  rstrip_step-All : (p : ℕ → Bool) (c : ℕ) (r : Text) → P c → All P r → All P (rstrip_step p c r)
  unfolding rstrip_step
  rstrip_step-All p c [] pc h = elim (Bool-cases (p c)) [ inl e ↦ rw e tt | inr e ↦ rw e (pc, tt) ]
  rstrip_step-All p c (d ∷ r) pc h = (pc, h)

  pub rstrip_by-All : (p : ℕ → Bool) (s : Text) → All P s → All P (rstrip_by p s)
  unfolding rstrip_by
  rstrip_by-All p [] h = tt
  rstrip_by-All p (c ∷ s) h = rstrip_step-All p c (rstrip_by p s) h.0 (rstrip_by-All p s h.1)

  collapse_step-All : (c : ℕ) (r : Text) → P c → All P r → All P (collapse_step c r)
  unfolding collapse_step
  collapse_step-All c [] pc h = (pc, tt)
  collapse_step-All c (d ∷ r) pc h = elim (Bool-cases (c == b'_' && d == b'_')) [
    | inl e ↦ rw e h
    | inr e ↦ rw e (pc, h)
  ]

  pub collapse-All : (s : Text) → All P s → All P (collapse s)
  unfolding collapse
  collapse-All [] h = tt
  collapse-All (c ∷ s) h = collapse_step-All c (collapse s) h.0 (collapse-All s h.1)

collapse_step-NoRun : (c : ℕ) (r : Text) → NoRun r → NoRun (collapse_step c r)
unfolding collapse_step
collapse_step-NoRun c [] h = tt
collapse_step-NoRun c (d ∷ r) h = elim (Bool-cases (c == b'_' && d == b'_')) [
  | inl e ↦ rw e h
  | inr e ↦ rw e (e, h)
]

pub collapse-NoRun : (s : Text) → NoRun (collapse s)
unfolding collapse
collapse-NoRun [] = tt
collapse-NoRun (c ∷ s) = collapse_step-NoRun c (collapse s) (collapse-NoRun s)

guard_digit-StartsNoDigit : (s : Text) → StartsNoDigit (guard_digit s)
unfolding guard_digit
guard_digit-StartsNoDigit [] = tt
guard_digit-StartsNoDigit (c ∷ s) = elim (Bool-cases (is_digit c)) [
  | inl e ↦ rw e (ground arith)
  | inr e ↦ rw e e
]

guard_digit-All : (s : Text) → All IsIdentChar s → All IsIdentChar (guard_digit s)
unfolding guard_digit is_ident
guard_digit-All [] h = tt
guard_digit-All (c ∷ s) h = elim (Bool-cases (is_digit c)) [
  | inl e ↦ rw e (refl, h)
  | inr e ↦ rw e h
]

guard_digit-NoRun : (s : Text) → NoRun s → NoRun (guard_digit s)
unfolding guard_digit
guard_digit-NoRun [] h = tt
guard_digit-NoRun (c ∷ s) h = elim (Bool-cases (is_digit c)) [
  | inl e ↦ rw e (unfold is_digit in ground arith, h)
  | inr e ↦ rw e h
]

pub upper_char-IsNameChar : (c : ℕ) → IsIdentChar c → IsNameChar (upper_char c)
unfolding is_ident upper_char
upper_char-IsNameChar c h = ground arith

upper-All : (s : Text) → All IsIdentChar s → All IsNameChar (upper s)
unfolding upper
upper-All [] h = tt
upper-All (c ∷ s) h = (upper_char-IsNameChar c h.0, upper-All s h.1)

upper_char-underscore : (c : ℕ) → (upper_char c == b'_') ≡ (c == b'_')
unfolding upper_char
upper_char-underscore c = ground arith

upper_char-is_digit : (c : ℕ) → is_digit (upper_char c) ≡ is_digit c
unfolding upper_char is_digit
upper_char-is_digit c = ground arith

upper-StartsNoDigit : (s : Text) → StartsNoDigit s → StartsNoDigit (upper s)
unfolding upper
upper-StartsNoDigit [] h = tt
upper-StartsNoDigit (c ∷ s) h = upper_char-is_digit c ∙ h

upper-NoRun : (s : Text) → NoRun s → NoRun (upper s)
unfolding upper
upper-NoRun [] h = tt
upper-NoRun (c ∷ []) h = tt
upper-NoRun (c ∷ d ∷ s) h =
    (ap₂ ◌&&◌ (upper_char-underscore c) (upper_char-underscore d) ∙ h.0, upper-NoRun (d ∷ s) h.1)

-- Whatever name a manual prints, its identifier holds only capitals, digits and underscores, does
-- not start with a digit, and has no two underscores side by side.
pub c_identifier_shape :
    (name : Text)
    → All IsNameChar (c_identifier name)
      × StartsNoDigit (c_identifier name)
      × NoRun (c_identifier name)
unfolding c_identifier
c_identifier_shape name =
    let chars =
      rstrip_by-All IsIdentChar is_underscore _
        (lstrip_by-All IsIdentChar is_underscore _ (sub_ident-All (strip name))) in
    let body = collapse (strip_underscores (sub_ident (strip name))) in
    (
      upper-All (guard_digit body) (guard_digit-All body (collapse-All IsIdentChar _ chars)),
      upper-StartsNoDigit (guard_digit body) (guard_digit-StartsNoDigit body),
      upper-NoRun (guard_digit body)
          (guard_digit-NoRun body (collapse-NoRun (strip_underscores (sub_ident (strip name))))),
    )
