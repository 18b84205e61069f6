-- ===== src/Base/Numeral/Hex.antt =====
-- A printed address reads back as the number that was printed.
use libhw.Base.{
  All, All-append, Bool, Bool-cases, Text, [], ap, arith, codes, false, inl, inr, is_space, length,
  length-append, lstrip_by, refl, rstrip_by, some, strip, strip_prefix, suc, true, zero, ℕ, ◌%◌,
  ◌*◌, ◌++◌, ◌+◌, ◌-◌, ◌/◌, ◌<◌, ◌==◌, ◌∙◌, ◌∷◌, ◌≡◌,
}
use libhw.Base.Numeral.{
  address_text, digit_char, digits_loop, hex8, hex_digit, hex_loop, int_16, int_16_at, zeros,
}

hex_digit-digit_char : (d : ℕ) → d < 16 → hex_digit (digit_char d) ≡ some d
unfolding hex_digit digit_char
hex_digit-digit_char d h = ground arith

digit_char-ne : (d : ℕ) → d < 16 → (digit_char d == b'_') ≡ Bool.false
unfolding digit_char
digit_char-ne d h = ground arith

hex_loop-digit :
    (d acc : ℕ) (s : Text)
    → d < 16
    → hex_loop true acc (digit_char d ∷ s) ≡ hex_loop true (acc * 16 + d) s
unfolding hex_loop
hex_loop-digit d acc s h = rw (digit_char-ne d h, hex_digit-digit_char d h) refl

hex_loop-digits_loop :
    (fuel n : ℕ) (out : Text)
    → n < fuel
    → hex_loop true 0 (digits_loop 16 fuel n out) ≡ hex_loop true n out
unfolding digits_loop
hex_loop-digits_loop zero n out h = elim h [ ]
hex_loop-digits_loop (suc f) n out h = elim (Bool-cases (n / 16 == 0)) [
  | inl small ↦
      rw small
        (hex_loop-digit (n % 16) 0 out (omega arith) ∙ ap (λ k. hex_loop true k out) (ground arith))
  | inr large ↦ rw large (
      hex_loop-digits_loop f (n / 16) (digit_char (n % 16) ∷ out) (ground arith)
      ∙ (hex_loop-digit (n % 16) (n / 16) out (omega arith)
          ∙ ap (λ k. hex_loop true k out) (omega arith)))
]

hex_loop-zeros : (k : ℕ) (s : Text) → hex_loop true 0 (zeros k ++ s) ≡ hex_loop true 0 s
unfolding zeros digit_char
hex_loop-zeros zero s = refl
hex_loop-zeros (suc k) s = hex_loop-digit 0 0 (zeros k ++ s) (omega arith) ∙ hex_loop-zeros k s

-- No blank stands in the text.
abbrev NoSpace : Text → Type 0
NoSpace s = All (λ c. is_space c ≡ false) s

digits_loop-NoSpace : (fuel n : ℕ) (out : Text) → NoSpace out → NoSpace (digits_loop 16 fuel n out)
unfolding digits_loop
digits_loop-NoSpace zero n out h = h
digits_loop-NoSpace (suc f) n out h = elim (Bool-cases (n / 16 == 0)) [
  | inl small ↦ rw small (plain (n % 16) (omega arith), h)
  | inr large ↦ rw large (digits_loop-NoSpace f (n / 16) _ (plain (n % 16) (omega arith), h))
]
  where
    plain : (d : ℕ) → d < 16 → is_space (digit_char d) ≡ false
    plain d h = unfold is_space digit_char in ground arith

zeros-NoSpace : (k : ℕ) → NoSpace (zeros k)
unfolding zeros is_space
zeros-NoSpace zero = tt
zeros-NoSpace (suc k) = (refl, zeros-NoSpace k)

rstrip_by-NoSpace : (s : Text) → NoSpace s → rstrip_by is_space s ≡ s
unfolding rstrip_by
rstrip_by-NoSpace [] h = refl
rstrip_by-NoSpace (c ∷ []) h = rw h.0 refl
rstrip_by-NoSpace (c ∷ d ∷ s) h = rw (rstrip_by-NoSpace (d ∷ s) h.1) refl

strip-NoSpace : (c : ℕ) (s : Text) → NoSpace (c ∷ s) → strip (c ∷ s) ≡ c ∷ s
unfolding strip lstrip_by
strip-NoSpace c s h = rw h.0 (rstrip_by-NoSpace (c ∷ s) h)

length-zeros : (k : ℕ) → length (zeros k) ≡ k
unfolding zeros
length-zeros zero = refl
length-zeros (suc k) = omega (arith, length-zeros k)

length-hex8 : (n : ℕ) → 0 < length (hex8 n)
unfolding hex8
length-hex8 n =
    let ds = digits_loop 16 (suc n) n [] in
    omega (arith, length-append (zeros (8 - length ds)) ds, length-zeros (8 - length ds))

hex8-NoSpace : (n : ℕ) → NoSpace (hex8 n)
unfolding hex8
hex8-NoSpace n =
    All-append (λ c. is_space c ≡ false) (zeros _) _ (zeros-NoSpace _)
      (digits_loop-NoSpace (suc n) n [] tt)

hex_loop-hex8 : (n : ℕ) → hex_loop true 0 (hex8 n) ≡ some n
unfolding hex8
hex_loop-hex8 n =
    hex_loop-zeros _ _
    ∙ (hex_loop-digits_loop (suc n) n [] (omega arith) ∙ (unfold hex_loop in refl))

int_16_at-prefixed :
    (s : Text)
    → 0 < length s
    → int_16_at (strip_prefix (codes "0x" ++ s) (codes "0x")) ≡ hex_loop true 0 s
unfolding int_16_at strip_prefix
int_16_at-prefixed [] h = absurd (omega arith)
int_16_at-prefixed (c ∷ s) h = refl

int_16-strip : (s : Text) → int_16 s ≡ int_16_at (strip_prefix (strip s) (codes "0x"))
unfolding int_16
int_16-strip s = refl

-- A printed address reads back as the number that was printed, however large.
pub int_16-address_text : (n : ℕ) → int_16 (address_text n) ≡ some n
unfolding address_text
int_16-address_text n =
    int_16-strip (codes "0x" ++ hex8 n)
    ∙ (ap (λ s. int_16_at (strip_prefix s (codes "0x")))
          (strip-NoSpace b'0' (b'x' ∷ hex8 n)
            (unfold is_space in refl, (unfold is_space in refl, hex8-NoSpace n)))
        ∙ (int_16_at-prefixed (hex8 n) (length-hex8 n) ∙ hex_loop-hex8 n))
