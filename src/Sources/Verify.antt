-- ===== src/Sources/Verify.antt =====
-- What `Source.resolve` and `Source.verify` establish.
use libhw.Base.{
  >>=-eq-ok, Bool, Bool-cases, List, Option, Text, [], ap, append-nil, append_assoc, arith, drop,
  inl, inr, length, length-append, none, not, ok, raise_if, refl, some, source_error, subst, suc,
  sym, take, text_eq, text_eq_iff, true, zero, ℕ, ◌++◌, ◌+◌, ◌-◌, ◌<◌, ◌>>◌, ◌^◌, ◌↔◌, ◌∙◌, ◌∷◌,
  ◌≡◌,
}
use libhw.Sources.{
  Machine, Source, candidates, check_size, first_file, read_all, read_loop, resolve, verify,
}

pub take-append-drop {ℓ} : {A : Type ℓ} (n : ℕ) (xs : List A) → take n xs ++ drop n xs ≡ xs
take-append-drop zero xs = refl
take-append-drop (suc n) [] = refl
take-append-drop (suc n) (x ∷ xs) = ap (λ r. x ∷ r) (take-append-drop n xs)

drop_fits : (n : ℕ) (xs : List ℕ) (k : ℕ) → length xs < k → length (drop n xs) < k
drop_fits zero xs k h = h
drop_fits (suc n) [] k h = h
drop_fits (suc n) (x ∷ xs) k h = drop_fits n xs k (omega arith)

pair_eq : {a b : List ℕ} {m n : ℕ} → a ≡ b → m ≡ n → ◌≡◌ {A = List ℕ × ℕ} (a, m) (b, n)
pair_eq p q = λ i. (p i, q i)

regroup : (n b : ℕ) (bs fed : List ℕ) → (fed ++ (b ∷ take n bs)) ++ drop n bs ≡ fed ++ (b ∷ bs)
regroup n b bs fed =
    append_assoc fed (b ∷ take n bs) (drop n bs) ∙ ap (λ r. fed ++ (b ∷ r)) (take-append-drop n bs)

-- With enough fuel the loop feeds the digest exactly the bytes left, and counts them.
read_loop_lem :
    (fuel n : ℕ) (rest fed : List ℕ) (size : ℕ)
    → length rest < fuel
    → read_loop fuel (suc n) rest fed size ≡ (fed ++ rest, size + length rest)
unfolding read_loop
read_loop_lem zero n rest fed size h = absurd (omega arith)
read_loop_lem (suc fuel) n [] fed size h = pair_eq (sym (append-nil fed)) (omega arith)
read_loop_lem (suc fuel) n (b ∷ bs) fed size h =
    let ih =
      read_loop_lem fuel n (drop n bs) (fed ++ (b ∷ take n bs)) (size + suc (length (take n bs)))
        (drop_fits n bs fuel (omega arith)) in
    ih
    ∙ pair_eq (regroup n b bs fed)
        (omega (arith, length-append (take n bs) (drop n bs), ap length (take-append-drop n bs)))

-- Reading a file returns its bytes and their number, whatever its length.
pub read_all_lem :
    (m : Machine) (path : Text) → read_all m path ≡ (m.content path, length (m.content path))
unfolding read_all
read_all_lem m path =
    read_loop_lem (suc (length (m.content path))) (2 ^ 20 - 1) (m.content path) [] 0 (omega arith)
    ∙ pair_eq refl (omega arith)

-- What a returned path satisfies.
abbrev pub Matches : Machine → Source → Text → Type 0
Matches m s path =
    (m.is_file path ≡ true)
    × (m.digest (m.content path) ≡ s.sha256)
    × ((n : ℕ) → s.bytes ≡ some n → length (m.content path) ≡ n)

first_file-is_file :
    (m : Machine) (cs : List Text) {p : Text} → first_file m cs ≡ ok p → m.is_file p ≡ true
unfolding first_file
first_file-is_file m [] h = cc
first_file-is_file m (c ∷ cs) {p} h = elim (Bool-cases (m.is_file c)) [
  | inl e ↦ subst (λ q. m.is_file q ≡ true) (ground arith) e
  | inr e ↦ first_file-is_file m cs (rw e at h)
]

-- The checks on the file at `path`, once it is read.
verify_at :
    (m : Machine) (s : Source) (path : Text)
    → resolve m s ≡ ok path
    → verify m s ≡ (
        raise_if (not (text_eq (m.digest (m.content path)) s.sha256)) source_error
        >> check_size s.bytes (length (m.content path)) path)
unfolding verify
verify_at m s path e = rw (e, read_all_lem) refl

checked :
    (bytes : Option ℕ) (size : ℕ) (b : Bool) (path p : Text)
    → (raise_if (not b) source_error >> check_size bytes size path) ≡ ok p
    → (b ≡ true) × (path ≡ p) × ((n : ℕ) → bytes ≡ some n → size ≡ n)
unfolding check_size
checked none size b path p h = (ground arith, ground arith, λ n e. cc)
checked (some k) size b path p h = (ground arith, ground arith, λ n e. ground arith)

unchecked :
    (bytes : Option ℕ) (size : ℕ) (path : Text)
    → ((n : ℕ) → bytes ≡ some n → size ≡ n)
    → check_size bytes size path ≡ ok path
unfolding check_size
unchecked none size path h = refl
unchecked (some k) size path h = ground (arith, h k refl)

-- `verify` returns the path that `resolve` finds exactly when the file there has the pinned digest
-- and, if a size is pinned, the pinned size.
pub verify-iff-Matches :
    (m : Machine) (s : Source) (path : Text)
    → (verify m s ≡ ok path) ↔ ((resolve m s ≡ ok path) × Matches m s path)
unfolding verify
verify-iff-Matches m s path = (to, from)
  where
    to : verify m s ≡ ok path → (resolve m s ≡ ok path) × Matches m s path
    to h =
        let (p, found, rest) = >>=-eq-ok (resolve m s) _ h in
        let (same, eq, size) = checked s.bytes _ _ p path (sym (verify_at m s p found) ∙ h) in
        let at : resolve m s ≡ ok path = found ∙ ap ok eq in
        let digest = (text_eq_iff _ _).0 same in
        (
          at,
          (
            first_file-is_file m (candidates m s) (unfold resolve in at),
            subst (λ q. m.digest (m.content q) ≡ s.sha256) eq digest,
            subst (λ q. (n : ℕ) → s.bytes ≡ some n → length (m.content q) ≡ n) eq size,
          ),
        )

    from : (resolve m s ≡ ok path) × Matches m s path → verify m s ≡ ok path
    from (at, (file, digest, size)) =
        verify_at m s path at ∙ rw ((text_eq_iff _ _).1 digest) (unchecked s.bytes _ path size)
