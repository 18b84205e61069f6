-- ===== src/Bindings/Probe/Missing.antt =====
-- Which calls of the bindings cannot end in the exception of a missing library.
use libhw.Base.{
  Bool, Error, List, Option, Result, Text, [], codes, err, false, hw_error, hw_library_not_found,
  hw_state_error, if◌then◌else◌, none, ok, or_else, raise_if, refl, require, some, true, ℕ, ◌>>=◌,
  ◌∷◌, ◌≡◌,
}
use libhw.Bindings.Action.{Action, and_then, continue, fold_action, lift}
use libhw.Bindings.Connection.{Hw, check, closed, databases_for, guarded, query_at, query_result}
use libhw.Bindings.Library.{Library}
use libhw.Bindings.StateDb.{
  CpuFeatures, access_at, desc_from_c, encoding_kind_at, namespace_at, presence_at, read_status_at,
  state_db,
}
use libhw.Bindings.Structs.{HwStateDb, HwStateDesc, HwStateResult}

abbrev pub is_missing : Error → Bool
is_missing hw_library_not_found = true
is_missing _ = false

-- The call does not end in the exception of a missing library.
abbrev pub HasLibrary : {A : Type 0} → Result A → Type 0
HasLibrary (ok a) = Unit
HasLibrary (err e) = is_missing e ≡ false

module _ {W A B : Type 0} where
  pub continue-HasLibrary :
      (r : Result A) (f : A → Action W B) (u : W)
      → HasLibrary r
      → ((a : A) (u : W) → HasLibrary (f a u).0)
      → HasLibrary (continue r f u).0
  continue-HasLibrary (ok a) f u h k = k a u
  continue-HasLibrary (err e) f u h k = h

  pub bind-HasLibrary :
      (m : Action W A) (f : A → Action W B) (w : W)
      → HasLibrary (m w).0
      → ((a : A) (u : W) → HasLibrary (f a u).0)
      → HasLibrary (and_then m f w).0
  bind-HasLibrary m f w h k = continue-HasLibrary (m w).0 f (m w).1 h k

pub >>=-HasLibrary :
    {A B : Type 0} (r : Result A) (f : A → Result B)
    → HasLibrary r
    → ((a : A) → HasLibrary (f a))
    → HasLibrary (r >>= f)
>>=-HasLibrary (ok a) f h k = k a
>>=-HasLibrary (err e) f h k = h

pub fold_action-HasLibrary :
    {W A S : Type 0} (f : A → S → Action W S) (xs : List A) (s : S) (w : W)
    → ((x : A) (s : S) (u : W) → HasLibrary (f x s u).0)
    → HasLibrary (fold_action f xs s w).0
unfolding fold_action
fold_action-HasLibrary f [] s w h = tt
fold_action-HasLibrary f (x ∷ xs) s w h =
    bind-HasLibrary (f x s) (fold_action f xs) w (h x s w)
      (λ t u. fold_action-HasLibrary f xs t u h)

-- The guard of a method, and a call that gives a status.
module _ (l : Library) where
  pub guarded-HasLibrary :
      {A : Type 0} (hw : Hw l) (m : Action l.World A) (w : l.World)
      → ((u : l.World) → HasLibrary (m u).0)
      → HasLibrary (guarded l hw m w).0
  unfolding guarded check
  guarded-HasLibrary hw m w h =
      bind-HasLibrary (lift (check l hw)) (λ _. m) w (raised (closed l hw)) (λ _ u. h u)
    where
      raised : (b : Bool) → HasLibrary (raise_if b hw_error)
      raised true = refl
      raised false = tt

pub if-HasLibrary :
    {A : Type 0} (b : Bool) (r q : Result A)
    → HasLibrary r
    → HasLibrary q
    → HasLibrary (if b then r else q)
if-HasLibrary true r q h k = h
if-HasLibrary false r q h k = k

-- A number that is no member of an enumeration raises `ValueError`.
pub namespace_at-HasLibrary : (n : ℕ) → HasLibrary (namespace_at n)
unfolding namespace_at
namespace_at-HasLibrary n = search (if-HasLibrary, tt) depth 12

pub access_at-HasLibrary : (n : ℕ) → HasLibrary (access_at n)
unfolding access_at
access_at-HasLibrary n = search (if-HasLibrary, tt) depth 12

pub encoding_kind_at-HasLibrary : (n : ℕ) → HasLibrary (encoding_kind_at n)
unfolding encoding_kind_at
encoding_kind_at-HasLibrary n = search (if-HasLibrary, tt) depth 12

pub presence_at-HasLibrary : (n : ℕ) → HasLibrary (presence_at n)
unfolding presence_at
presence_at-HasLibrary n = search (if-HasLibrary, tt) depth 12

pub read_status_at-HasLibrary : (n : ℕ) → HasLibrary (read_status_at n)
unfolding read_status_at
read_status_at-HasLibrary n = search (if-HasLibrary, tt) depth 12

pub desc_from_c-HasLibrary :
    (c : HwStateDesc) (ptr : Option HwStateDesc) → HasLibrary (desc_from_c c ptr)
unfolding desc_from_c
desc_from_c-HasLibrary c ptr =
    >>=-HasLibrary (namespace_at c.ns) _ (namespace_at-HasLibrary c.ns) (λ ns.
      >>=-HasLibrary (access_at c.access) _ (access_at-HasLibrary c.access) (λ acc.
        >>=-HasLibrary (encoding_kind_at c.enc_kind) _ (encoding_kind_at-HasLibrary c.enc_kind)
          (λ kind. tt)))

module _ (l : Library) where
  pub state_db-HasLibrary : (name : Text) → HasLibrary (state_db l name)
  unfolding state_db
  state_db-HasLibrary name = found (l.hw_state_db name)
    where
      found : (o : Option HwStateDb) → HasLibrary (require o hw_state_error)
      found none = refl
      found (some db) = tt

  pub query_result-HasLibrary : (out : HwStateResult) → HasLibrary (query_result l out)
  unfolding query_result
  query_result-HasLibrary out =
      >>=-HasLibrary (presence_at out.presence) _ (presence_at-HasLibrary out.presence) (λ p.
        >>=-HasLibrary (read_status_at out.read) _ (read_status_at-HasLibrary out.read) (λ r. tt))

  pub query_at-HasLibrary :
      (hw : Hw l) (ptr : Option HwStateDesc) (f : Option CpuFeatures) (w : l.World)
      → HasLibrary (query_at l hw ptr f w).0
  unfolding query_at
  query_at-HasLibrary hw none f w = refl
  query_at-HasLibrary hw (some c) f w = search (if-HasLibrary, query_result-HasLibrary)

  pub databases_for-HasLibrary : (f : CpuFeatures) → HasLibrary (databases_for l f)
  unfolding databases_for
  databases_for-HasLibrary f =
      >>=-HasLibrary (state_db l (codes "armv7m")) _ (state_db-HasLibrary (codes "armv7m")) (λ base.
        if-HasLibrary _ _ (ok (base ∷ []))
          (>>=-HasLibrary (state_db l (or_else f.overlay [])) _
            (state_db-HasLibrary (or_else f.overlay [])) (λ overlay. tt))
          tt)
