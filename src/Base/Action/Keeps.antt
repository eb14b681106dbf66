-- ===== src/Base/Action/Keeps.antt =====
-- What every part of an action keeps, the action keeps, whether it fails or not; and what a chain
-- that ends well has done.
use mathlib.Core.Path.{◌≡◌, refl}
use mathlib.Core.Bool.{Bool, true, false}
use mathlib.Core.Bool.{not}
use duro_ledger.Base.Results.{Result, ok, err}
use duro_ledger.Base.Action.{Action, after_result, ◌>>=◌, ◌>>◌, reject_if}

module _ {S E A B : Type 0} (P : S → Type 0) where
  after_keeps :
      (r : Result E A) (f : A → Action S E B) (s : S)
      → P s
      → ((a : A) → P s → P (f a s).1)
      → P (after_result f r s).1
  after_keeps (ok a) f s p h = h a p
  after_keeps (err e) f s p h = p

  -- A chain keeps what its first action and the rest behind it keep.
  pub bind_keeps :
      (m : Action S E A) (f : A → Action S E B) (s : S)
      → P (m s).1
      → ((a : A) → P (m s).1 → P (f a (m s).1).1)
      → P ((m >>= f) s).1
  bind_keeps m f s = after_keeps (m s).0 f (m s).1

module _ {S E A B : Type 0} (P : S → Type 0) where
  after_ok_keeps :
      (r : Result E A) (f : A → Action S E B) (s : S)
      → P s
      → ((a : A) → r ≡ ok a → P (f a s).1)
      → P (after_result f r s).1
  after_ok_keeps (ok a) f s p h = h a refl
  after_ok_keeps (err e) f s p h = p

  -- The same, where the rest counts on the result of the first action.
  pub bind_ok_keeps :
      (m : Action S E A) (f : A → Action S E B) (s : S)
      → P (m s).1
      → ((a : A) → (m s).0 ≡ ok a → P (f a (m s).1).1)
      → P ((m >>= f) s).1
  bind_ok_keeps m f s = after_ok_keeps (m s).0 f (m s).1

module _ {S E : Type 0} (P : S → Type 0) where
  pub reject_if_keeps : (c : Bool) (e : E) (s : S) → P s → P (reject_if c e s).1
  reject_if_keeps true e s p = p
  reject_if_keeps false e s p = p

module _ {S E A B : Type 0} where
  after_ok :
      (r : Result E A) (f : A → Action S E B) (s : S) {b : B}
      → (after_result f r s).0 ≡ ok b
      → (a : A) × (r ≡ ok a) × (after_result f r s ≡ f a s)
  after_ok (ok a) f s h = (a, refl, refl)
  after_ok (err e) f s h = cc

  -- Both parts of a chain that ends well have ended well.
  pub bind_ok :
      (m : Action S E A) (f : A → Action S E B) (s : S) {b : B}
      → ((m >>= f) s).0 ≡ ok b
      → (a : A) × ((m s).0 ≡ ok a) × ((m >>= f) s ≡ f a (m s).1)
  bind_ok m f s h = after_ok (m s).0 f (m s).1 h

-- A test that was passed.
pub reject_if_ok :
    {S E : Type 0} (c : Bool) (e : E) (s : S) {u : Unit {0}}
    → (reject_if c e s).0 ≡ ok u
    → (c ≡ false) × (reject_if c e s ≡ (ok tt, s))
reject_if_ok true e s h = cc
reject_if_ok false e s h = (refl, refl)

-- `if !c { return err }` in front of a chain that ends well.
pub require_ok :
    {S E A : Type 0} (c : Bool) (e : E) (m : Action S E A) (s : S) {a : A}
    → ((reject_if (not c) e >> m) s).0 ≡ ok a
    → (c ≡ true) × ((reject_if (not c) e >> m) s ≡ m s)
require_ok true e m s h = (refl, refl)
require_ok false e m s h = cc
