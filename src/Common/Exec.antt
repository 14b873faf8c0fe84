-- ===== src/Common/Exec.antt =====
-- Methods that change a store and may throw. What was written before a throw stays written, so
-- the store comes back beside the error too.
pub mod Keeps
use mathlib.Core.Path.{◌≡◌, refl}
use mathlib.Core.Bool.{Bool}
use mathlib.Core.Option.{Option, none, some}
use sozan.Common.Results.{Error, Result, ok, err}
use sozan.Common.Tests.{if◌then◌else◌}

abbrev pub Exec {ℓ} : Type ℓ → Type ℓ → Type ℓ
Exec S A = S → Result A × S

module _ {ℓ} {S A : Type ℓ} where
  abbrev pub pure : A → Exec S A
  pure a s = (ok a, s)

  abbrev pub throw : Error → Exec S A
  throw e s = (err e, s)

  -- A pure function that may throw.
  abbrev pub lift : Result A → Exec S A
  lift r s = (r, s)

  -- A query.
  abbrev pub gets : (S → A) → Exec S A
  gets f s = (ok (f s), s)

module _ {ℓ} {S A B : Type ℓ} where
  abbrev pub continue : Result A → (A → Exec S B) → Exec S B
  continue (ok a) f s = f a s
  continue (err e) f s = (err e, s)

  infixl 5 ◌>>=◌ ◌>>◌
  abbrev pub ◌>>=◌ : Exec S A → (A → Exec S B) → Exec S B
  ◌>>=◌ m f s = continue (m s).0 f (m s).1

  abbrev pub ◌>>◌ : Exec S A → Exec S B → Exec S B
  m >> n = m >>= λ _. n

module _ {S : Type 0} where
  -- `if (bad) throw new Error(e);`
  abbrev pub throw_when : Bool → Error → Exec S (Unit {0})
  throw_when b e s = (if b then err e else ok tt, s)

  abbrev pub modify : (S → S) → Exec S (Unit {0})
  modify f s = (ok tt, f s)

-- `try { ... } catch (error) { ... }` that handles some errors and throws the others on.
abbrev pub handled {ℓ} : {A : Type ℓ} → (Error → Bool) → Result A → Result (Option A)
handled handles (ok a) = ok (some a)
handled handles (err e) = if handles e then ok none else err e

module _ {S A : Type 0} where
  abbrev pub catching : (Error → Bool) → Exec S A → Exec S (Option A)
  catching handles m s = (handled handles (m s).0, (m s).1)

-- What holds after the first part of a chain, and is kept by the second part, holds at its end.
module _ {ℓ κ} {S A B : Type ℓ} (P : S → Type κ) where
  continue_keeps :
      (r : Result A) (f : A → Exec S B) (s : S)
      → P s
      → ((a : A) → r ≡ ok a → P (f a s).1)
      → P (continue r f s).1
  continue_keeps (ok a) f s h k = k a refl
  continue_keeps (err e) f s h k = h

  pub bind_keeps :
      (m : Exec S A) (f : A → Exec S B) (s : S)
      → P (m s).1
      → ((a : A) → (m s).0 ≡ ok a → P (f a (m s).1).1)
      → P ((m >>= f) s).1
  bind_keeps m f s h k = continue_keeps (m s).0 f (m s).1 h k

-- The parts of a chain that returned.
module _ {ℓ} {S A B : Type ℓ} where
  continue-ok :
      (r : Result A) (f : A → Exec S B) (s : S) {b : B}
      → (continue r f s).0 ≡ ok b
      → (a : A) × (r ≡ ok a) × ((f a s).0 ≡ ok b)
  continue-ok (ok a) f s h = (a, refl, h)
  continue-ok (err e) f s h = cc

  pub bind-ok :
      (m : Exec S A) (f : A → Exec S B) (s : S) {b : B}
      → ((m >>= f) s).0 ≡ ok b
      → (a : A) × ((m s).0 ≡ ok a) × ((f a (m s).1).0 ≡ ok b)
  bind-ok m f s h = continue-ok (m s).0 f (m s).1 h
