-- ===== src/Common/Exec/Keeps.antt =====
-- Methods that keep a property of the store, also where they throw.
use mathlib.Core.Bool.{Bool, true, false}
use sozan.Common.Tests.{if◌then◌else◌}
use sozan.Common.Exec.{Exec, ◌>>=◌, bind_keeps}

abbrev pub Keeps {κ} : {S A : Type 0} → (S → Type κ) → Exec S A → Type κ
Keeps {S} P m = (s : S) → P s → P (m s).1

module _ {κ} {S A B : Type 0} (P : S → Type κ) where
  pub bind-Keeps :
      (m : Exec S A) (f : A → Exec S B) → Keeps P m → ((a : A) → Keeps P (f a)) → Keeps P (m >>= f)
  bind-Keeps m f k l s h = bind_keeps P m f s (k s h) (λ a _. l a (m s).1 (k s h))

module _ {κ} {S A : Type 0} (P : S → Type κ) where
  pub if-Keeps : (b : Bool) (m n : Exec S A) → Keeps P m → Keeps P n → Keeps P (if b then m else n)
  if-Keeps true m n k l = k
  if-Keeps false m n k l = l
