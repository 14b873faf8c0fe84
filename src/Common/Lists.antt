-- ===== src/Common/Lists.antt =====
-- Lists over the native numbers, with the array methods that the source calls.
use Prim.Native.Nat.{ℕ, suc, ◌+◌, ◌≤◌}
use Prim.Native.String.{String}
use mathlib.Core.Path.{◌≡◌, refl}
use mathlib.Core.Bool.{Bool, true, false, not, ◌&&◌, ◌||◌}
use mathlib.Core.Option.{Option, none, some}
use mathlib.Core.List.{List, [], ◌∷◌, ◌++◌, map}
use mathlib.Core.Logic.{inl, inr}
use native.Mathlib.Omega.{arith}
use text.Mathlib.TextEquality.{eq_iff}
use text.Mathlib.TextPositions.{eq_refl}
use sozan.Common.Tests.{if◌then◌else◌, str_eq, Bool-cases, or_else}

abbrev pub with_some {ℓ} : {A : Type ℓ} → Option A → List A → List A
with_some none xs = xs
with_some (some x) xs = x ∷ xs

module _ {ℓ} {A : Type ℓ} where
  abbrev pub length : List A → ℕ
  length [] = 0
  length (x ∷ xs) = suc (length xs)

  -- `xs.filter(p)`
  unfoldable pub select : (A → Bool) → List A → List A
  select p [] = []
  select p (x ∷ xs) = let rest = select p xs in if p x then x ∷ rest else rest

  -- `xs.find(p)`
  unfoldable pub find_first : (A → Bool) → List A → Option A
  find_first p [] = none
  find_first p (x ∷ xs) = let rest = find_first p xs in if p x then some x else rest

  -- The first value that `f` gives.
  unfoldable pub first_some {κ} : {B : Type κ} → (A → Option B) → List A → Option B
  first_some f [] = none
  first_some f (x ∷ xs) = or_else (f x) (first_some f xs)

  -- The values that `f` gives, in order.
  unfoldable pub filter_map {κ} : {B : Type κ} → (A → Option B) → List A → List B
  filter_map f [] = []
  filter_map f (x ∷ xs) = with_some (f x) (filter_map f xs)

  -- `xs.some(p)`
  unfoldable pub some_of : (A → Bool) → List A → Bool
  some_of p [] = false
  some_of p (x ∷ xs) = p x || some_of p xs

  -- `xs.every(p)`
  unfoldable pub every : (A → Bool) → List A → Bool
  every p [] = true
  every p (x ∷ xs) = p x && every p xs

  -- The sum of `f` over a list.
  abbrev pub sum_by : (A → ℕ) → List A → ℕ
  sum_by f [] = 0
  sum_by f (x ∷ xs) = f x + sum_by f xs

  -- Every element has the property.
  abbrev pub All {κ} : (A → Type κ) → List A → Type κ
  All P [] = Unit
  All P (x ∷ xs) = P x × All P xs

module _ {ℓ} {A : Type ℓ} where
  pub length-append : (xs ys : List A) → length (xs ++ ys) ≡ length xs + length ys
  length-append [] ys = omega arith
  length-append (x ∷ xs) ys = omega (arith, length-append xs ys)

  pub sum_by-append : (f : A → ℕ) (xs ys : List A) → sum_by f (xs ++ ys) ≡ sum_by f xs + sum_by f ys
  sum_by-append f [] ys = omega arith
  sum_by-append f (x ∷ xs) ys = omega (arith, sum_by-append f xs ys)

  pub length-select : (p : A → Bool) (xs : List A) → length (select p xs) ≤ length xs
  unfolding select
  length-select p [] = omega arith
  length-select p (x ∷ xs) = ground (arith, length-select p xs)

-- What every element has.
module _ {ℓ κ} {A : Type ℓ} where
  pub All-map :
      {P : A → Type κ} (Q : A → Type κ) (f : A → A) (xs : List A)
      → ((x : A) → P x → Q (f x))
      → All P xs
      → All Q (map f xs)
  All-map Q f [] k h = tt
  All-map Q f (x ∷ xs) k h = (k x h.0, All-map Q f xs k h.1)

  pub All-every : {P : A → Type κ} (xs : List A) → ((x : A) → P x) → All P xs
  All-every [] k = tt
  All-every (x ∷ xs) k = (k x, All-every xs k)

  pub All-mp : {P Q : A → Type κ} (xs : List A) → ((x : A) → P x → Q x) → All P xs → All Q xs
  All-mp [] k h = tt
  All-mp (x ∷ xs) k h = (k x h.0, All-mp xs k h.1)

  pub All-both :
      {P Q R : A → Type κ} (xs : List A)
      → ((x : A) → P x → Q x → R x)
      → All P xs
      → All Q xs
      → All R xs
  All-both [] k p q = tt
  All-both (x ∷ xs) k p q = (k x p.0 q.0, All-both xs k p.1 q.1)

  pub All-select : (P : A → Type κ) (p : A → Bool) (xs : List A) → All P xs → All P (select p xs)
  unfolding select
  All-select P p [] h = tt
  All-select P p (x ∷ xs) h = elim (Bool-cases (p x)) [
    | inl kept ↦ rw kept (h.0, All-select P p xs h.1)
    | inr left ↦ rw left (All-select P p xs h.1)
  ]

pub str_eq-flip : (a b : String) → str_eq a b ≡ false → str_eq b a ≡ false
str_eq-flip a b h = elim (Bool-cases (str_eq b a)) [
  | inr e ↦ e
  | inl e ↦
      let p : b ≡ a = ground (arith, eq_iff b a) in
      let t : str_eq a b ≡ true = rw p (eq_refl a) in cc
]

-- What was selected meets the test.
pub select-All {ℓ} : {A : Type ℓ} (p : A → Bool) (xs : List A) → All (λ x. p x ≡ true) (select p xs)
unfolding select
select-All p [] = tt
select-All p (x ∷ xs) = elim (Bool-cases (p x)) [
  | inl e ↦ rw e (e, select-All p xs)
  | inr e ↦ rw e (select-All p xs)
]

-- `xs.includes(x)` on texts.
unfoldable pub includes : String → List String → Bool
includes x [] = false
includes x (y ∷ ys) = str_eq y x || includes x ys

pub without-fresh :
    (x : String) (xs : List String) → includes x xs ≡ false → select (λ y. not (str_eq y x)) xs ≡ xs
unfolding includes select
without-fresh x [] h = refl
without-fresh x (y ∷ ys) h = elim (Bool-cases (str_eq y x)) [
  | inl same ↦ cc (rw same at h)
  | inr other ↦ rw (other, without-fresh x ys (rw other at h))
]
