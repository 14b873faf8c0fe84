-- ===== src/Common/Members.antt =====
-- What the members of a list have, and the members that a test or a search gives.
use mathlib.Core.List.{Memᴰ}
use sozan.Common.Tests.{Bool-cases}
use sozan.Common.Lists.{All, select, find_first}
use mathlib.Core.Path.{◌≡◌, refl, sym}
use mathlib.Core.Logic.{inl, inr}
use mathlib.Core.Bool.{Bool, true}
use mathlib.Core.Option.{some}
use mathlib.Core.List.{List, [], ◌∷◌}

pub All-Mem : {A : Type 0} (P : A → Type 0) (x : A) (xs : List A) → All P xs → Memᴰ x xs → P x
All-Mem P x [] h m = elim m [ ]
All-Mem P x (y ∷ ys) h (Memᴰ.head e) = rw e h.0
All-Mem P x (y ∷ ys) h (Memᴰ.tail m) = All-Mem P x ys h.1 m

pub Mem-All : {A : Type 0} (P : A → Type 0) (xs : List A) → ((x : A) → Memᴰ x xs → P x) → All P xs
Mem-All P [] h = tt
Mem-All P (x ∷ xs) h = (h x (Memᴰ.head refl), Mem-All P xs (λ y m. h y (Memᴰ.tail m)))

-- What a search finds is a member that meets the test.
pub found-stored :
    {A : Type 0} (p : A → Bool) (x : A) (xs : List A)
    → find_first p xs ≡ some x
    → Memᴰ x xs × (p x ≡ true)
unfolding find_first
found-stored p x [] h = cc
found-stored p x (y ∷ ys) h = elim (Bool-cases (p y)) [
  | inl e ↦ let same : y ≡ x = cc (rw e at h) in (Memᴰ.head (sym same), rw (← same) e)
  | inr e ↦ let r = found-stored p x ys (rw e at h) in (Memᴰ.tail r.0, r.1)
]

-- A member that meets the test is selected.
pub mem-select :
    {A : Type 0} (p : A → Bool) (x : A) (xs : List A)
    → p x ≡ true
    → Memᴰ x xs
    → Memᴰ x (select p xs)
unfolding select
mem-select p x [] h m = elim m [ ]
mem-select p x (y ∷ ys) h (Memᴰ.head e) = rw (← e, h) (Memᴰ.head refl)
mem-select p x (y ∷ ys) h (Memᴰ.tail m) = elim (Bool-cases (p y)) [
  | inl kept ↦ rw kept (Memᴰ.tail (mem-select p x ys h m))
  | inr left ↦ rw left (mem-select p x ys h m)
]

-- What is selected is a member and meets the test.
pub select-Mem :
    {A : Type 0} (p : A → Bool) (xs ys : List A)
    → ((x : A) → Memᴰ x xs → Memᴰ x ys)
    → All (λ x. Memᴰ x ys × (p x ≡ true)) (select p xs)
unfolding select
select-Mem p [] ys h = tt
select-Mem p (x ∷ xs) ys h = elim (Bool-cases (p x)) [
  | inl e ↦ rw e ((h x (Memᴰ.head refl), e), select-Mem p xs ys (λ z m. h z (Memᴰ.tail m)))
  | inr e ↦ rw e (select-Mem p xs ys (λ z m. h z (Memᴰ.tail m)))
]
