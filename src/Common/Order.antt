-- ===== src/Common/Order.antt =====
-- Comparison functions, and the stable sort that `Array.prototype.sort` makes with one.
use Prim.Native.Nat.{ℕ, Ordering}
use Prim.Native.String.{String}
use mathlib.Core.Path.{◌≡◌, refl, ap, ◌∙◌}
use mathlib.Core.Logic.{inl, inr}
use mathlib.Core.Bool.{Bool, true, false, ◌||◌}
use mathlib.Core.List.{List, [], ◌∷◌, Perm, Memᴰ}
use mathlib.Core.List.Perm
use native.Mathlib.Omega.{arith}
use sozan.Common.Tests.{if◌then◌else◌, Bool-cases, ltb}
use sozan.Common.Lists.{All, some_of}

-- `a || b` on the results of comparators.
abbrev pub then_by : Ordering → Ordering → Ordering
then_by Ordering.lt o = Ordering.lt
then_by Ordering.eq o = o
then_by Ordering.gt o = Ordering.gt

abbrev pub is_gt : Ordering → Bool
is_gt Ordering.gt = true
is_gt _ = false

abbrev pub flip : Ordering → Ordering
flip Ordering.lt = Ordering.gt
flip Ordering.eq = Ordering.eq
flip Ordering.gt = Ordering.lt

-- `String.prototype.localeCompare`: the order of texts depends on the locale of the host, so it is
-- a parameter. Its documentation promises a consistent order: comparing the other way round gives
-- the other sign, and being at most is transitive.
pub record Collation : Type 0 where
  pub locale_compare : String → String → Ordering
  pub compare_flip : (a b : String) → locale_compare b a ≡ flip (locale_compare a b)
  pub compare_trans :
      (a b c : String)
      → is_gt (locale_compare a b) ≡ false
      → is_gt (locale_compare b c) ≡ false
      → is_gt (locale_compare a c) ≡ false

module _ {ℓ} {A : Type ℓ} (cmp : A → A → Ordering) where
  insert_sorted : A → List A → List A
  insert_sorted x [] = x ∷ []
  insert_sorted x (y ∷ ys) =
      let rest = insert_sorted x ys in if is_gt (cmp x y) then y ∷ rest else x ∷ y ∷ ys

  -- `xs.sort(cmp)`; equal elements keep their order.
  unfoldable pub sort : List A → List A
  unfolding insert_sorted
  sort [] = []
  sort (x ∷ xs) = insert_sorted x (sort xs)

  -- No element stands before one that it compares greater than.
  abbrev pub IsSorted : List A → Type 0
  IsSorted [] = Unit
  IsSorted (x ∷ xs) = All (λ y. is_gt (cmp x y) ≡ false) xs × IsSorted xs

module _ {ℓ} {A : Type ℓ} (cmp : A → A → Ordering) where
  insert_sorted-perm : (x : A) (ys : List A) → Perm (insert_sorted cmp x ys) (x ∷ ys)
  unfolding insert_sorted
  insert_sorted-perm x [] = Perm.refl _
  insert_sorted-perm x (y ∷ ys) = elim (Bool-cases (is_gt (cmp x y))) [
    | inl g ↦ rw g (Perm.trans (Perm.cons y (insert_sorted-perm x ys)) (Perm.swap _ _ _))
    | inr g ↦ rw g (Perm.refl _)
  ]

  -- Sorting loses nothing and adds nothing.
  pub sort-perm : (xs : List A) → Perm (sort cmp xs) xs
  unfolding sort
  sort-perm [] = Perm.refl _
  sort-perm (x ∷ xs) = Perm.trans (insert_sorted-perm x (sort cmp xs)) (Perm.cons x (sort-perm xs))

  All-insert_sorted {κ} :
      (P : A → Type κ) (x : A) (ys : List A) → P x → All P ys → All P (insert_sorted cmp x ys)
  unfolding insert_sorted
  All-insert_sorted P x [] h t = (h, tt)
  All-insert_sorted P x (y ∷ ys) h t = elim (Bool-cases (is_gt (cmp x y))) [
    | inl g ↦ rw g (t.0, All-insert_sorted P x ys h t.1)
    | inr g ↦ rw g (h, t)
  ]

  -- What holds of every element holds of every element of the sorted list.
  pub All-sort {κ} : (P : A → Type κ) (xs : List A) → All P xs → All P (sort cmp xs)
  unfolding sort
  All-sort P [] h = tt
  All-sort P (x ∷ xs) h = All-insert_sorted P x (sort cmp xs) h.0 (All-sort P xs h.1)

module _ {ℓ} {A : Type ℓ} (cmp : A → A → Ordering) where
  mem-later :
      (x y z : A) (zs rest : List A)
      → (Memᴰ y (x ∷ zs) → Memᴰ y rest)
      → Memᴰ y (x ∷ z ∷ zs)
      → Memᴰ y (z ∷ rest)
  mem-later x y z zs rest k (Memᴰ.head e) = Memᴰ.tail (k (Memᴰ.head e))
  mem-later x y z zs rest k (Memᴰ.tail (Memᴰ.head e)) = Memᴰ.head e
  mem-later x y z zs rest k (Memᴰ.tail (Memᴰ.tail m)) = Memᴰ.tail (k (Memᴰ.tail m))

  mem-insert_sorted : (x y : A) (ys : List A) → Memᴰ y (x ∷ ys) → Memᴰ y (insert_sorted cmp x ys)
  unfolding insert_sorted
  mem-insert_sorted x y [] m = m
  mem-insert_sorted x y (z ∷ zs) m = elim (Bool-cases (is_gt (cmp x z))) [
    | inr g ↦ rw g m
    | inl g ↦ rw g (mem-later x y z zs _ (mem-insert_sorted x y zs) m)
  ]

  -- The sorted list has the elements of the list.
  pub mem-sort : (y : A) (xs : List A) → Memᴰ y xs → Memᴰ y (sort cmp xs)
  unfolding sort
  mem-sort y [] m = elim m [ ]
  mem-sort y (x ∷ xs) (Memᴰ.head e) = mem-insert_sorted x y (sort cmp xs) (Memᴰ.head e)
  mem-sort y (x ∷ xs) (Memᴰ.tail m) =
      mem-insert_sorted x y (sort cmp xs) (Memᴰ.tail (mem-sort y xs m))

module _ {ℓ} {A : Type ℓ} (cmp : A → A → Ordering) (p : A → Bool) where
  some_of-insert_sorted :
      (x : A) (ys : List A) → some_of p (insert_sorted cmp x ys) ≡ (p x || some_of p ys)
  unfolding insert_sorted some_of
  some_of-insert_sorted x [] = refl
  some_of-insert_sorted x (y ∷ ys) = elim (Bool-cases (is_gt (cmp x y))) [
    | inl g ↦ rw (g, some_of-insert_sorted x ys) (ground arith)
    | inr g ↦ rw g
  ]

  -- Sorting loses no element that meets a test, and adds none.
  pub some_of-sort : (xs : List A) → some_of p (sort cmp xs) ≡ some_of p xs
  unfolding sort some_of
  some_of-sort [] = refl
  some_of-sort (x ∷ xs) =
      some_of-insert_sorted x (sort cmp xs) ∙ ap (λ rest. p x || rest) (some_of-sort xs)

-- A comparator whose sign turns with its arguments, and whose "at most" is transitive.
pub record IsPreorder {ℓ} {A : Type ℓ} (cmp : A → A → Ordering) : Type ℓ where
  pub turns : (a b : A) → cmp b a ≡ flip (cmp a b)
  pub trans :
      (a b c : A) → is_gt (cmp a b) ≡ false → is_gt (cmp b c) ≡ false → is_gt (cmp a c) ≡ false

-- Comparing by one key after the other keeps this.
pub then_by-IsPreorder {ℓ} :
    {A : Type ℓ} (f g : A → A → Ordering)
    → IsPreorder f
    → IsPreorder g
    → IsPreorder (λ a b. then_by (f a b) (g a b))
then_by-IsPreorder f g of og = record {
  turns = λ a b. rw (of.turns a b, og.turns a b) (ground arith);
  trans = λ a b c h k. ground (
    arith,
    of.trans a b c,
    of.trans b c a,
    of.trans c a b,
    of.turns a b,
    of.turns b c,
    of.turns a c,
    og.trans a b c,
  );
}

-- `a - b` as the result of a comparator.
abbrev pub compare_numbers : ℕ → ℕ → Ordering
compare_numbers a b = if ltb a b then Ordering.lt else if ltb b a then Ordering.gt else Ordering.eq

-- Numbers taken from a record are a preorder.
pub number_key-IsPreorder {ℓ} :
    {A : Type ℓ} (key : A → ℕ) → IsPreorder (λ a b. compare_numbers (key a) (key b))
number_key-IsPreorder key = record {
  turns = λ a b. ground arith;
  trans = λ a b c h k. ground arith;
}

-- Texts taken from a record compare as the collation says.
pub key-IsPreorder {ℓ} :
    {A : Type ℓ} (c : Collation) (key : A → String)
    → IsPreorder (λ a b. c.locale_compare (key a) (key b))
key-IsPreorder c key = record {
  turns = λ a b. c.compare_flip (key a) (key b);
  trans = λ a b d. c.compare_trans (key a) (key b) (key d);
}

module _ {ℓ} {A : Type ℓ} (cmp : A → A → Ordering) (o : IsPreorder cmp) where
  All-trans :
      (x y : A) (ys : List A)
      → is_gt (cmp x y) ≡ false
      → All (λ z. is_gt (cmp y z) ≡ false) ys
      → All (λ z. is_gt (cmp x z) ≡ false) ys
  All-trans x y [] h t = tt
  All-trans x y (z ∷ zs) h t = (o.trans x y z h t.0, All-trans x y zs h t.1)

  insert_sorted-IsSorted :
      (x : A) (ys : List A) → IsSorted cmp ys → IsSorted cmp (insert_sorted cmp x ys)
  unfolding insert_sorted
  insert_sorted-IsSorted x [] h = (tt, tt)
  insert_sorted-IsSorted x (y ∷ ys) h = elim (Bool-cases (is_gt (cmp x y))) [
    | inl g ↦ rw g (
      All-insert_sorted cmp (λ z. is_gt (cmp y z) ≡ false) x ys (ground (arith, o.turns x y)) h.0,
      insert_sorted-IsSorted x ys h.1,
    )
    | inr g ↦ rw g ((g, All-trans x y ys g h.0), h)
  ]

  -- The result of a sort is in order.
  pub sort-IsSorted : (xs : List A) → IsSorted cmp (sort cmp xs)
  unfolding sort
  sort-IsSorted [] = tt
  sort-IsSorted (x ∷ xs) = insert_sorted-IsSorted x (sort cmp xs) (sort-IsSorted xs)
