-- ===== src/Platform/Modules/Order.antt =====
-- The depth-first walk over the modules: it ends, what it accepts has an order in which every module
-- comes after its dependencies, and what it refuses as circular has a cycle.
use sozan.Common.{
  ℕ, zero, suc, ◌≤◌, ◌<◌, ◌≡◌, refl, sym, ap, inl, inr, Bool-cases, String, true, false, not, List,
  [], ◌∷◌, select, includes, length, length-select, All, All-mp, arith, eq_iff, str_eq, str_eq-flip,
  without-fresh,
}
use text.Mathlib.TextPositions.{eq_refl}
use sozan.Platform.Modules.{
  ModuleDefinition, circular_dependency, Outcome, done, failed, exhausted, ◌>>=◌, keys_of,
  dependencies_of, Walk, without, each, entered, left, visit,
}

module _ (modules : List ModuleDefinition) where
  -- A chain of dependencies leads from the first key to the second.
  pub data Reaches : String → String → Type 0 where
    direct : (a b : String) → includes b (dependencies_of modules a) ≡ true → Reaches a b
    onward :
        (a b c : String) → Reaches a b → includes c (dependencies_of modules b) ≡ true → Reaches a c

  -- Every key stands before its dependencies.
  abbrev pub IsTopological : List String → Type 0
  IsTopological [] = Unit {0}
  IsTopological (k ∷ ks) =
      All (λ d. includes d ks ≡ true) (dependencies_of modules k) × IsTopological ks

  -- The keys that are being visited lead to this key.
  abbrev pub IsChain : String → List String → Type 0
  IsChain key [] = Unit {0}
  IsChain key (v ∷ vs) = (includes key (dependencies_of modules v) ≡ true) × IsChain v vs

  abbrev pub Ends : (Walk → Type 0) → Outcome Walk → Type 0
  Ends P (done w) = P w
  Ends P (failed (circular_dependency k)) = Reaches k k
  Ends P _ = ⊥

  Ends-bind :
      (P Q : Walk → Type 0) (m : Outcome Walk) (f : Walk → Outcome Walk)
      → Ends P m
      → ((w : Walk) → P w → Ends Q (f w))
      → Ends Q (m >>= f)
  Ends-bind P Q (done w) f h k = k w h
  Ends-bind P Q (failed (circular_dependency c)) f h k = h
  Ends-bind P Q (failed _) f h k = elim h [ ]
  Ends-bind P Q exhausted f h k = elim h [ ]

  pub Ends-mp :
      (P Q : Walk → Type 0) (m : Outcome Walk) → Ends P m → ((w : Walk) → P w → Q w) → Ends Q m
  Ends-mp P Q (done w) h k = k w h
  Ends-mp P Q (failed (circular_dependency c)) h k = h
  Ends-mp P Q (failed _) h k = elim h [ ]
  Ends-mp P Q exhausted h k = elim h [ ]

  chain-Reaches :
      (x key : String) (vs : List String) → IsChain key vs → includes x vs ≡ true → Reaches x key
  unfolding includes
  chain-Reaches x key [] c h = cc
  chain-Reaches x key (v ∷ vs) c h = elim (Bool-cases (str_eq v x)) [
    | inl same ↦ let e : v ≡ x = ground (arith, eq_iff v x) in direct x key (rw e at c.0)
    | inr other ↦ onward x v key (chain-Reaches x v vs c.1 (rw other at h)) c.0
  ]

  -- What a part of the walk keeps and adds.
  pub record After (vs old : List String) (w : Walk) : Type 0 where
    pub same : w.visiting ≡ vs
    pub ordered : IsTopological w.visited
    pub grown : (k : String) → includes k old ≡ true → includes k w.visited ≡ true

  abbrev pub IsKey : String → Type 0
  IsKey k = includes k (keys_of modules) ≡ true

  abbrev pub Visits : (String → Walk → Outcome Walk) → List String → Type 0
  Visits v vs =
      (key : String) (w : Walk)
      → w.visiting ≡ vs
      → IsKey key
      → IsChain key vs
      → IsTopological w.visited
      → Ends (λ after. After vs w.visited after × (includes key after.visited ≡ true)) (v key w)

  pub each-Ends :
      (v : String → Walk → Outcome Walk) (vs : List String)
      → Visits v vs
      → (ks : List String) (w : Walk) → w.visiting ≡ vs
      → All IsKey ks
      → All (λ k. IsChain k vs) ks
      → IsTopological w.visited
      → Ends
          (λ after. After vs w.visited after × All (λ k. includes k after.visited ≡ true) ks)
          (each v ks w)
  unfolding each
  each-Ends v vs h [] w e keys chains t = (record { same = e; ordered = t; grown = λ k i. i }, tt)
  each-Ends v vs h (k ∷ ks) w e keys chains t =
      Ends-bind _ _ (v k w) (each v ks) (h k w e keys.0 chains.0 t) (λ w1 a.
        Ends-mp _ _ (each v ks w1) (each-Ends v vs h ks w1 a.0.same keys.1 chains.1 a.0.ordered)
          (λ w2 b. (
            record {
              same = b.0.same;
              ordered = b.0.ordered;
              grown = λ x i. b.0.grown x (a.0.grown x i);
            },
            (b.0.grown k a.1, b.1),
          )))

  -- The modules that are not being visited.
  abbrev pub free : List String → List String → List String
  free keys vs = select (λ k. not (includes k vs)) keys

  free_le :
      (keys : List String) (key : String) (vs : List String)
      → length (free keys (key ∷ vs)) ≤ length (free keys vs)
  unfolding select includes
  free_le [] key vs = omega arith
  free_le (k ∷ ks) key vs = elim (Bool-cases (includes k vs)) [
    | inl here ↦ elim (Bool-cases (str_eq key k)) [
      | inl same ↦ rw (here, same) (free_le ks key vs)
      | inr other ↦ rw (here, other) (free_le ks key vs)
    ]
    | inr gone ↦ elim (Bool-cases (str_eq key k)) [
      | inl same ↦ rw (gone, same) (omega (arith, free_le ks key vs))
      | inr other ↦ rw (gone, other) (omega (arith, free_le ks key vs))
    ]
  ]

  free_lt :
      (keys : List String) (key : String) (vs : List String)
      → includes key keys ≡ true
      → includes key vs ≡ false
      → length (free keys (key ∷ vs)) < length (free keys vs)
  unfolding select includes
  free_lt [] key vs i n = cc
  free_lt (k ∷ ks) key vs i n = elim (Bool-cases (str_eq key k)) [
    | inl same ↦
        let e : key ≡ k = ground (arith, eq_iff key k) in
        let gone : includes k vs ≡ false = rw (sym e) n in
        rw (gone, same) (omega (arith, free_le ks key vs))
    | inr other ↦
        let rest = free_lt ks key vs (rw (str_eq-flip key k other) at i) n in
        elim (Bool-cases (includes k vs)) [
          | inl here ↦ rw (here, other) rest
          | inr gone ↦ rw (gone, other) (omega (arith, rest))
        ]
  ]

  without_head :
      (key : String) (vs : List String) → includes key vs ≡ false → without key (key ∷ vs) ≡ vs
  unfolding without select
  without_head key vs n = rw (eq_refl key, without-fresh key vs n)

  pub includes_all : (ks : List String) → All (λ k. includes k ks ≡ true) ks
  unfolding includes
  includes_all [] = tt
  includes_all (k ∷ ks) = (rw (eq_refl k), All-mp ks (λ x i. rw i (ground arith)) (includes_all ks))

  leaves :
      (key : String) (vs old : List String) (w : Walk)
      → includes key vs ≡ false
      → After (key ∷ vs) old w
        × All (λ d. includes d w.visited ≡ true) (dependencies_of modules key)
      → After vs old (left key w) × (includes key (left key w).visited ≡ true)
  unfolding includes
  leaves key vs old w n (a, ds) = (
    record {
      same = rw a.same (without_head key vs n);
      ordered = (ds, a.ordered);
      grown = λ k i. rw (a.grown k i) (ground arith);
    },
    rw (eq_refl key),
  )

  module _ (closed : (k : String) → All IsKey (dependencies_of modules k)) where
    pub visit-Ends :
        (depth : ℕ) (vs : List String)
        → length (free (keys_of modules) vs) < depth
        → Visits (visit modules depth) vs
    unfolding visit
    visit-Ends zero vs lt key w e i c t = omega arith
    visit-Ends (suc depth) vs lt key w e i c t = elim (Bool-cases (includes key w.visited)) [
      | inl seen ↦ rw seen (record { same = e; ordered = t; grown = λ x h. h }, seen)
      | inr new ↦ elim (Bool-cases (includes key w.visiting)) [
        | inl circular ↦ rw (new, circular) (chain-Reaches key key vs c (rw e at circular))
        | inr fresh ↦
            let out : includes key vs ≡ false = rw e at fresh in
            rw (new, fresh)
              (Ends-bind _ (λ after. After vs w.visited after × (includes key after.visited ≡ true))
                _ _
                (each-Ends (visit modules depth) (key ∷ vs)
                  (visit-Ends depth (key ∷ vs)
                    (omega (arith, free_lt (keys_of modules) key vs i out)))
                  (dependencies_of modules key) (entered key w) (ap (λ x. key ∷ x) e) (closed key)
                  (All-mp (dependencies_of modules key) (λ d j. (j, c))
                    (includes_all (dependencies_of modules key)))
                  t)
                (λ after a. leaves key vs w.visited after out a))
      ]
    ]

pub free_all : (keys : List String) → length (free [] keys []) ≤ length keys
free_all keys = length-select _ keys

pub length-keys : (modules : List ModuleDefinition) → length (keys_of modules) ≡ length modules
length-keys [] = refl
length-keys (m ∷ ms) = ap suc (length-keys ms)
