-- ===== src/Platform/Modules/Validated.antt =====
-- The validation of the modules as a whole: what it accepts, what it refuses, and that it ends.
use sozan.Common.{
  ◌+◌, ◌≡◌, ◌≢◌, refl, inl, inr, Bool-cases, String, Bool, true, false, List, [], ◌∷◌, find_first,
  includes, length, All, arith, if◌then◌else◌,
}
use mathlib.Core.Path.{subst}
use sozan.Platform.Modules.{
  ModuleDefinition, GraphError, duplicate_module_key, duplicate_capabilities, circular_dependency,
  Outcome, done, failed, exhausted, ◌>>=◌, ◌>>◌, keys_of, has_duplicates, dependencies_in,
  dependencies_of, check_dependencies, check_module, check_modules, Walk, visit, walk_modules,
  validate_module_graph,
}
use sozan.Platform.Modules.Order.{
  Reaches, IsTopological, Ends, Ends-mp, each-Ends, visit-Ends, includes_all, free_all, length-keys,
}

-- What the checks before the walk found out.
closed_list :
    (modules : List ModuleDefinition) (key : String) (ds : List String)
    → check_dependencies modules key ds ≡ done tt
    → All (λ d. includes d (keys_of modules) ≡ true) ds
unfolding check_dependencies
closed_list modules key [] h = tt
closed_list modules key (d ∷ ds) h = elim (Bool-cases (includes d (keys_of modules))) [
  | inl here ↦ (here, closed_list modules key ds (rw here at h))
  | inr gone ↦ cc (rw gone at h)
]

bind_done :
    {A B : Type 0} (m : Outcome A) (f : A → Outcome B) {b : B}
    → (m >>= f) ≡ done b
    → (a : A) × (m ≡ done a) × (f a ≡ done b)
bind_done (done a) f h = (a, refl, h)
bind_done (failed e) f h = cc
bind_done exhausted f h = cc

closed_modules :
    (modules ms : List ModuleDefinition)
    → check_modules modules ms ≡ done tt
    → All (λ m. All (λ d. includes d (keys_of modules) ≡ true) m.dependencies) ms
unfolding check_modules
closed_modules modules [] h = tt
closed_modules modules (m ∷ ms) h =
    let (u, one, rest) = bind_done (check_module modules m) (λ u. check_modules modules ms) h in
    let (v, few, all) = bind_done _ (λ v. check_dependencies modules m.key m.dependencies) one in
    (closed_list modules m.key m.dependencies all, closed_modules modules ms rest)

closed_found :
    (modules ms : List ModuleDefinition) (p : ModuleDefinition → Bool)
    → All (λ m. All (λ d. includes d (keys_of modules) ≡ true) m.dependencies) ms
    → All (λ d. includes d (keys_of modules) ≡ true) (dependencies_in (find_first p ms))
unfolding find_first
closed_found modules [] p h = tt
closed_found modules (m ∷ ms) p h = elim (Bool-cases (p m)) [
  | inl e ↦ rw e h.0
  | inr e ↦ rw e (closed_found modules ms p h.1)
]

trivial : (ks : List String) → All (λ k. Unit {0}) ks
trivial [] = tt
trivial (k ∷ ks) = (tt, trivial ks)

abbrev IsCovering : List ModuleDefinition → Walk → Type 0
IsCovering modules w =
    IsTopological modules w.visited × All (λ k. includes k w.visited ≡ true) (keys_of modules)

walk-Ends :
    (modules : List ModuleDefinition)
    → check_modules modules modules ≡ done tt
    → Ends modules (IsCovering modules) (walk_modules modules)
unfolding walk_modules dependencies_of
walk-Ends modules checked =
    Ends-mp modules _ (IsCovering modules) _
      (each-Ends modules (visit modules (length modules + 1)) []
        (visit-Ends modules
          (λ k. closed_found modules modules _ (closed_modules modules modules checked))
          (length modules + 1) [] (omega (arith, free_all (keys_of modules), length-keys modules)))
        (keys_of modules) (record { visiting = []; visited = [] }) refl
        (includes_all modules (keys_of modules)) (trivial (keys_of modules)) tt)
      (λ w a. (a.0.ordered, a.1))

abbrev guard : List ModuleDefinition → Outcome (Unit {0})
guard modules = if has_duplicates (keys_of modules) then failed duplicate_module_key else done tt

-- A part of the validation ends, and what it refuses as circular has a cycle.
module _ (modules : List ModuleDefinition) where
  abbrev Sound : {A : Type 0} → Outcome A → Type 0
  Sound (done a) = Unit {0}
  Sound (failed (circular_dependency k)) = Reaches modules k k
  Sound (failed _) = Unit {0}
  Sound exhausted = ⊥

  bind-Sound :
      {A B : Type 0} (m : Outcome A) (f : A → Outcome B)
      → Sound m
      → ((a : A) → m ≡ done a → Sound (f a))
      → Sound (m >>= f)
  bind-Sound (done a) f h k = k a refl
  bind-Sound (failed (circular_dependency c)) f h k = h
  bind-Sound (failed _) f h k = tt
  bind-Sound exhausted f h k = elim h [ ]

  walk-Sound : (P : Walk → Type 0) (m : Outcome Walk) → Ends modules P m → Sound m
  walk-Sound P (done w) h = tt
  walk-Sound P (failed (circular_dependency k)) h = h
  walk-Sound P (failed _) h = tt
  walk-Sound P exhausted h = elim h [ ]

  dependencies-Sound : (key : String) (ds : List String) → Sound (check_dependencies modules key ds)
  unfolding check_dependencies
  dependencies-Sound key [] = tt
  dependencies-Sound key (d ∷ ds) = elim (Bool-cases (includes d (keys_of modules))) [
    | inl e ↦ rw e (dependencies-Sound key ds)
    | inr e ↦ rw e tt
  ]

  refusal-Sound :
      (b : Bool) (e : GraphError)
      → Sound {A = Unit {0}} (failed e)
      → Sound {A = Unit {0}} (if b then failed e else done tt)
  refusal-Sound true e h = h
  refusal-Sound false e h = tt

  modules-Sound : (ms : List ModuleDefinition) → Sound (check_modules modules ms)
  unfolding check_modules
  modules-Sound [] = tt
  modules-Sound (m ∷ ms) =
      bind-Sound (check_module modules m) _
        (bind-Sound
          (if has_duplicates m.provides then failed (duplicate_capabilities m.key) else done tt) _
          (refusal-Sound (has_duplicates m.provides) (duplicate_capabilities m.key) tt)
          (λ u e. dependencies-Sound m.key m.dependencies))
        (λ u e. modules-Sound ms)

  validation-Sound : Sound (validate_module_graph modules)
  unfolding validate_module_graph
  validation-Sound =
      bind-Sound (guard modules >> check_modules modules modules) _
        (bind-Sound (guard modules) _
          (refusal-Sound (has_duplicates (keys_of modules)) duplicate_module_key tt)
          (λ u e. modules-Sound modules))
        (λ u e.
          let (v, few, checked) =
            bind_done (guard modules) (λ v. check_modules modules modules) e in
          bind-Sound (walk_modules modules) _
            (walk-Sound (IsCovering modules) _ (walk-Ends modules checked)) (λ w d. tt))

-- The validation of any list of modules ends: no visit goes deeper than there are modules.
pub validate_module_graph-ends :
    (modules : List ModuleDefinition) → validate_module_graph modules ≢ exhausted
validate_module_graph-ends modules e = subst (Sound modules) e (validation-Sound modules)

-- When the validation accepts the modules, their keys have an order in which every module comes
-- after the modules that it depends on.
pub validate_module_graph-IsTopological :
    (modules : List ModuleDefinition)
    → validate_module_graph modules ≡ done tt
    → (order : List String) × IsTopological modules order
      × All (λ k. includes k order ≡ true) (keys_of modules)
unfolding validate_module_graph
validate_module_graph-IsTopological modules h =
    let (u, checked, rest) =
      bind_done (guard modules >> check_modules modules modules)
        (λ u. walk_modules modules >> done tt) h in
    let (v, few, all) = bind_done (guard modules) (λ v. check_modules modules modules) checked in
    let (w, walked, end) = bind_done (walk_modules modules) (λ w. done tt) rest in
    let covered : IsCovering modules w =
      subst (Ends modules (IsCovering modules)) walked (walk-Ends modules all) in
    (w.visited, covered.0, covered.1)

-- When the validation refuses the modules as circular at a key, a chain of dependencies leads from
-- this key back to itself.
pub validate_module_graph-Reaches :
    (modules : List ModuleDefinition) (key : String)
    → validate_module_graph modules ≡ failed (circular_dependency key)
    → Reaches modules key key
validate_module_graph-Reaches modules key h = subst (Sound modules) h (validation-Sound modules)
