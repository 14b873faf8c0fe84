-- ===== src/Platform/Modules.antt =====
-- src/platform/modules/types.ts: the definition of a module and the validation of the graph of their
-- dependencies, a depth-first walk. A set of keys is the list of its elements, the newest first.
pub mod Order
pub mod Validated
use sozan.Common.{
  ℕ, zero, suc, ◌+◌, String, Bool, true, false, ◌&&◌, ◌||◌, not, Option, none, some, List, [], ◌∷◌,
  ◌++◌, map, select, find_first, some_of, every, includes, length, str_eq, if◌then◌else◌,
}

pub record ModuleNavItem : Type 0 where
  pub id : String
  pub label_key : String
  pub surface : String
  pub order : ℕ

pub record ModuleWidget : Type 0 where
  pub id : String
  pub surface : String
  pub label_key : String
  pub order : ℕ

pub record ModuleIntegration : Type 0 where
  pub capability : String
  pub required : Option Bool

pub record ModuleDefinition : Type 0 where
  pub key : String
  pub version : ℕ
  pub title : String
  pub description : String
  pub dependencies : List String
  pub provides : List String
  pub integrations : List ModuleIntegration
  pub default_enabled : Bool
  pub nav : List ModuleNavItem
  pub widgets : List ModuleWidget
  pub labels : List (String × String)

-- The messages of the errors, with the keys that they name.
pub data GraphError : Type 0 where
  duplicate_module_key : GraphError
  duplicate_capabilities : String → GraphError
  missing_module : String → String → GraphError
  circular_dependency : String → GraphError

-- How a part of the validation ends; `exhausted` is no outcome of the code, but that of a walk of the
-- model that was given too few calls.
pub data Outcome (A : Type 0) : Type 0 where
  done : A → Outcome A
  failed : GraphError → Outcome A
  exhausted : Outcome A

infixl 5 ◌>>=◌ ◌>>◌
abbrev pub ◌>>=◌ : {A B : Type 0} → Outcome A → (A → Outcome B) → Outcome B
done a >>= f = f a
failed e >>= f = failed e
exhausted >>= f = exhausted

abbrev pub ◌>>◌ : {A B : Type 0} → Outcome A → Outcome B → Outcome B
m >> n = m >>= λ _. n

abbrev pub keys_of : List ModuleDefinition → List String
keys_of modules = map (λ m. m.key) modules

-- A set made from this list is smaller than the list.
unfoldable pub has_duplicates : List String → Bool
has_duplicates [] = false
has_duplicates (x ∷ xs) = includes x xs || has_duplicates xs

-- `byKey.get(key)?.dependencies ?? []`, where no two modules share a key.
abbrev pub dependencies_in : Option ModuleDefinition → List String
dependencies_in none = []
dependencies_in (some m) = m.dependencies

unfoldable pub dependencies_of : List ModuleDefinition → String → List String
dependencies_of modules key = dependencies_in (find_first (λ m. str_eq m.key key) modules)

unfoldable pub check_dependencies :
    List ModuleDefinition → String → List String → Outcome (Unit {0})
check_dependencies modules key [] = done tt
check_dependencies modules key (d ∷ ds) =
    if includes d (keys_of modules)
    then check_dependencies modules key ds
    else failed (missing_module key d)

abbrev pub check_module : List ModuleDefinition → ModuleDefinition → Outcome (Unit {0})
check_module modules m =
    (if has_duplicates m.provides then failed (duplicate_capabilities m.key) else done tt)
    >> check_dependencies modules m.key m.dependencies

unfoldable pub check_modules : List ModuleDefinition → List ModuleDefinition → Outcome (Unit {0})
check_modules modules [] = done tt
check_modules modules (m ∷ ms) = check_module modules m >> check_modules modules ms

pub record Walk : Type 0 where
  pub visiting : List String
  pub visited : List String

-- `visiting.delete(key)`
unfoldable pub without : String → List String → List String
without key keys = select (λ k. not (str_eq k key)) keys

-- `for (const key of keys) visit(key);`
unfoldable pub each : (String → Walk → Outcome Walk) → List String → Walk → Outcome Walk
each visit [] w = done w
each visit (k ∷ ks) w = visit k w >>= each visit ks

abbrev pub entered : String → Walk → Walk
entered key w = record w { visiting = key ∷ w.visiting }

abbrev pub left : String → Walk → Walk
left key w = record { visiting = without key w.visiting; visited = key ∷ w.visited }

module _ (modules : List ModuleDefinition) where
  -- A visit that may call itself to this depth.
  unfoldable pub visit : ℕ → String → Walk → Outcome Walk
  visit zero key w = exhausted
  visit (suc depth) key w =
      if includes key w.visited
      then done w
      else if includes key w.visiting
      then failed (circular_dependency key)
      else (each (visit depth) (dependencies_of modules key) (entered key w) >>= λ after.
          done (left key after))

  -- The walk over all modules; no visit is deeper than there are modules, and one call more sees this.
  unfoldable pub walk_modules : Outcome Walk
  walk_modules =
      each (visit (length modules + 1)) (keys_of modules) (record { visiting = []; visited = [] })

unfoldable pub validate_module_graph : List ModuleDefinition → Outcome (Unit {0})
validate_module_graph modules =
    (if has_duplicates (keys_of modules) then failed duplicate_module_key else done tt)
    >> check_modules modules modules
    >> (walk_modules modules >> done tt)

unfoldable pub can_enable_module : ModuleDefinition → List String → Bool
can_enable_module m enabled = every (λ d. includes d enabled) m.dependencies

unfoldable pub available_capabilities : List ModuleDefinition → List String
available_capabilities [] = []
available_capabilities (m ∷ ms) = m.provides ++ available_capabilities ms
