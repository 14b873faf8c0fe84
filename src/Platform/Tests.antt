-- ===== src/Platform/Tests.antt =====
-- Modules, surfaces and the bus at concrete inputs.
use sozan.Common.{
  ℕ, ◌≡◌, ◌≢◌, refl, String, true, false, none, List, [], ◌∷◌, All, includes, find_first, select,
  some_of,
}
use sozan.Platform.Modules.{
  ModuleDefinition, ModuleWidget, exhausted, keys_of, has_duplicates, dependencies_of,
  check_dependencies, check_modules, without, each, visit, walk_modules, validate_module_graph,
}
use sozan.Platform.Modules.Order.{Reaches, IsTopological}
use sozan.Platform.Modules.Validated.{
  validate_module_graph-ends, validate_module_graph-IsTopological, validate_module_graph-Reaches,
}
use sozan.Platform.Surfaces.{SurfaceLayout}
use sozan.Platform.Events.{EventBus, empty_bus, on, unsubscribe, publish}
use sozan.Platform.Events.Subscribed.{
  IsValid, registered, on-IsValid, publish-unsubscribe, first, emptied, unsubscribe_again,
}

abbrev widget : String → ℕ → ModuleWidget
widget id order = record { id = id; surface = "home"; label_key = "label"; order = order }

abbrev module_with : String → List String → List ModuleWidget → ModuleDefinition
module_with key dependencies widgets = record {
  key = key;
  version = 1;
  title = key;
  description = "";
  dependencies = dependencies;
  provides = [];
  integrations = [];
  default_enabled = true;
  nav = [];
  widgets = widgets;
  labels = [];
}

-- The reports need the lessons, and these need the money.
abbrev layered : List ModuleDefinition
layered =
    module_with "reports" ("tutoring" ∷ []) (widget "r" 30 ∷ [])
    ∷ module_with "tutoring" ("finance" ∷ []) []
    ∷ module_with "finance" [] (widget "f" 20 ∷ [])
    ∷ []

-- Two modules that need each other.
abbrev tangled : List ModuleDefinition
tangled = module_with "a" ("b" ∷ []) [] ∷ module_with "b" ("a" ∷ []) [] ∷ []

validate_module_graph-ends_example : validate_module_graph layered ≢ exhausted
validate_module_graph-ends_example = validate_module_graph-ends layered

validate_module_graph-IsTopological_example :
    (order : List String) × IsTopological layered order
    × All (λ k. includes k order ≡ true) (keys_of layered)
unfolding validate_module_graph check_modules check_dependencies has_duplicates walk_modules visit
    each dependencies_of without includes find_first select
validate_module_graph-IsTopological_example = validate_module_graph-IsTopological layered refl

validate_module_graph-Reaches_example : Reaches tangled "a" "a"
unfolding validate_module_graph check_modules check_dependencies has_duplicates walk_modules visit
    each dependencies_of without includes find_first select
validate_module_graph-Reaches_example = validate_module_graph-Reaches tangled "a" refl

-- The layout hides one widget.
abbrev hiding : SurfaceLayout
hiding = record {
  surface_key = "home";
  widgets = record { widget_id = "r"; visible = false; order = 1; size = none } ∷ [];
}

empty_bus-IsValid : IsValid empty_bus
empty_bus-IsValid = record {
  made_before = λ t r e. cc;
  fresh = λ r le. refl;
  separate = λ t u r e f. cc;
}

abbrev one_handler : EventBus
unfolding on
one_handler = (on "lesson" 1 empty_bus).1

publish-unsubscribe_example :
    publish "lesson" (unsubscribe (on "lesson" 2 one_handler).0 (on "lesson" 2 one_handler).1)
    ≡ publish "lesson" one_handler
unfolding one_handler on some_of
publish-unsubscribe_example =
    publish-unsubscribe one_handler (on-IsValid empty_bus empty_bus-IsValid "lesson" 1) "lesson" 2
      refl "lesson"

unsubscribe_again_example :
    registered "lesson" (unsubscribe (first "lesson" 1 2) (on "lesson" 2 (emptied "lesson" 1 2)).1)
    ≡ []
unsubscribe_again_example = unsubscribe_again "lesson" 1 2
