-- ===== src/Platform/Surfaces.antt =====
-- src/platform/surfaces/layout.ts: the widgets that a surface shows, in the order of its layout.
-- Orders are natural numbers, as those of the catalog are.
pub mod Composed
use sozan.Common.{
  ℕ, String, Bool, true, Option, none, some, is_some, or_default, or_else, List, [], ◌∷◌, ◌++◌, map,
  select, str_eq, if◌then◌else◌,
}
use sozan.Common.Order.{sort, compare_numbers}
use sozan.Platform.Modules.{ModuleDefinition, ModuleWidget}

pub data WidgetSize : Type 0 where
  small medium large : WidgetSize

pub record SurfaceWidgetPlacement : Type 0 where
  pub widget_id : String
  pub visible : Bool
  pub order : ℕ
  pub size : Option WidgetSize

pub record SurfaceLayout : Type 0 where
  pub surface_key : String
  pub widgets : List SurfaceWidgetPlacement

unfoldable pub all_widgets : List ModuleDefinition → List ModuleWidget
all_widgets [] = []
all_widgets (m ∷ ms) = m.widgets ++ all_widgets ms

unfoldable pub available_widgets : List ModuleDefinition → String → List ModuleWidget
unfolding all_widgets
available_widgets modules surface_key =
    sort (λ a b. compare_numbers a.order b.order)
      (select (λ w. str_eq w.surface surface_key) (all_widgets modules))

-- `configured.get(id)`; of two entries with one key a map keeps the later.
unfoldable pub configured : List SurfaceWidgetPlacement → String → Option SurfaceWidgetPlacement
configured [] id = none
configured (p ∷ ps) id = or_else (configured ps id) (if str_eq p.widget_id id then some p else none)

abbrev pub layout_widgets : Option SurfaceLayout → List SurfaceWidgetPlacement
layout_widgets none = []
layout_widgets (some layout) = layout.widgets

abbrev pub default_placement : ModuleWidget → SurfaceWidgetPlacement
default_placement w = record {
  widget_id = w.id;
  visible = true;
  order = w.order;
  size = some medium;
}

abbrev pub placement_of : Option SurfaceLayout → ModuleWidget → SurfaceWidgetPlacement
placement_of layout w = or_default (configured (layout_widgets layout) w.id) (default_placement w)

unfoldable pub compose_surface :
    List ModuleDefinition → String → Option SurfaceLayout → List SurfaceWidgetPlacement
compose_surface modules surface_key layout =
    sort (λ a b. compare_numbers a.order b.order)
      (select (λ p. p.visible) (map (placement_of layout) (available_widgets modules surface_key)))
