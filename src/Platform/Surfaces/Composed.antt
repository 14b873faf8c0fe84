-- ===== src/Platform/Surfaces/Composed.antt =====
-- A composed surface is in order, and shows visible placements of the widgets of the surface only.
use sozan.Common.{
  ◌≡◌, refl, String, true, Option, List, [], ◌∷◌, map, str_eq, All, All-select, select-All,
}
use sozan.Common.Order.{compare_numbers, IsSorted, All-sort, sort-IsSorted, number_key-IsPreorder}
use sozan.Platform.Modules.{ModuleDefinition, ModuleWidget}
use sozan.Platform.Surfaces.{
  SurfaceWidgetPlacement, SurfaceLayout, all_widgets, available_widgets, placement_of,
  compose_surface,
}

-- The placement is the layout's or the default of a widget of this surface.
abbrev pub IsPlaced : String → Option SurfaceLayout → SurfaceWidgetPlacement → Type 0
IsPlaced surface layout p =
    (w : ModuleWidget) × (str_eq w.surface surface ≡ true) × (p ≡ placement_of layout w)

All-map_to {ℓ κ} :
    {A B : Type ℓ} {P : A → Type κ} (Q : B → Type κ) (f : A → B) (xs : List A)
    → ((x : A) → P x → Q (f x))
    → All P xs
    → All Q (map f xs)
All-map_to Q f [] k h = tt
All-map_to Q f (x ∷ xs) k h = (k x h.0, All-map_to Q f xs k h.1)

All-pair {ℓ κ} :
    {A : Type ℓ} (P Q : A → Type κ) (xs : List A) → All P xs → All Q xs → All (λ x. P x × Q x) xs
All-pair P Q [] p q = tt
All-pair P Q (x ∷ xs) p q = ((p.0, q.0), All-pair P Q xs p.1 q.1)

-- A composed surface is in the order of its placements, and each of them is visible and is what the
-- layout says of a widget that a module offers for this surface, or else its default.
pub compose_surface-IsSorted :
    (modules : List ModuleDefinition) (surface : String) (layout : Option SurfaceLayout)
    → IsSorted (λ a b. compare_numbers a.order b.order) (compose_surface modules surface layout)
      × All
          (λ p. (p.visible ≡ true) × IsPlaced surface layout p)
          (compose_surface modules surface layout)
unfolding compose_surface available_widgets
compose_surface-IsSorted modules surface layout =
    let offered =
      All-sort (λ a b. compare_numbers a.order b.order) (λ w. str_eq w.surface surface ≡ true) _
        (select-All (λ w. str_eq w.surface surface) (all_widgets modules)) in
    let placed =
      All-map_to (IsPlaced surface layout) (placement_of layout) _ (λ w e. (w, e, refl)) offered in
    (
      sort-IsSorted _ (number_key-IsPreorder (λ p. p.order)) _,
      All-sort _ _ _ (
          All-pair (λ p. p.visible ≡ true) (IsPlaced surface layout) _
            (select-All (λ p. p.visible) _) (All-select _ (λ p. p.visible) _ placed)),
    )
