-- ===== src/Widgets/Registry.antt =====
-- web/src/widgets/registry.ts: the adapters of widget types. What an adapter renders is of any type.
pub mod Laws
pub mod Default
use agentforum.Base.{
  Bool, Option, none, some, List, [], ◌∷◌, ◌++◌, map, Text, contains, ◌==◌, text_eq, if◌then◌else◌,
}

pub record WidgetAdapter {ℓ} (R : Type ℓ) : Type ℓ where
  pub widget_type : Text
  pub render : R

-- The registry, by its adapters in the order of their insertion, or the error for a type.
pub data Created {ℓ} (R : Type ℓ) : Type ℓ where
  created : List (WidgetAdapter R) → Created R
  duplicate : Text → Created R

module _ {ℓ} {R : Type ℓ} where
  abbrev pub types : List (WidgetAdapter R) → List Text
  types = map (λ a. a.widget_type)

  unfoldable pub get : Text → List (WidgetAdapter R) → Option (WidgetAdapter R)
  get t [] = none
  get t (a ∷ registry) = if a.widget_type == t then some a else get t registry

  unfoldable pub has : Text → List (WidgetAdapter R) → Bool
  has t registry = contains t (types registry)

  -- The loop; the first argument is the map so far.
  unfoldable pub create_from : List (WidgetAdapter R) → List (WidgetAdapter R) → Created R
  unfolding has
  create_from by_type [] = created by_type
  create_from by_type (a ∷ adapters) =
      let onwards = create_from (by_type ++ (a ∷ [])) adapters in
      if has a.widget_type by_type then duplicate a.widget_type else onwards

  unfoldable pub create_widget_registry : List (WidgetAdapter R) → Created R
  unfolding create_from
  create_widget_registry adapters = create_from [] adapters

  abbrev pub flat : List (List (WidgetAdapter R)) → List (WidgetAdapter R)
  flat [] = []
  flat (r ∷ rs) = r ++ flat rs

  unfoldable pub merge_widget_registries : List (List (WidgetAdapter R)) → Created R
  unfolding create_widget_registry
  merge_widget_registries registries = create_widget_registry (flat registries)
