-- ===== src/Tests/Registry.antt =====
-- Registries at concrete inputs; an adapter renders a number here.
use agentforum.Base.{
  ℕ, true, false, none, [], ◌∷◌, ◌≡◌, refl, Text, codes, contains, distinct, text_eq,
}
use agentforum.Widgets.Registry.{
  WidgetAdapter, types, created, duplicate, get, create_widget_registry, merge_widget_registries,
}
use agentforum.Widgets.Registry.Laws.{create_widget_registry_lem}

abbrev panel : WidgetAdapter ℕ
panel = record { widget_type = codes "Panel"; render = 1 }

abbrev stack : WidgetAdapter ℕ
stack = record { widget_type = codes "Stack"; render = 2 }

registries_run :
    (merge_widget_registries ((panel ∷ []) ∷ (stack ∷ []) ∷ []) ≡ created (panel ∷ stack ∷ []))
    × (merge_widget_registries ((panel ∷ []) ∷ (stack ∷ panel ∷ []) ∷ [])
        ≡ duplicate (codes "Panel"))
    × (get (codes "Tag") (panel ∷ stack ∷ []) ≡ none)
unfolding merge_widget_registries get
registries_run = (refl, refl, refl)

create_widget_registry_lem_example :
    (distinct (types (panel ∷ stack ∷ panel ∷ [])) ≡ true
      → create_widget_registry (panel ∷ stack ∷ panel ∷ []) ≡ created (panel ∷ stack ∷ panel ∷ []))
    × (distinct (types (panel ∷ stack ∷ panel ∷ [])) ≡ false
        → (t : Text) × (create_widget_registry (panel ∷ stack ∷ panel ∷ []) ≡ duplicate t)
          × (contains t (types (panel ∷ stack ∷ panel ∷ [])) ≡ true))
create_widget_registry_lem_example = create_widget_registry_lem (panel ∷ stack ∷ panel ∷ [])
