-- ===== src/Widgets/Registry/Default.antt =====
-- web/src/widgets/defaultRegistry.ts: the types of the client's own widgets.
use agentforum.Base.{List, [], ◌∷◌, map, ◌≡◌, refl, Text, codes}
use agentforum.Widgets.Registry.{WidgetAdapter, created, create_widget_registry}
use agentforum.Widgets.Registry.Laws.{create_widget_registry_lem}

abbrev pub default_types : List Text
default_types =
    codes "Stack"
    ∷ codes "Inline"
    ∷ codes "Panel"
    ∷ codes "SectionBlock"
    ∷ codes "DataTable"
    ∷ codes "KeyValueStrip"
    ∷ codes "Text"
    ∷ codes "Caption"
    ∷ codes "Divider"
    ∷ codes "Tag"
    ∷ codes "BreadcrumbBar"
    ∷ codes "TagCloud"
    ∷ []

-- `defaultWidgetAdapters`, with what each renders.
abbrev pub default_widget_adapters {ℓ} : {R : Type ℓ} → (Text → R) → List (WidgetAdapter R)
default_widget_adapters renders =
    map (λ t. record { widget_type = t; render = renders t }) default_types

-- The registry of the client's own widgets is created, whatever they render: no two have one type.
pub default_widget_registry-created {ℓ} :
    {R : Type ℓ} (renders : Text → R)
    → create_widget_registry (default_widget_adapters renders)
      ≡ created (default_widget_adapters renders)
default_widget_registry-created renders =
    (create_widget_registry_lem (default_widget_adapters renders)).0 refl
