-- ===== src/Widgets/Registry/Laws.antt =====
-- When a registry is created, and what it finds.
use mathlib.Core.List.{map-append}
use agentforum.Base.{
  true, false, Bool-cases, some, List, [], ◌∷◌, ◌++◌, append_assoc, append-nil, ◌≡◌, refl, sym, ap,
  ◌∙◌, inl, inr, arith, Text, contains, contains-of-==, ==_refl, distinct, distinct-append,
  distinct-append_both, text_eq, if_true, if_false,
}
use agentforum.Widgets.Registry.{
  WidgetAdapter, types, created, duplicate, get, has, create_from, create_widget_registry,
}

module _ {ℓ} {R : Type ℓ} where
  abbrev type_of : WidgetAdapter R → Text
  type_of a = a.widget_type

  -- The adapter goes from the rest to the map.
  types-next :
      (by_type : List (WidgetAdapter R)) (a : WidgetAdapter R) (adapters : List (WidgetAdapter R))
      → types ((by_type ++ (a ∷ [])) ++ adapters) ≡ types (by_type ++ (a ∷ adapters))
  types-next by_type a adapters = ap types (append_assoc by_type (a ∷ []) adapters)

  has-distinct :
      (by_type : List (WidgetAdapter R)) (a : WidgetAdapter R) (adapters : List (WidgetAdapter R))
      → distinct (types (by_type ++ (a ∷ adapters))) ≡ true
      → has a.widget_type by_type ≡ false
  unfolding has
  has-distinct by_type a adapters d = elim (Bool-cases (contains a.widget_type (types by_type))) [
    | inl e ↦
        let both =
          distinct-append_both a.widget_type (types by_type) (types (a ∷ adapters)) e
            (ground (arith, ==_refl a.widget_type)) in
        absurd (cc (both, d, ap distinct (map-append type_of by_type (a ∷ adapters))))
    | inr e ↦ e
  ]

  distinct-next :
      (by_type : List (WidgetAdapter R)) (a : WidgetAdapter R)
      → distinct (types by_type) ≡ true
      → has a.widget_type by_type ≡ false
      → distinct (types (by_type ++ (a ∷ []))) ≡ true
  unfolding has
  distinct-next by_type a d e =
      ap distinct (map-append type_of by_type (a ∷ []))
      ∙ distinct-append (types by_type) (a.widget_type ∷ []) d refl
          (λ k m. ground (arith, m, contains-of-== a.widget_type k (types by_type), e))

  create_from-distinct :
      (by_type adapters : List (WidgetAdapter R))
      → distinct (types (by_type ++ adapters)) ≡ true
      → create_from by_type adapters ≡ created (by_type ++ adapters)
  unfolding create_from
  create_from-distinct by_type [] d = ap created (sym (append-nil by_type))
  create_from-distinct by_type (a ∷ adapters) d =
      if_false _ _ (has-distinct by_type a adapters d)
      ∙ create_from-distinct (by_type ++ (a ∷ [])) adapters
          (ap distinct (types-next by_type a adapters) ∙ d)
      ∙ ap created (append_assoc by_type (a ∷ []) adapters)

  create_from-duplicate :
      (by_type adapters : List (WidgetAdapter R))
      → distinct (types by_type) ≡ true
      → distinct (types (by_type ++ adapters)) ≡ false
      → (t : Text) × (create_from by_type adapters ≡ duplicate t)
        × (contains t (types adapters) ≡ true)
  unfolding create_from
  create_from-duplicate by_type [] d e =
      absurd (cc (d, e, ap (λ rs. distinct (types rs)) (append-nil by_type)))
  create_from-duplicate by_type (a ∷ adapters) d e = elim (Bool-cases (has a.widget_type by_type)) [
    | inl h ↦ (a.widget_type, if_true _ _ h, ground (arith, ==_refl a.widget_type))
    | inr h ↦
        let (t, failed, there) =
          create_from-duplicate (by_type ++ (a ∷ [])) adapters (distinct-next by_type a d h)
            (ap distinct (types-next by_type a adapters) ∙ e) in
        (t, if_false _ _ h ∙ failed, ground (arith, there))
  ]

  -- A registry is created, with all adapters in their order, exactly if no two have one type; otherwise
  -- the error names the type of one of them.
  pub create_widget_registry_lem :
      (adapters : List (WidgetAdapter R))
      → (distinct (types adapters) ≡ true → create_widget_registry adapters ≡ created adapters)
        × (distinct (types adapters) ≡ false
            → (t : Text) × (create_widget_registry adapters ≡ duplicate t)
              × (contains t (types adapters) ≡ true))
  unfolding create_widget_registry
  create_widget_registry_lem adapters =
      (create_from-distinct [] adapters, create_from-duplicate [] adapters refl)

  contains-middle :
      (before : List (WidgetAdapter R)) (a : WidgetAdapter R) (after : List (WidgetAdapter R))
      → contains a.widget_type (types (before ++ (a ∷ after))) ≡ true
  contains-middle [] a after = ground (arith, ==_refl a.widget_type)
  contains-middle (b ∷ before) a after = ground (arith, contains-middle before a after)

  -- In a registry whose types differ, each adapter is found under its type.
  get-middle :
      (before : List (WidgetAdapter R)) (a : WidgetAdapter R) (after : List (WidgetAdapter R))
      → distinct (types (before ++ (a ∷ after))) ≡ true
      → get a.widget_type (before ++ (a ∷ after)) ≡ some a
  unfolding get
  get-middle [] a after d = if_true _ _ (==_refl a.widget_type)
  get-middle (b ∷ before) a after d = ground (
    arith,
    contains-of-== b.widget_type a.widget_type (types (before ++ (a ∷ after))),
    contains-middle before a after,
    get-middle before a after,
  )
