-- ===== src/Widgets/Renderer/Registered.antt =====
-- What a tree needs of the registry.
use agentforum.Base.{
  and_left, and_right, ℕ, suc, Bool, true, ◌&&◌, List, [], ◌∷◌, ◌++◌, ◌≡◌, refl, ap, arith, Text,
  contains, text_eq,
}
use agentforum.Widgets.Registry.{get, types}
use agentforum.Widgets.Renderer.{
  WidgetNode, text_node, element_node, component_node, other_node, Nodes, no_nodes, and_node, React,
  Adapters, adapt, render_widget_node, render_children, widget_node_key,
}

-- Every component of a tree has an adapter.
unfoldable mutual
  pub all_registered : List Text → WidgetNode → Bool
  all_registered known (text_node t) = true
  all_registered known (element_node tag attrs children) = children_registered known children
  all_registered known (component_node type_name props children) =
      contains type_name known && children_registered known children
  all_registered known other_node = true

  pub children_registered : List Text → Nodes → Bool
  children_registered known no_nodes = true
  children_registered known (and_node child children) =
      all_registered known child && children_registered known children

get-registered :
    {R : Type 0} (t : Text) (registry more : Adapters R)
    → contains t (types registry) ≡ true
    → get t (registry ++ more) ≡ get t registry
unfolding get
get-registered t [] more h = cc
get-registered t (a ∷ registry) more h = ground (arith, h, get-registered t registry more)

mutual
  unfolding all_registered render_widget_node

  render_widget_node-more :
      {R : Type 0} (react : React R) (registry more : Adapters R) (node : WidgetNode)
      → all_registered (types registry) node ≡ true
      → render_widget_node react (registry ++ more) node ≡ render_widget_node react registry node
  render_widget_node-more react registry more (text_node t) h = refl
  render_widget_node-more react registry more (element_node tag attrs children) h =
      ap (react.create_element tag attrs) (render_children-more react registry more 0 children h)
  render_widget_node-more react registry more (component_node type_name props children) h =
      let known : contains type_name (types registry) ≡ true = and_left _ _ h in
      let found = get-registered type_name registry more known in
      λ i. adapt react type_name (found i) props (
        render_children-more react registry more 0 children
          (and_right (contains type_name (types registry)) _ h) i)
  render_widget_node-more react registry more other_node h = refl

  render_children-more :
      {R : Type 0} (react : React R) (registry more : Adapters R) (index : ℕ) (children : Nodes)
      → children_registered (types registry) children ≡ true
      → render_children react (registry ++ more) index children
        ≡ render_children react registry index children
  render_children-more react registry more index no_nodes h = refl
  render_children-more react registry more index (and_node child children) h =
      let first = render_widget_node-more react registry more child (and_left _ _ h) in
      let rest =
        render_children-more react registry more (suc index) children
          (and_right (all_registered (types registry) child) _ h) in
      λ i. (widget_node_key child index, first i) ∷ rest i

-- A tree all of whose components have an adapter is rendered the same when a registry is extended.
pub render_widget_node-append :
    {R : Type 0} (react : React R) (registry more : Adapters R) (node : WidgetNode)
    → all_registered (types registry) node ≡ true
    → render_widget_node react (registry ++ more) node ≡ render_widget_node react registry node
render_widget_node-append = render_widget_node-more
