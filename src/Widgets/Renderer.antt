-- ===== src/Widgets/Renderer.antt =====
-- web/src/widgets/WidgetRenderer.tsx: from a tree of widget nodes to what React renders, and the region of
-- the toasts. React's nodes are of any type, and the adapters are given with the render context.
pub mod Keys
pub mod Registered
pub mod Toasts
use mathlib.Core.Option
use agentforum.Base.{
  ℕ, zero, suc, Bool, true, false, not, ◌&&◌, ◌||◌, Option, none, some, List, [], ◌∷◌, ◌++◌, Text,
  codes, to_decimal, eq_nat, ◌==◌, text_eq, if◌then◌else◌,
}
use agentforum.Widgets.Values.{
  Value, undefined, null, bool, num, str, other, arr, obj, Fields, end, field, field_of,
}
use agentforum.Widgets.Registry.{WidgetAdapter, get}

-- `WidgetNode`; a missing list of children is empty. A node of another kind shows nothing.
mutual
  pub data WidgetNode : Type 0 where
    text_node : Text → WidgetNode
    element_node component_node : Text → Fields → Nodes → WidgetNode
    other_node : WidgetNode

  pub data Nodes : Type 0 where
    no_nodes : Nodes
    and_node : WidgetNode → Nodes → Nodes

-- A React key; a number is given by its text, as React compares keys.
pub data Key : Type 0 where
  own_key indexed_key : Text → Key

-- What React makes of an element, and the nodes that need no adapter.
pub record React (R : Type 0) : Type 0 where
  pub text : Text → R
  pub create_element : Text → Fields → List (Text × R) → R
  pub null_node : R
  pub unknown_widget : Text → R

-- `typeof value === "string" || typeof value === "number"`
abbrev pub own_key_of : Value → Option Text
own_key_of (str t) = some t
own_key_of (num t) = some t
own_key_of _ = none

-- The key that properties give: `key`, or else `id`.
unfoldable pub given_key : Fields → Option Text
unfolding field_of
given_key props = elim (own_key_of (field_of (codes "key") props)) [
  | some key ↦ some key
  | none ↦ own_key_of (field_of (codes "id") props)
]

abbrev pub numbered : Text → ℕ → Text
numbered name index = name ++ (b'-' ∷ to_decimal index)

unfoldable pub widget_node_key : WidgetNode → ℕ → Text
unfolding given_key to_decimal
widget_node_key (text_node t) index = to_decimal index
widget_node_key (element_node tag attrs children) index =
    Option.get_or (given_key attrs) (numbered tag index)
widget_node_key (component_node type_name props children) index =
    Option.get_or (given_key props) (numbered type_name index)
widget_node_key other_node index = to_decimal index

abbrev pub Adapters : Type 0 → Type 0
Adapters R = List (WidgetAdapter (Fields → List (Text × R) → R))

-- The adapter of a type, if there is one, on the properties and the rendered children.
abbrev pub adapt :
    {R : Type 0}
    → React R
    → Text
    → Option (WidgetAdapter (Fields → List (Text × R) → R))
    → Fields
    → List (Text × R)
    → R
adapt react type_name none props children = react.unknown_widget type_name
adapt react type_name (some adapter) props children = adapter.render props children

unfoldable mutual
  unfolding widget_node_key get

  pub render_widget_node : {R : Type 0} → React R → Adapters R → WidgetNode → R
  render_widget_node react registry (text_node t) = react.text t
  render_widget_node react registry (element_node tag attrs children) =
      react.create_element tag attrs (render_children react registry 0 children)
  render_widget_node react registry (component_node type_name props children) =
      adapt react type_name (get type_name registry) props
        (render_children react registry 0 children)
  render_widget_node react registry other_node = react.null_node

  -- The children from an index on.
  pub render_children : {R : Type 0} → React R → Adapters R → ℕ → Nodes → List (Text × R)
  render_children react registry index no_nodes = []
  render_children react registry index (and_node child children) =
      (widget_node_key child index, render_widget_node react registry child)
      ∷ render_children react registry (suc index) children

-- `WidgetToastRegion`: the toast that is shown, with its tone, the timer last set, the timers that are
-- still to fire, and the number of the next one.
pub record ToastRegion : Type 0 where
  pub toast : Option (Text × Option Text)
  pub timer : Option ℕ
  pub running : List ℕ
  pub next : ℕ

abbrev pub clear_timeout : Option ℕ → List ℕ → List ℕ
clear_timeout none running = running
clear_timeout (some id) [] = []
clear_timeout (some id) (t ∷ ts) =
    let rest = clear_timeout (some id) ts in if eq_nat t id then rest else t ∷ rest

-- `detail.message ?? detail.toast`
abbrev pub message_of : Option Text → Option Text → Option Text
message_of none toast = toast
message_of (some message) toast = some message

-- An event `widget:toast`; one without a message, or with an empty one, is ignored.
abbrev pub show_toast : Option Text → Option Text → ToastRegion → ToastRegion
show_toast none shade s = s
show_toast (some []) shade s = s
show_toast (some (c ∷ message)) shade s = record {
  toast = some (c ∷ message, shade);
  timer = some s.next;
  running = clear_timeout s.timer s.running ++ (s.next ∷ []);
  next = suc s.next;
}

abbrev pub includes : ℕ → List ℕ → Bool
includes id [] = false
includes id (t ∷ ts) = eq_nat t id || includes id ts

-- A timer fires, if it is still running.
unfoldable pub fire_timer : ℕ → ToastRegion → ToastRegion
fire_timer id s =
    if includes id s.running
    then record s { toast = none; running = clear_timeout (some id) s.running }
    else s
