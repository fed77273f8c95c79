-- ===== src/Widgets/Adapters/Parts.antt =====
-- What the adapters read of their properties.
use agentforum.Base.{
  ℕ, suc, Bool, true, false, Option, none, some, ◌>>=◌, List, [], ◌∷◌, ◌≡◌, refl, Text, codes,
  and_left, and_right, if◌then◌else◌, text_eq,
}
use agentforum.Widgets.Values.{
  Value, undefined, null, bool, num, str, other, arr, obj, Items, nil, cons, field_of, property,
}
use agentforum.Widgets.Shapes.{Shape, text_shape, optional_shape, list_of, all_items, has_members}
use agentforum.Widgets.Shapes.Props.{strip_item, segment_spec, tag_spec}
use agentforum.Widgets.Adapters.{
  react_child, shown_if, Element, map_items, map_array, strip_entry, crumbs, crumbs_of, tag_count,
  tag_label,
}

-- It does not throw.
abbrev pub Renders : {A : Type 0} → Option A → Type 0
Renders {A} o = (a : A) × (o ≡ some a)

pub bind-Renders :
    {A B : Type 0} (o : Option A) (next : A → Option B)
    → Renders o
    → ((a : A) → Renders (next a))
    → Renders (o >>= next)
bind-Renders none next (a, e) f = cc
bind-Renders (some a) next _ f = f a

pub text-Renders : (v : Value) → text_shape v ≡ true → Renders (react_child v)
unfolding react_child
text-Renders (str t) h = (t, refl)
text-Renders (num t) h = (t, refl)
text-Renders undefined h = ([], refl)
text-Renders null h = ([], refl)
text-Renders (bool b) h = ([], refl)
text-Renders (other t) h = ([], refl)
text-Renders (arr items) h = cc
text-Renders (obj fs) h = cc

pub shown-Renders : (v : Value) → optional_shape text_shape v ≡ true → Renders (shown_if v)
unfolding react_child
shown-Renders undefined h = (none, refl)
shown-Renders (str []) h = (none, refl)
shown-Renders (str (c ∷ t)) h = (some (c ∷ t), refl)
shown-Renders _ h = cc

map_items-Renders :
    {A : Type 0} (shape : Shape) (f : ℕ → Value → Option A)
    → ((i : ℕ) (v : Value) → shape v ≡ true → Renders (f i v))
    → (i : ℕ) (items : Items) → all_items shape items ≡ true
    → Renders (map_items f i items)
map_items-Renders shape f each i nil h = ([], refl)
map_items-Renders shape f each i (cons v vs) h =
    bind-Renders (f i v) _ (each i v (and_left (shape v) _ h)) (λ a.
      bind-Renders (map_items f (suc i) vs) _
        (map_items-Renders shape f each (suc i) vs (and_right (shape v) _ h))
        (λ found. (a ∷ found, refl)))

pub map_array-Renders :
    {A : Type 0} (shape : Shape) (f : ℕ → Value → Option A)
    → ((i : ℕ) (v : Value) → shape v ≡ true → Renders (f i v))
    → (v : Value) → list_of shape v ≡ true
    → Renders (map_array f v)
map_array-Renders shape f each (arr items) h = map_items-Renders shape f each 0 items h
map_array-Renders shape f each _ h = cc

pub tag-Renders : (i : ℕ) (v : Value) → tag_spec v ≡ true → Renders (tag_count i v)
unfolding tag_spec
tag-Renders i (str t) h = (_, refl)
tag-Renders i (obj fs) h = (_, refl)
tag-Renders i (num t) h = (_, refl)
tag-Renders i (bool b) h = (_, refl)
tag-Renders i (other t) h = (_, refl)
tag-Renders i (arr items) h = (_, refl)
tag-Renders i undefined h = cc
tag-Renders i null h = cc

pub label-Renders :
    {R : Type 0} (string_of : R → Text) (v : Value) (nodes : List R)
    → optional_shape text_shape v ≡ true
    → Renders (tag_label string_of v nodes)
unfolding react_child
label-Renders string_of undefined nodes h = (_, refl)
label-Renders string_of (str t) nodes h = (t, refl)
label-Renders string_of _ nodes h = cc

crumbs-Renders : (items : Items) → all_items segment_spec items ≡ true → Renders (crumbs items)
unfolding segment_spec has_members property
crumbs-Renders nil h = ([], refl)
crumbs-Renders (cons (obj fs) vs) h =
    let seg = and_left (segment_spec (obj fs)) _ h in
    bind-Renders (react_child (property (codes "label") (obj fs))) _
      (text-Renders (field_of (codes "label") fs)
        (and_left (text_shape (field_of (codes "label") fs)) _ seg))
      (λ label.
        bind-Renders (crumbs vs) _ (crumbs-Renders vs (and_right (segment_spec (obj fs)) _ h))
          (λ found. (_, refl)))
crumbs-Renders (cons undefined vs) h = cc
crumbs-Renders (cons _ vs) h = cc

pub crumbs_of-Renders : (v : Value) → list_of segment_spec v ≡ true → Renders (crumbs_of v)
crumbs_of-Renders (arr items) h = crumbs-Renders items h
crumbs_of-Renders _ h = cc

-- A render context shows the label and the value of each item of a strip.
module _ {R : Type 0} (render_node : Value → Option R) where
  abbrev pub ShowsItem : Value → Type 0
  ShowsItem v =
      Renders (render_node (property (codes "label") v))
      × Renders (render_node (property (codes "value") v))

  abbrev pub ShowsItems : Items → Type 0
  ShowsItems nil = Unit
  ShowsItems (cons v vs) = ShowsItem v × ShowsItems vs

  abbrev pub ShowsStrip : Value → Type 0
  ShowsStrip (arr items) = ShowsItems items
  ShowsStrip _ = Unit

  entry-Renders :
      (i : ℕ) (v : Value)
      → strip_item v ≡ true
      → ShowsItem v
      → Renders (strip_entry render_node i v)
  unfolding strip_item has_members
  entry-Renders i (obj fs) h (its_label, its_value) =
      bind-Renders (render_node (property (codes "label") (obj fs))) _ its_label (λ label.
        bind-Renders (render_node (property (codes "value") (obj fs))) _ its_value
          (λ value. (_, refl)))
  entry-Renders i _ h shows = cc

  entries-Renders :
      (i : ℕ) (items : Items)
      → all_items strip_item items ≡ true
      → ShowsItems items
      → Renders (map_items (strip_entry render_node) i items)
  entries-Renders i nil h shows = ([], refl)
  entries-Renders i (cons v vs) h (one, others) =
      bind-Renders (strip_entry render_node i v) _
        (entry-Renders i v (and_left (strip_item v) _ h) one)
        (λ a.
          bind-Renders (map_items (strip_entry render_node) (suc i) vs) _
            (entries-Renders (suc i) vs (and_right (strip_item v) _ h) others)
            (λ found. (a ∷ found, refl)))

  pub strip-Renders :
      (v : Value)
      → list_of strip_item v ≡ true
      → ShowsStrip v
      → Renders (map_array (strip_entry render_node) v)
  strip-Renders (arr items) h shows = entries-Renders 0 items h shows
  strip-Renders _ h shows = cc

pub section-Renders :
    {R : Type 0} (plain : Bool) (titled : Option (Element R)) (e : Element R)
    → Renders titled
    → Renders (if plain then some e else titled)
section-Renders true titled e r = (e, refl)
section-Renders false titled e r = r
