-- ===== src/Widgets/Adapters.antt =====
-- The adapters of the client's own widgets, *.widget.tsx under web/src/components, but for that of the table
-- (Table.antt): what each makes of the properties of a node, `none` where it throws. Values that are not JSON
-- are taken as React takes a function, which it does not show.
pub mod Parts
pub mod Total
pub mod Clicked
use mathlib.Core.Option
use agentforum.Base.{
  ℕ, suc, Bool, true, false, not, ◌&&◌, ◌||◌, Option, none, some, ◌>>=◌, List, [], ◌∷◌, ◌++◌, map,
  Text, codes, join, to_decimal, contains, inherited_members, ◌==◌, text_eq, if◌then◌else◌,
}
use agentforum.Widgets.Cells.{is_kind}
use agentforum.Widgets.Values.{
  Value, undefined, null, bool, num, str, other, arr, obj, Items, nil, cons, Fields, end, field,
  is_nullish, or_else, field_of, property, text_of,
}

-- A value as a React child: an object cannot be one.
unfoldable mutual
  pub react_child : Value → Option Text
  react_child undefined = some []
  react_child null = some []
  react_child (bool b) = some []
  react_child (num t) = some t
  react_child (str t) = some t
  react_child (other t) = some []
  react_child (arr items) = react_children items
  react_child (obj fs) = none

  pub react_children : Items → Option Text
  react_children nil = some []
  react_children (cons v vs) = react_child v >>= (λ t. react_children vs >>= (λ ts. some (t ++ ts)))

-- `!!value`
abbrev pub is_truthy : Value → Bool
is_truthy undefined = false
is_truthy null = false
is_truthy (bool b) = b
is_truthy (num t) = not (t == codes "0" || t == codes "NaN")
is_truthy (str t) = not (t == [])
is_truthy _ = true

-- `value && <…>{value}</…>`
abbrev pub shown_if : Value → Option (Option Text)
shown_if v = if is_truthy v then react_child v >>= (λ t. some (some t)) else some none

-- A part of a breadcrumb: its label, and where it leads, if it is a link.
pub record Crumb : Type 0 where
  pub crumb_label : Text
  pub link : Option Value

-- What the adapters make, of rendered children of any type.
pub data Element (R : Type 0) : Type 0 where
  stack_box inline_box text_box : Value → Value → List R → Element R
  callout : Text → Option Text → List R → Element R
  plain_section : Value → List R → Element R
  titled_section : Text → Option Text → Value → List R → Element R
  strip : List (Text × R × R) → Value → Element R
  caption_box : Value → List R → Element R
  divider_line : Option Text → Value → Element R
  tag_pill : Text → Value → Element R
  breadcrumb : List Crumb → Value → Element R
  -- each tag with its count
  tag_cloud : List (Value × Value) → Value → Element R

abbrev pub class_of : Fields → Value
class_of props = field_of (codes "className") props

-- `TONE_CLASSES`, and its members that every object inherits, by the texts of those functions.
abbrev pub tone_classes : List (Text × Text)
tone_classes =
    (codes "default", codes "callout-note")
    ∷ (codes "success", codes "callout-summary")
    ∷ (codes "warning", codes "callout-warning")
    ∷ (codes "danger", codes "callout-important")
    ∷ (codes "info", codes "callout-info")
    ∷ []

unfoldable pub class_for : (Text → Text) → List (Text × Text) → Text → Text
class_for inherited [] tone =
    if contains tone inherited_members then inherited tone else codes "undefined"
class_for inherited ((t, c) ∷ rest) tone =
    let others = class_for inherited rest tone in if t == tone then c else others

-- `[].map` of a value that may be no array, with the index; what throws for one item throws.
abbrev pub map_items : {A : Type 0} → (ℕ → Value → Option A) → ℕ → Items → Option (List A)
map_items f i nil = some []
map_items f i (cons v vs) =
    let rest = map_items f (suc i) vs in f i v >>= (λ a. rest >>= (λ found. some (a ∷ found)))

abbrev pub map_array : {A : Type 0} → (ℕ → Value → Option A) → Value → Option (List A)
map_array f (arr items) = map_items f 0 items
map_array f _ = none

-- The React key, for which a missing text is replaced by the index.
abbrev text_or_index : Value → ℕ → Text
text_or_index v index = if is_nullish v then to_decimal index else text_of v

-- `item.key?.kind === "text" ? item.key.text : String(index)`
abbrev pub strip_key : ℕ → Value → Text
strip_key index key =
    if is_kind (codes "text") (property (codes "kind") key)
    then text_or_index (property (codes "text") key) index
    else to_decimal index

module _ {R : Type 0} (render_node : Value → Option R) where
  abbrev pub strip_entry : ℕ → Value → Option (Text × R × R)
  strip_entry index item =
      if is_nullish item
      then none
      else render_node (property (codes "label") item) >>= (λ label.
        render_node (property (codes "value") item)
        >>= (λ value. some (strip_key index (property (codes "key") item), label, value)))

abbrev pub is_empty : Items → Bool
is_empty nil = true
is_empty (cons v vs) = false

-- `seg.slug && !isLast ? … : …`
abbrev pub crumbs : Items → Option (List Crumb)
crumbs nil = some []
crumbs (cons v vs) =
    let rest = crumbs vs in
    let slug = property (codes "slug") v in
    if is_nullish v
    then none
    else react_child (property (codes "label") v) >>= (λ label. rest >>= (λ found. some (
        record {
          crumb_label = label;
          link = if is_truthy slug && not (is_empty vs) then some slug else none;
        }
        ∷ found)))

abbrev pub crumbs_of : Value → Option (List Crumb)
crumbs_of (arr items) = crumbs items
crumbs_of _ = none

-- A tag of the cloud: `typeof t === "string" ? … : …`
abbrev pub tag_count : ℕ → Value → Option (Value × Value)
tag_count index (str t) = some (str t, num (codes "0"))
tag_count index undefined = none
tag_count index null = none
tag_count index v =
    some (property (codes "tag") v, or_else (property (codes "count") v) (num (codes "0")))

-- `props.label ?? children.map(child => String(child)).join("")`
abbrev pub tag_label : {R : Type 0} → (R → Text) → Value → List R → Option Text
tag_label string_of undefined nodes = some (join (map string_of nodes))
tag_label string_of null nodes = some (join (map string_of nodes))
tag_label string_of v nodes = react_child v

-- `render` of each adapter. `inherited` and `string_of` are the texts of functions and of rendered children,
-- and `render_node` is that of the render context.
module _ {R : Type 0} (inherited : Text → Text) (string_of : R → Text)
    (render_node : Value → Option R) where
  unfoldable pub panel_widget : Fields → List R → Option (Element R)
  unfolding react_child class_for field_of text_of
  panel_widget props nodes =
      let tone =
        class_for inherited tone_classes
          (text_of (or_else (field_of (codes "tone") props) (str (codes "default")))) in
      let own = text_of (or_else (class_of props) (str [])) in
      shown_if (field_of (codes "title") props)
      >>= (λ title. some (callout (codes "callout " ++ (tone ++ (codes " " ++ own))) title nodes))

  unfoldable pub section_block_widget : Fields → List R → Option (Element R)
  unfolding react_child field_of
  section_block_widget props nodes =
      let label = field_of (codes "label") props in
      let caption = field_of (codes "caption") props in
      let titled = react_child label >>= (λ title.
        shown_if caption >>= (λ below. some (titled_section title below (class_of props) nodes))) in
      if is_kind (codes "Content") label && not (is_truthy caption)
      then some (plain_section (class_of props) nodes)
      else titled

  unfoldable pub key_value_strip_widget : Fields → List R → Option (Element R)
  unfolding field_of property text_of to_decimal
  key_value_strip_widget props nodes =
      map_array (strip_entry render_node) (field_of (codes "items") props)
      >>= (λ entries. some (strip entries (class_of props)))

  unfoldable pub divider_widget : Fields → List R → Option (Element R)
  unfolding react_child field_of
  divider_widget props nodes =
      shown_if (field_of (codes "label") props)
      >>= (λ label. some (divider_line label (class_of props)))

  unfoldable pub tag_widget : Fields → List R → Option (Element R)
  unfolding react_child field_of
  tag_widget props nodes =
      tag_label string_of (field_of (codes "label") props) nodes
      >>= (λ label. some (tag_pill label (class_of props)))

  unfoldable pub breadcrumb_bar_widget : Fields → List R → Option (Element R)
  unfolding react_child field_of property
  breadcrumb_bar_widget props nodes =
      crumbs_of (field_of (codes "segments") props)
      >>= (λ parts. some (breadcrumb parts (class_of props)))

  unfoldable pub tag_cloud_widget : Fields → List R → Option (Element R)
  unfolding field_of property
  tag_cloud_widget props nodes =
      map_array tag_count (field_of (codes "tags") props)
      >>= (λ tags. some (tag_cloud tags (class_of props)))

  abbrev pub gap_or : Text → Fields → Value
  gap_or fallback props = or_else (field_of (codes "gap") props) (str fallback)

  unfoldable pub stack_widget : Fields → List R → Option (Element R)
  unfolding field_of
  stack_widget props nodes = some (stack_box (gap_or (codes "md") props) (class_of props) nodes)

  unfoldable pub inline_widget : Fields → List R → Option (Element R)
  unfolding field_of
  inline_widget props nodes = some (inline_box (gap_or (codes "sm") props) (class_of props) nodes)

  unfoldable pub text_widget : Fields → List R → Option (Element R)
  unfolding field_of
  text_widget props nodes = some (
      text_box (or_else (field_of (codes "tone") props) (str (codes "default"))) (class_of props)
        nodes)

  unfoldable pub caption_widget : Fields → List R → Option (Element R)
  unfolding field_of
  caption_widget props nodes = some (caption_box (class_of props) nodes)
