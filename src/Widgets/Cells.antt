-- ===== src/Widgets/Cells.antt =====
-- web/src/widgets/cellRenderers.tsx: the cells of a table, whose kinds (web/src/widgets/ir/cells.ts) are
-- data. What is shown is given as data; the formats of numbers are the language's, a parameter.
pub mod Templates
use mathlib.Core.Option
use agentforum.Base.{
  ℕ, Bool, true, false, not, ◌&&◌, ◌||◌, Option, none, some, List, [], ◌∷◌, ◌++◌, map, Text, codes,
  join, contains, inherited_members, ◌==◌, text_eq, if◌then◌else◌,
}
use agentforum.Widgets.Values.{
  Value, undefined, null, bool, num, str, other, arr, obj, Fields, end, field, is_nullish,
  is_object, property, text_of,
}
use agentforum.Widgets.Paths.{walk, parts_of}
use agentforum.Widgets.Template.{Piece, unit, braced, bare, pieces}
use agentforum.Widgets.Dispatch.{Action}

pub data RowKeySpec : Type 0 where
  path_key field_key template_key : Text → RowKeySpec

pub data CaptionTone : Type 0 where
  default muted danger success : CaptionTone

pub data CellSpec : Type 0 where
  field_cell : Text → Option Text → CellSpec
  -- whether the format is "fixed", the digits and the fallback
  number_cell : Text → Bool → Option ℕ → Option Text → CellSpec
  status_cell : Text → Option Text → CellSpec
  caption_cell : Text → Option CaptionTone → Option Text → CellSpec
  template_cell : Text → CellSpec
  -- the fields of the address and of the label, the target, and the fallback of the label
  link_cell : Text → Text → Option Text → Option Text → CellSpec
  action_button : Value → Action → Bool → CellSpec
  constant : Value → CellSpec
  -- any other kind
  unsupported_cell : CellSpec

-- The language's numbers, by the texts that `String` makes of them.
pub record Numbers : Type 0 where
  pub to_number : Value → Text
  pub is_finite : Text → Bool
  pub to_fixed : ℕ → Text → Text
  pub to_rounded : Text → Text

-- The class for a tone: one of the table, the default, or an inherited member, which is no text.
pub data ToneClass : Type 0 where
  tone_class inherited_class : Text → ToneClass

-- What is rendered.
pub data View : Type 0 where
  nothing unsupported : View
  text_view : Text → View
  node_view : Value → View
  status_view : ToneClass → Text → View
  caption_view : Text → Text → View
  -- the address, the label, the target, and `rel`
  link_view : Text → Text → Option Text → Option Text → View
  -- a button with what it dispatches when it is clicked
  button_view : Bool → View → Action → Fields → View

abbrev pub get_path : Fields → Text → Value
get_path row path = walk (parts_of path) (obj row)

abbrev pub stringify : Value → Text → Text
stringify value fallback = if is_nullish value then fallback else text_of value

abbrev pub number_of : Numbers → Value → Text
number_of numbers (num t) = t
number_of numbers value = numbers.to_number value

unfoldable pub format_number : Numbers → Value → Bool → Option ℕ → Option Text → Text
format_number numbers value fixed digits fallback =
    let n = number_of numbers value in
    if not (numbers.is_finite n)
    then Option.get_or fallback []
    else if fixed
    then numbers.to_fixed (Option.get_or digits 2) n
    else numbers.to_rounded n

-- What is put at a piece of a template.
abbrev pub piece_text : Fields → Piece → Text
piece_text row (unit c) = c ∷ []
piece_text row (braced path) = stringify (get_path row path) []
piece_text row (bare path) = stringify (get_path row path) []

unfoldable pub render_row_template : Text → Fields → Text
render_row_template template row = join (map (piece_text row) (pieces template))

unfoldable pub row_key : Fields → RowKeySpec → Text
unfolding render_row_template
row_key row (path_key path) = stringify (get_path row path) []
row_key row (field_key path) = stringify (get_path row path) []
row_key row (template_key template) = render_row_template template row

-- web/src/widgets/ir/core.ts `isWidgetNode`
abbrev pub is_kind : Text → Value → Bool
is_kind kind (str t) = t == kind
is_kind kind _ = false

unfoldable pub is_widget_node : Value → Bool
unfolding property
is_widget_node value =
    let kind = property (codes "kind") value in
    is_object value
    && (is_kind (codes "text") kind
        || is_kind (codes "element") kind
        || is_kind (codes "component") kind)

unfoldable pub render_renderable : Value → View
render_renderable undefined = nothing
render_renderable null = nothing
render_renderable (bool false) = nothing
render_renderable value =
    if is_widget_node value then node_view value else text_view (text_of value)

abbrev pub ink_class : Text
ink_class = codes "text-[var(--color-ink)]"

abbrev tag_class : Text
tag_class = codes "text-[var(--color-tag)]"

abbrev muted_class : Text
muted_class = codes "text-[var(--color-muted-foreground)]"

abbrev danger_class : Text
danger_class = codes "text-[var(--color-destructive-accent)]"

abbrev pub status_tones : List (Text × Text)
status_tones =
    (codes "ready", tag_class)
    ∷ (codes "published", tag_class)
    ∷ (codes "done", tag_class)
    ∷ (codes "draft", muted_class)
    ∷ (codes "pending", muted_class)
    ∷ (codes "review", codes "text-[#cc7700]")
    ∷ (codes "error", danger_class)
    ∷ (codes "failed", danger_class)
    ∷ []

abbrev pub find_tone : Text → List (Text × Text) → ToneClass
find_tone status [] =
    if contains status inherited_members then inherited_class status else tone_class ink_class
find_tone status ((name, class_name) ∷ tones) =
    if name == status then tone_class class_name else find_tone status tones

abbrev pub caption_tones : CaptionTone → Text
caption_tones default = ink_class
caption_tones muted = muted_class
caption_tones danger = danger_class
caption_tones success = tag_class

abbrev pub rel_of : Option Text → Option Text
rel_of none = none
rel_of (some target) = if target == codes "_blank" then some (codes "noreferrer") else none

-- What a button in a cell dispatches.
abbrev pub cell_context : Fields → RowKeySpec → Fields
cell_context row keys = field (codes "row") (obj row) (
    field (codes "rowKey") (str (row_key row keys))
      (field (codes "componentType") (str (codes "DataTableCell")) end))

unfoldable pub render_cell : Numbers → CellSpec → Fields → Option RowKeySpec → View
unfolding row_key render_renderable format_number
render_cell numbers (field_cell path fallback) row keys =
    text_view (stringify (get_path row path) (Option.get_or fallback []))
render_cell numbers (number_cell path fixed digits fallback) row keys =
    text_view (format_number numbers (get_path row path) fixed digits fallback)
render_cell numbers (status_cell path fallback) row keys =
    let status = stringify (get_path row path) (Option.get_or fallback (codes "pending")) in
    status_view (find_tone status status_tones) status
render_cell numbers (caption_cell path tone fallback) row keys =
    caption_view (caption_tones (Option.get_or tone muted))
      (stringify (get_path row path) (Option.get_or fallback []))
render_cell numbers (template_cell template) row keys = text_view (render_row_template template row)
render_cell numbers (link_cell href_field label_field target fallback) row keys =
    let href = stringify (get_path row href_field) (codes "#") in
    link_view href (stringify (get_path row label_field) (Option.get_or fallback href)) target
      (rel_of target)
render_cell numbers (action_button label action disabled) row keys =
    button_view disabled (render_renderable label) action
      (cell_context row (Option.get_or keys (path_key (codes "id"))))
render_cell numbers (constant value) row keys = render_renderable value
render_cell numbers unsupported_cell row keys = unsupported
