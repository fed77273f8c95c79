-- ===== src/Widgets/Shapes.antt =====
-- The types of what a page sends, as tests of its values: web/src/widgets/ir/core.ts, actions.ts and
-- cells.ts. Those of the widgets' properties are in Shapes/Props.antt.
pub mod Props
pub mod Threads
use agentforum.Base.{
  Bool, true, false, ◌&&◌, ◌||◌, List, [], ◌∷◌, Text, codes, contains, ◌==◌, text_eq, if◌then◌else◌,
}
use agentforum.Widgets.Values.{
  Value, undefined, null, bool, num, str, other, arr, obj, Items, nil, cons, Fields, end, field,
  field_of,
}

-- A type, by the test whether a value has it.
abbrev pub Shape : Type 0
Shape = Value → Bool

abbrev pub text_shape : Shape
text_shape (str t) = true
text_shape _ = false

abbrev pub number_shape : Shape
number_shape (num t) = true
number_shape _ = false

abbrev pub bool_shape : Shape
bool_shape (bool b) = true
bool_shape _ = false

abbrev pub null_shape : Shape
null_shape null = true
null_shape _ = false

-- A union of texts.
abbrev pub one_of : List Text → Shape
one_of ts (str t) = contains t ts
one_of ts _ = false

abbrev pub either_shape : Shape → Shape → Shape
either_shape a b v = a v || b v

-- `key?: T`
abbrev pub optional_shape : Shape → Shape
optional_shape shape undefined = true
optional_shape shape v = shape v

abbrev pub all_items : Shape → Items → Bool
all_items shape nil = true
all_items shape (cons v vs) = shape v && all_items shape vs

-- `T[]`
abbrev pub list_of : Shape → Shape
list_of shape (arr items) = all_items shape items
list_of shape _ = false

-- The members of an interface.
abbrev pub Members : Type 0
Members = List (Text × Shape)

unfoldable pub has_members : Members → Fields → Bool
unfolding field_of
has_members [] fs = true
has_members ((k, shape) ∷ members) fs = shape (field_of k fs) && has_members members fs

abbrev pub object_of : Members → Shape
object_of members (obj fs) = has_members members fs
object_of members _ = false

-- `JsonValue`: no member is `undefined`, and no value is a function or a bigint.
unfoldable mutual
  pub json_value : Shape
  json_value undefined = false
  json_value null = true
  json_value (bool b) = true
  json_value (num t) = true
  json_value (str t) = true
  json_value (other t) = false
  json_value (arr items) = json_items items
  json_value (obj fs) = json_fields fs

  pub json_items : Items → Bool
  json_items nil = true
  json_items (cons v vs) = json_value v && json_items vs

  pub json_fields : Fields → Bool
  json_fields end = true
  json_fields (field k v fs) = json_value v && json_fields fs

unfoldable pub json_object : Shape
unfolding json_value
json_object (obj fs) = json_fields fs
json_object _ = false

abbrev pub any_record : Shape
any_record (obj fs) = true
any_record _ = false

abbrev pub any_value : Shape
any_value v = true

-- `kind: "…"`, and the members beside it.
abbrev pub kind_with : Text → Members → Shape
kind_with kind members = object_of ((codes "kind", one_of (kind ∷ [])) ∷ members)

-- What is asked of a node beside its children.
unfoldable pub node_head : Shape
unfolding has_members json_object
node_head v =
    kind_with (codes "text") ((codes "text", text_shape) ∷ []) v
    || kind_with (codes "element")
        ((codes "tag", text_shape) ∷ (codes "attrs", optional_shape json_object) ∷ []) v
    || kind_with (codes "component")
        ((codes "type", text_shape) ∷ (codes "props", optional_shape any_record) ∷ []) v

-- `WidgetNode`
unfoldable mutual
  unfolding node_head

  pub widget_node : Shape
  widget_node (obj fs) = node_head (obj fs) && children_shape fs
  widget_node _ = false

  pub children_shape : Fields → Bool
  children_shape end = true
  children_shape (field k v fs) =
      let these = optional_nodes v in
      let others = children_shape fs in if k == codes "children" then these else others

  pub optional_nodes : Shape
  optional_nodes undefined = true
  optional_nodes (arr items) = node_items items
  optional_nodes _ = false

  pub node_items : Items → Bool
  node_items nil = true
  node_items (cons v vs) = widget_node v && node_items vs

-- `RenderableValue`
unfoldable pub renderable_value : Shape
unfolding widget_node
renderable_value v = widget_node v || text_shape v || number_shape v || bool_shape v || null_shape v

-- `TemplateSpec` and its parts
unfoldable pub template_part : Shape
unfolding has_members json_value
template_part v =
    kind_with (codes "text") ((codes "text", text_shape) ∷ []) v
    || kind_with (codes "path") ((codes "path", text_shape) ∷ []) v
    || kind_with (codes "literal") ((codes "value", json_value) ∷ []) v

unfoldable pub template_spec : Shape
unfolding has_members template_part
template_spec = object_of (
    (codes "kind", optional_shape (one_of (codes "template" ∷ [])))
    ∷ (codes "parts", list_of template_part)
    ∷ [])

-- An action of a kind, with `ActionSpecBase`.
unfoldable pub action_of : Text → Members → Shape
unfolding has_members template_spec
action_of kind members =
    kind_with kind
      ((codes "confirm", optional_shape (either_shape text_shape template_spec)) ∷ members)

unfoldable pub payload_shape : Shape
unfolding has_members json_object
payload_shape v =
    json_object v || kind_with (codes "payloadTemplate") ((codes "fields", json_object) ∷ []) v

-- `ActionSpec`
unfoldable pub action_spec : Shape
unfolding action_of json_object payload_shape has_members
action_spec v =
    action_of (codes "navigate")
      ((codes "to", text_shape)
        ∷ (codes "params", optional_shape json_object)
        ∷ (codes "query", optional_shape json_object)
        ∷ (codes "preserveQuery", optional_shape (list_of text_shape))
        ∷ (codes "omitEmpty", optional_shape bool_shape)
        ∷ (codes "replace", optional_shape bool_shape)
        ∷ [])
      v
    || action_of (codes "download")
        ((codes "to", text_shape) ∷ (codes "params", optional_shape json_object) ∷ []) v
    || action_of (codes "server")
        ((codes "name", text_shape) ∷ (codes "payload", optional_shape payload_shape) ∷ []) v
    || action_of (codes "event")
        ((codes "event", text_shape) ∷ (codes "detail", optional_shape json_object) ∷ []) v
    || action_of (codes "copy")
        ((codes "value", optional_shape text_shape)
          ∷ (codes "field", optional_shape text_shape)
          ∷ [])
        v
    || action_of (codes "openOverlay") ((codes "target", text_shape) ∷ []) v
    || action_of (codes "closeOverlay") ((codes "target", optional_shape text_shape) ∷ []) v
