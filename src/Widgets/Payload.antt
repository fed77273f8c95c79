-- ===== src/Widgets/Payload.antt =====
-- web/src/widgets/actions.ts: what an action sends, whose parts are given, or looked up in the context,
-- which is an object. `none` is a thrown TypeError: a path or a template that is no text.
pub mod Wire
use mathlib.Core.Option
use agentforum.Base.{
  ℕ, suc, Bool, true, false, ◌&&◌, ◌||◌, Option, none, some, ◌>>=◌, List, [], ◌∷◌, ◌++◌, Text,
  codes, ◌==◌, text_eq, if◌then◌else◌, to_decimal,
}
use agentforum.Widgets.Values.{
  Value, undefined, null, bool, num, str, other, arr, obj, Items, nil, cons, Fields, end, field,
  is_object, or_else, property, field_of, shown_text,
}
use agentforum.Widgets.Paths.{lookup_context}
use agentforum.Widgets.Json.{to_json_value}
use agentforum.Widgets.Template.{interpolate}

-- `value === "..."`
abbrev is_text : Value → Text → Bool
is_text (str t) u = t == u
is_text _ u = false

-- `key in fields`
unfoldable pub has_field : Text → Fields → Bool
has_field key end = false
has_field key (field k v fs) = k == key || has_field key fs

unfoldable pub set_field : Text → Value → Fields → Fields
set_field key value end = field key value end
set_field key value (field k v fs) =
    let later = set_field key value fs in if k == key then field k value fs else field k v later

-- `lookupContext` at a path that may be no text
unfoldable pub look_up : Value → Value → Option Value
unfolding lookup_context
look_up (str path) context = some (lookup_context path context)
look_up _ context = none

unfoldable pub is_template_part : Value → Bool
unfolding property
is_template_part value =
    let kind = property (codes "kind") value in
    is_object value
    && (is_text kind (codes "path")
        || is_text kind (codes "text")
        || is_text kind (codes "literal"))

unfoldable pub is_accessor : Value → Bool
unfolding field_of
is_accessor (obj fs) = is_text (field_of (codes "kind") fs) (codes "accessor")
is_accessor _ = false

unfoldable pub is_const_binding : Value → Bool
unfolding field_of has_field
is_const_binding (obj fs) =
    has_field (codes "value") fs && is_text (field_of (codes "kind") fs) (codes "const")
is_const_binding _ = false

unfoldable pub resolve_template_part : Value → Fields → Option Value
unfolding property look_up
resolve_template_part part context =
    let kind = property (codes "kind") part in
    if is_text kind (codes "path")
    then look_up (property (codes "path") part) (obj context)
    else if is_text kind (codes "text")
    then some (property (codes "text") part)
    else some (property (codes "value") part)

-- `interpolate` of a template that may be no text, for people
unfoldable pub interpolate_value : Value → Fields → Option Value
unfolding interpolate
interpolate_value (str template) context = Option.map str (interpolate false template (obj context))
interpolate_value _ context = none

abbrev empty_text : Value
empty_text = str []

unfoldable pub resolve_accessor : Value → Fields → Option Value
unfolding property look_up interpolate_value set_field
resolve_accessor accessor context =
    let row = or_else (property (codes "row") (obj context)) (obj end) in
    let mode = property (codes "mode") accessor in
    let at_key = λ (key : Text). or_else (property key accessor) empty_text in
    if is_text mode (codes "context")
    then look_up (at_key (codes "path")) (obj context)
    else if is_text mode (codes "field")
    then look_up (at_key (codes "field")) row
    else if is_text mode (codes "path")
    then look_up (at_key (codes "path")) row
    else if is_text mode (codes "map")
    then look_up (at_key (codes "mapField")) row
    else if is_text mode (codes "template")
    then interpolate_value (at_key (codes "template")) (set_field (codes "row") row context)
    else some undefined

unfoldable pub resolve_template_part_or_literal : Value → Fields → Option Value
unfolding is_template_part is_accessor is_const_binding resolve_template_part resolve_accessor
    property to_json_value
resolve_template_part_or_literal value context =
    if is_template_part value
    then Option.map to_json_value (resolve_template_part value context)
    else if is_accessor value
    then Option.map to_json_value (resolve_accessor value context)
    else if is_const_binding value
    then some (property (codes "value") value)
    else some value

-- The loop over the entries of an object, which keeps their keys; no key is `__proto__`.
unfoldable pub resolve_fields : Fields → Fields → Option Fields
unfolding resolve_template_part_or_literal
resolve_fields end context = some end
resolve_fields (field k v fs) context = do
  resolved ← resolve_template_part_or_literal v context
  rest ← resolve_fields fs context
  some (field k resolved rest)

-- `Object.entries`: an array's keys are its indices.
abbrev item_entries : ℕ → Items → Fields
item_entries n nil = end
item_entries n (cons v vs) = field (to_decimal n) v (item_entries (suc n) vs)

abbrev pub entries : Value → Fields
entries (obj fs) = fs
entries (arr items) = item_entries 0 items
entries _ = end

unfoldable pub is_payload_template : Fields → Bool
unfolding field_of
is_payload_template payload =
    is_text (field_of (codes "kind") payload) (codes "payloadTemplate")
    && is_object (field_of (codes "fields") payload)

-- The entries that are resolved.
unfoldable pub payload_fields : Fields → Fields
unfolding is_payload_template field_of
payload_fields payload =
    if is_payload_template payload then entries (field_of (codes "fields") payload) else payload

unfoldable pub resolve_action_payload : Option Fields → Fields → Option Fields
unfolding payload_fields resolve_fields
resolve_action_payload none context = some end
resolve_action_payload (some payload) context = resolve_fields (payload_fields payload) context
