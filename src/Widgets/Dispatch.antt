-- ===== src/Widgets/Dispatch.antt =====
-- web/src/widgets/actions.ts: the dispatcher of serialized actions (web/src/widgets/ir/actions.ts), in a
-- browser. What it does to the browser is the list of its effects, and a thrown error ends the list.
pub mod Consent
pub mod Pairs
pub mod Opened
pub mod Posted
use mathlib.Core.Option
use agentforum.Base.{
  Bool, true, false, not, ◌&&◌, ◌||◌, Option, none, some, ◌>>=◌, List, [], ◌∷◌, ◌++◌, map, Text,
  codes, ◌==◌, text_eq, if◌then◌else◌,
}
use agentforum.Widgets.Values.{
  Value, undefined, null, bool, num, str, other, arr, obj, Items, nil, cons, Fields, end, field,
  is_object, is_nullish, field_of, shown_text,
}
use agentforum.Widgets.Encode.{encode_uri_component}
use agentforum.Widgets.Template.{interpolate}
use agentforum.Widgets.Payload.{
  resolve_template_part, resolve_template_part_or_literal, resolve_action_payload, set_field,
}

-- `confirm`: a text, or the parts of a template.
pub data Confirm : Type 0 where
  prompt : Text → Confirm
  template : Items → Confirm

pub record NavigateAction : Type 0 where
  pub to : Text
  pub params : Option Fields
  pub query : Option Fields
  pub preserve_query : Option (List Text)
  pub omit_empty : Bool
  pub replace : Bool

pub data ActionSpec : Type 0 where
  navigate : NavigateAction → ActionSpec
  download : Text → ActionSpec
  server : Text → Option Fields → ActionSpec
  event : Text → Option Fields → ActionSpec
  copy : Option Text → Option Text → ActionSpec
  open_overlay : Text → ActionSpec
  close_overlay : Option Text → ActionSpec

pub record Action : Type 0 where
  pub confirm : Option Confirm
  pub spec : ActionSpec

-- The browser, which is not modelled: the user's answer to a prompt, the address, and the URL classes.
pub record Browser : Type 1 where
  pub confirmed : Text → Bool
  pub href : Text
  pub Url : Type 0
  pub parse_url : Text → Text → Option Url
  pub pathname : Url → Text
  pub search : Url → Text
  pub hash : Url → Text
  pub with_search : Text → Url → Url
  pub get_all : Url → Text → List Text
  pub params_text : List (Text × Text) → Text

pub data Effect : Type 0 where
  -- the handler is called
  handled : Action → Fields → Effect
  asked : Text → Effect
  copied : Text → Effect
  printed : Effect
  toggled_fullscreen : Effect
  -- an event of this name is dispatched
  dispatched : Text → Fields → Effect
  overlay : Action → Fields → Effect
  replaced_state : Fields → Text → Effect
  pushed_state : Fields → Text → Effect
  popped_state : Effect
  downloaded : Text → Effect
  -- a request, with its payload and context
  posted : Text → Fields → Fields → Effect
  threw : Effect

unfoldable pub render_parts : Items → Fields → Option Text
unfolding resolve_template_part shown_text
render_parts nil context = some []
render_parts (cons part parts) context = do
  value ← resolve_template_part part context
  rest ← render_parts parts context
  some (shown_text value ++ rest)

unfoldable pub render_template : Confirm → Fields → Option Text
unfolding interpolate render_parts
render_template (prompt text) context = interpolate false text (obj context)
render_template (template parts) context = render_parts parts context

-- `action.confirm` that is not falsy
abbrev pub confirm_of : Option Confirm → Option Confirm
confirm_of none = none
confirm_of (some (prompt [])) = none
confirm_of (some (prompt (c ∷ t))) = some (prompt (c ∷ t))
confirm_of (some (template parts)) = some (template parts)

-- The effects of asking, followed by those of the action if the answer is yes.
unfoldable pub ask : Browser → Option Text → List Effect → List Effect
ask browser none effects = threw ∷ []
ask browser (some text) effects = asked text ∷ (if browser.confirmed text then effects else [])

unfoldable pub ask_first : Browser → Option Confirm → Fields → List Effect → List Effect
unfolding ask render_template
ask_first browser none context effects = effects
ask_first browser (some c) context effects = ask browser (render_template c context) effects

unfoldable pub confirm_widget_action : Browser → Action → Fields → List Effect → List Effect
unfolding ask_first
confirm_widget_action browser action context effects =
    ask_first browser (confirm_of action.confirm) context effects

-- The text to copy: the value, or the field of the row.
unfoldable pub copy_text : Option Text → Option Text → Fields → Text
unfolding field_of shown_text
copy_text (some value) field_name context = value
copy_text none none context = []
copy_text none (some []) context = []
copy_text none (some (c ∷ t)) context = elim (field_of (codes "row") context) [
  | obj row ↦ shown_text (field_of (c ∷ t) row)
  | _ ↦ []
]

abbrev pub values_of : Value → Items
values_of (arr items) = items
values_of value = cons value nil

abbrev pub is_empty : Value → Bool
is_empty (str []) = true
is_empty value = is_nullish value

-- The pairs of one key of the query.
unfoldable pub key_pairs : Bool → Text → Items → Fields → Option (List (Text × Text))
unfolding resolve_template_part_or_literal shown_text
key_pairs omit_empty key nil context = some []
key_pairs omit_empty key (cons value values) context = do
  resolved ← resolve_template_part_or_literal value context
  pairs ← key_pairs omit_empty key values context
  some (if omit_empty && is_empty resolved then pairs else (key, shown_text resolved) ∷ pairs)

unfoldable pub query_pairs : Bool → Fields → Fields → Option (List (Text × Text))
unfolding key_pairs
query_pairs omit_empty end context = some []
query_pairs omit_empty (field key raw query) context = do
  pairs ← key_pairs omit_empty key (values_of raw) context
  rest ← query_pairs omit_empty query context
  some (pairs ++ rest)

abbrev fields_or_end : Option Fields → Fields
fields_or_end none = end
fields_or_end (some fs) = fs

abbrev is_some {ℓ} : {A : Type ℓ} → Option A → Bool
is_some none = false
is_some (some a) = true

-- The pairs that the address has under the keys to preserve.
unfoldable pub preserved_pairs : Browser → List Text → Option (List (Text × Text))
preserved_pairs browser [] = some []
preserved_pairs browser (key ∷ keys) = do
  url ← browser.parse_url browser.href browser.href
  rest ← preserved_pairs browser keys
  some (map (λ value. (key, value)) (browser.get_all url key) ++ rest)

unfoldable pub structured_navigation_target : Browser → NavigateAction → Fields → Option Text
unfolding interpolate preserved_pairs query_pairs
structured_navigation_target browser action context = do
  to ← interpolate true action.to (obj context)
  base ← browser.parse_url to browser.href
  preserved ← preserved_pairs browser (Option.get_or action.preserve_query [])
  pairs ← query_pairs action.omit_empty (fields_or_end action.query) context
  let url =
      if is_some action.query || is_some action.preserve_query
      then browser.with_search (browser.params_text (preserved ++ pairs)) base
      else base
  some (browser.pathname url ++ (browser.search url ++ browser.hash url))

abbrev pub or_threw {ℓ} : {A : Type ℓ} → (A → List Effect) → Option A → List Effect
or_threw effects none = threw ∷ []
or_threw effects (some a) = effects a

abbrev action_url : Text
action_url = codes "/api/widget/actions/"

unfoldable pub perform : Browser → Action → Fields → List Effect
unfolding copy_text structured_navigation_target resolve_action_payload set_field
    encode_uri_component interpolate
perform browser action context = elim action.spec [
  | copy value field_name ↦
      let text = copy_text value field_name context in if text == [] then [] else copied text ∷ []
  | event name detail ↦
      let custom =
        or_threw
          (λ resolved. dispatched name (set_field (codes "context") (obj context) resolved) ∷ [])
          (resolve_action_payload detail context) in
      if name == codes "print"
      then printed ∷ []
      else if name == codes "fullscreen"
      then toggled_fullscreen ∷ []
      else custom
  | open_overlay target ↦ overlay action context ∷ []
  | close_overlay target ↦ overlay action context ∷ []
  | navigate n ↦
      or_threw
        (λ target.
          (if n.replace
            then replaced_state (fields_or_end n.params) target
            else pushed_state (fields_or_end n.params) target)
          ∷ popped_state
          ∷ [])
        (structured_navigation_target browser n context)
  | download to ↦ or_threw (λ target. downloaded target ∷ []) (interpolate true to (obj context))
  | server name payload ↦
      or_threw
        (λ encoded.
          or_threw (λ resolved. posted (action_url ++ encoded) resolved context ∷ [])
            (resolve_action_payload payload context))
        (encode_uri_component name)
]

-- The handler, if there is one, is called in place of all else.
unfoldable pub dispatch_widget_action : Browser → Bool → Action → Fields → List Effect
unfolding confirm_widget_action perform
dispatch_widget_action browser has_handler action context =
    if has_handler
    then handled action context ∷ []
    else confirm_widget_action browser action context (perform browser action context)

-- The callback of an action that is there.
unfoldable pub bind_action : Browser → Bool → Option Action → Fields → Option (List Effect)
unfolding dispatch_widget_action
bind_action browser has_handler none context = none
bind_action browser has_handler (some action) context = some (
    if has_handler
    then handled action context ∷ []
    else dispatch_widget_action browser false action context)
