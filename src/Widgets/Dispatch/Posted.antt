-- ===== src/Widgets/Dispatch/Posted.antt =====
-- What the dispatcher posts to the server.
use mathlib.Core.Path.{subst}
use agentforum.Base.{
  Bool, true, Option, none, some, List, [], ◌++◌, ◌≡◌, refl, Text, codes, keep, All, ◌==◌, text_eq,
  either_branch,
}
use agentforum.Widgets.Values.{obj, Fields, end}
use agentforum.Widgets.Json.{FieldsJson, end_json}
use agentforum.Widgets.Encode.{encode_uri_component}
use agentforum.Widgets.Encode.Dots.{is_dots, is_dots-encoded}
use agentforum.Widgets.Encode.Plain.{encode_uri_component-All}
use agentforum.Widgets.Template.{interpolate}
use agentforum.Widgets.Template.Safe.{is_reserved, keep-All}
use agentforum.Widgets.Payload.{resolve_action_payload}
use agentforum.Widgets.Payload.Wire.{resolve_action_payload-FieldsJson}
use agentforum.Widgets.Dispatch.{
  Confirm, ActionSpec, navigate, download, server, event, copy, open_overlay, close_overlay, Action,
  Browser, Effect, posted, confirm_of, ask, ask_first, render_template, confirm_widget_action,
  or_threw, action_url, perform, dispatch_widget_action, structured_navigation_target, copy_text,
}

abbrev PayloadJson : Option Fields → Type 0
PayloadJson none = Unit
PayloadJson (some fs) = FieldsJson fs

-- The payload of a server action is JSON.
abbrev pub SpecJson : ActionSpec → Type 0
SpecJson (server name payload) = PayloadJson payload
SpecJson _ = Unit

-- The name of a server action.
abbrev pub name_of : ActionSpec → Option Text
name_of (server name payload) = some name
name_of _ = none

-- A request is that of a server action: its url is the code's own prefix with the encoded name behind it, which
-- has no delimiter and is "." or ".." exactly if the name is; and its payload is JSON.
abbrev pub IsSafe : ActionSpec → Effect → Type 0
IsSafe spec (posted url payload context) =
    ((name : Text) × (encoded : Text) × (name_of spec ≡ some name)
      × (encode_uri_component name ≡ some encoded)
      × (url ≡ action_url ++ encoded)
      × (keep is_reserved encoded ≡ [])
      × (is_dots encoded ≡ is_dots name))
    × FieldsJson payload
IsSafe spec _ = Unit

resolved-FieldsJson :
    (payload : Option Fields) (context resolved : Fields)
    → PayloadJson payload
    → resolve_action_payload payload context ≡ some resolved
    → FieldsJson resolved
unfolding resolve_action_payload
resolved-FieldsJson none context resolved h k =
    let same : end ≡ resolved = cc in subst FieldsJson same end_json
resolved-FieldsJson (some fs) context resolved h k =
    (resolve_action_payload-FieldsJson fs context resolved h k).0

posted-IsSafe :
    (name encoded : Text) (payload : Option Fields) (resolved context : Fields)
    → encode_uri_component name ≡ some encoded
    → PayloadJson payload
    → resolve_action_payload payload context ≡ some resolved
    → IsSafe (server name payload) (posted (action_url ++ encoded) resolved context)
posted-IsSafe name encoded payload resolved context e h k = (
  (
    name,
    encoded,
    refl,
    e,
    refl,
    keep-All encoded (encode_uri_component-All name encoded e),
    is_dots-encoded name encoded e,
  ),
  resolved-FieldsJson payload context resolved h k,
)

or_threw-IsSafe :
    {A : Type 0} (spec : ActionSpec) (effects : A → List Effect) (o : Option A)
    → ((a : A) → o ≡ some a → All (IsSafe spec) (effects a))
    → All (IsSafe spec) (or_threw effects o)
or_threw-IsSafe spec effects none h = (tt, tt)
or_threw-IsSafe spec effects (some a) h = h a refl

perform-IsSafe :
    (browser : Browser) (spec : ActionSpec) (confirm : Option Confirm) (context : Fields)
    → SpecJson spec
    → All (IsSafe spec) (perform browser (record { confirm = confirm; spec = spec }) context)
unfolding perform
perform-IsSafe browser (copy value field_name) confirm context h =
    either_branch (All (IsSafe (copy value field_name))) (copy_text value field_name context == [])
      tt (tt, tt)
perform-IsSafe browser (event name detail) confirm context h =
    let safe = All (IsSafe (event name detail)) in
    either_branch safe (name == codes "print") (tt, tt)
      (either_branch safe (name == codes "fullscreen") (tt, tt)
        (or_threw-IsSafe (event name detail) _ (resolve_action_payload detail context)
          (λ a e. (tt, tt))))
perform-IsSafe browser (open_overlay target) confirm context h = (tt, tt)
perform-IsSafe browser (close_overlay target) confirm context h = (tt, tt)
perform-IsSafe browser (navigate n) confirm context h =
    or_threw-IsSafe (navigate n) _ (structured_navigation_target browser n context)
      (λ a e. (either_branch (IsSafe (navigate n)) n.replace tt tt, (tt, tt)))
perform-IsSafe browser (download to) confirm context h =
    or_threw-IsSafe (download to) _ (interpolate true to (obj context)) (λ a e. (tt, tt))
perform-IsSafe browser (server name payload) confirm context h =
    or_threw-IsSafe (server name payload) _ (encode_uri_component name) (λ encoded e.
      or_threw-IsSafe (server name payload) _ (resolve_action_payload payload context)
        (λ resolved k. (posted-IsSafe name encoded payload resolved context e h k, tt)))

ask-IsSafe :
    (spec : ActionSpec) (browser : Browser) (rendered : Option Text) (effects : List Effect)
    → All (IsSafe spec) effects
    → All (IsSafe spec) (ask browser rendered effects)
unfolding ask
ask-IsSafe spec browser none effects h = (tt, tt)
ask-IsSafe spec browser (some text) effects h =
    (tt, either_branch (All (IsSafe spec)) (browser.confirmed text) h tt)

ask_first-IsSafe :
    (spec : ActionSpec) (browser : Browser) (c : Option Confirm) (context : Fields)
    (effects : List Effect)
    → All (IsSafe spec) effects
    → All (IsSafe spec) (ask_first browser c context effects)
unfolding ask_first
ask_first-IsSafe spec browser none context effects h = h
ask_first-IsSafe spec browser (some c) context effects h =
    ask-IsSafe spec browser (render_template c context) effects h

-- Whatever the dispatcher posts, it posts for a server action, to the url that is the code's own prefix with the
-- encoded name of the action behind it. In that there is no delimiter, and it is "." or "..", which a browser
-- takes for a step in the path, exactly if the name is. And the payload is JSON, if the action's payload is.
pub dispatch_widget_action-IsSafe :
    (browser : Browser) (has_handler : Bool) (action : Action) (context : Fields)
    → SpecJson action.spec
    → All (IsSafe action.spec) (dispatch_widget_action browser has_handler action context)
unfolding dispatch_widget_action confirm_widget_action
dispatch_widget_action-IsSafe browser has_handler action context h =
    either_branch (All (IsSafe action.spec)) has_handler (tt, tt)
      (ask_first-IsSafe action.spec browser (confirm_of action.confirm) context
        (perform browser action context)
        (perform-IsSafe browser action.spec action.confirm context h))
