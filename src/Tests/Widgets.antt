-- ===== src/Tests/Widgets.antt =====
-- The widgets' templates and payloads at concrete inputs.
use mathlib.Core.Option
use agentforum.Base.{
  All, ap, ◌⊎◌, true, false, none, some, [], ◌∷◌, ◌++◌, ◌≡◌, refl, Text, codes, keep, to_decimal,
  of_decimal,
}
use agentforum.Widgets.Values.{
  Value, undefined, null, bool, num, str, other, arr, obj, nil, cons, end, field, text_of, property,
}
use agentforum.Widgets.Values.{Fields}
use agentforum.Widgets.Paths.{lookup_context}
use agentforum.Widgets.Json.{to_json_value}
use agentforum.Widgets.Json.{field_json, str_json, obj_json, end_json}
use agentforum.Widgets.Payload.{resolve_action_payload}
use agentforum.Widgets.Dispatch.{
  Action, Browser, prompt, server, asked, posted, confirm_of, render_template, perform,
  dispatch_widget_action,
}
use agentforum.Widgets.Dispatch.Consent.{acts, dispatch_widget_action-consent}
use agentforum.Widgets.Dispatch.Posted.{SpecJson, IsSafe, dispatch_widget_action-IsSafe}
use agentforum.Widgets.Encode.{encode_uri_component}
use agentforum.Widgets.Template.{pieces, interpolate}
use agentforum.Widgets.Template.Safe.{is_reserved, kept, interpolate-reserved}

abbrev context : Value
context = obj (
    field (codes "row")
      (obj
        (field (codes "slug") (str (codes "a/b?c&d é")) (field (codes "n") (num (codes "7")) end)))
      (field (codes "tags") (arr (cons (str (codes "x")) (cons null (cons (bool true) nil)))) end))

abbrev target : Text
target = codes "/note/${row.slug}?n=$row.n&$x=${tags}$"

abbrev filled : Text
filled = codes "/note/a%2Fb%3Fc%26d%20%C3%A9?n=7&=x%2C%2Ctrue$"

shut : Unit {0}
unfolding interpolate lookup_context to_json_value encode_uri_component text_of property to_decimal
    of_decimal
shut = tt

interpolate_runs :
    (interpolate true target context ≡ some filled)
    × (interpolate false (codes "Delete $row.n of ${tags.2}?") context
        ≡ some (codes "Delete 7 of true?"))
    × (interpolate true (codes "$lone") (obj (field (codes "lone") (str (0xD800 ∷ [])) end)) ≡ none)
unfolding shut
interpolate_runs = (refl, refl, refl)

json_runs :
    to_json_value (arr (cons undefined (cons (other (codes "7")) nil)))
    ≡ arr (cons null (cons (str (codes "7")) nil))
unfolding shut
json_runs = refl

run : interpolate true target context ≡ some filled
unfolding shut
run = refl

interpolate-reserved_example : keep is_reserved filled ≡ keep is_reserved (kept (pieces target))
interpolate-reserved_example = interpolate-reserved target context filled run

-- A browser whose user says yes, and whose URLs are their own text.
abbrev browser : Browser
browser = record {
  confirmed = λ text. true;
  href = codes "/inbox";
  Url = Text;
  parse_url = λ text base. some text;
  pathname = λ url. url;
  search = λ url. [];
  hash = λ url. [];
  with_search = λ pairs url. url ++ (codes "?" ++ pairs);
  get_all = λ url key. [];
  params_text = λ pairs. codes "q";
}

abbrev save : Action
save = record {
  confirm = some (prompt (codes "Save $row.n?"));
  spec = server (codes "save/../x") (
      some (
        field (codes "kind") (str (codes "payloadTemplate")) (
          field (codes "fields")
            (obj (
              field (codes "n")
                (obj (
                  field (codes "kind") (str (codes "path"))
                    (field (codes "path") (str (codes "row.n")) end)))
                end))
            end)));
}

abbrev row_fields : Fields
row_fields = field (codes "row") (obj (field (codes "n") (num (codes "7")) end)) end

dispatch_runs :
    dispatch_widget_action browser false save row_fields
    ≡ asked (codes "Save 7?")
      ∷ posted
          (codes "/api/widget/actions/save%2F..%2Fx")
          (field (codes "n") (num (codes "7")) end)
          row_fields
      ∷ []
unfolding shut dispatch_widget_action
dispatch_runs = refl

dispatch_widget_action-consent_example :
    (confirm_of save.confirm ≡ none)
    ⊎ ((text : Text) × (Option.map (λ d. render_template d row_fields) (confirm_of save.confirm)
          ≡ some (some text))
        × (dispatch_widget_action browser false save row_fields
            ≡ asked text ∷ perform browser save row_fields)
        × (browser.confirmed text ≡ true))
dispatch_widget_action-consent_example =
    dispatch_widget_action-consent browser save row_fields (ap acts dispatch_runs)

save-SpecJson : SpecJson save.spec
save-SpecJson = field_json str_json (
    field_json
      (obj_json
        (field_json (obj_json (field_json str_json (field_json str_json end_json))) end_json))
      end_json)

dispatch_widget_action-IsSafe_example :
    All (IsSafe save.spec) (dispatch_widget_action browser false save row_fields)
dispatch_widget_action-IsSafe_example =
    dispatch_widget_action-IsSafe browser false save row_fields save-SpecJson

abbrev plain_payload : Fields
plain_payload = field (codes "id") (str (codes "p1")) end

resolved_run : resolve_action_payload (some plain_payload) row_fields ≡ some plain_payload
unfolding shut resolve_action_payload
resolved_run = refl
