-- ===== src/Widgets/Payload/Wire.antt =====
-- What is sent is JSON, under the keys of the payload that is given.
use mathlib.Core.Option
use mathlib.Core.Path.{subst}
use agentforum.Base.{
  ℕ, suc, true, Bool-cases, Option, none, some, >>=-eq-some, List, [], ◌∷◌, ◌≡◌, refl, sym, ap, ◌⊎◌,
  inl, inr, arith, Text, codes, ◌==◌, text_eq, if_true, if_false, either_branch,
}
use agentforum.Widgets.Values.{Value, undefined, obj, Items, Fields, end, field, property, field_of}
use agentforum.Widgets.Json.{
  IsJson, null_json, bool_json, num_json, str_json, arr_json, obj_json, AllJson, nil_json,
  cons_json, FieldsJson, end_json, field_json, to_json_value, to_json_value_lem,
}
use agentforum.Widgets.Payload.{
  has_field, is_template_part, is_accessor, is_const_binding, resolve_template_part,
  resolve_accessor, resolve_template_part_or_literal, resolve_fields, entries, item_entries,
  is_payload_template, payload_fields, resolve_action_payload,
}

abbrev pub keys : Fields → List Text
keys end = []
keys (field k v fs) = k ∷ keys fs

-- A value that is there is JSON.
abbrev JsonIfSome : Option Value → Type 0
JsonIfSome none = Unit
JsonIfSome (some v) = IsJson v

mapped-JsonIfSome : (o : Option Value) → JsonIfSome (Option.map to_json_value o)
mapped-JsonIfSome none = tt
mapped-JsonIfSome (some v) = (to_json_value_lem v).0

field_of-IsJson :
    (key : Text) {fs : Fields} → FieldsJson fs → has_field key fs ≡ true → IsJson (field_of key fs)
unfolding has_field field_of
field_of-IsJson key end_json h = absurd (cc h)
field_of-IsJson key (field_json {k} {v} {fs} h hs) e = elim (Bool-cases (k == key)) [
  | inl same ↦ subst IsJson (sym (if_true v (field_of key fs) same)) h
  | inr differs ↦
      subst IsJson (sym (if_false v (field_of key fs) differs))
        (field_of-IsJson key hs (ground (arith, e, differs)))
]

abbrev AbsentOrJson : Value → Type 0
AbsentOrJson v = (v ≡ undefined) ⊎ IsJson v

field_of-AbsentOrJson : (key : Text) {fs : Fields} → FieldsJson fs → AbsentOrJson (field_of key fs)
unfolding field_of
field_of-AbsentOrJson key end_json = inl refl
field_of-AbsentOrJson key (field_json {k} h hs) =
    either_branch AbsentOrJson (k == key) (inr h) (field_of-AbsentOrJson key hs)

item_entries-FieldsJson : (n : ℕ) {vs : Items} → AllJson vs → FieldsJson (item_entries n vs)
item_entries-FieldsJson n nil_json = end_json
item_entries-FieldsJson n (cons_json h hs) = field_json h (item_entries-FieldsJson (suc n) hs)

entries-FieldsJson : {v : Value} → IsJson v → FieldsJson (entries v)
entries-FieldsJson null_json = end_json
entries-FieldsJson bool_json = end_json
entries-FieldsJson num_json = end_json
entries-FieldsJson str_json = end_json
entries-FieldsJson (arr_json hs) = item_entries-FieldsJson 0 hs
entries-FieldsJson (obj_json hs) = hs

payload_fields-FieldsJson :
    (payload : Fields) → FieldsJson payload → FieldsJson (payload_fields payload)
unfolding payload_fields
payload_fields-FieldsJson payload h =
    either_branch FieldsJson (is_payload_template payload)
      (elim (field_of-AbsentOrJson (codes "fields") h) [
        | inl e ↦ subst (λ v. FieldsJson (entries v)) (sym e) end_json
        | inr j ↦ entries-FieldsJson j
      ])
      h

const-IsJson :
    (value : Value)
    → IsJson value
    → is_const_binding value ≡ true
    → IsJson (property (codes "value") value)
unfolding is_const_binding property
const-IsJson (obj fs) (obj_json h) e = field_of-IsJson (codes "value") h (ground (arith, e))
const-IsJson value h e = cc

resolve-JsonIfSome :
    (value : Value) (context : Fields)
    → IsJson value
    → JsonIfSome (resolve_template_part_or_literal value context)
unfolding resolve_template_part_or_literal
resolve-JsonIfSome value context h =
    either_branch JsonIfSome (is_template_part value)
      (mapped-JsonIfSome (resolve_template_part value context))
      (either_branch JsonIfSome (is_accessor value)
        (mapped-JsonIfSome (resolve_accessor value context))
        (elim (Bool-cases (is_const_binding value)) [
          | inl e ↦
              subst JsonIfSome
                (sym (if_true (some (property (codes "value") value)) (some value) e))
                (const-IsJson value h e)
          | inr e ↦
              subst JsonIfSome
                (sym (if_false (some (property (codes "value") value)) (some value) e)) h
        ]))

resolve_fields-FieldsJson :
    (fs context out : Fields)
    → FieldsJson fs
    → resolve_fields fs context ≡ some out
    → FieldsJson out × (keys out ≡ keys fs)
unfolding resolve_fields
resolve_fields-FieldsJson end context out h e =
    let same : end ≡ out = cc in subst (λ fs. FieldsJson fs × (keys fs ≡ [])) same (end_json, refl)
resolve_fields-FieldsJson (field k v fs) context out (field_json h hs) e =
    let (resolved, found, next) = >>=-eq-some (resolve_template_part_or_literal v context) _ e in
    let (rest, others, joined) = >>=-eq-some (resolve_fields fs context) _ next in
    let (json, same_keys) = resolve_fields-FieldsJson fs context rest hs others in
    let same : field k resolved rest ≡ out = cc in
    subst (λ gs. FieldsJson gs × (keys gs ≡ k ∷ keys fs)) same
      (
        field_json (subst JsonIfSome found (resolve-JsonIfSome v context h)) json,
        ap (◌∷◌ k) same_keys,
      )

-- From a payload that is JSON, what is sent is JSON, under the keys of the payload or of its template, in
-- order, whatever the context holds.
pub resolve_action_payload-FieldsJson :
    (payload context out : Fields)
    → FieldsJson payload
    → resolve_action_payload (some payload) context ≡ some out
    → FieldsJson out × (keys out ≡ keys (payload_fields payload))
unfolding resolve_action_payload
resolve_action_payload-FieldsJson payload context out h e =
    resolve_fields-FieldsJson (payload_fields payload) context out
      (payload_fields-FieldsJson payload h) e
