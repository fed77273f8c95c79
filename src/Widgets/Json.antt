-- ===== src/Widgets/Json.antt =====
-- web/src/widgets/actions.ts `toJsonValue`: what a payload may hold on the wire.
use agentforum.Base.{Bool, ◌≡◌, refl, ap, Text}
use agentforum.Widgets.Values.{
  Value, undefined, null, bool, num, str, other, arr, obj, Items, nil, cons, Fields, end, field,
}

unfoldable mutual
  pub to_json_value : Value → Value
  to_json_value undefined = null
  to_json_value null = null
  to_json_value (bool b) = bool b
  to_json_value (num t) = num t
  to_json_value (str t) = str t
  to_json_value (other t) = str t
  to_json_value (arr items) = arr (to_json_items items)
  to_json_value (obj fields) = obj (to_json_fields fields)

  pub to_json_items : Items → Items
  to_json_items nil = nil
  to_json_items (cons v vs) = cons (to_json_value v) (to_json_items vs)

  pub to_json_fields : Fields → Fields
  to_json_fields end = end
  to_json_fields (field k v fs) = field k (to_json_value v) (to_json_fields fs)

-- `JsonValue`: no `undefined`, function, bigint or symbol, at any depth.
mutual
  pub data IsJson : Value → Type 0 where
    null_json : IsJson null
    bool_json : {b : Bool} → IsJson (bool b)
    num_json : {t : Text} → IsJson (num t)
    str_json : {t : Text} → IsJson (str t)
    arr_json : {vs : Items} → AllJson vs → IsJson (arr vs)
    obj_json : {fs : Fields} → FieldsJson fs → IsJson (obj fs)

  pub data AllJson : Items → Type 0 where
    nil_json : AllJson nil
    cons_json : {v : Value} {vs : Items} → IsJson v → AllJson vs → AllJson (cons v vs)

  pub data FieldsJson : Fields → Type 0 where
    end_json : FieldsJson end
    field_json :
        {k : Text} {v : Value} {fs : Fields} → IsJson v → FieldsJson fs → FieldsJson (field k v fs)

mutual
  unfolding to_json_value

  to_json-IsJson : (v : Value) → IsJson (to_json_value v)
  to_json-IsJson undefined = null_json
  to_json-IsJson null = null_json
  to_json-IsJson (bool b) = bool_json
  to_json-IsJson (num t) = num_json
  to_json-IsJson (str t) = str_json
  to_json-IsJson (other t) = str_json
  to_json-IsJson (arr vs) = arr_json (to_json-AllJson vs)
  to_json-IsJson (obj fs) = obj_json (to_json-FieldsJson fs)

  to_json-AllJson : (vs : Items) → AllJson (to_json_items vs)
  to_json-AllJson nil = nil_json
  to_json-AllJson (cons v vs) = cons_json (to_json-IsJson v) (to_json-AllJson vs)

  to_json-FieldsJson : (fs : Fields) → FieldsJson (to_json_fields fs)
  to_json-FieldsJson end = end_json
  to_json-FieldsJson (field k v fs) = field_json (to_json-IsJson v) (to_json-FieldsJson fs)

mutual
  unfolding to_json_value

  to_json_fixes : {v : Value} → IsJson v → to_json_value v ≡ v
  to_json_fixes null_json = refl
  to_json_fixes bool_json = refl
  to_json_fixes num_json = refl
  to_json_fixes str_json = refl
  to_json_fixes (arr_json h) = ap arr (to_json_items_fixes h)
  to_json_fixes (obj_json h) = ap obj (to_json_fields_fixes h)

  to_json_items_fixes : {vs : Items} → AllJson vs → to_json_items vs ≡ vs
  to_json_items_fixes nil_json = refl
  to_json_items_fixes (cons_json h hs) = λ i. cons (to_json_fixes h i) (to_json_items_fixes hs i)

  to_json_fields_fixes : {fs : Fields} → FieldsJson fs → to_json_fields fs ≡ fs
  to_json_fields_fixes end_json = refl
  to_json_fields_fixes (field_json {k} h hs) =
      λ i. field k (to_json_fixes h i) (to_json_fields_fixes hs i)

-- Whatever value is given, the result is JSON at every depth; and a value that is JSON is left alone.
pub to_json_value_lem : (v : Value) → IsJson (to_json_value v) × (IsJson v → to_json_value v ≡ v)
to_json_value_lem v = (to_json-IsJson v, to_json_fixes)
