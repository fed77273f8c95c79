-- ===== src/Widgets/Dispatch/Pairs.antt =====
-- The pairs of a navigation's query.
use mathlib.Core.Option
use agentforum.Base.{
  Bool, true, false, not, Option, none, some, ◌>>=◌, List, [], ◌∷◌, ◌++◌, ◌≡◌, refl, sym, ap, ◌∙◌,
  Text, ◌==◌, text_eq, keep, keep-append, inl, inr, Bool-cases, if◌then◌else◌, if_true, if_false,
}
use agentforum.Widgets.Values.{
  Value, undefined, null, bool, num, str, other, arr, obj, Items, nil, cons, Fields, end, field,
  shown_text,
}
use agentforum.Widgets.Payload.{resolve_template_part_or_literal}
use agentforum.Widgets.Dispatch.{is_empty, values_of, key_pairs, query_pairs}

-- A pair whose value is not the empty text.
abbrev pub has_text : Text × Text → Bool
has_text pair = not (pair.1 == [])

-- The pairs with a text, in order, if none of the values threw.
abbrev pub with_text : Option (List (Text × Text)) → Option (List (Text × Text))
with_text = Option.map (keep has_text)

shown-is_empty : (v : Value) → is_empty v ≡ true → shown_text v ≡ []
unfolding shown_text
shown-is_empty undefined h = refl
shown-is_empty null h = refl
shown-is_empty (str []) h = refl
shown-is_empty (str (c ∷ t)) h = cc
shown-is_empty (bool b) h = cc
shown-is_empty (num t) h = cc
shown-is_empty (other t) h = cc
shown-is_empty (arr items) h = cc
shown-is_empty (obj fs) h = cc

keep-omitted :
    (key : Text) (v : Value) (xs ys : List (Text × Text))
    → keep has_text xs ≡ keep has_text ys
    → keep has_text (if is_empty v then xs else (key, shown_text v) ∷ xs)
      ≡ keep has_text ((key, shown_text v) ∷ ys)
keep-omitted key v xs ys h = elim (Bool-cases (is_empty v)) [
  | inl e ↦
      ap (keep has_text) (if_true xs _ e)
      ∙ h
      ∙ sym (
          ap (λ t. if not (t == []) then (key, t) ∷ keep has_text ys else keep has_text ys)
            (shown-is_empty v e))
  | inr e ↦
      ap (keep has_text) (if_false xs _ e)
      ∙ ap (λ zs. if has_text (key, shown_text v) then (key, shown_text v) ∷ zs else zs) h
]

-- The next value of a key.
one_more :
    (key : Text) (resolved : Option Value) (o p : Option (List (Text × Text)))
    → with_text o ≡ with_text p
    → with_text (
        resolved
        >>= (λ v. o >>= (λ xs. some (if is_empty v then xs else (key, shown_text v) ∷ xs))))
      ≡ with_text (resolved >>= (λ v. p >>= (λ ys. some ((key, shown_text v) ∷ ys))))
one_more key none o p h = refl
one_more key (some v) none none h = refl
one_more key (some v) none (some ys) h = cc
one_more key (some v) (some xs) none h = cc
one_more key (some v) (some xs) (some ys) h =
    let same : keep has_text xs ≡ keep has_text ys = cc in ap some (keep-omitted key v xs ys same)

keys_then :
    (a b o p : Option (List (Text × Text)))
    → with_text a ≡ with_text b
    → with_text o ≡ with_text p
    → with_text (a >>= (λ xs. o >>= (λ more. some (xs ++ more))))
      ≡ with_text (b >>= (λ ys. p >>= (λ more. some (ys ++ more))))
keys_then none none o p h k = refl
keys_then none (some ys) o p h k = cc
keys_then (some xs) none o p h k = cc
keys_then (some xs) (some ys) none none h k = refl
keys_then (some xs) (some ys) none (some more) h k = cc
keys_then (some xs) (some ys) (some more) none h k = cc
keys_then (some xs) (some ys) (some these) (some those) h k =
    let first : keep has_text xs ≡ keep has_text ys = cc in
    let rest : keep has_text these ≡ keep has_text those = cc in
    ap some (
      keep-append has_text xs these
      ∙ ap (λ zs. zs ++ keep has_text these) first
      ∙ ap (λ zs. keep has_text ys ++ zs) rest
      ∙ sym (keep-append has_text ys those))

key_pairs-omit :
    (key : Text) (values : Items) (context : Fields)
    → with_text (key_pairs true key values context) ≡ with_text (key_pairs false key values context)
unfolding key_pairs
key_pairs-omit key nil context = refl
key_pairs-omit key (cons v vs) context =
    one_more key (resolve_template_part_or_literal v context) (key_pairs true key vs context)
      (key_pairs false key vs context) (key_pairs-omit key vs context)

-- The pairs of a navigation's query that have a text are the same, in the same order, whether empty values are
-- omitted or not, and one throws if the other does: no value with a text is omitted, and none is added.
pub query_pairs-omit :
    (query context : Fields)
    → with_text (query_pairs true query context) ≡ with_text (query_pairs false query context)
unfolding query_pairs
query_pairs-omit end context = refl
query_pairs-omit (field key raw query) context =
    keys_then (key_pairs true key (values_of raw) context)
      (key_pairs false key (values_of raw) context) (query_pairs true query context)
      (query_pairs false query context) (key_pairs-omit key (values_of raw) context)
      (query_pairs-omit query context)
