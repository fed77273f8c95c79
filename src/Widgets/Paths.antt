-- ===== src/Widgets/Paths.antt =====
-- web/src/widgets/actions.ts `lookupContext`, which is `getPath` of web/src/widgets/cellRenderers.tsx.
use agentforum.Base.{
  Bool, not, Bool-cases, if_true, if_false, sym, inl, inr, split-append, keep-append, List, [], ◌∷◌,
  ◌++◌, ◌≡◌, refl, ap, ◌∙◌, Text, split, keep, ◌==◌, text_eq, if◌then◌else◌,
}
use agentforum.Widgets.Values.{Value, undefined, is_object, property}

abbrev pub is_filled : Text → Bool
is_filled part = not (part == [])

-- `path.split(".").filter(Boolean)`
unfoldable pub parts_of : Text → List Text
parts_of path = keep is_filled (split b'.' path)

unfoldable pub walk : List Text → Value → Value
walk [] current = current
walk (part ∷ parts) current =
    if is_object current then walk parts (property part current) else undefined

unfoldable pub lookup_context : Text → Value → Value
unfolding walk parts_of
lookup_context path context = walk (parts_of path) context

walk_undefined : (parts : List Text) → walk parts undefined ≡ undefined
unfolding walk
walk_undefined [] = refl
walk_undefined (part ∷ parts) = refl

walk-append : (a b : List Text) (v : Value) → walk (a ++ b) v ≡ walk b (walk a v)
unfolding walk
walk-append [] b v = refl
walk-append (part ∷ a) b v = elim (Bool-cases (is_object v)) [
  | inl e ↦ if_true _ _ e ∙ walk-append a b (property part v) ∙ ap (walk b) (sym (if_true _ _ e))
  | inr e ↦ if_false _ _ e ∙ sym (ap (walk b) (if_false _ _ e) ∙ walk_undefined b)
]

-- A path that is joined to another by a dot goes on from where the first one leads.
lookup_context-append :
    (p q : Text) (context : Value)
    → lookup_context (p ++ (b'.' ∷ q)) context ≡ lookup_context q (lookup_context p context)
unfolding lookup_context parts_of
lookup_context-append p q context =
    ap (λ parts. walk parts context)
      (ap (keep is_filled) (split-append b'.' p q)
        ∙ keep-append is_filled (split b'.' p) (split b'.' q))
    ∙ walk-append (parts_of p) (parts_of q) context
