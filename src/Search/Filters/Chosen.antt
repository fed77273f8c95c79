-- ===== src/Search/Filters/Chosen.antt =====
-- The entity types that the filters' dialog has chosen, as a set: the list up to the order in which they were
-- clicked and to how often one stands in it.
use mathlib.Core.Quot
use mathlib.Core.Quot.{Quot, Quot-set}
use agentforum.Base.{
  Bool, true, false, not, List, [], ◌∷◌, ◌≡◌, refl, sym, ap, ◌∙◌, arith, Text, contains, ◌==◌,
  text_eq, contains-of-==, if◌then◌else◌,
}
use agentforum.Search.Filters.{FilterDraft, toggle_entity, toggle, edit_draft}
use agentforum.Search.Filters.Draft.{contains-toggle_entity}

-- Two lists of the same types.
abbrev pub SameTypes : List Text → List Text → Type 0
SameTypes xs ys = (t : Text) → contains t xs ≡ contains t ys

abbrev pub EntitySet : Type 0
EntitySet = Quot SameTypes

abbrev pub chosen : List Text → EntitySet
chosen = Quot.mk

unfoldable pub is_chosen : Text → EntitySet → Bool
is_chosen t = Quot.lift (hlevel) (contains t) λ xs ys h. h t

abbrev pub flip_at : Text → Text → Bool → Bool
flip_at t u b = if u == t then not b else b

pub flip-toggle :
    (t u : Text) (types : List Text)
    → contains u (toggle_entity t types) ≡ flip_at t u (contains u types)
flip-toggle t u types = ground (arith, contains-toggle_entity t u types, contains-of-== u t types)

-- A click on a type, of the set.
unfoldable pub toggle_chosen : Text → EntitySet → EntitySet
toggle_chosen t =
    Quot.lift Quot-set (λ types. chosen (toggle_entity t types))
      λ xs ys h.
        Quot.sound λ u. flip-toggle t u xs ∙ ap (flip_at t u) (h u) ∙ sym (flip-toggle t u ys)

-- Clicks on types in the dialog, one after the other.
abbrev pub click_types : List Text → FilterDraft → FilterDraft
click_types [] d = d
click_types (t ∷ ts) d = click_types ts (edit_draft d (toggle t))

-- Whether a type is clicked an odd number of times.
abbrev pub is_odd : Text → List Text → Bool
is_odd u [] = false
is_odd u (t ∷ ts) = if u == t then not (is_odd u ts) else is_odd u ts

abbrev pub xor : Bool → Bool → Bool
xor true b = not b
xor false b = b

xor-flip :
    (test odd b : Bool)
    → xor odd (if test then not b else b) ≡ xor (if test then not odd else odd) b
xor-flip true true true = refl
xor-flip true true false = refl
xor-flip true false b = refl
xor-flip false odd b = refl

contains-click_types :
    (u : Text) (clicks : List Text) (d : FilterDraft)
    → contains u (click_types clicks d).entity_types
      ≡ xor (is_odd u clicks) (contains u d.entity_types)
unfolding edit_draft
contains-click_types u [] d = refl
contains-click_types u (t ∷ ts) d =
    contains-click_types u ts (edit_draft d (toggle t))
    ∙ ap (xor (is_odd u ts)) (flip-toggle t u d.entity_types)
    ∙ xor-flip (u == t) (is_odd u ts) (contains u d.entity_types)

-- Two runs of clicks on the types of the dialog that click each type odd times, or each even times, alike
-- choose the same set of types, whatever their orders and lengths.
pub click_types-chosen :
    (clicks more : List Text) (d : FilterDraft)
    → ((u : Text) → is_odd u clicks ≡ is_odd u more)
    → chosen (click_types clicks d).entity_types ≡ chosen (click_types more d).entity_types
click_types-chosen clicks more d same = Quot.sound λ u.
    contains-click_types u clicks d
    ∙ ap (λ b. xor b (contains u d.entity_types)) (same u)
    ∙ sym (contains-click_types u more d)

-- What the list shows as chosen is what is in its set, and a click on the list is a click on the set.
toggle_chosen-refines :
    (t u : Text) (types : List Text)
    → (is_chosen u (chosen types) ≡ contains u types)
      × (toggle_chosen t (chosen types) ≡ chosen (toggle_entity t types))
unfolding is_chosen toggle_chosen
toggle_chosen-refines t u types = (refl, refl)

flip_twice :
    (test b : Bool)
    → (if test then not (if test then not b else b) else (if test then not b else b)) ≡ b
flip_twice true true = refl
flip_twice true false = refl
flip_twice false b = refl

flips_swap :
    (x y b : Bool)
    → (if x then not (if y then not b else b) else (if y then not b else b))
      ≡ (if y then not (if x then not b else b) else (if x then not b else b))
flips_swap true y b = ground arith
flips_swap false true b = refl
flips_swap false false b = refl

-- In the set, a second click on a type undoes the first, and clicks on two types can change places.
toggle_chosen-laws :
    (t u : Text) (set : EntitySet)
    → (toggle_chosen t (toggle_chosen t set) ≡ set)
      × (toggle_chosen t (toggle_chosen u set) ≡ toggle_chosen u (toggle_chosen t set))
unfolding toggle_chosen
toggle_chosen-laws t u =
    Quot.ind (λ _. hlevel Quot-set)
      λ types. (
        Quot.sound (λ v.
            flip-toggle t v _ ∙ ap (flip_at t v) (flip-toggle t v types) ∙ flip_twice (v == t) _),
        Quot.sound (λ v.
            flip-toggle t v _
            ∙ ap (flip_at t v) (flip-toggle u v types)
            ∙ flips_swap (v == t) (v == u) _
            ∙ sym (flip-toggle u v _ ∙ ap (flip_at u v) (flip-toggle t v types))),
      )
