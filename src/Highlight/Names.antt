-- ===== src/Highlight/Names.antt =====
-- The names of languages.
use mathlib.Core.Path.{subst}
use agentforum.Base.{
  and_left, and_right, ◌++◌, either_branch, Bool, true, Option, none, some, List, [], ◌∷◌, ◌≡◌,
  refl, sym, ap, ◌⊎◌, inl, inr, arith, Text, all, contains, Bool-cases, Option-cases, if_true,
  if_false, ◌==◌, text_eq,
}
use agentforum.Highlight.{
  loadable, aliases, auto_detect_languages, inherited_names, Alias, missing, inherited, canonical,
  find_alias, find_class, requested_of, normalize_language, languages_of, requested_languages,
}

-- The alias for the class that is found, if one is.
abbrev alias_at : Option Text → Alias
alias_at none = missing
alias_at (some name) = find_alias (requested_of name) aliases

-- A result that the loads can make use of.
abbrev pub IsUsable : Text → Alias → Type 0
IsUsable requested missing = Unit
IsUsable requested (canonical name) = loadable name ≡ true
IsUsable requested inherited = contains requested inherited_names ≡ true

find_alias-IsUsable :
    (requested : Text) (table : List (Text × Text))
    → all (λ (pair : Text × Text). loadable pair.1) table ≡ true
    → IsUsable requested (find_alias requested table)
find_alias-IsUsable requested [] h = elim (Bool-cases (contains requested inherited_names)) [
  | inl e ↦ subst (IsUsable requested) (sym (if_true inherited missing e)) e
  | inr e ↦ subst (IsUsable requested) (sym (if_false inherited missing e)) tt
]
find_alias-IsUsable requested ((from, to) ∷ rest) h =
    either_branch (IsUsable requested) (from == requested) (and_left (loadable to) _ h)
      (find_alias-IsUsable requested rest (and_right (loadable to) _ h))

-- Every alias is for a language that has a loader.
aliases-loadable : all (λ (pair : Text × Text). loadable pair.1) aliases ≡ true
unfolding loadable
aliases-loadable = refl

auto_detect_languages-loadable : all loadable auto_detect_languages ≡ true
unfolding loadable
auto_detect_languages-loadable = refl

-- The class of a block names a language that has a loader, or none; but for the names that every object
-- inherits, whose alias is no language. A block without such a class has no language.
pub normalize_language-IsUsable :
    (classes : List Text)
    → ((find_class classes ≡ none) × (normalize_language classes ≡ missing))
      ⊎ ((name : Text) × (find_class classes ≡ some name)
          × IsUsable (requested_of name) (normalize_language classes))
unfolding normalize_language
normalize_language-IsUsable classes = elim (Option-cases (find_class classes)) [
  | inl e ↦ inl (e, ap alias_at e)
  | inr (name, e) ↦ inr (
    name,
    e,
    subst (IsUsable (requested_of name)) (sym (ap alias_at e))
        (find_alias-IsUsable (requested_of name) aliases aliases-loadable),
  )
]

all-append :
    (p : Text → Bool) (xs ys : List Text)
    → all p xs ≡ true
    → all p ys ≡ true
    → all p (xs ++ ys) ≡ true
all-append p [] ys h k = k
all-append p (x ∷ xs) ys h k = ground (arith, all-append p xs ys)

languages_of-loadable :
    (requested : Text) (a : Alias) → IsUsable requested a → all loadable (languages_of a) ≡ true
languages_of-loadable requested missing h = auto_detect_languages-loadable
languages_of-loadable requested inherited h = refl
languages_of-loadable requested (canonical name) h = ground arith

block-loadable :
    (classes : List Text) → all loadable (languages_of (normalize_language classes)) ≡ true
block-loadable classes = elim (normalize_language-IsUsable classes) [
  | inl (e, none_found) ↦
      subst (λ a. all loadable (languages_of a) ≡ true) (sym none_found)
        auto_detect_languages-loadable
  | inr (name, e, usable) ↦
      languages_of-loadable (requested_of name) (normalize_language classes) usable
]

-- Every language that the blocks of a post ask for has a loader.
pub requested_languages-loadable :
    (blocks : List (List Text)) → all loadable (requested_languages blocks) ≡ true
unfolding requested_languages
requested_languages-loadable [] = refl
requested_languages-loadable (classes ∷ blocks) =
    all-append loadable (languages_of (normalize_language classes)) (requested_languages blocks)
      (block-loadable classes) (requested_languages-loadable blocks)
