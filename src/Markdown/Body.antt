-- ===== src/Markdown/Body.antt =====
-- web/src/components/organisms/PostStream/MarkdownBody.tsx: the effect that puts formulas in the places of
-- their placeholders. What typesets a formula is a parameter, as is when React cleans the effect up.
use agentforum.Base.{
  ℕ, suc, Bool, true, false, Option, none, some, List, [], ◌∷◌, ◌++◌, map, ◌≡◌, refl, ap, ◌∙◌, Text,
  codes, if◌then◌else◌,
}
use agentforum.Mathjax.{TypesetResult, typeset, failed}
use agentforum.Markdown.{MathSpan}
use agentforum.Markdown.Passes.{math_at}

-- What stands in the place of a placeholder: itself, the typeset node, or the formula's source with the
-- error in its title.
pub data Place (N : Type 0) : Type 0 where
  untouched : Place N
  replaced : N → Place N
  source_shown : Text → Text → Place N

abbrev pub delimited : MathSpan → Text
delimited span =
    if span.display
    then codes "$$" ++ (span.tex ++ codes "$$")
    else codes "$" ++ (span.tex ++ codes "$")

module _ {N : Type 0} (typeset_tex : Text → Bool → TypesetResult N) (maths : List MathSpan) where
  abbrev pub place_of : MathSpan → TypesetResult N → Place N
  place_of span (typeset node) = replaced node
  place_of span (failed error) = source_shown (delimited span) error

  -- The formula of a placeholder, by its index; one that is no number has none.
  abbrev pub span_at : Option ℕ → Option MathSpan
  span_at none = none
  span_at (some index) = math_at index maths

  abbrev pub untouched_all : List (Option ℕ) → List (Place N)
  untouched_all = map (λ p. untouched)

  -- The loop over the placeholders. `cleaned_up` tells at which of its tests it finds itself cancelled;
  -- the first argument is the number of the next test.
  abbrev pub go_on : List (Place N) → List (Place N) → Bool → List (Place N)
  go_on stopped onwards true = stopped
  go_on stopped onwards false = onwards

  -- What the loop does about one placeholder, given what it leaves when it is cancelled, when the
  -- placeholder has no formula, and when it has one.
  abbrev pub at_place :
      Option MathSpan → Bool → List (Place N) → List (Place N) → List (Place N) → List (Place N)
  at_place none cancelled stopped skipped onwards = untouched ∷ skipped
  at_place (some span) cancelled stopped skipped onwards =
      go_on stopped (place_of span (typeset_tex span.tex span.display) ∷ onwards) cancelled

  unfoldable pub typeset_places : (ℕ → Bool) → ℕ → List (Option ℕ) → List (Place N)
  typeset_places cleaned_up n [] = []
  typeset_places cleaned_up n (p ∷ ps) =
      let skipped = typeset_places cleaned_up (suc n) ps in
      let onwards = typeset_places cleaned_up (suc (suc n)) ps in
      let stopped = untouched_all (p ∷ ps) in
      go_on stopped (at_place (span_at p) (cleaned_up (suc n)) stopped skipped onwards)
        (cleaned_up n)

  -- What the loop leaves when nothing cleans the effect up.
  abbrev pub place_for : Option MathSpan → Place N
  place_for none = untouched
  place_for (some span) = place_of span (typeset_tex span.tex span.display)

  at_place-place_for :
      (o : Option MathSpan) (cancelled : Bool) (stopped skipped onwards rest : List (Place N))
      → cancelled ≡ false
      → skipped ≡ rest
      → onwards ≡ rest
      → at_place o cancelled stopped skipped onwards ≡ place_for o ∷ rest
  at_place-place_for none cancelled stopped skipped onwards rest e h k = ap (◌∷◌ untouched) h
  at_place-place_for (some span) cancelled stopped skipped onwards rest e h k =
      ap (go_on stopped (place_for (some span) ∷ onwards)) e ∙ ap (◌∷◌ (place_for (some span))) k

  -- If nothing cleans the effect up, each placeholder gives way to its own formula, typeset, or as its
  -- source with the error; one whose index has no formula stays.
  pub typeset_places-place_for :
      (cleaned_up : ℕ → Bool) (n : ℕ) (ps : List (Option ℕ))
      → ((k : ℕ) → cleaned_up k ≡ false)
      → typeset_places cleaned_up n ps ≡ map (λ p. place_for (span_at p)) ps
  unfolding typeset_places
  typeset_places-place_for cleaned_up n [] never = refl
  typeset_places-place_for cleaned_up n (p ∷ ps) never =
      ap
        (go_on (untouched_all (p ∷ ps)) (
          at_place (span_at p) (cleaned_up (suc n)) (untouched_all (p ∷ ps))
            (typeset_places cleaned_up (suc n) ps) (typeset_places cleaned_up (suc (suc n)) ps)))
        (never n)
      ∙ at_place-place_for (span_at p) (cleaned_up (suc n)) (untouched_all (p ∷ ps)) _ _ _
          (never (suc n)) (typeset_places-place_for cleaned_up (suc n) ps never)
          (typeset_places-place_for cleaned_up (suc (suc n)) ps never)

  -- Once the effect is cleaned up, no placeholder is touched any more.
  typeset_places-cleaned_up :
      (cleaned_up : ℕ → Bool) (n : ℕ) (ps : List (Option ℕ))
      → cleaned_up n ≡ true
      → typeset_places cleaned_up n ps ≡ untouched_all ps
  unfolding typeset_places
  typeset_places-cleaned_up cleaned_up n [] e = refl
  typeset_places-cleaned_up cleaned_up n (p ∷ ps) e = ap (go_on (untouched_all (p ∷ ps)) _) e
