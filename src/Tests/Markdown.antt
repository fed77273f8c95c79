-- ===== src/Tests/Markdown.antt =====
-- The formulas of bodies at concrete inputs.
use agentforum.Base.{true, false, [], ◌∷◌, ◌++◌, map, ◌≡◌, refl, some, Text, codes}
use agentforum.Markdown.{kept, found, extract_math, span_of}
use agentforum.Markdown.Passes.{
  sources, formulas, display_pieces, displayed, inline_pieces, extract_math-sources,
}
use agentforum.Base.{if◌then◌else◌, Bool, none}
use agentforum.Mathjax.{TypesetResult, typeset, failed}
use agentforum.Markdown.Body.{untouched, replaced, source_shown, typeset_places}

shut : Unit {0}
unfolding extract_math
shut = tt

-- Prices stay prose, and the four kinds of delimiters are found.
extract_runs :
    (extract_math (codes "$5 and $6") ≡ (codes "$5 and $6", []))
    × (extract_math (codes "a $$x$$ \\[ y \\] \\(z\\)") ≡ (
      codes
          "a <span data-af-math=\"0\"></span> <span data-af-math=\"1\"></span> <span data-af-math=\"2\"></span>",
      span_of true (codes "x") ∷ span_of true (codes "y") ∷ span_of false (codes "z") ∷ [],
    ))
unfolding shut
extract_runs = (refl, refl)

-- A displayed formula between two dollar signs is taken into a formula that has its placeholder for TeX.
swallowed : extract_math (codes "$a $$x$$ b$") ≡ (
  codes "<span data-af-math=\"1\"></span>",
  span_of true (codes "x") ∷ span_of false (codes "a <span data-af-math=\"0\"></span> b") ∷ [],
)
unfolding shut
swallowed = refl

extract_math-sources_example :
    (sources (display_pieces (codes "a $$x$$ $y$")) ≡ codes "a $$x$$ $y$")
    × (sources (inline_pieces (codes "a $$x$$ $y$")) ≡ displayed (codes "a $$x$$ $y$"))
    × ((extract_math (codes "a $$x$$ $y$")).1
        ≡ map (span_of true) (formulas (display_pieces (codes "a $$x$$ $y$")))
          ++ map (span_of false) (formulas (inline_pieces (codes "a $$x$$ $y$"))))
extract_math-sources_example = extract_math-sources (codes "a $$x$$ $y$")

inline_run :
    inline_pieces (codes "a$y$") ≡ (kept b'a' ∷ []) ++ (found (codes "$y$") (codes "y") ∷ [])
unfolding shut
inline_run = refl

-- One formula is typeset, one has an error, and a placeholder without a formula stays.
abbrev prover : Text → Bool → TypesetResult Text
prover tex display = if display then typeset tex else failed (codes "bad")

body_runs :
    (typeset_places prover
        (span_of true (codes "x") ∷ span_of false (codes "y") ∷ [])
        (λ n. false)
        0
        (some 0 ∷ some 1 ∷ some 7 ∷ none ∷ [])
      ≡ replaced (codes "x")
        ∷ source_shown (codes "$y$") (codes "bad")
        ∷ untouched
        ∷ untouched
        ∷ [])
    × (typeset_places prover (span_of true (codes "x") ∷ []) (λ n. true) 0 (some 0 ∷ [])
        ≡ untouched ∷ [])
unfolding shut typeset_places
body_runs = (refl, refl)
