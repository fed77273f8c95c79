-- ===== src/Markdown/Passes.antt =====
-- The passes that take the formulas out.
use mathlib.Core.Path.{subst}
use agentforum.Base.{
  ℕ, zero, suc, ◌≤◌, Bool, true, false, Option, none, some, List, [], ◌∷◌, ◌++◌, append_assoc,
  append-nil, map, join, ◌≡◌, refl, sym, ap, ◌∙◌, arith, Text, length, length-append, drop,
}
use agentforum.Markdown.{
  MathSpan, MathPiece, kept, found, display_at, inline_at, cut_piece, math_pieces_from, placeholder,
  span_of, put_together, replace_math, extract_math,
}
use agentforum.Markdown.Spans.{MatchOf, display_at-MatchOf, inline_at-MatchOf, drop-append_length}

-- The text that a piece stands for, and the formulas among pieces.
abbrev pub source_of : MathPiece → Text
source_of (kept c) = c ∷ []
source_of (found source tex) = source

abbrev pub formulas : List MathPiece → List Text
formulas [] = []
formulas (kept c ∷ ps) = formulas ps
formulas (found source tex ∷ ps) = tex ∷ formulas ps

abbrev pub sources : List MathPiece → Text
sources ps = join (map source_of ps)

module _ (match_at : Text → Option (Text × Text))
    (matches : (s : Text) → MatchOf s (match_at s)) where
  -- What is left behind the first piece, with the fuel that is enough for it.
  cut_piece-source :
      (c fuel : ℕ) (s : Text) (o : Option (Text × Text))
      → MatchOf (c ∷ s) o
      → length (c ∷ s) ≤ suc fuel
      → (source_of (cut_piece o c s).0 ++ (cut_piece o c s).1 ≡ c ∷ s)
        × (length (cut_piece o c s).1 ≤ fuel)
  cut_piece-source c fuel s none h enough = (refl, omega arith)
  cut_piece-source c fuel s (some m) (long, (rest, e)) enough =
      let left : drop (length m.0) (c ∷ s) ≡ rest =
        ap (drop (length m.0)) e ∙ drop-append_length m.0 rest in
      (
        ap (◌++◌ m.0) left ∙ sym e,
        omega (arith, long, enough, ap length left, ap length e, length-append m.0 rest),
      )

  math_pieces_from-sources :
      (fuel : ℕ) (s : Text) → length s ≤ fuel → sources (math_pieces_from match_at fuel s) ≡ s
  unfolding math_pieces_from
  math_pieces_from-sources zero [] h = refl
  math_pieces_from-sources zero (c ∷ s) h = absurd (omega arith)
  math_pieces_from-sources (suc fuel) [] h = refl
  math_pieces_from-sources (suc fuel) (c ∷ s) h =
      let (split, enough) = cut_piece-source c fuel s (match_at (c ∷ s)) (matches (c ∷ s)) h in
      let onwards = (cut_piece (match_at (c ∷ s)) c s).1 in
      ap (◌++◌ (source_of (cut_piece (match_at (c ∷ s)) c s).0))
        (math_pieces_from-sources fuel onwards enough)
      ∙ split

put_together-maths :
    (display : Bool) (maths : List MathSpan) (ps : List MathPiece)
    → (put_together display maths ps).1 ≡ maths ++ map (span_of display) (formulas ps)
unfolding put_together
put_together-maths display maths [] = sym (append-nil maths)
put_together-maths display maths (kept c ∷ ps) = put_together-maths display maths ps
put_together-maths display maths (found source tex ∷ ps) =
    put_together-maths display (maths ++ (span_of display tex ∷ [])) ps
    ∙ append_assoc maths (span_of display tex ∷ []) (map (span_of display) (formulas ps))

-- The pieces of the two passes over a body.
abbrev pub display_pieces : Text → List MathPiece
display_pieces raw = math_pieces_from display_at (length raw) raw

abbrev pub displayed : Text → Text
displayed raw = (put_together true [] (display_pieces raw)).0

abbrev pub inline_pieces : Text → List MathPiece
inline_pieces raw = math_pieces_from inline_at (length (displayed raw)) (displayed raw)

-- The passes cut the text into matches and units and lose nothing of it: the pieces of the first make up
-- the body, those of the second what the first one leaves; and the formulas are noted in the order in
-- which they stand, those of the first pass before those of the second.
pub extract_math-sources :
    (raw : Text)
    → (sources (display_pieces raw) ≡ raw)
      × (sources (inline_pieces raw) ≡ displayed raw)
      × ((extract_math raw).1
          ≡ map (span_of true) (formulas (display_pieces raw))
            ++ map (span_of false) (formulas (inline_pieces raw)))
unfolding extract_math replace_math
extract_math-sources raw = (
  math_pieces_from-sources display_at display_at-MatchOf (length raw) raw (omega arith),
  math_pieces_from-sources inline_at inline_at-MatchOf (length (displayed raw)) (displayed raw)
      (omega arith),
  put_together-maths false (put_together true [] (display_pieces raw)).1 (inline_pieces raw)
      ∙ ap (λ ms. ms ++ map (span_of false) (formulas (inline_pieces raw)))
          (put_together-maths true [] (display_pieces raw)),
)

-- The formula that is noted at an index.
abbrev pub math_at : ℕ → List MathSpan → Option MathSpan
math_at n [] = none
math_at zero (m ∷ ms) = some m
math_at (suc n) (m ∷ ms) = math_at n ms

math_at-append :
    (ms : List MathSpan) (m : MathSpan) (more : List MathSpan)
    → math_at (length ms) (ms ++ m ∷ more) ≡ some m
math_at-append [] m more = refl
math_at-append (x ∷ ms) m more = math_at-append ms m more

-- The result behind a text that is there already.
abbrev behind : Text → Text × List MathSpan → Text × List MathSpan
behind text r = (text ++ r.0, r.1)

put_together-append :
    (display : Bool) (maths : List MathSpan) (ps qs : List MathPiece)
    → put_together display maths (ps ++ qs)
      ≡ behind
          (put_together display maths ps).0
          (put_together display (put_together display maths ps).1 qs)
unfolding put_together
put_together-append display maths [] qs = refl
put_together-append display maths (kept c ∷ ps) qs =
    ap (behind (c ∷ [])) (put_together-append display maths ps qs)
put_together-append display maths (found source tex ∷ ps) qs =
    let more = maths ++ (span_of display tex ∷ []) in
    let rest = put_together display (put_together display more ps).1 qs in
    ap (behind (placeholder (length maths))) (put_together-append display more ps qs)
    ∙ ap (λ t. (t, rest.1))
        (sym (append_assoc (placeholder (length maths)) (put_together display more ps).0 rest.0))

-- A formula's placeholder stands where the formula stood, and has the index at which it is noted.
abbrev Placed : Text × List MathSpan → MathSpan → Type 0
Placed r span =
    (left : Text) × (right : Text) × (k : ℕ) × (r.0 ≡ left ++ (placeholder k ++ right))
    × (math_at k r.1 ≡ some span)

put_together-found :
    (display : Bool) (maths : List MathSpan) (before : List MathPiece) (source tex : Text)
    (after : List MathPiece)
    → Placed
        (put_together display maths (before ++ (found source tex ∷ after)))
        (span_of display tex)
unfolding put_together
put_together-found display maths before source tex after =
    let first = put_together display maths before in
    let more = first.1 ++ (span_of display tex ∷ []) in
    let whole = put_together-append display maths before (found source tex ∷ after) in
    let noted : (put_together display more after).1
        ≡ first.1 ++ (span_of display tex ∷ map (span_of display) (formulas after)) =
      put_together-maths display more after
      ∙ append_assoc first.1 (span_of display tex ∷ []) (map (span_of display) (formulas after)) in
    (
      first.0,
      (put_together display more after).0,
      length first.1,
      ap (λ r. r.0) whole,
      ap (λ r. math_at (length first.1) r.1) whole
          ∙ ap (math_at (length first.1)) noted
          ∙ math_at-append first.1 (span_of display tex) (map (span_of display) (formulas after)),
    )

-- Each formula that the second pass finds has a placeholder in the text that is rendered, whose index is
-- that of the formula itself among all that are noted.
extract_math-placeholder :
    (raw : Text) (before : List MathPiece) (source tex : Text) (after : List MathPiece)
    → inline_pieces raw ≡ before ++ (found source tex ∷ after)
    → (left : Text) × (right : Text) × (k : ℕ) × ((extract_math raw).0
        ≡ left ++ (placeholder k ++ right))
      × (math_at k (extract_math raw).1 ≡ some (span_of false tex))
unfolding extract_math replace_math
extract_math-placeholder raw before source tex after e =
    let noted = (put_together true [] (display_pieces raw)).1 in
    subst (λ ps. Placed (put_together false noted ps) (span_of false tex)) (sym e)
      (put_together-found false noted before source tex after)
