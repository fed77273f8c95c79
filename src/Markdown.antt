-- ===== src/Markdown.antt =====
-- web/src/lib/markdown.ts: the formulas of a post's body are taken out before it is rendered as Markdown,
-- and leave placeholders. marked and DOMPurify are a parameter.
pub mod Spans
pub mod Passes
pub mod Body
use mathlib.Core.Option
use agentforum.Base.{
  ℕ, zero, suc, Bool, true, false, not, ◌&&◌, ◌||◌, Option, none, some, ◌>>=◌, List, [], ◌∷◌, ◌++◌,
  Text, codes, length, take, drop, starts_with, index_of, get_last?, is_space, trim, to_decimal,
  eq_nat, if◌then◌else◌,
}

pub record MathSpan : Type 0 where
  pub tex : Text
  pub display : Bool

-- A piece of a text: a code unit that is kept, or a match, with its source, and the formula in it.
pub data MathPiece : Type 0 where
  kept : ℕ → MathPiece
  found : Text → Text → MathPiece

-- `[\s\S]+?` up to a closing text: at least one unit, and as few as there are.
abbrev pub lazy_to : Text → Text → Option Text
lazy_to close [] = none
lazy_to close (c ∷ s) = Option.map (λ n. c ∷ take n s) (index_of close s)

-- One alternative of a pattern, with its delimiters.
abbrev pub between : Text → Text → Text → Option (Text × Text)
between open_text close s =
    if starts_with open_text s
    then Option.map (λ tex. (open_text ++ (tex ++ close), tex))
        (lazy_to close (drop (length open_text) s))
    else none

abbrev pub first_of : Option (Text × Text) → Option (Text × Text) → Option (Text × Text)
first_of none second = second
first_of (some m) second = some m

-- What `DISPLAY_RE` matches at the head of a text.
unfoldable pub display_at : Text → Option (Text × Text)
display_at s =
    first_of (between (codes "$$") (codes "$$") s) (between (codes "\\[") (codes "\\]") s)

-- The units up to the next dollar sign, if there is one.
abbrev pub to_dollar : Text → Option Text
to_dollar s = Option.map (λ n. take n s) (index_of (codes "$") s)

-- Content that is not empty and begins and ends with a unit that is no white space.
abbrev pub has_edges : Text → Bool
has_edges [] = false
has_edges (c ∷ s) = not (is_space c) && not (is_space (Option.get_or (get_last? (c ∷ s)) c))

abbrev pub dollars : Option Text → Option (Text × Text)
dollars none = none
dollars (some tex) = if has_edges tex then some (b'$' ∷ (tex ++ codes "$"), tex) else none

abbrev pub inline_dollars : Text → Option (Text × Text)
inline_dollars [] = none
inline_dollars (c ∷ s) = if eq_nat c b'$' then dollars (to_dollar s) else none

-- What `INLINE_RE` matches at the head of a text.
unfoldable pub inline_at : Text → Option (Text × Text)
inline_at s = first_of (inline_dollars s) (between (codes "\\(") (codes "\\)") s)

-- The pieces of a text, from left to right; each round takes the fuel of one code unit.
abbrev pub cut_piece : Option (Text × Text) → ℕ → Text → MathPiece × Text
cut_piece none c s = (kept c, s)
cut_piece (some (source, tex)) c s = (found source tex, drop (length source) (c ∷ s))

unfoldable pub math_pieces_from : (Text → Option (Text × Text)) → ℕ → Text → List MathPiece
math_pieces_from match_at zero s = []
math_pieces_from match_at (suc fuel) [] = []
math_pieces_from match_at (suc fuel) (c ∷ s) =
    let (piece, rest) = cut_piece (match_at (c ∷ s)) c s in
    piece ∷ math_pieces_from match_at fuel rest

-- `push`: the formula is noted, and its placeholder takes its place.
abbrev pub placeholder : ℕ → Text
placeholder n = codes "<span data-af-math=\"" ++ (to_decimal n ++ codes "\"></span>")

abbrev pub span_of : Bool → Text → MathSpan
span_of display tex = record { tex = trim tex; display = display }

-- The text that is put together from the pieces, and the formulas noted, behind those of before.
unfoldable pub put_together : Bool → List MathSpan → List MathPiece → Text × List MathSpan
unfolding to_decimal trim
put_together display maths [] = ([], maths)
put_together display maths (kept c ∷ ps) =
    let (text, all_maths) = put_together display maths ps in (c ∷ text, all_maths)
put_together display maths (found source tex ∷ ps) =
    let (text, all_maths) = put_together display (maths ++ (span_of display tex ∷ [])) ps in
    (placeholder (length maths) ++ text, all_maths)

-- `text.replace(pattern, ...)`
unfoldable pub replace_math :
    (Text → Option (Text × Text)) → Bool → List MathSpan → Text → Text × List MathSpan
unfolding math_pieces_from put_together
replace_math match_at display maths text =
    put_together display maths (math_pieces_from match_at (length text) text)

unfoldable pub extract_math : Text → Text × List MathSpan
unfolding replace_math display_at inline_at
extract_math raw =
    let (text, maths) = replace_math display_at true [] raw in
    replace_math inline_at false maths text

pub record RenderedMarkdown : Type 0 where
  pub html : Text
  pub maths : List MathSpan

unfoldable pub render_markdown : (Text → Text) → Text → RenderedMarkdown
unfolding extract_math
render_markdown sanitized raw = record {
  html = sanitized (extract_math raw).0;
  maths = (extract_math raw).1;
}
