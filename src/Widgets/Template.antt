-- ===== src/Widgets/Template.antt =====
-- web/src/widgets/actions.ts `interpolate`: the places `${path}` and `$path` of a text, and what is put
-- there; `renderTemplate` of web/src/widgets/cellRenderers.tsx has the same places.
pub mod Places
pub mod Safe
pub mod Plain
use mathlib.Core.Option
use agentforum.Base.{
  ℕ, zero, suc, Bool, true, false, not, ◌&&◌, ◌||◌, Option, none, some, ◌>>=◌, List, [], ◌∷◌, ◌++◌,
  Text, leb, length, ◌==◌, text_eq, nat_eq, if◌then◌else◌,
}
use agentforum.Widgets.Values.{Value, shown_text}
use agentforum.Widgets.Paths.{lookup_context}
use agentforum.Widgets.Encode.{encode_uri_component}

-- A piece of a template: a code unit that is kept, or a place `${path}` or `$path` for a value.
pub data Piece : Type 0 where
  unit : ℕ → Piece
  braced bare : Text → Piece

-- The longest prefix of units that pass a test, and the rest.
unfoldable pub span : (ℕ → Bool) → Text → Text × Text
span p [] = ([], [])
span p (c ∷ s) = let (taken, rest) = span p s in if p c then (c ∷ taken, rest) else ([], c ∷ s)

-- The class `[A-Za-z0-9_.-]`.
unfoldable pub is_path_char : ℕ → Bool
is_path_char c =
    (leb b'A' c && leb c b'Z')
    || (leb b'a' c && leb c b'z')
    || (leb b'0' c && leb c b'9')
    || c == b'_'
    || c == b'.'
    || c == b'-'

-- `[^}]+` and `}` behind an opening brace, in what `span` gives for units other than `}`.
abbrev pub close_brace : Text × Text → Option (Piece × Text)
close_brace ([], rest) = none
close_brace (c ∷ path, []) = none
close_brace (c ∷ path, d ∷ rest) = some (braced (c ∷ path), rest)

abbrev pub non_empty : Text × Text → Option (Piece × Text)
non_empty ([], rest) = none
non_empty (c ∷ path, rest) = some (bare (c ∷ path), rest)

-- What stands behind a `$`, if it makes a place: the place, and the text behind it.
unfoldable pub place_at : Text → Option (Piece × Text)
unfolding span is_path_char
place_at [] = none
place_at (c ∷ s) =
    if c == b'{'
    then close_brace (span (λ d. not (d == b'}')) s)
    else non_empty (span is_path_char (c ∷ s))

-- The next match of the pattern, or one unit that is kept.
unfoldable pub next_piece : ℕ → Text → Piece × Text
next_piece c s = if c == b'$' then Option.get_or (place_at s) (unit c, s) else (unit c, s)

-- The matches of the pattern from left to right; each round takes the fuel of one code unit.
unfoldable pub pieces_from : ℕ → Text → List Piece
pieces_from zero s = []
pieces_from (suc fuel) [] = []
pieces_from (suc fuel) (c ∷ s) = let (piece, rest) = next_piece c s in piece ∷ pieces_from fuel rest

unfoldable pub pieces : Text → List Piece
unfolding pieces_from next_piece place_at
pieces template = pieces_from (length template) template

-- What is put at a place; `none` where encoding throws.
unfoldable pub value_at : Bool → Value → Text → Option Text
unfolding lookup_context shown_text encode_uri_component
value_at encode context path =
    let text = shown_text (lookup_context path context) in
    if encode then encode_uri_component text else some text

unfoldable pub fill : Bool → Value → Piece → Option Text
unfolding value_at
fill encode context (unit c) = some (c ∷ [])
fill encode context (braced path) = value_at encode context path
fill encode context (bare path) = value_at encode context path

unfoldable pub fill_all : Bool → Value → List Piece → Option Text
unfolding fill
fill_all encode context [] = some []
fill_all encode context (p ∷ ps) = do
  text ← fill encode context p
  more ← fill_all encode context ps
  some (text ++ more)

unfoldable pub interpolate : Bool → Text → Value → Option Text
unfolding pieces fill_all
interpolate encode template context = fill_all encode context (pieces template)
