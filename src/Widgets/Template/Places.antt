-- ===== src/Widgets/Template/Places.antt =====
-- The pieces of a template are all of it: written out again, they give the template back.
use mathlib.Core.Option
use agentforum.Base.{
  ℕ, zero, suc, ◌≤◌, Bool, false, not, Bool-cases, Option-cases, some, List, [], ◌∷◌, ◌++◌,
  append_assoc, ◌≡◌, refl, sym, ap, ◌∙◌, inl, inr, arith, Text, length, length-append, ◌==◌, nat_eq,
  if_true, if_false,
}
use agentforum.Widgets.Template.{
  Piece, unit, braced, bare, span, is_path_char, close_brace, non_empty, place_at, next_piece,
  pieces_from, pieces,
}

abbrev pub source : Piece → Text
source (unit c) = c ∷ []
source (braced path) = b'$' ∷ b'{' ∷ (path ++ b'}' ∷ [])
source (bare path) = b'$' ∷ path

abbrev pub sources : List Piece → Text
sources [] = []
sources (p ∷ ps) = source p ++ sources ps

span-append : (p : ℕ → Bool) (s : Text) → (span p s).0 ++ (span p s).1 ≡ s
unfolding span
span-append p [] = refl
span-append p (c ∷ s) = ground (arith, span-append p s)

-- The prefix stops at a unit that fails the test.
span-stop : (p : ℕ → Bool) (s : Text) (d : ℕ) (rest : Text) → (span p s).1 ≡ d ∷ rest → p d ≡ false
unfolding span
span-stop p [] d rest h = cc
span-stop p (c ∷ s) d rest h = ground (arith, span-stop p s d rest)

close_brace-source :
    (r : Text × Text) {piece : Piece} {rest : Text}
    → ((d : ℕ) (more : Text) → r.1 ≡ d ∷ more → d ≡ b'}')
    → close_brace r ≡ some (piece, rest)
    → source piece ++ rest ≡ b'$' ∷ b'{' ∷ (r.0 ++ r.1)
close_brace-source ([], rest) h e = cc
close_brace-source (c ∷ path, []) h e = cc
close_brace-source (c ∷ path, d ∷ rest) h e =
    ground (arith, h d rest refl, append_assoc path (b'}' ∷ []) rest)

non_empty-source :
    (r : Text × Text) {piece : Piece} {rest : Text}
    → non_empty r ≡ some (piece, rest)
    → source piece ++ rest ≡ b'$' ∷ (r.0 ++ r.1)
non_empty-source ([], rest) e = cc
non_empty-source (c ∷ path, rest) e = ground arith

abbrev closes : ℕ → Bool
closes d = not (d == b'}')

place_at-source :
    (s : Text) (piece : Piece) (rest : Text)
    → place_at s ≡ some (piece, rest)
    → source piece ++ rest ≡ b'$' ∷ s
place_at-source [] piece rest h = unfold place_at in cc
place_at-source (c ∷ s) piece rest h = elim (Bool-cases (c == b'{')) [
  | inl e ↦
      let found : close_brace (span closes s) ≡ some (piece, rest) =
        sym (if_true _ (non_empty (span is_path_char (c ∷ s))) e) ∙ unfold place_at in h in
      close_brace-source (span closes s) (λ d more r. ground (arith, span-stop closes s d more r))
        found
      ∙ ap (λ t. b'$' ∷ b'{' ∷ t) (span-append closes s)
      ∙ ap (λ d. b'$' ∷ d ∷ s) (ground arith)
  | inr e ↦
      let found : non_empty (span is_path_char (c ∷ s)) ≡ some (piece, rest) =
        sym (if_false (close_brace (span closes s)) _ e) ∙ unfold place_at in h in
      non_empty-source (span is_path_char (c ∷ s)) found
      ∙ ap (◌∷◌ b'$') (span-append is_path_char (c ∷ s))
]

abbrev rejoin : Piece × Text → Text
rejoin r = source r.0 ++ r.1

next_piece-source : (c : ℕ) (s : Text) → source (next_piece c s).0 ++ (next_piece c s).1 ≡ c ∷ s
unfolding next_piece
next_piece-source c s = elim (Bool-cases (c == b'$')) [
  | inl e ↦
      let chosen = if_true (Option.get_or (place_at s) (unit c, s)) (unit c, s) e in
      ap rejoin chosen ∙ elim (Option-cases (place_at s)) [
        | inl absent ↦ ap (λ o. rejoin (Option.get_or o (unit c, s))) absent
        | inr (found, present) ↦
            ap (λ o. rejoin (Option.get_or o (unit c, s))) present
            ∙ place_at-source s found.0 found.1 present
            ∙ ap (λ d. d ∷ s) (ground arith)
      ]
  | inr e ↦ ap rejoin (if_false (Option.get_or (place_at s) (unit c, s)) (unit c, s) e)
]

length-source : (p : Piece) → 1 ≤ length (source p)
length-source (unit c) = omega arith
length-source (braced path) = omega arith
length-source (bare path) = omega arith

-- A match takes at least one unit.
next_piece-shorter : (c : ℕ) (s : Text) → length (next_piece c s).1 ≤ length s
next_piece-shorter c s =
    let (piece, rest) = next_piece c s in
    omega (
      arith,
      ap length (next_piece-source c s),
      length-append (source piece) rest,
      length-source piece,
    )

pieces_from-sources : (fuel : ℕ) (s : Text) → length s ≤ fuel → sources (pieces_from fuel s) ≡ s
unfolding pieces_from
pieces_from-sources zero [] h = refl
pieces_from-sources zero (c ∷ s) h = absurd (omega arith)
pieces_from-sources (suc fuel) [] h = refl
pieces_from-sources (suc fuel) (c ∷ s) h =
    let (piece, rest) = next_piece c s in
    ap (◌++◌ (source piece)) (pieces_from-sources fuel rest (omega (arith, next_piece-shorter c s)))
    ∙ next_piece-source c s

-- Written out again in order, the pieces of a template are the whole template: no unit is lost or
-- added, and the fuel suffices.
pieces-sources : (template : Text) → sources (pieces template) ≡ template
unfolding pieces
pieces-sources template = pieces_from-sources (length template) template (omega arith)
