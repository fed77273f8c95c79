-- ===== src/Widgets/Template/Plain.antt =====
-- Templates without a place.
use agentforum.Base.{
  ℕ, zero, suc, ◌≤◌, Bool, true, false, not, ◌&&◌, some, ◌>>=◌, [], ◌∷◌, ◌++◌, ◌≡◌, inl, inr, refl,
  ap, ◌∙◌, arith, Text, All, length, has_no, eq_nat, and_left, and_right, if_false, nat_eq,
}
use agentforum.Widgets.Values.{Value}
use agentforum.Widgets.Encode.{IsPlain, is_unreserved}
use agentforum.Widgets.Template.{
  Piece, unit, next_piece, pieces_from, pieces, fill, fill_all, interpolate,
}

abbrev pub no_place : Text → Bool
no_place = has_no b'$'

next_piece-unit : (c : ℕ) (s : Text) → eq_nat c b'$' ≡ false → next_piece c s ≡ (unit c, s)
unfolding next_piece
next_piece-unit c s h = if_false _ _ h

not_lem : (b : Bool) → not b ≡ true → b ≡ false
not_lem true h = cc
not_lem false h = refl

fill_all-no_place :
    (fuel : ℕ) (encode : Bool) (context : Value) (s : Text)
    → length s ≤ fuel
    → no_place s ≡ true
    → fill_all encode context (pieces_from fuel s) ≡ some s
unfolding fill_all pieces_from fill
fill_all-no_place zero encode context [] h k = refl
fill_all-no_place zero encode context (c ∷ s) h k = absurd (omega arith)
fill_all-no_place (suc fuel) encode context [] h k = refl
fill_all-no_place (suc fuel) encode context (c ∷ s) h k =
    ap (λ (p : Piece × Text). fill_all encode context (p.0 ∷ pieces_from fuel p.1))
      (next_piece-unit c s (not_lem _ (and_left (not (eq_nat c b'$')) (no_place s) k)))
    ∙ ap (λ o. o >>= (λ more. some ((c ∷ []) ++ more)))
        (fill_all-no_place fuel encode context s (omega arith)
          (and_right (not (eq_nat c b'$')) (no_place s) k))

-- A template without a `$` is left as it is.
pub interpolate-no_place :
    (encode : Bool) (template : Text) (context : Value)
    → no_place template ≡ true
    → interpolate encode template context ≡ some template
unfolding interpolate pieces
interpolate-no_place encode template context h =
    fill_all-no_place (length template) encode context template (omega arith) h

plain_unit : (c : ℕ) → IsPlain c → not (eq_nat c b'$') ≡ true
unfolding is_unreserved
plain_unit c (inl h) = ground (arith, h)
plain_unit c (inr h) = ground (arith, h)

pub All-no_place : (t : Text) → All IsPlain t → no_place t ≡ true
All-no_place [] h = refl
All-no_place (c ∷ t) (p, h) = ap (λ b. b && no_place t) (plain_unit c p) ∙ All-no_place t h
