-- ===== src/Widgets/Template/Safe.antt =====
-- What the values of the context can and cannot put into an encoded target.
use agentforum.Base.{
  ℕ, Bool, true, false, not, ◌||◌, some, >>=-eq-some, List, [], ◌∷◌, ◌++◌, ◌≡◌, refl, sym, ap, ◌∙◌,
  inl, inr, arith, Text, keep, keep-append, All, ◌==◌, nat_eq,
}
use agentforum.Widgets.Values.{Value, shown_text}
use agentforum.Widgets.Paths.{lookup_context}
use agentforum.Widgets.Encode.{is_unreserved, IsPlain}
use agentforum.Widgets.Encode.Plain.{encode_uri_component-All}
use agentforum.Widgets.Template.{
  Piece, unit, braced, bare, value_at, fill, fill_all, pieces, interpolate,
}

-- A unit with a meaning in a URL, or one that a URL cannot hold: not unreserved, and no percent sign.
abbrev pub is_reserved : ℕ → Bool
is_reserved c = not (is_unreserved c || c == b'%')

-- The units of a template outside its places.
abbrev pub kept : List Piece → Text
kept [] = []
kept (unit c ∷ ps) = c ∷ kept ps
kept (braced path ∷ ps) = kept ps
kept (bare path ∷ ps) = kept ps

is_reserved-IsPlain : (c : ℕ) → IsPlain c → is_reserved c ≡ false
unfolding is_unreserved
is_reserved-IsPlain c (inl e) = rw e
is_reserved-IsPlain c (inr e) = rw e

pub keep-All : (t : Text) → All IsPlain t → keep is_reserved t ≡ []
keep-All [] h = refl
keep-All (c ∷ t) h = ground (arith, is_reserved-IsPlain c h.0, keep-All t h.1)

value_at-reserved :
    (context : Value) (path t : Text)
    → value_at true context path ≡ some t
    → keep is_reserved t ≡ []
unfolding value_at
value_at-reserved context path t h =
    keep-All t (encode_uri_component-All (shown_text (lookup_context path context)) t h)

fill-reserved :
    (context : Value) (p : Piece) (ps : List Piece) (t : Text)
    → fill true context p ≡ some t
    → keep is_reserved t ++ keep is_reserved (kept ps) ≡ keep is_reserved (kept (p ∷ ps))
unfolding fill
fill-reserved context (unit c) ps t h =
    let same : c ∷ [] ≡ t = cc in
    ap (λ u. keep is_reserved u ++ keep is_reserved (kept ps)) (sym same)
    ∙ sym (keep-append is_reserved (c ∷ []) (kept ps))
fill-reserved context (braced path) ps t h =
    ap (λ u. u ++ keep is_reserved (kept ps)) (value_at-reserved context path t h)
fill-reserved context (bare path) ps t h =
    ap (λ u. u ++ keep is_reserved (kept ps)) (value_at-reserved context path t h)

fill_all-reserved :
    (context : Value) (ps : List Piece) (r : Text)
    → fill_all true context ps ≡ some r
    → keep is_reserved r ≡ keep is_reserved (kept ps)
unfolding fill_all
fill_all-reserved context [] r h = let same : [] ≡ r = cc in ap (keep is_reserved) (sym same)
fill_all-reserved context (p ∷ ps) r h =
    let (t, filled, next) = >>=-eq-some (fill true context p) _ h in
    let (more, rest, joined) = >>=-eq-some (fill_all true context ps) _ next in
    let same : t ++ more ≡ r = cc in
    ap (keep is_reserved) (sym same)
    ∙ keep-append is_reserved t more
    ∙ ap (λ u. keep is_reserved t ++ u) (fill_all-reserved context ps more rest)
    ∙ fill-reserved context p ps t filled

-- What a target holds besides unreserved units and percent signs is what its template holds of them
-- outside its places, in the same order: no value of the context adds one.
pub interpolate-reserved :
    (template : Text) (context : Value) (r : Text)
    → interpolate true template context ≡ some r
    → keep is_reserved r ≡ keep is_reserved (kept (pieces template))
interpolate-reserved template context r h =
    fill_all-reserved context (pieces template) r (unfold interpolate in h)
