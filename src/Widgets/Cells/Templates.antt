-- ===== src/Widgets/Cells/Templates.antt =====
-- The templates of cells against those of actions.
use agentforum.Base.{◌>>=◌, some, List, [], ◌∷◌, ◌++◌, map, join, ◌≡◌, refl, ap, ◌∙◌, Text, false}
use agentforum.Widgets.Values.{Fields, obj}
use agentforum.Widgets.Paths.{lookup_context}
use agentforum.Widgets.Values.{shown_text}
use agentforum.Widgets.Template.{
  Piece, unit, braced, bare, pieces, fill, fill_all, value_at, interpolate,
}
use agentforum.Widgets.Cells.{piece_text, render_row_template}

fill-piece_text : (row : Fields) (p : Piece) → fill false (obj row) p ≡ some (piece_text row p)
unfolding fill value_at lookup_context shown_text
fill-piece_text row (unit c) = refl
fill-piece_text row (braced path) = refl
fill-piece_text row (bare path) = refl

fill_all-piece_text :
    (row : Fields) (ps : List Piece)
    → fill_all false (obj row) ps ≡ some (join (map (piece_text row) ps))
unfolding fill_all
fill_all-piece_text row [] = refl
fill_all-piece_text row (p ∷ ps) =
    ap (λ o. o >>= (λ text. fill_all false (obj row) ps >>= (λ more. some (text ++ more))))
      (fill-piece_text row p)
    ∙ ap (λ o. o >>= (λ more. some (piece_text row p ++ more))) (fill_all-piece_text row ps)

-- The templates of a table's cells and keys, and those of actions that are not encoded, which the source
-- has twice, give the same text on a row, and none throws.
interpolate-render_row_template :
    (template : Text) (row : Fields)
    → interpolate false template (obj row) ≡ some (render_row_template template row)
unfolding interpolate render_row_template
interpolate-render_row_template template row = fill_all-piece_text row (pieces template)
