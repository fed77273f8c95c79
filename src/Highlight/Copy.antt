-- ===== src/Highlight/Copy.antt =====
-- web/src/components/organisms/PostStream/codeEnhancements.ts: the copy buttons, which follow the pass over
-- a post's code blocks. The click on a button is the browser's.
use agentforum.Base.{Bool, true, false, List, [], ◌∷◌, all, ◌≡◌, refl, ap, ◌∙◌, Text, if◌then◌else◌}
use agentforum.Highlight.{Block, highlight_blocks}

-- A `pre` element: whether it has a copy button.
abbrev pub add_copy_buttons : List Bool → List Bool
add_copy_buttons [] = []
add_copy_buttons (has_button ∷ pres) =
    (if has_button then has_button else true) ∷ add_copy_buttons pres

-- What `enhanceCodeBlocks` leaves: the blocks and the `pre` elements. A pass that throws ends it, as does
-- a cleanup that has come before the pass is over.
abbrev pub with_buttons : List Block × Bool → Bool → List Bool → List Block × List Bool
with_buttons (blocks, true) cancelled pres = (blocks, pres)
with_buttons (blocks, false) true pres = (blocks, pres)
with_buttons (blocks, false) false pres = (blocks, add_copy_buttons pres)

unfoldable pub enhance_code_blocks :
    (Text → Bool) → Bool → Bool → List Block → List Bool → List Block × List Bool
unfolding highlight_blocks
enhance_code_blocks known throws cancelled blocks pres =
    with_buttons (highlight_blocks known throws blocks) cancelled pres

add_copy_buttons-all : (pres : List Bool) → all (λ b. b) (add_copy_buttons pres) ≡ true
add_copy_buttons-all [] = refl
add_copy_buttons-all (true ∷ pres) = add_copy_buttons-all pres
add_copy_buttons-all (false ∷ pres) = add_copy_buttons-all pres

-- After a pass that throws, no code of the post gets a copy button, that of the blocks before included;
-- after one that does not, and no cleanup, all have one.
pub enhance_code_blocks-buttons :
    (known : Text → Bool) (throws : Bool) (blocks : List Block) (pres : List Bool)
    → ((highlight_blocks known throws blocks).1 ≡ true
        → (enhance_code_blocks known throws false blocks pres).1 ≡ pres)
      × ((highlight_blocks known throws blocks).1 ≡ false
          → all (λ b. b) (enhance_code_blocks known throws false blocks pres).1 ≡ true)
unfolding enhance_code_blocks
enhance_code_blocks-buttons known throws blocks pres =
    let blocks_after = (highlight_blocks known throws blocks).0 in
    (
      λ e. ap (λ b. (with_buttons (blocks_after, b) false pres).1) e,
      λ e.
          ap (λ b. all (λ x. x) (with_buttons (blocks_after, b) false pres).1) e
          ∙ add_copy_buttons-all pres,
    )
