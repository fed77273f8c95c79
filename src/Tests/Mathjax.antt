-- ===== src/Tests/Mathjax.antt =====
-- MathJax's document and its fonts at concrete inputs.
use agentforum.Base.{Bool, none, some, [], ◌∷◌, ◌≡◌, refl, Text, codes, arith}
use agentforum.Mathjax.{
  Page, fulfilled, rejected, TypesetResult, typeset, loads, unknown, calls_inherited,
  load_font_range, has_range,
}
use agentforum.Mathjax.Document.{
  OnePage, typeset_called, styles_called, styles_resumed, settled, page_steps, page_steps-OnePage,
}

ranges_run :
    (load_font_range (codes "[mathjax-newcm]/svg/dynamic/double-struck.js")
      ≡ loads (codes "double-struck"))
    × (load_font_range (codes "PUA") ≡ loads (codes "PUA"))
    × (load_font_range (codes "x/klingon.js") ≡ unknown (codes "klingon"))
    × (load_font_range (codes "x/toString.js") ≡ calls_inherited (codes "toString"))
unfolding load_font_range has_range
ranges_run = (refl, refl, refl, refl)

abbrev fresh_page : Page
fresh_page = record { document = none; builds = 0; styles = []; waiting = 0 }

page_runs :
    (page_steps
      (codes "css")
      fresh_page
      (styles_called ∷ styles_called ∷ settled fulfilled ∷ styles_resumed ∷ styles_resumed ∷ []))
    ≡ record { document = some fulfilled; builds = 1; styles = codes "css" ∷ []; waiting = 0 }
unfolding page_steps
page_runs = refl

fresh : OnePage fresh_page
fresh = record { one_document = refl; one_sheet = omega arith; waits = λ e. refl }

page_steps-OnePage_example : OnePage (
    page_steps
      (codes "css")
      fresh_page
      (styles_called ∷ typeset_called ∷ settled fulfilled ∷ styles_resumed ∷ []))
page_steps-OnePage_example =
    page_steps-OnePage (codes "css") fresh_page
      (styles_called ∷ typeset_called ∷ settled fulfilled ∷ styles_resumed ∷ []) fresh

abbrev failed_page : Page
failed_page = record {
  document = some (rejected (codes "offline"));
  builds = 1;
  styles = [];
  waiting = 0;
}

abbrev echo : Text → Bool → TypesetResult Text
echo tex display = typeset tex
