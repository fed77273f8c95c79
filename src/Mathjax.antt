-- ===== src/Mathjax.antt =====
-- web/src/lib/mathjax.ts: the font ranges, the one document that typesets formulas, and the style sheet
-- that it needs. MathJax itself is a parameter.
pub mod Ranges
pub mod Document
use mathlib.Core.Option
use agentforum.Base.{
  ℕ, zero, suc, Bool, true, false, Option, none, some, List, [], ◌∷◌, ◌++◌, Text, codes, split,
  contains, get_last?, inherited_members, ◌==◌, text_eq, if◌then◌else◌,
}

-- `FONT_RANGES`, by the names that have a loader.
abbrev pub font_ranges : List Text
font_ranges =
    codes "accents"
    ∷ codes "accents-b-i"
    ∷ codes "arabic"
    ∷ codes "arrows"
    ∷ codes "braille"
    ∷ codes "braille-d"
    ∷ codes "calligraphic"
    ∷ codes "cherokee"
    ∷ codes "cyrillic"
    ∷ codes "cyrillic-ss"
    ∷ codes "devanagari"
    ∷ codes "double-struck"
    ∷ codes "fraktur"
    ∷ codes "greek"
    ∷ codes "greek-ss"
    ∷ codes "hebrew"
    ∷ codes "latin"
    ∷ codes "latin-b"
    ∷ codes "latin-bi"
    ∷ codes "latin-i"
    ∷ codes "marrows"
    ∷ codes "math"
    ∷ codes "monospace"
    ∷ codes "monospace-ex"
    ∷ codes "monospace-l"
    ∷ codes "mshapes"
    ∷ codes "phonetics"
    ∷ codes "phonetics-ss"
    ∷ codes "PUA"
    ∷ codes "sans-serif"
    ∷ codes "sans-serif-b"
    ∷ codes "sans-serif-bi"
    ∷ codes "sans-serif-ex"
    ∷ codes "sans-serif-i"
    ∷ codes "sans-serif-r"
    ∷ codes "script"
    ∷ codes "shapes"
    ∷ codes "symbols"
    ∷ codes "symbols-b-i"
    ∷ codes "variants"
    ∷ []

unfoldable pub has_range : Text → Bool
has_range range = contains range font_ranges

-- `s.replace(/\.js$/, "")`
abbrev pub without_js : Text → Text
without_js [] = []
without_js (c ∷ s) = let rest = without_js s in if (c ∷ s) == codes ".js" then [] else c ∷ rest

-- What a request for a range does: its loader is called, an inherited member is, or it is rejected.
pub data RangeLoad : Type 0 where
  loads calls_inherited unknown : Text → RangeLoad

abbrev pub range_of : Text → Text
range_of file = without_js (Option.get_or (get_last? (split b'/' file)) [])

unfoldable pub load_font_range : Text → RangeLoad
load_font_range file =
    let range = range_of file in
    if has_range range
    then loads range
    else if contains range inherited_members
    then calls_inherited range
    else unknown range

-- `docPromise`, as far as it has come.
pub data DocPromise : Type 0 where
  pending fulfilled : DocPromise
  rejected : Text → DocPromise

-- The module's and the page's state: the promise, how often a document has been asked to be built, the
-- style sheets with the id in the page, and the calls that wait for the document to add one.
pub record Page : Type 0 where
  pub document : Option DocPromise
  pub builds : ℕ
  pub styles : List Text
  pub waiting : ℕ

abbrev pub ask_document : Option DocPromise → Page → Page
ask_document none p = record p { document = some pending; builds = suc p.builds }
ask_document (some promise) p = p

unfoldable pub get_document : Page → Page
get_document p = ask_document p.document p

-- The imports and the document's construction have succeeded or failed.
abbrev pub answer_document : Option DocPromise → DocPromise → Page → Page
answer_document (some pending) answer p = record p { document = some answer }
answer_document _ answer p = p

unfoldable pub settle_document : DocPromise → Page → Page
settle_document answer p = answer_document p.document answer p

abbrev pub has_styles : List Text → Bool
has_styles [] = false
has_styles (s ∷ ss) = true

-- `ensureMathStyles` up to the wait for the document, and from there on.
unfoldable pub ensure_math_styles : Page → Page
unfolding get_document
ensure_math_styles p =
    if has_styles p.styles
    then p
    else let asked = get_document p in record asked { waiting = suc asked.waiting }

abbrev pub add_styles : Text → List Text → List Text
add_styles css [] = css ∷ []
add_styles css (s ∷ ss) = s ∷ ss

-- What a call that waits does, by what the document's promise has come to.
abbrev pub go_on : Option DocPromise → ℕ → Text → Page → Page
go_on (some fulfilled) (suc others) css p = record p {
  styles = add_styles css p.styles;
  waiting = others;
}
go_on (some (rejected e)) (suc others) css p = record p { waiting = others }
go_on _ _ css p = p

unfoldable pub resume_styles : Text → Page → Page
resume_styles css p = go_on p.document p.waiting css p

-- `TypesetResult`: a node, or the error that leaves the source as it is.
pub data TypesetResult (N : Type 0) : Type 0 where
  typeset : N → TypesetResult N
  failed : Text → TypesetResult N

-- What `typesetTeX` answers once the document's promise has settled; `convert` is MathJax's, with its
-- retries, and ends in a node or an error.
unfoldable pub typeset_tex :
    {N : Type 0}
    → (Text → Bool → TypesetResult N)
    → DocPromise
    → Text
    → Bool
    → Option (TypesetResult N)
typeset_tex convert pending tex display = none
typeset_tex convert (rejected e) tex display = some (failed e)
typeset_tex convert fulfilled tex display = some (convert tex display)
