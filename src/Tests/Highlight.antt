-- ===== src/Tests/Highlight.antt =====
-- The languages of code blocks at concrete inputs.
use agentforum.Base.{Bool, true, false, [], ◌∷◌, ◌≡◌, refl, Text, codes, contains, text_eq}
use agentforum.Highlight.{
  canonical, inherited, missing, normalize_language, to_lower, load_all, Block, plain, in_language,
  marked, highlight_blocks, requested_languages, loadable,
}
use agentforum.Highlight.Loading.{
  CalledOnce, asked, answered, load_steps, nothing_loaded, load_steps-CalledOnce,
  load_all-requested_languages, Wanted,
}

shut : Unit {0}
unfolding normalize_language to_lower loadable load_steps load_all highlight_blocks
    requested_languages
shut = tt

names_run :
    (normalize_language (codes "hljs" ∷ codes "language-Shell" ∷ []) ≡ canonical (codes "bash"))
    × (normalize_language (codes "lang-ts" ∷ []) ≡ canonical (codes "typescript"))
    × (normalize_language (codes "language-cobol" ∷ []) ≡ missing)
    × (normalize_language (codes "language-constructor" ∷ []) ≡ inherited)
unfolding shut
names_run = (refl, refl, refl, refl)

loads_run :
    (load_steps nothing_loaded (
      asked (codes "go")
      ∷ asked (codes "go")
      ∷ answered (codes "go") true
      ∷ asked (codes "go")
      ∷ [])).calls
    ≡ codes "go" ∷ []
unfolding shut
loads_run = refl

needs_bash :
    contains
      (codes "bash")
      (requested_languages ((codes "lang-ts" ∷ []) ∷ (codes "lang-sh" ∷ []) ∷ []))
    ≡ true
unfolding shut
needs_bash = refl

load_all-requested_languages_example : Wanted (codes "bash") (
    load_all
      (requested_languages ((codes "lang-ts" ∷ []) ∷ (codes "lang-sh" ∷ []) ∷ []))
      nothing_loaded)
load_all-requested_languages_example =
    load_all-requested_languages ((codes "lang-ts" ∷ []) ∷ (codes "lang-sh" ∷ []) ∷ [])
      nothing_loaded (codes "bash") needs_bash

nothing_called : CalledOnce nothing_loaded
nothing_called = record { once = refl; called = λ name. refl }

load_steps-CalledOnce_example : CalledOnce (
    load_steps nothing_loaded
      (asked (codes "go") ∷ asked (codes "go") ∷ answered (codes "go") true ∷ []))
load_steps-CalledOnce_example =
    load_steps-CalledOnce nothing_loaded
      (asked (codes "go") ∷ asked (codes "go") ∷ answered (codes "go") true ∷ []) refl
      nothing_called

abbrev shell_block : Block
shell_block = record { classes = codes "language-sh" ∷ []; highlighted = false; markup = plain }

abbrev odd_block : Block
odd_block = record {
  classes = codes "language-constructor" ∷ [];
  highlighted = false;
  markup = plain;
}

abbrev knows_bash : Text → Bool
knows_bash name = contains name (codes "bash" ∷ [])

blocks_run :
    (highlight_blocks knows_bash true (shell_block ∷ odd_block ∷ shell_block ∷ [])
      ≡ (marked shell_block (in_language (codes "bash")) ∷ odd_block ∷ shell_block ∷ [], true))
    × ((highlight_blocks knows_bash true (shell_block ∷ [])).1 ≡ false)
    × (normalize_language odd_block.classes ≡ inherited)
    × (normalize_language shell_block.classes ≡ canonical (codes "bash"))
unfolding shut
blocks_run = (refl, refl, refl, refl)

abbrev knows_all : Text → Bool
knows_all name = true

nothing_thrown : (highlight_blocks knows_all true []).1 ≡ false
unfolding shut
nothing_thrown = refl
