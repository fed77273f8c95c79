-- ===== src/Highlight/Blocks.antt =====
-- The pass over a post's code blocks.
use mathlib.Core.Path.{subst}
use agentforum.Base.{
  Bool, true, false, Option, none, some, List, [], ◌∷◌, ◌++◌, map, ◌≡◌, refl, sym, ap, ◌∙◌, arith,
  Text, all, contains, contains-append, ==_refl, text_eq, if_true, if_false, Bool-cases, inl, inr,
}
use agentforum.Highlight.{
  Alias, missing, inherited, canonical, detected, in_language, Block, marked, mark_block, pass_on,
  highlight_block, highlight_blocks, normalize_language, languages_of, requested_languages,
}

abbrev pub classes_of : Block → List Text
classes_of b = b.classes

highlight_block-highlighted :
    (known : Text → Bool) (throws : Bool) (b : Block)
    → b.highlighted ≡ true
    → highlight_block known throws b ≡ some b
unfolding highlight_block
highlight_block-highlighted known throws b h = if_true _ _ h

highlight_block-fresh :
    (known : Text → Bool) (throws : Bool) (b : Block)
    → b.highlighted ≡ false
    → highlight_block known throws b ≡ mark_block known throws b (normalize_language b.classes)
unfolding highlight_block
highlight_block-fresh known throws b h = if_false _ _ h

-- Blocks that an earlier pass has been over are left alone.
pub highlight_blocks-highlighted :
    (known : Text → Bool) (throws : Bool) (bs : List Block)
    → all (λ (b : Block). b.highlighted) bs ≡ true
    → highlight_blocks known throws bs ≡ (bs, false)
unfolding highlight_blocks
highlight_blocks-highlighted known throws [] h = refl
highlight_blocks-highlighted known throws (b ∷ bs) h =
    let first = highlight_block-highlighted known throws b (ground (arith, h)) in
    let rest = highlight_blocks-highlighted known throws bs (ground (arith, h)) in
    ap (λ o. pass_on b bs o (highlight_blocks known throws bs)) first
    ∙ ap (λ r. (b ∷ r.0, r.1)) rest

-- What a block is after the pass has been over it.
abbrev IsMarked : Option Block → Type 0
IsMarked none = Unit
IsMarked (some done) = done.highlighted ≡ true

mark_block-IsMarked :
    (known : Text → Bool) (throws : Bool) (b : Block) (a : Alias)
    → IsMarked (mark_block known throws b a)
mark_block-IsMarked known throws b missing = refl
mark_block-IsMarked known throws b (canonical name) = refl
mark_block-IsMarked known true b inherited = tt
mark_block-IsMarked known false b inherited = refl

highlight_block-IsMarked :
    (known : Text → Bool) (throws : Bool) (b : Block) → IsMarked (highlight_block known throws b)
highlight_block-IsMarked known throws b = elim (Bool-cases b.highlighted) [
  | inl e ↦ subst IsMarked (sym (highlight_block-highlighted known throws b e)) e
  | inr e ↦
      subst IsMarked (sym (highlight_block-fresh known throws b e))
        (mark_block-IsMarked known throws b (normalize_language b.classes))
]

abbrev marked_all : List Block → Bool
marked_all = all (λ (b : Block). b.highlighted)

pass_on-marked_all :
    (b : Block) (bs : List Block) (o : Option Block) (rest : List Block × Bool)
    → IsMarked o
    → (rest.1 ≡ false → marked_all rest.0 ≡ true)
    → (pass_on b bs o rest).1 ≡ false
    → marked_all (pass_on b bs o rest).0 ≡ true
pass_on-marked_all b bs none rest m h k = cc
pass_on-marked_all b bs (some done) rest m h k = cc (m, h k)

highlight_blocks-marked_all :
    (known : Text → Bool) (throws : Bool) (bs : List Block)
    → (highlight_blocks known throws bs).1 ≡ false
    → marked_all (highlight_blocks known throws bs).0 ≡ true
unfolding highlight_blocks
highlight_blocks-marked_all known throws [] h = refl
highlight_blocks-marked_all known throws (b ∷ bs) h =
    pass_on-marked_all b bs (highlight_block known throws b) (highlight_blocks known throws bs)
      (highlight_block-IsMarked known throws b) (highlight_blocks-marked_all known throws bs) h

-- After a pass that does not throw, another one changes nothing, whatever it knows.
pub highlight_blocks-again :
    (known later : Text → Bool) (throws : Bool) (bs : List Block)
    → (highlight_blocks known throws bs).1 ≡ false
    → highlight_blocks later throws (highlight_blocks known throws bs).0
      ≡ ((highlight_blocks known throws bs).0, false)
highlight_blocks-again known later throws bs h =
    highlight_blocks-highlighted later throws (highlight_blocks known throws bs).0
      (highlight_blocks-marked_all known throws bs h)

-- A pass over blocks that is appended to one.
abbrev then_pass : List Block × Bool → List Block × Bool → List Block × Bool
then_pass first second = (first.0 ++ second.0, second.1)

pass_on-append :
    (x : Block) (xs ys : List Block) (o : Option Block) (first second whole : List Block × Bool)
    → (first.1 ≡ false → whole ≡ then_pass first second)
    → (pass_on x xs o first).1 ≡ false
    → pass_on x (xs ++ ys) o whole ≡ then_pass (pass_on x xs o first) second
pass_on-append x xs ys none first second whole h k = cc
pass_on-append x xs ys (some done) first second whole h k = ap (λ r. (done ∷ r.0, r.1)) (h k)

-- The pass goes on after blocks that do not throw.
highlight_blocks-append :
    (known : Text → Bool) (throws : Bool) (xs ys : List Block)
    → (highlight_blocks known throws xs).1 ≡ false
    → highlight_blocks known throws (xs ++ ys)
      ≡ then_pass (highlight_blocks known throws xs) (highlight_blocks known throws ys)
unfolding highlight_blocks
highlight_blocks-append known throws [] ys h = refl
highlight_blocks-append known throws (x ∷ xs) ys h =
    pass_on-append x xs ys (highlight_block known throws x) (highlight_blocks known throws xs)
      (highlight_blocks known throws ys) (highlight_blocks known throws (xs ++ ys))
      (highlight_blocks-append known throws xs ys) h

-- A block that is not yet highlighted and whose class names a member that every object inherits stops
-- the pass, if asking highlight.js about such a value throws and no block before it does: the blocks before
-- it are as the pass leaves them, it and those after it are as they were.
highlight_blocks-inherited :
    (known : Text → Bool) (before : List Block) (b : Block) (after : List Block)
    → (highlight_blocks known true before).1 ≡ false
    → b.highlighted ≡ false
    → normalize_language b.classes ≡ inherited
    → highlight_blocks known true (before ++ b ∷ after)
      ≡ ((highlight_blocks known true before).0 ++ b ∷ after, true)
unfolding highlight_blocks
highlight_blocks-inherited known before b after h fresh e =
    highlight_blocks-append known true before (b ∷ after) h
    ∙ ap
        (λ o.
          then_pass (highlight_blocks known true before)
            (pass_on b after o (highlight_blocks known true after)))
        (highlight_block-fresh known true b fresh ∙ ap (mark_block known true b) e)

contains-after :
    (name : Text) (xs ys : List Text) → contains name ys ≡ true → contains name (xs ++ ys) ≡ true
contains-after name xs ys h = ground (arith, h, contains-append name xs ys)

contains-requested_languages :
    (name : Text) (before : List Block) (b : Block) (after : List Block)
    → normalize_language b.classes ≡ canonical name
    → contains name (requested_languages (map classes_of (before ++ b ∷ after))) ≡ true
unfolding requested_languages
contains-requested_languages name [] b after e =
    subst (λ a. contains name (languages_of a ++ requested_languages (map classes_of after)) ≡ true)
      (sym e) (ground (arith, ==_refl name))
contains-requested_languages name (x ∷ before) b after e =
    contains-after name (languages_of (normalize_language x.classes))
      (requested_languages (map classes_of (before ++ b ∷ after)))
      (contains-requested_languages name before b after e)

-- If highlight.js knows every language that the blocks ask for, and no block before it throws, a block
-- that is not yet highlighted and names a language comes out in that language.
highlight_blocks-in_language :
    (known : Text → Bool) (throws : Bool) (before : List Block) (b : Block) (after : List Block)
    (name : Text)
    → ((k : Text)
        → contains k (requested_languages (map classes_of (before ++ b ∷ after))) ≡ true
        → known k ≡ true)
    → (highlight_blocks known throws before).1 ≡ false
    → b.highlighted ≡ false
    → normalize_language b.classes ≡ canonical name
    → (highlight_blocks known throws (before ++ b ∷ after)).0
      ≡ (highlight_blocks known throws before).0
        ++ marked b (in_language name) ∷ (highlight_blocks known throws after).0
unfolding highlight_blocks
highlight_blocks-in_language known throws before b after name all_known h fresh e =
    let its : known name ≡ true =
      all_known name (contains-requested_languages name before b after e) in
    let done : highlight_block known throws b ≡ some (marked b (in_language name)) =
      highlight_block-fresh known throws b fresh
      ∙ ap (mark_block known throws b) e
      ∙ ap (λ m. some (marked b m)) (if_true (in_language name) detected its) in
    ap (λ r. r.0) (highlight_blocks-append known throws before (b ∷ after) h)
    ∙ ap
        (λ o.
          (highlight_blocks known throws before).0
          ++ (pass_on b after o (highlight_blocks known throws after)).0)
        done
