-- ===== src/Mathjax/Ranges.antt =====
-- Requests for font ranges.
use mathlib.Core.Path.{subst}
use mathlib.Core.Option
use agentforum.Base.{
  Bool, true, false, List, [], ◌∷◌, ◌++◌, ◌≡◌, refl, ap, ◌∙◌, arith, Text, codes, split,
  split-append, split-has_no, has_no, get_last?-append, all, contains, get_last?, inherited_members,
  ◌==◌, text_eq, if◌then◌else◌, if_true, Bool-cases, inl, inr,
}
use agentforum.Mathjax.{
  font_ranges, has_range, without_js, loads, load_font_range, range_of, calls_inherited, unknown,
}

abbrev no_slash : Text → Bool
no_slash = has_no b'/'

text_longer : (s : Text) → (s ++ codes ".js" == codes "js") ≡ false
text_longer [] = refl
text_longer (a ∷ []) = ground arith
text_longer (a ∷ b ∷ []) = ground arith
text_longer (a ∷ b ∷ c ∷ s) = ground arith

without_js-append : (s : Text) → without_js (s ++ codes ".js") ≡ s
without_js-append [] = refl
without_js-append (c ∷ s) = ground (arith, text_longer s, without_js-append s)

all-contains :
    (p : Text → Bool) (x : Text) (xs : List Text)
    → all p xs ≡ true
    → contains x xs ≡ true
    → p x ≡ true
all-contains p x [] h m = cc
all-contains p x (y ∷ xs) h m = elim (Bool-cases (y == x)) [
  | inl e ↦ subst (λ k. p k ≡ true) ((text_eq.same_iff y x).0 e) (ground (arith, h))
  | inr e ↦ all-contains p x xs (ground (arith, h)) (ground (arith, m, e))
]

font_ranges-no_slash : all (λ r. no_slash (r ++ codes ".js")) font_ranges ≡ true
font_ranges-no_slash = refl

range-no_slash : (range : Text) → has_range range ≡ true → no_slash (range ++ codes ".js") ≡ true
unfolding has_range
range-no_slash range h =
    all-contains (λ r. no_slash (r ++ codes ".js")) range font_ranges font_ranges-no_slash h

range_of-file :
    (directory range : Text)
    → no_slash (range ++ codes ".js") ≡ true
    → range_of (directory ++ (b'/' ∷ (range ++ codes ".js"))) ≡ range
range_of-file directory range h =
    let file : Text = range ++ codes ".js" in
    let words : split b'/' (directory ++ b'/' ∷ file) ≡ split b'/' directory ++ file ∷ [] =
      split-append b'/' directory file
      ∙ ap (◌++◌ (split b'/' directory)) (split-has_no b'/' file h) in
    ap (λ ws. without_js (Option.get_or (get_last? ws) [])) words
    ∙ ap (λ o. without_js (Option.get_or o [])) (get_last?-append (split b'/' directory) file)
    ∙ without_js-append range

load_font_range-of :
    (file range : Text)
    → range_of file ≡ range
    → has_range range ≡ true
    → load_font_range file ≡ loads range
unfolding load_font_range
load_font_range-of file range e h =
    ap
      (λ r.
        if has_range r
        then loads r
        else if contains r inherited_members
        then calls_inherited r
        else unknown r)
      e
    ∙ if_true _ _ h

-- A file of a range that has a loader loads that range, whatever directory it is asked for in.
pub load_font_range-loads :
    (directory range : Text)
    → has_range range ≡ true
    → load_font_range (directory ++ (b'/' ∷ (range ++ codes ".js"))) ≡ loads range
load_font_range-loads directory range h =
    load_font_range-of (directory ++ (b'/' ∷ (range ++ codes ".js"))) range
      (range_of-file directory range (range-no_slash range h)) h
