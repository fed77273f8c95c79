-- ===== src/Tags.antt =====
-- web/src/components/molecules/TagCloud/TagCloud.tsx: the tags in the order in which they are shown. The
-- language's sort is stable, and its comparison of words is a parameter.
pub mod Sorted
use agentforum.Base.{
  ℕ, Bool, true, false, not, List, [], ◌∷◌, ◌++◌, map, Text, codes, ltb, eq_nat, to_decimal,
  if◌then◌else◌,
}

pub record TagCount : Type 0 where
  pub tag : Text
  pub count : ℕ

-- Whether the comparison of two tags is not positive; `not_behind` tells it of their words.
abbrev pub goes_first : (Text → Text → Bool) → TagCount → TagCount → Bool
goes_first not_behind a b =
    if not (eq_nat b.count a.count) then ltb b.count a.count else not_behind a.tag b.tag

abbrev pub insert : (Text → Text → Bool) → TagCount → List TagCount → List TagCount
insert not_behind t [] = t ∷ []
insert not_behind t (u ∷ us) =
    let later = insert not_behind t us in
    if goes_first not_behind t u then t ∷ u ∷ us else u ∷ later

unfoldable pub sorted : (Text → Text → Bool) → List TagCount → List TagCount
sorted not_behind [] = []
sorted not_behind (t ∷ ts) = insert not_behind t (sorted not_behind ts)

-- The label of a tag.
unfoldable pub label_of : TagCount → Text
unfolding to_decimal
label_of t = t.tag ++ (codes " (" ++ (to_decimal t.count ++ codes ")"))
