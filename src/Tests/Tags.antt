-- ===== src/Tests/Tags.antt =====
-- The cloud of tags at concrete inputs.
use agentforum.Base.{
  Bool, true, false, ◌||◌, List, [], ◌∷◌, map, ◌≡◌, refl, Text, codes, to_decimal, leb, arith,
}
use agentforum.Tags.{TagCount, sorted, label_of}
use agentforum.Tags.Sorted.{falls, in_turn, number_of, sorted_lem}

abbrev no_order : Text → Text → Bool
no_order a b = true

abbrev go_tag : TagCount
go_tag = record { tag = codes "go"; count = 2 }

abbrev ts_tag : TagCount
ts_tag = record { tag = codes "ts"; count = 5 }

abbrev js_tag : TagCount
js_tag = record { tag = codes "js"; count = 2 }

tags_run :
    map label_of (sorted no_order (go_tag ∷ ts_tag ∷ js_tag ∷ []))
    ≡ codes "ts (5)" ∷ codes "go (2)" ∷ codes "js (2)" ∷ []
unfolding sorted label_of to_decimal
tags_run = refl

abbrev shown_tags : List TagCount
shown_tags = go_tag ∷ ts_tag ∷ js_tag ∷ []

-- Words by their first units.
abbrev by_start : Text → Text → Bool
by_start [] b = true
by_start (c ∷ a) [] = false
by_start (c ∷ a) (d ∷ b) = leb c d

by_start-total : (a b : Text) → (by_start a b || by_start b a) ≡ true
by_start-total [] b = refl
by_start-total (c ∷ a) [] = refl
by_start-total (c ∷ a) (d ∷ b) = ground arith

sorted_lem_example :
    (falls (sorted by_start shown_tags) ≡ true)
    × (in_turn by_start (sorted by_start shown_tags) ≡ true)
    × ((p : TagCount → Bool) → number_of p (sorted by_start shown_tags) ≡ number_of p shown_tags)
sorted_lem_example = sorted_lem by_start by_start-total shown_tags
