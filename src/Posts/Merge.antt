-- ===== src/Posts/Merge.antt =====
-- What `merge` does with the posts of a page.
use mathlib.Core.List.{map-append}
use agentforum.Base.{
  true, ◌||◌, List, [], ◌∷◌, ◌++◌, append-nil, append_assoc, ◌≡◌, sym, ap, ◌∙◌, arith, Text,
  contains, contains-append, distinct, distinct-append, contains-unseen, distinct-unseen, unseen,
  unseen_none, text_eq,
}
use agentforum.Posts.{Post, ids, push_unseen, merge}

abbrev id_of : Post → Text
id_of p = p.id

push_unseen-append :
    (seen : List Text) (current page : List Post)
    → push_unseen seen current page ≡ current ++ unseen id_of seen page
unfolding push_unseen
push_unseen-append seen current [] = sym (append-nil current)
push_unseen-append seen current (p ∷ page) = ground (
  arith,
  push_unseen-append seen current page,
  push_unseen-append seen (current ++ (p ∷ [])) page,
  append_assoc current (p ∷ []) (unseen id_of seen page),
)

pub merge-append :
    (current page : List Post) → merge current page ≡ current ++ unseen id_of (ids current) page
unfolding merge
merge-append current [] = sym (append-nil current)
merge-append current (p ∷ page) = push_unseen-append (ids current) current (p ∷ page)

ids-merge :
    (current page : List Post)
    → ids (merge current page) ≡ ids current ++ ids (unseen id_of (ids current) page)
ids-merge current page = ap ids (merge-append current page) ∙ map-append id_of current _

contains-merge :
    (current page : List Post) (k : Text)
    → contains k (ids (merge current page)) ≡ (contains k (ids current) || contains k (ids page))
contains-merge current page k =
    ap (contains k) (ids-merge current page)
    ∙ contains-append k (ids current) _
    ∙ ground (arith, contains-unseen id_of (ids current) page k)

-- If the posts that are shown have distinct ids, and those of the page have distinct ids too, merging gives
-- posts of distinct ids: those of both, and no others.
pub merge-distinct :
    (current page : List Post)
    → distinct (ids current) ≡ true
    → distinct (ids page) ≡ true
    → (distinct (ids (merge current page)) ≡ true)
      × ((k : Text)
          → contains k (ids (merge current page))
            ≡ (contains k (ids current) || contains k (ids page)))
merge-distinct current page h k = (
  ap distinct (ids-merge current page)
      ∙ distinct-append (ids current) _ h (distinct-unseen id_of (ids current) page k)
          (λ a m. ground (arith, m, contains-unseen id_of (ids current) page a)),
  contains-merge current page,
)

-- A page that is merged twice adds nothing the second time.
merge_again : (current page : List Post) → merge (merge current page) page ≡ merge current page
merge_again current page =
    merge-append (merge current page) page
    ∙ ap (◌++◌ (merge current page)) (
        unseen_none id_of (ids (merge current page)) page
          (λ k m. ground (arith, contains-merge current page k)))
    ∙ append-nil (merge current page)
