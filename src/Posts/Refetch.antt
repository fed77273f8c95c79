-- ===== src/Posts/Refetch.antt =====
-- A new reply, which fetches the page behind the cursor again.
use mathlib.Core.List.{map-append}
use agentforum.Base.{
  ℕ, ◌-◌, ◌<◌, true, false, none, some, List, ◌++◌, ◌≡◌, sym, ap, ◌∙◌, arith, Text, length,
  length-take, take, drop, ltb, leb, keep-append, take-append-drop, contains, distinct,
  distinct-prefix, take_longer, distinct-append_both, unseen, unseen_none, unseen_all, text_eq,
  Bool-cases, inl, inr,
}
use agentforum.Posts.{
  Post, list_posts_query, ids, merge, QueryCache, ThreadDetail, note_length, refetch,
}
use agentforum.Posts.Merge.{merge-append}
use agentforum.Posts.Server.{ThreadServer, id_of}
use agentforum.Posts.Paging.{note_longer}

distinct-apart :
    (xs ys : List Post) (k : Text)
    → distinct (ids (xs ++ ys)) ≡ true
    → contains k (ids ys) ≡ true
    → contains k (ids xs) ≡ false
distinct-apart xs ys k d h = elim (Bool-cases (contains k (ids xs))) [
  | inl e ↦
      let both = distinct-append_both k (ids xs) (ids ys) e h in
      absurd (cc (both, d, ap distinct (map-append id_of xs ys)))
  | inr e ↦ e
]

-- A page that begins with the posts that are shown adds the others.
merge-append_shown :
    (xs ys : List Post) → distinct (ids (xs ++ ys)) ≡ true → merge xs (xs ++ ys) ≡ xs ++ ys
merge-append_shown xs ys d =
    merge-append xs (xs ++ ys)
    ∙ ap (◌++◌ xs) (
        keep-append _ xs ys
        ∙ ap (λ zs. zs ++ unseen id_of (ids xs) ys) (unseen_none id_of (ids xs) xs (λ k h. h))
        ∙ unseen_all id_of (ids xs) ys (λ k h. distinct-apart xs ys k d h))

ltb_less : (a b : ℕ) → a < b → ltb a b ≡ true
ltb_less a b h = ground arith

leb_greater : (a b : ℕ) → b < a → leb a b ≡ false
leb_greater a b h = ground arith

module _ (cache : QueryCache) {thread : Text} (server : ThreadServer thread) where
  answered-first_page :
      (posts more : List Post)
      → length posts < 50
      → server.all_posts ≡ posts ++ more
      → cache.answered merge (some posts) (server.serve (list_posts_query thread none))
        ≡ take 50 server.all_posts
  answered-first_page posts more not_full split =
      let page : take 50 server.all_posts ≡ posts ++ take (50 - length posts) more =
        ap (take 50) split ∙ take_longer 50 posts more (omega arith) in
      let once : distinct (ids (take 50 server.all_posts)) ≡ true =
        distinct-prefix (ids (take 50 server.all_posts)) (ids (drop 50 server.all_posts)) (
          sym (ap distinct (map-append id_of (take 50 server.all_posts) (drop 50 server.all_posts)))
          ∙ ap (λ ps. distinct (ids ps)) (take-append-drop 50 server.all_posts)
          ∙ server.distinct_ids) in
      cache.answered_next merge posts _
      ∙ ap (merge posts) (server.first_page ∙ page)
      ∙ merge-append_shown posts _ (ap (λ ps. distinct (ids ps)) (sym page) ∙ once)
      ∙ sym page

  -- A screen that shows a first page which was not full, of a thread that has grown past one page since,
  -- shows the first page after it is fetched again, offers no more, and so hides the other posts.
  pub refetch_hides :
      (s : ThreadDetail) (more : List Post)
      → s.posts_after ≡ none
      → s.prev_len ≡ length s.posts
      → 0 < length s.posts
      → length s.posts < 50
      → 50 < length server.all_posts
      → server.all_posts ≡ s.posts ++ more
      → ((refetch cache server.serve thread s).posts ≡ take 50 server.all_posts)
        × ((refetch cache server.serve thread s).has_more ≡ false)
        × (length (refetch cache server.serve thread s).posts < length server.all_posts)
  refetch_hides s more first noted some_shown not_full longer split =
      let shown =
        ap (λ o. cache.answered merge (some s.posts) (server.serve (list_posts_query thread o)))
          first
        ∙ answered-first_page s.posts more not_full split in
      let t = record s { posts = take 50 server.all_posts } in
      let full : length t.posts ≡ 50 = omega (arith, length-take 50 server.all_posts, longer) in
      let noted_length : refetch cache server.serve thread s ≡ note_length t =
        unfold refetch in ap (λ ps. note_length (record s { posts = ps })) shown in
      let grown =
        noted_length ∙ note_longer t (ltb_less _ _ (omega (arith, full, noted, not_full))) in
      let posts = ap (λ (d : ThreadDetail). d.posts) grown in
      (
        posts,
        ap (λ (d : ThreadDetail). d.has_more) grown
            ∙ leb_greater _ _ (omega (arith, full, noted, some_shown)),
        omega (arith, ap length posts, full, longer),
      )
