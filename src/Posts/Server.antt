-- ===== src/Posts/Server.antt =====
-- A thread's server, and what its pages are to the posts that are shown.
use mathlib.Core.Option
use mathlib.Core.List.{map-append}
use agentforum.Base.{
  ℕ, ◌<◌, true, false, not, Option, none, some, List, [], ◌∷◌, ◌++◌, append_assoc, ◌≡◌, sym, ap,
  ◌∙◌, ◌⊎◌, inl, inr, arith, Text, length, length-append, length-drop, length-take, take, drop,
  get_last?, take-append-drop, last_cases, get_last?-append, contains, contains-append,
  contains-of-==, distinct, distinct-append_both, unseen_all, text_eq, ◌==◌, ==_refl, Bool-cases,
}
use agentforum.Posts.{Post, PostQuery, list_posts_query, ids, merge, force_refetch}
use agentforum.Posts.Merge.{merge-append}

-- The server, which is not modelled: a page holds the posts behind the cursor, up to the limit. That of the
-- repository is one for threads in which no two posts have the same time, by which it selects the posts.
pub record ThreadServer (thread : Text) : Type 0 where
  pub serve : PostQuery → List Post
  pub all_posts : List Post
  pub distinct_ids : distinct (ids all_posts) ≡ true
  pub first_page : serve (list_posts_query thread none) ≡ take 50 all_posts
  pub page_after :
      (before : List Post) (p : Post) (rest : List Post)
      → all_posts ≡ before ++ (p ∷ rest)
      → serve (list_posts_query thread (some p.id)) ≡ take 50 rest

abbrev pub id_of : Post → Text
id_of p = p.id

-- The cursor of the next page.
abbrev pub last_id : List Post → Option Text
last_id posts = Option.map id_of (get_last? posts)

contains-take :
    (n : ℕ) (rest : List Post) (k : Text)
    → contains k (ids (take n rest)) ≡ true
    → contains k (ids rest) ≡ true
contains-take n rest k h =
    sym (ap (λ ps. contains k (ids ps)) (take-append-drop n rest))
    ∙ ap (contains k) (map-append id_of (take n rest) (drop n rest))
    ∙ contains-append k (ids (take n rest)) (ids (drop n rest))
    ∙ rw h

pub none_left : (rest : List Post) → length (take 50 rest) < 50 → drop 50 rest ≡ []
none_left rest h = elim (last_cases (drop 50 rest)) [
  | inl e ↦ e
  | inr (before, p, e) ↦ absurd (
      omega (
        arith,
        h,
        length-take 50 rest,
        length-drop 50 rest,
        ap length e,
        length-append before (p ∷ []),
      ))
]

last_id-append : (posts : List Post) (p : Post) → last_id (posts ++ (p ∷ [])) ≡ some p.id
last_id-append posts p = ap (Option.map id_of) (get_last?-append posts p)

contains-last : (before : List Post) (q : Post) → contains q.id (ids (before ++ (q ∷ []))) ≡ true
contains-last [] q = ground (arith, ==_refl q.id)
contains-last (p ∷ before) q = ground (arith, contains-last before q)

-- The last post of the next page is not the last one shown.
page-moves :
    (posts : List Post) (p : Post)
    → contains p.id (ids posts) ≡ false
    → force_refetch (some p.id) (last_id posts) ≡ true
page-moves posts p new = elim (last_cases posts) [
  | inl e ↦ ap (λ ps. force_refetch (some p.id) (last_id ps)) e
  | inr (c, q, e) ↦
      ap (λ ps. force_refetch (some p.id) (last_id ps)) e
      ∙ ap (force_refetch (some p.id)) (last_id-append c q)
      ∙ elim (Bool-cases (p.id == q.id)) [
        | inl same ↦ absurd (
            cc (
              contains-of-== p.id q.id (ids posts) same,
              new,
              ap (λ ps. contains q.id (ids ps)) e,
              contains-last c q,
            ))
        | inr other ↦ ap not other
      ]
]

module _ {thread : Text} (server : ThreadServer thread) where
  abbrev pub cursor_page : List Post → List Post
  cursor_page posts = server.serve (list_posts_query thread (last_id posts))

  pub next_page :
      (posts rest : List Post)
      → server.all_posts ≡ posts ++ rest
      → server.serve (list_posts_query thread (last_id posts)) ≡ take 50 rest
  next_page posts rest split = elim (last_cases posts) [
    | inl e ↦ ap cursor_page e ∙ server.first_page ∙ ap (take 50) (split ∙ ap (λ ps. ps ++ rest) e)
    | inr (before, p, e) ↦
        ap cursor_page e
        ∙ ap (λ o. server.serve (list_posts_query thread (Option.map id_of o)))
            (get_last?-append before p)
        ∙ server.page_after before p rest
            (split ∙ ap (λ ps. ps ++ rest) e ∙ append_assoc before (p ∷ []) rest)
  ]

  -- No id is in the posts that are shown and in the rest.
  apart :
      (posts rest : List Post) (k : Text)
      → server.all_posts ≡ posts ++ rest
      → contains k (ids rest) ≡ true
      → contains k (ids posts) ≡ false
  apart posts rest k split h = elim (Bool-cases (contains k (ids posts))) [
    | inl e ↦
        let both = distinct-append_both k (ids posts) (ids rest) e h in
        let once = ap (λ ps. distinct (ids ps)) split ∙ ap distinct (map-append id_of posts rest) in
        absurd (cc (both, once, server.distinct_ids))
    | inr e ↦ e
  ]

  pub merge-page :
      (posts rest : List Post)
      → server.all_posts ≡ posts ++ rest
      → merge posts (take 50 rest) ≡ posts ++ take 50 rest
  merge-page posts rest split =
      merge-append posts (take 50 rest)
      ∙ ap (◌++◌ posts) (
          unseen_all id_of (ids posts) (take 50 rest)
            (λ k h. apart posts rest k split (contains-take 50 rest k h)))

  pub next-moves :
      (posts rest : List Post)
      → server.all_posts ≡ posts ++ rest
      → (drop 50 rest ≡ [])
        ⊎ (force_refetch (last_id (posts ++ take 50 rest)) (last_id posts) ≡ true)
  next-moves posts rest split = elim (last_cases (take 50 rest)) [
    | inl e ↦ inl (none_left rest (omega (arith, ap length e)))
    | inr (before, p, e) ↦
        let there : contains p.id (ids (take 50 rest)) ≡ true =
          ap (λ ps. contains p.id (ids ps)) e ∙ contains-last before p in
        inr (
          ap (λ ps. force_refetch (last_id (posts ++ ps)) (last_id posts)) e
          ∙ ap (λ ps. force_refetch (last_id ps) (last_id posts))
              (sym (append_assoc posts before (p ∷ [])))
          ∙ ap (λ o. force_refetch o (last_id posts)) (last_id-append (posts ++ before) p)
          ∙ page-moves posts p (apart posts rest p.id split (contains-take 50 rest p.id there)))
  ]
