-- ===== src/Posts/Paging.antt =====
-- A thread that is paged through, against a server that keeps its list of posts as it is.
use mathlib.Core.Path.{subst}
use agentforum.Base.{
  ℕ, zero, suc, ◌+◌, ◌-◌, ◌*◌, ◌<◌, true, false, none, some, List, [], ◌++◌, append-nil,
  append_assoc, ◌≡◌, refl, sym, ap, ◌∙◌, ◌⊎◌, inl, inr, arith, Text, ltb, leb, length,
  length-append, length-drop, take, drop, take-append-drop, take_split, text_eq, Bool-cases,
  if_true, if_false,
}
use agentforum.Posts.{
  Post, PostQuery, list_posts_query, merge, force_refetch, QueryCache, ThreadDetail, note_length,
  open_thread, refetch, load_more, load_pages,
}
use agentforum.Posts.Server.{
  ThreadServer, last_id, cursor_page, next_page, merge-page, none_left, next-moves,
}

pub note_longer :
    (s : ThreadDetail)
    → ltb s.prev_len (length s.posts) ≡ true
    → note_length s
      ≡ record s { has_more = leb 50 (length s.posts - s.prev_len); prev_len = length s.posts }
unfolding note_length
note_longer s e = if_true _ _ e

note_no_longer : (s : ThreadDetail) → ltb s.prev_len (length s.posts) ≡ false → note_length s ≡ s
unfolding note_length
note_no_longer s e = if_false _ _ e

module _ (cache : QueryCache) (serve : PostQuery → List Post) (thread : Text)
    (s : ThreadDetail) where
  load_more_moved :
      force_refetch (last_id s.posts) s.posts_after ≡ true
      → load_more cache serve thread s
        ≡ refetch cache serve thread (record s { posts_after = last_id s.posts })
  unfolding load_more
  load_more_moved e = if_true _ _ e

  load_more_stayed :
      force_refetch (last_id s.posts) s.posts_after ≡ false
      → load_more cache serve thread s ≡ record s { posts_after = last_id s.posts }
  unfolding load_more
  load_more_stayed e = if_false _ _ e

module _ (cache : QueryCache) {thread : Text} (server : ThreadServer thread) where
  -- What is shown, and the rest of the thread: more is offered unless nothing is left, and a click
  -- changes the cursor unless nothing is left.
  record Shown (s : ThreadDetail) (rest : List Post) : Type 0 where
    pub in_order : server.all_posts ≡ s.posts ++ rest
    pub noted : s.prev_len ≡ length s.posts
    pub offered : s.has_more ≡ false → rest ≡ []
    pub moves : (rest ≡ []) ⊎ (force_refetch (last_id s.posts) s.posts_after ≡ true)

  note-Shown :
      (s : ThreadDetail) (page rest : List Post)
      → server.all_posts ≡ s.posts ++ rest
      → s.prev_len + length page ≡ length s.posts
      → (length page < 50 → rest ≡ [])
      → (rest ≡ []) ⊎ (force_refetch (last_id s.posts) s.posts_after ≡ true)
      → Shown (note_length s) rest
  note-Shown s page rest split grown left moves =
      elim (Bool-cases (ltb s.prev_len (length s.posts))) [
        | inl e ↦
            subst (λ t. Shown t rest) (sym (note_longer s e))
              (record {
                in_order = split;
                noted = refl;
                offered = λ f. left (ground (arith, f, grown));
                moves = moves;
              })
        | inr e ↦
            subst (λ t. Shown t rest) (sym (note_no_longer s e))
              (record {
                in_order = split;
                noted = ground (arith, e, grown);
                offered = λ f. left (ground (arith, e, grown));
                moves = moves;
              })
      ]

  open_thread-Shown : Shown (open_thread cache server.serve thread) (drop 50 server.all_posts)
  unfolding open_thread
  open_thread-Shown =
      let all_posts = server.all_posts in
      let page = take 50 all_posts in
      let shown : cache.answered merge none (server.serve (list_posts_query thread none)) ≡ page =
        cache.answered_first merge _ ∙ server.first_page in
      subst
        (λ ps.
          Shown
            (note_length
              (record { posts = ps; posts_after = none; prev_len = 0; has_more = false }))
            (drop 50 all_posts))
        (sym shown)
        (note-Shown (record { posts = page; posts_after = none; prev_len = 0; has_more = false })
          page (drop 50 all_posts) (sym (take-append-drop 50 all_posts)) (omega arith)
          (none_left all_posts) (next-moves server [] all_posts refl))

  -- The answer for the cursor behind the posts that are shown.
  refetch-Shown :
      (s : ThreadDetail) (rest : List Post)
      → server.all_posts ≡ s.posts ++ rest
      → s.prev_len ≡ length s.posts
      → Shown
          (refetch cache server.serve thread (record s { posts_after = last_id s.posts }))
          (drop 50 rest)
  unfolding refetch
  refetch-Shown s rest split noted =
      let page = take 50 rest in
      let shown : cache.answered merge (some s.posts) (cursor_page server s.posts)
          ≡ s.posts ++ page =
        cache.answered_next merge s.posts _
        ∙ ap (merge s.posts) (next_page server s.posts rest split)
        ∙ merge-page server s.posts rest split in
      let onwards : server.all_posts ≡ (s.posts ++ page) ++ drop 50 rest =
        split
        ∙ ap (λ ps. s.posts ++ ps) (sym (take-append-drop 50 rest))
        ∙ sym (append_assoc s.posts page (drop 50 rest)) in
      subst
        (λ ps.
          Shown (note_length (record s { posts = ps; posts_after = last_id s.posts }))
            (drop 50 rest))
        (sym shown)
        (note-Shown (record s { posts = s.posts ++ page; posts_after = last_id s.posts }) page
          (drop 50 rest) onwards (omega (arith, noted, length-append s.posts page)) (none_left rest)
          (next-moves server s.posts rest split))

  -- A click that does not change the cursor.
  stay-Shown :
      (s : ThreadDetail) (rest : List Post)
      → Shown s rest
      → rest ≡ []
      → Shown (record s { posts_after = last_id s.posts }) (drop 50 rest)
  stay-Shown s rest h none_left =
      let gone : drop 50 rest ≡ [] = ap (drop 50) none_left in
      record {
        in_order = h.in_order ∙ ap (λ ps. s.posts ++ ps) (none_left ∙ sym gone);
        noted = h.noted;
        offered = λ f. gone;
        moves = inl gone;
      }

  load_more-Shown :
      (s : ThreadDetail) (rest : List Post)
      → Shown s rest
      → Shown (load_more cache server.serve thread s) (drop 50 rest)
  load_more-Shown s rest h = elim (Bool-cases (force_refetch (last_id s.posts) s.posts_after)) [
    | inl e ↦
        subst (λ t. Shown t (drop 50 rest)) (sym (load_more_moved cache server.serve thread s e))
          (refetch-Shown s rest h.in_order h.noted)
    | inr e ↦
        subst (λ t. Shown t (drop 50 rest)) (sym (load_more_stayed cache server.serve thread s e))
          (stay-Shown s rest h (elim h.moves [ inl k ↦ k | inr k ↦ absurd (cc (e, k)) ]))
  ]

  abbrev left : ℕ → List Post
  left zero = drop 50 server.all_posts
  left (suc n) = drop 50 (left n)

  load_pages-Shown : (n : ℕ) → Shown (load_pages cache server.serve thread n) (left n)
  unfolding load_pages
  load_pages-Shown zero = open_thread-Shown
  load_pages-Shown (suc n) =
      load_more-Shown (load_pages cache server.serve thread n) (left n) (load_pages-Shown n)

  length-left : (n : ℕ) → length (left n) ≡ length server.all_posts - 50 * suc n
  length-left zero = omega (arith, length-drop 50 server.all_posts)
  length-left (suc n) = omega (arith, length-drop 50 (left n), length-left n)

  -- After the first page and any number of clicks on "Load more posts", the posts shown are the thread's
  -- first pages, in order and each once; and once no more is offered, they are the whole thread. The
  -- server's posts have distinct ids and do not change meanwhile.
  pub load_pages-take :
      (n : ℕ)
      → ((load_pages cache server.serve thread n).posts ≡ take (50 * suc n) server.all_posts)
        × ((load_pages cache server.serve thread n).has_more ≡ false
            → (load_pages cache server.serve thread n).posts ≡ server.all_posts)
  load_pages-take n =
      let s = load_pages cache server.serve thread n in
      let h = load_pages-Shown n in
      (
        sym (
            ap (take (50 * suc n)) h.in_order
            ∙ take_split (50 * suc n) s.posts (left n)
                (length-left n ∙ ap (λ ps. length ps - 50 * suc n) h.in_order)),
        λ f. sym (h.in_order ∙ ap (λ ps. s.posts ++ ps) (h.offered f) ∙ append-nil s.posts),
      )
