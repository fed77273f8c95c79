-- ===== src/Posts.antt =====
-- The pages of a thread's posts: the endpoint `listPosts` of web/src/store/forumApi.ts, and the part of
-- web/src/components/pages/ThreadDetailScreen/ThreadDetailScreen.tsx that asks for them.
pub mod Merge
pub mod Server
pub mod Paging
pub mod Refetch
pub mod Composer
pub mod Stream
pub mod Header
use mathlib.Core.Option
use agentforum.Base.{
  ℕ, zero, suc, ◌-◌, Bool, true, false, not, Option, none, some, List, [], ◌∷◌, ◌++◌, map, ◌≡◌,
  Text, codes, leb, ltb, length, get_last?, contains, ◌==◌, text_eq, if◌then◌else◌,
}

-- The generated `Post` message, less its metadata.
pub record Post : Type 0 where
  pub id : Text
  pub thread_id : Text
  pub author_id : Text
  pub author_name : Text
  pub body : Text
  pub reply_to : Text
  pub created_at : Text

abbrev pub posts_page_size : ℕ
posts_page_size = 50

-- The request for a page: `after` is left out where it is missing or empty.
pub record PostQuery : Type 0 where
  pub url : Text
  pub after : Option Text
  pub limit : ℕ

abbrev truthy : Option Text → Option Text
truthy none = none
truthy (some []) = none
truthy (some (c ∷ t)) = some (c ∷ t)

unfoldable pub list_posts_query : Text → Option Text → PostQuery
list_posts_query thread after = record {
  url = codes "/threads/" ++ thread ++ codes "/posts";
  after = truthy after;
  limit = posts_page_size;
}

-- One entry of the cache for a thread, whatever the cursor.
unfoldable pub serialize_query_args : Text → Text → Option Text → Text
serialize_query_args endpoint thread after = endpoint ++ (codes "-" ++ thread)

abbrev pub ids : List Post → List Text
ids = map (λ p. p.id)

-- The loop of `merge`; `seen` does not change in it.
unfoldable pub push_unseen : List Text → List Post → List Post → List Post
push_unseen seen current [] = current
push_unseen seen current (p ∷ ps) =
    push_unseen seen (if contains p.id seen then current else current ++ (p ∷ [])) ps

unfoldable pub merge : List Post → List Post → List Post
unfolding push_unseen
merge current [] = current
merge current (p ∷ ps) = push_unseen (ids current) current (p ∷ ps)

-- `current !== previous` on two cursors
abbrev pub force_refetch : Option Text → Option Text → Bool
force_refetch none none = false
force_refetch none (some b) = true
force_refetch (some a) none = true
force_refetch (some a) (some b) = not (a == b)

-- RTK Query's cache entry, which is not part of the repository: what it holds after an answer, given
-- the endpoint's `merge`. The first answer fills it, and a later one is merged into it.
pub record QueryCache : Type 0 where
  pub answered : (List Post → List Post → List Post) → Option (List Post) → List Post → List Post
  pub answered_first :
      (f : List Post → List Post → List Post) (page : List Post) → answered f none page ≡ page
  pub answered_next :
      (f : List Post → List Post → List Post) (current page : List Post)
      → answered f (some current) page ≡ f current page

-- The state of the screen: the posts of the cache entry, the cursor, and whether it offers more.
pub record ThreadDetail : Type 0 where
  pub posts : List Post
  pub posts_after : Option Text
  pub prev_len : ℕ
  pub has_more : Bool

-- The effect on `posts.length`.
unfoldable pub note_length : ThreadDetail → ThreadDetail
note_length s =
    if ltb s.prev_len (length s.posts)
    then record s {
      has_more = leb posts_page_size (length s.posts - s.prev_len);
      prev_len = length s.posts;
    }
    else s

module _ (cache : QueryCache) (serve : PostQuery → List Post) (thread : Text) where
  unfoldable pub open_thread : ThreadDetail
  unfolding note_length list_posts_query merge
  open_thread = note_length (record {
    posts = cache.answered merge none (serve (list_posts_query thread none));
    posts_after = none;
    prev_len = 0;
    has_more = false;
  })

  -- The query for the cursor of the state is sent, and its answer is shown: also what follows when a
  -- new reply invalidates the tag of the posts.
  unfoldable pub refetch : ThreadDetail → ThreadDetail
  unfolding note_length list_posts_query merge
  refetch s = note_length (record s {
    posts = cache.answered merge (some s.posts) (serve (list_posts_query thread s.posts_after));
  })

  -- A click on "Load more posts", up to the answer: the cursor becomes the last post's id.
  unfoldable pub load_more : ThreadDetail → ThreadDetail
  unfolding refetch
  load_more s =
      let next = record s { posts_after = Option.map (λ p. p.id) (get_last? s.posts) } in
      let answer = refetch next in
      if force_refetch next.posts_after s.posts_after then answer else next

  unfoldable pub load_pages : ℕ → ThreadDetail
  unfolding open_thread load_more
  load_pages zero = open_thread
  load_pages (suc n) = load_more (load_pages n)
