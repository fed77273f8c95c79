-- ===== src/Tests/Posts.antt =====
-- The pages of posts at concrete inputs, against a server that is written down here.
use agentforum.Base.{
  ℕ, zero, suc, Bool, true, false, not, ◌||◌, Option, none, some, List, [], ◌∷◌, ◌++◌, ◌≡◌, refl,
  sym, ap, ◌∙◌, arith, Text, codes, take, length, all, ◌<◌, contains, distinct, contains-of-==,
  ==_refl, text_eq, ◌==◌, if◌then◌else◌,
}
use agentforum.Posts.{
  Post, list_posts_query, ids, merge, QueryCache, ThreadDetail, open_thread, refetch, load_pages,
}
use agentforum.Posts.Merge.{merge-distinct}
use agentforum.Posts.Server.{ThreadServer}
use agentforum.Posts.Paging.{load_pages-take}
use agentforum.Posts.Refetch.{refetch_hides}
use agentforum.Posts.Stream.{Article, articles, article, jump_to, metadata_lines}
use agentforum.Posts.Stream.Jumps.{AllJump, load_pages-Jumps}
use agentforum.Widgets.Values.{Value, str, Fields, end, field}
use mathlib.Core.Option

abbrev query_cache : QueryCache
query_cache = record {
  answered = λ f entry page. elim entry [ none ↦ page | some current ↦ f current page ];
  answered_first = λ f page. refl;
  answered_next = λ f current page. refl;
}

abbrev find_after : Text → List Post → List Post
find_after id [] = []
find_after id (q ∷ qs) = if q.id == id then qs else find_after id qs

abbrev page_of : List Post → Option Text → List Post
page_of posts none = take 50 posts
page_of posts (some id) = take 50 (find_after id posts)

abbrev has_id : Post → Bool
has_id p = not (p.id == [])

all-middle :
    (before : List Post) (p : Post) (rest : List Post)
    → all has_id (before ++ (p ∷ rest)) ≡ true
    → has_id p ≡ true
all-middle [] p rest h = ground arith
all-middle (q ∷ before) p rest h = all-middle before p rest (ground arith)

contains-middle :
    (before : List Post) (p : Post) (rest : List Post)
    → contains p.id (ids (before ++ (p ∷ rest))) ≡ true
contains-middle [] p rest = ground (arith, ==_refl p.id)
contains-middle (q ∷ before) p rest = ground (arith, contains-middle before p rest)

find_after-middle :
    (before : List Post) (p : Post) (rest : List Post)
    → distinct (ids (before ++ (p ∷ rest))) ≡ true
    → find_after p.id (before ++ (p ∷ rest)) ≡ rest
find_after-middle [] p rest d = ground (arith, ==_refl p.id)
find_after-middle (q ∷ before) p rest d = ground (
  arith,
  contains-of-== q.id p.id (ids (before ++ (p ∷ rest))),
  contains-middle before p rest,
  find_after-middle before p rest,
)

query_after :
    (thread id : Text) → not (id == []) ≡ true → (list_posts_query thread (some id)).after ≡ some id
unfolding list_posts_query
query_after thread [] h = cc
query_after thread (c ∷ t) h = refl

first_query : (thread : Text) → (list_posts_query thread none).after ≡ none
unfolding list_posts_query
first_query thread = refl

abbrev server_of :
    (thread : Text) (posts : List Post)
    → distinct (ids posts) ≡ true
    → all has_id posts ≡ true
    → ThreadServer thread
server_of thread posts d h = record {
  serve = λ q. page_of posts q.after;
  all_posts = posts;
  distinct_ids = d;
  first_page = ap (page_of posts) (first_query thread);
  page_after = λ before p rest e.
      ap (page_of posts)
        (query_after thread p.id (all-middle before p rest (sym (ap (all has_id) e) ∙ h)))
      ∙ ap (λ ps. take 50 (find_after p.id ps)) e
      ∙ ap (take 50) (find_after-middle before p rest (sym (ap (λ ps. distinct (ids ps)) e) ∙ d));
}

abbrev post : ℕ → Post
post n = record {
  id = n ∷ [];
  thread_id = codes "t1";
  author_id = codes "a1";
  author_name = codes "bob";
  body = codes "hello";
  reply_to = [];
  created_at = [];
}

-- So many posts, numbered from the first argument on.
abbrev numbered : ℕ → ℕ → List Post
numbered n zero = []
numbered n (suc k) = post n ∷ numbered (suc n) k

abbrev server : ThreadServer (codes "t1")
server = server_of (codes "t1") (numbered 1 60) refl refl

load_pages-take_example :
    ((load_pages query_cache server.serve (codes "t1") 1).posts ≡ take 100 (numbered 1 60))
    × ((load_pages query_cache server.serve (codes "t1") 1).has_more ≡ false
        → (load_pages query_cache server.serve (codes "t1") 1).posts ≡ numbered 1 60)
load_pages-take_example = load_pages-take query_cache server 1

paged : Unit {0}
unfolding list_posts_query merge open_thread load_pages refetch
paged = tt

-- A first page that is full, then one that is not.
pages_run :
    ((load_pages query_cache server.serve (codes "t1") 0).has_more ≡ true)
    × ((load_pages query_cache server.serve (codes "t1") 1).has_more ≡ false)
    × (length (load_pages query_cache server.serve (codes "t1") 1).posts ≡ 60)
unfolding paged
pages_run = (refl, refl, refl)

-- Thirty of the posts, as they were when the thread was opened.
abbrev early : ThreadDetail
early = record { posts = numbered 1 30; posts_after = none; prev_len = 30; has_more = false }

refetch_hides_example :
    ((refetch query_cache server.serve (codes "t1") early).posts ≡ take 50 (numbered 1 60))
    × ((refetch query_cache server.serve (codes "t1") early).has_more ≡ false)
    × (length (refetch query_cache server.serve (codes "t1") early).posts < 60)
refetch_hides_example =
    refetch_hides query_cache server early (numbered 31 30) refl refl (omega arith) (omega arith)
      (omega arith) refl

merge-distinct_example :
    (distinct (ids (merge (numbered 1 2) (numbered 2 2))) ≡ true)
    × ((k : Text)
        → contains k (ids (merge (numbered 1 2) (numbered 2 2)))
          ≡ (contains k (ids (numbered 1 2)) || contains k (ids (numbered 2 2))))
merge-distinct_example = merge-distinct (numbered 1 2) (numbered 2 2) refl refl

merge_runs : merge (numbered 1 2) (numbered 2 2) ≡ numbered 1 3
unfolding merge
merge_runs = refl

-- A second post that replies to the first.
abbrev reply_post : Post
reply_post = record (post 2) { reply_to = 1 ∷ [] }

abbrev answered_server : ThreadServer (codes "t1")
answered_server = server_of (codes "t1") (post 1 ∷ reply_post ∷ []) refl refl

abbrev no_json : Value → Text
no_json v = []

abbrev no_metadata : Post → Option Fields
no_metadata p = none

stream_run :
    (Option.map
        (λ (a : Article). a.author)
        (jump_to (1 ∷ []) (articles no_json no_metadata (post 1 ∷ reply_post ∷ [])))
      ≡ some (codes "bob"))
    × (jump_to (3 ∷ []) (articles no_json no_metadata (post 1 ∷ reply_post ∷ [])) ≡ none)
    × (metadata_lines no_json (field (codes "k") (str (codes "v")) end)
        ≡ (codes "k", codes "v") ∷ [])
unfolding jump_to articles article metadata_lines
stream_run = (refl, refl, refl)

load_pages-Jumps_example :
    AllJump no_json no_metadata
      (load_pages query_cache answered_server.serve (codes "t1") 1).posts
      (load_pages query_cache answered_server.serve (codes "t1") 1).posts
      (articles no_json no_metadata
        (load_pages query_cache answered_server.serve (codes "t1") 1).posts)
load_pages-Jumps_example = load_pages-Jumps no_json no_metadata query_cache answered_server 1 refl
