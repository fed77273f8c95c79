-- ===== src/Search/Hits.antt =====
-- The hits that web/src/components/pages/SearchScreen/SearchScreen.tsx lists.
use agentforum.Base.{
  ℕ, Option, none, some, [], ◌∷◌, ◌++◌, Text, codes, take, length, ltb, to_decimal, or_text, eq_nat,
  if◌then◌else◌,
}
use agentforum.Posts.{Post}
use agentforum.Widgets.Table.{space_for_t}

-- The generated `Thread` message, as far as a hit shows it.
pub record HitThread : Type 0 where
  pub id : Text
  pub subforum_key : Text
  pub title : Text
  pub post_count : ℕ
  pub created_at : Text

-- The generated `SearchHit`: of its members at most one is there.
pub data SearchHit : Type 0 where
  thread_hit : HitThread → SearchHit
  post_hit : Post → SearchHit
  empty_hit : SearchHit

-- What a hit shows, and the time beside it.
pub data HitView : Type 0 where
  -- the subforum, the title, and the number of posts
  thread_line : Text → Text → Text → Text → HitView
  -- the author and the start of the body
  post_line : Text → Text → Text → HitView

-- `fmt`
unfoldable pub format_time : Text → Text
format_time s = space_for_t (take 16 s)

-- `body.slice(0, 90)`, with a mark if there is more.
unfoldable pub excerpt : Text → Text
excerpt body = take 90 body ++ (if ltb 90 (length body) then 0x2026 ∷ [] else [])

-- The rendering of a hit; it throws for one without a thread and a post.
unfoldable pub hit_view : SearchHit → Option HitView
unfolding format_time excerpt to_decimal
hit_view (thread_hit t) = some (
    thread_line (t.subforum_key ++ codes "/") t.title (to_decimal t.post_count)
      (format_time t.created_at))
hit_view (post_hit p) =
    some (post_line (or_text p.author_name p.author_id) (excerpt p.body) (format_time p.created_at))
hit_view empty_hit = none

-- Where a click on a hit goes.
unfoldable pub hit_target : SearchHit → Option Text
hit_target (thread_hit t) = some (codes "/t/" ++ t.id)
hit_target (post_hit p) = some (codes "/t/" ++ p.thread_id)
hit_target empty_hit = none

-- The number of hits beside the list.
unfoldable pub hits_text : ℕ → Text
unfolding to_decimal
hits_text n = to_decimal n ++ (codes " hit" ++ (if eq_nat n 1 then [] else codes "s"))
