-- ===== src/Subforums/Watching.antt =====
-- The buttons that watch: of the rows of SubforumListScreen.tsx, of the page of a subforum
-- (ThreadListScreen.tsx) and of a thread (ThreadDetailScreen.tsx), all under web/src/components/pages; and
-- what internal/service and internal/store do with their requests. A hook of RTK Query, which is not part of
-- the repository, says `isLoading` from a call to the answer of its latest call.
pub mod Alone
pub mod Toggled
use agentforum.Base.{
  ℕ, zero, suc, Bool, true, false, not, ◌&&◌, ◌||◌, Option, none, some, List, [], ◌∷◌, ◌++◌, map,
  Text, ◌==◌, text_eq, if◌then◌else◌,
}
use agentforum.Api.{
  Endpoint, watch_thread, unwatch_thread, watch_subforum, unwatch_subforum, invalidates_tags,
}
use agentforum.Subforums.{Subforum}

-- What is watched on the server, by its key or id: a row is inserted or ignored, and deleted.
abbrev pub WatchTable : Type 0
WatchTable = Text → Bool

abbrev pub put_row : Bool → Text → WatchTable → WatchTable
put_row present key table k = if k == key then present else table k

-- The table behind a request that the server has handled. A subforum or thread must be there to be watched,
-- and need not be to be unwatched.
unfoldable pub serve_watch : (Text → Bool) → Endpoint → WatchTable → WatchTable
serve_watch exists (watch_subforum key) table = if exists key then put_row true key table else table
serve_watch exists (unwatch_subforum key) table = put_row false key table
serve_watch exists (watch_thread id) table = if exists id then put_row true id table else table
serve_watch exists (unwatch_thread id) table = put_row false id table
serve_watch exists e table = table

-- The state of a screen with such buttons: the data that its rows show, the `isLoading` of its two mutations,
-- its requests that are not answered yet in the order of the calls, and the table of the server.
pub record WatchScreen : Type 0 where
  pub subforums : List Subforum
  pub watching : Bool
  pub unwatching : Bool
  pub flights : List Endpoint
  pub table : WatchTable

abbrev pub is_watch : Endpoint → Bool
is_watch (watch_subforum key) = true
is_watch (watch_thread id) = true
is_watch e = false

abbrev pub is_unwatch : Endpoint → Bool
is_unwatch (unwatch_subforum key) = true
is_unwatch (unwatch_thread id) = true
is_unwatch e = false

-- `(sf.watching ? unwatchSubforum : watchSubforum)(sf.key)`
abbrev pub subforum_request : Bool → Text → Endpoint
subforum_request true key = unwatch_subforum key
subforum_request false key = watch_subforum key

-- `thread.watching ? unwatchThread(id) : watchThread(id)`
abbrev pub thread_request : Bool → Text → Endpoint
thread_request true id = unwatch_thread id
thread_request false id = watch_thread id

-- A mutation is called.
unfoldable pub trigger : Endpoint → WatchScreen → WatchScreen
trigger e s = record s {
  watching = s.watching || is_watch e;
  unwatching = s.unwatching || is_unwatch e;
  flights = s.flights ++ (e ∷ []);
}

-- `disabled={watching || unwatching}`
abbrev pub is_busy : WatchScreen → Bool
is_busy s = s.watching || s.unwatching

-- A click on the button of a row, on which nothing is done while it is disabled.
unfoldable pub click_watch : Subforum → WatchScreen → WatchScreen
unfolding trigger
click_watch sf s = if is_busy s then s else trigger (subforum_request sf.watching sf.key) s

-- A click on the button of a thread, which is never disabled.
unfoldable pub click_watch_thread : Bool → Text → WatchScreen → WatchScreen
unfolding trigger
click_watch_thread thread_watching id s = trigger (thread_request thread_watching id) s

abbrev pub some_of : (Endpoint → Bool) → List Endpoint → Bool
some_of kind [] = false
some_of kind (e ∷ es) = kind e || some_of kind es

-- The flag of a hook when a request is answered: it falls if that is the latest call of the hook.
abbrev pub flag_after : (Endpoint → Bool) → Endpoint → List Endpoint → Bool → Bool
flag_after kind e later flag = if kind e && not (some_of kind later) then false else flag

abbrev pub settle_request : Endpoint → List Endpoint → List Endpoint → WatchScreen → WatchScreen
settle_request e before later s = record s {
  watching = flag_after is_watch e later s.watching;
  unwatching = flag_after is_unwatch e later s.unwatching;
  flights = before ++ later;
}

-- The request at a place of those under way is answered, or fails. One that is lost is one that the server has
-- not handled; whether the answer to one that it has handled comes makes no difference to the screen's flags.
abbrev pub answer_at :
    (Text → Bool) → Bool → ℕ → List Endpoint → List Endpoint → WatchScreen → WatchScreen
answer_at exists lost i before [] s = s
answer_at exists lost zero before (e ∷ later) s =
    settle_request e before later
      (if lost then s else record s { table = serve_watch exists e s.table })
answer_at exists lost (suc i) before (e ∷ later) s =
    answer_at exists lost i (before ++ (e ∷ [])) later s

-- The query of the rows is answered: each shows what the server has.
abbrev pub with_table : WatchTable → Subforum → Subforum
with_table table sf = record sf { watching = table sf.key }

unfoldable pub fetch_rows : WatchScreen → WatchScreen
fetch_rows s = record s { subforums = map (with_table s.table) s.subforums }

pub data WatchStep : Type 0 where
  watch_clicked : Subforum → WatchStep
  watch_answered : Bool → ℕ → WatchStep
  rows_fetched : WatchStep

module _ (exists : Text → Bool) where
  unfoldable pub watch_step : WatchStep → WatchScreen → WatchScreen
  unfolding click_watch serve_watch fetch_rows
  watch_step (watch_clicked sf) s = click_watch sf s
  watch_step (watch_answered lost i) s = answer_at exists lost i [] s.flights s
  watch_step rows_fetched s = fetch_rows s

  unfoldable pub watch_steps : List WatchStep → WatchScreen → WatchScreen
  unfolding watch_step
  watch_steps [] s = s
  watch_steps (step ∷ steps) s = watch_steps steps (watch_step step s)
