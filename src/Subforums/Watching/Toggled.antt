-- ===== src/Subforums/Watching/Toggled.antt =====
-- What a click on the button of a row or of a thread brings about.
use agentforum.Base.{
  ℕ, zero, suc, Bool, true, false, not, List, [], ◌∷◌, ◌++◌, map, ◌≡◌, refl, ap, ◌∙◌, Text, ◌==◌,
  text_eq, if_true, if◌then◌else◌,
}
use agentforum.Subforums.{Subforum}
use agentforum.Subforums.Watching.{
  WatchTable, WatchScreen, WatchStep, watch_clicked, watch_answered, rows_fetched, put_row,
  with_table, serve_watch, subforum_request, thread_request, trigger, click_watch, answer_at,
  fetch_rows, watch_step, watch_steps, click_watch_thread,
}

-- A screen with no request under way.
abbrev pub at_rest : List Subforum → WatchTable → WatchScreen
at_rest subforums table = record {
  subforums = subforums;
  watching = false;
  unwatching = false;
  flights = [];
  table = table;
}

-- A click on a row whose request is handled and answered.
abbrev pub click_and_answer : Subforum → List WatchStep
click_and_answer sf = watch_clicked sf ∷ watch_answered false zero ∷ []

served :
    (exists : Text → Bool) (b : Bool) (key : Text) (table : WatchTable)
    → exists key ≡ true
    → serve_watch exists (subforum_request b key) table ≡ put_row (not b) key table
unfolding serve_watch
served exists true key table h = refl
served exists false key table h = if_true _ _ h

answered :
    (exists : Text → Bool) (b : Bool) (key : Text) (subforums : List Subforum) (table : WatchTable)
    → answer_at exists false zero []
        (trigger (subforum_request b key) (at_rest subforums table)).flights
        (trigger (subforum_request b key) (at_rest subforums table))
      ≡ at_rest subforums (serve_watch exists (subforum_request b key) table)
unfolding trigger
answered exists true key subforums table = refl
answered exists false key subforums table = refl

module _ (exists : Text → Bool) (sf : Subforum) (subforums : List Subforum) where
  clicked_once :
      (table : WatchTable)
      → exists sf.key ≡ true
      → watch_steps exists (click_and_answer sf) (at_rest subforums table)
        ≡ at_rest subforums (put_row (not sf.watching) sf.key table)
  unfolding watch_steps watch_step click_watch
  clicked_once table h =
      answered exists sf.watching sf.key subforums table
      ∙ ap (at_rest subforums) (served exists sf.watching sf.key table h)

steps-append :
    (exists : Text → Bool) (xs ys : List WatchStep) (s : WatchScreen)
    → watch_steps exists (xs ++ ys) s ≡ watch_steps exists ys (watch_steps exists xs s)
unfolding watch_steps
steps-append exists [] ys s = refl
steps-append exists (x ∷ xs) ys s = steps-append exists xs ys (watch_step exists x s)

-- A click and its answer, some times over.
abbrev pub clicked_times : ℕ → Subforum → List WatchStep
clicked_times zero sf = []
clicked_times (suc n) sf = click_and_answer sf ++ clicked_times n sf

same_twice :
    (test b x : Bool) → (if test then b else if test then b else x) ≡ (if test then b else x)
same_twice true b x = refl
same_twice false b x = refl

put_again :
    (b : Bool) (key : Text) (table : WatchTable)
    → put_row b key (put_row b key table) ≡ put_row b key table
put_again b key table = λ i k. same_twice (k == key) b (table k) i

module _ (exists : Text → Bool) (sf : Subforum) (subforums : List Subforum)
    (h : exists sf.key ≡ true) where
  clicked_again :
      (n : ℕ) (table : WatchTable)
      → watch_steps exists (clicked_times (suc n) sf) (at_rest subforums table)
        ≡ at_rest subforums (put_row (not sf.watching) sf.key table)
  unfolding watch_steps
  clicked_again zero table =
      steps-append exists (click_and_answer sf) [] (at_rest subforums table)
      ∙ clicked_once exists sf subforums table h
  clicked_again (suc n) table =
      steps-append exists (click_and_answer sf) (clicked_times (suc n) sf) (at_rest subforums table)
      ∙ ap (watch_steps exists (clicked_times (suc n) sf))
          (clicked_once exists sf subforums table h)
      ∙ clicked_again n (put_row (not sf.watching) sf.key table)
      ∙ ap (at_rest subforums) (put_again (not sf.watching) sf.key table)

  -- Once a row of a subforum that is there has been clicked and its request answered, and that any number of
  -- times more before the rows are fetched, the fetched rows of its key show the opposite of what it showed
  -- when it was clicked first, and the others what the server has: the later clicks repeat the request.
  pub clicks-toggled :
      (n : ℕ) (table : WatchTable)
      → watch_steps exists
          (clicked_times (suc n) sf ++ (rows_fetched ∷ []))
          (at_rest subforums table)
        ≡ at_rest
            (map (with_table (put_row (not sf.watching) sf.key table)) subforums)
            (put_row (not sf.watching) sf.key table)
  unfolding watch_steps watch_step fetch_rows
  clicks-toggled n table =
      steps-append exists (clicked_times (suc n) sf) (rows_fetched ∷ []) (at_rest subforums table)
      ∙ ap (λ s. watch_steps exists (rows_fetched ∷ []) s) (clicked_again n table)

thread_served :
    (exists : Text → Bool) (b : Bool) (id : Text) (table : WatchTable)
    → exists id ≡ true
    → serve_watch exists (thread_request b id) table ≡ put_row (not b) id table
unfolding serve_watch
thread_served exists true id table h = refl
thread_served exists false id table h = if_true _ _ h

-- The first two requests of a screen are answered, the second of them first or last.
abbrev pub both_answered : (Text → Bool) → Bool → WatchScreen → WatchScreen
both_answered exists second_first s =
    watch_steps exists
      (watch_answered false (if second_first then suc zero else zero)
        ∷ watch_answered false zero
        ∷ [])
      s

both_settled :
    (exists : Text → Bool) (second_first b : Bool) (id : Text) (subforums : List Subforum)
    (table : WatchTable)
    → both_answered exists second_first
        (click_watch_thread b id (click_watch_thread b id (at_rest subforums table)))
      ≡ at_rest subforums (
          serve_watch exists (thread_request b id) (serve_watch exists (thread_request b id) table))
unfolding watch_steps watch_step click_watch_thread trigger
both_settled exists true true id subforums table = refl
both_settled exists true false id subforums table = refl
both_settled exists false true id subforums table = refl
both_settled exists false false id subforums table = refl

-- A second click on the button of a thread, which is not disabled while the request of the first is under
-- way, does not undo it: in whatever order the two requests are answered, a thread that is there is watched
-- if it was shown as not watched, and the other way round.
thread_clicked_twice :
    (exists : Text → Bool) (second_first thread_watching : Bool) (id : Text)
    (subforums : List Subforum) (table : WatchTable)
    → exists id ≡ true
    → both_answered exists second_first (
        click_watch_thread thread_watching id
          (click_watch_thread thread_watching id (at_rest subforums table)))
      ≡ at_rest subforums (put_row (not thread_watching) id table)
thread_clicked_twice exists second_first b id subforums table h =
    both_settled exists second_first b id subforums table
    ∙ ap (λ t. at_rest subforums (serve_watch exists (thread_request b id) t))
        (thread_served exists b id table h)
    ∙ ap (at_rest subforums)
        (thread_served exists b id (put_row (not b) id table) h ∙ put_again (not b) id table)
