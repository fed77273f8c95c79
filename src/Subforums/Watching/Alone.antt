-- ===== src/Subforums/Watching/Alone.antt =====
-- The requests of the rows' buttons that are under way at a time.
use agentforum.Base.{
  ℕ, zero, suc, ◌≤◌, Bool, true, false, ◌||◌, ◌⊎◌, inl, inr, List, [], ◌∷◌, ◌++◌, ◌≡◌, refl, sym,
  ap, arith, Text, length, if_true, either_branch,
}
use mathlib.Core.Path.{subst}
use agentforum.Api.{Endpoint}
use agentforum.Subforums.{Subforum}
use agentforum.Subforums.Watching.{
  WatchScreen, WatchStep, watch_clicked, watch_answered, rows_fetched, is_busy, is_watch,
  is_unwatch, subforum_request, trigger, click_watch, answer_at, fetch_rows, watch_step,
  watch_steps,
}

-- No request is under way, or one is, and the buttons are disabled.
abbrev pub IsAlone : WatchScreen → Type 0
IsAlone s = (s.flights ≡ []) ⊎ ((e : Endpoint) × (s.flights ≡ e ∷ []) × (is_busy s ≡ true))

request_busy :
    (b : Bool) (key : Text) (x y : Bool)
    → ((x || is_watch (subforum_request b key)) || (y || is_unwatch (subforum_request b key)))
      ≡ true
request_busy true key x y = ground arith
request_busy false key x y = ground arith

click-IsAlone : (sf : Subforum) (s : WatchScreen) → IsAlone s → IsAlone (click_watch sf s)
unfolding click_watch trigger
click-IsAlone sf s (inl none_left) = either_branch IsAlone (is_busy s) (inl none_left) (
    inr (
      subforum_request sf.watching sf.key,
      ap (λ es. es ++ (subforum_request sf.watching sf.key ∷ [])) none_left,
      request_busy sf.watching sf.key s.watching s.unwatching,
    ))
click-IsAlone sf s (inr (e, one, busy)) =
    subst IsAlone (sym (if_true _ _ busy)) (inr (e, one, busy))

answer-IsAlone :
    (exists : Text → Bool) (lost : Bool) (i : ℕ) (es : List Endpoint) (s : WatchScreen)
    → s.flights ≡ es
    → IsAlone s
    → IsAlone (answer_at exists lost i [] es s)
answer-IsAlone exists lost i [] s same h = h
answer-IsAlone exists lost i (e ∷ later) s same (inl none_left) = cc
answer-IsAlone exists lost zero (e ∷ []) s same (inr h) = inl refl
answer-IsAlone exists lost (suc i) (e ∷ []) s same (inr h) = inr h
answer-IsAlone exists lost i (e ∷ f ∷ later) s same (inr (g, one, busy)) = cc

step-IsAlone :
    (exists : Text → Bool) (step : WatchStep) (s : WatchScreen)
    → IsAlone s
    → IsAlone (watch_step exists step s)
unfolding watch_step fetch_rows
step-IsAlone exists (watch_clicked sf) s h = click-IsAlone sf s h
step-IsAlone exists (watch_answered lost i) s h = answer-IsAlone exists lost i s.flights s refl h
step-IsAlone exists rows_fetched s h = h

steps-IsAlone :
    (exists : Text → Bool) (steps : List WatchStep) (s : WatchScreen)
    → IsAlone s
    → IsAlone (watch_steps exists steps s)
unfolding watch_steps
steps-IsAlone exists [] s h = h
steps-IsAlone exists (step ∷ steps) s h =
    steps-IsAlone exists steps (watch_step exists step s) (step-IsAlone exists step s h)

at_most_one : (s : WatchScreen) → IsAlone s → length s.flights ≤ 1
at_most_one s (inl none_left) = omega (arith, ap length none_left)
at_most_one s (inr (e, one, busy)) = omega (arith, ap length one)

-- However rows are clicked, requests answered or lost and rows fetched, it stays so that no request is under
-- way, or one alone with all buttons disabled; so two requests of the rows never race each other.
pub watch_steps-IsAlone :
    (exists : Text → Bool) (steps : List WatchStep) (s : WatchScreen)
    → IsAlone s
    → IsAlone (watch_steps exists steps s) × (length (watch_steps exists steps s).flights ≤ 1)
watch_steps-IsAlone exists steps s h =
    let kept = steps-IsAlone exists steps s h in
    (kept, at_most_one (watch_steps exists steps s) kept)
