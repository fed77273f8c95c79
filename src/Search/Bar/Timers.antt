-- ===== src/Search/Bar/Timers.antt =====
-- Which searches the bar's timers lead to.
use agentforum.Base.{
  ℕ, Bool, Option, none, some, List, [], ◌∷◌, ◌++◌, ◌≡◌, refl, ap, ◌∙◌, ◌⊎◌, inl, inr, arith, Text,
  ==_refl, nat_eq, map,
}
use agentforum.Search.Bar.{
  SearchBar, changed, searched, clear_ref, handle_change, handle_clear, run_first, run_timer,
  BarEvent, change, clear, run, bar_step, bar_steps,
}

-- At most one timer runs: the last one that was set.
abbrev pub OneTimer : SearchBar → Type 0
OneTimer s =
    (s.timers ≡ []) ⊎ ((id : ℕ) × (q : Text) × (s.timers ≡ (id, q) ∷ []) × (s.timer_ref ≡ some id))

clear_ref-nil : (r : Option ℕ) → clear_ref r [] ≡ []
clear_ref-nil none = refl
clear_ref-nil (some id) = refl

cleared : (s : SearchBar) → OneTimer s → clear_ref s.timer_ref s.timers ≡ []
cleared s (inl e) = ap (clear_ref s.timer_ref) e ∙ clear_ref-nil s.timer_ref
cleared s (inr (id, q, e, r)) = (λ i. clear_ref (r i) (e i)) ∙ ground (arith, ==_refl id)

handle_change-OneTimer :
    (is_controlled : Bool) (q : Text) (s : SearchBar)
    → OneTimer s
    → OneTimer (handle_change is_controlled q s).0
unfolding handle_change
handle_change-OneTimer is_controlled q s h =
    inr (s.next_timer, q, ap (λ ts. ts ++ ((s.next_timer, q) ∷ [])) (cleared s h), refl)

run_first-OneTimer :
    (ts : List (ℕ × Text)) (s : SearchBar)
    → s.timers ≡ ts
    → OneTimer s
    → OneTimer (run_first ts s).0
run_first-OneTimer [] s e h = h
run_first-OneTimer ((n, q) ∷ ts) s e (inl h) = absurd (cc (h, e))
run_first-OneTimer ((n, q) ∷ ts) s e (inr (id, r, h, k)) = inl (cc (h, e))

bar_step-OneTimer :
    (is_controlled : Bool) (s : SearchBar) (e : BarEvent)
    → OneTimer s
    → OneTimer (bar_step is_controlled s e).0
unfolding bar_step
bar_step-OneTimer is_controlled s (change q) h = handle_change-OneTimer is_controlled q s h
bar_step-OneTimer is_controlled s clear h = unfold handle_clear in h
bar_step-OneTimer is_controlled s run h = unfold run_timer in run_first-OneTimer s.timers s refl h

-- Whatever the user does, at most one timer runs, and it is the last one that was set.
pub bar_steps-OneTimer :
    (is_controlled : Bool) (s : SearchBar) (es : List BarEvent)
    → OneTimer s
    → OneTimer (bar_steps is_controlled s es).0
unfolding bar_steps
bar_steps-OneTimer is_controlled s [] h = h
bar_steps-OneTimer is_controlled s (e ∷ es) h =
    bar_steps-OneTimer is_controlled (bar_step is_controlled s e).0 es
      (bar_step-OneTimer is_controlled s e h)

-- The timer that a change leaves.
handle_change-timers :
    (is_controlled : Bool) (q : Text) (s : SearchBar)
    → OneTimer s
    → (handle_change is_controlled q s).0.timers ≡ (s.next_timer, q) ∷ []
unfolding handle_change
handle_change-timers is_controlled q s h = ap (λ ts. ts ++ ((s.next_timer, q) ∷ [])) (cleared s h)

run_timer-searched :
    (is_controlled : Bool) (s : SearchBar) (n : ℕ) (q : Text)
    → s.timers ≡ (n, q) ∷ []
    → (bar_steps is_controlled s (run ∷ [])).1 ≡ searched q ∷ []
unfolding bar_steps bar_step run_timer
run_timer-searched is_controlled s n q h = ap (λ ts. (run_first ts s).1 ++ []) h

-- If no timer runs but the one that was set last, then however many changes come before the pause is
-- over, one search follows, for the last of them.
pub bar_steps-change :
    (is_controlled : Bool) (s : SearchBar) (qs : List Text) (q : Text)
    → OneTimer s
    → (bar_steps is_controlled s (map change (qs ++ (q ∷ [])) ++ (run ∷ []))).1
      ≡ map changed (qs ++ (q ∷ [])) ++ (searched q ∷ [])
unfolding bar_steps bar_step
bar_steps-change is_controlled s [] q h = ap (◌∷◌ (changed q)) (
    run_timer-searched is_controlled (handle_change is_controlled q s).0 s.next_timer q
      (handle_change-timers is_controlled q s h))
bar_steps-change is_controlled s (x ∷ qs) q h = ap (◌∷◌ (changed x)) (
    bar_steps-change is_controlled (handle_change is_controlled x s).0 qs q
      (handle_change-OneTimer is_controlled x s h))

-- If no timer runs but the one that was set last, a bar that is cleared while a change waits searches for
-- nothing at first, and then, when the pause is over, for what the user has cleared.
bar_steps-clear :
    (is_controlled : Bool) (s : SearchBar) (q : Text)
    → OneTimer s
    → (bar_steps is_controlled s (change q ∷ clear ∷ run ∷ [])).1
      ≡ changed q ∷ changed [] ∷ searched [] ∷ searched q ∷ []
unfolding bar_steps bar_step
bar_steps-clear is_controlled s q h =
    let t = (handle_clear is_controlled (handle_change is_controlled q s).0).0 in
    ap (λ more. changed q ∷ changed [] ∷ searched [] ∷ more)
      (run_timer-searched is_controlled t s.next_timer q
        (unfold handle_clear in handle_change-timers is_controlled q s h))
