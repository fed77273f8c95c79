-- ===== src/Widgets/Renderer/Toasts.antt =====
-- The toasts and their timers.
use mathlib.Core.Path.{subst}
use agentforum.Base.{
  ℕ, true, Option, none, some, List, [], ◌∷◌, ◌++◌, ◌≡◌, refl, sym, ap, ◌∙◌, arith, Text, if_true,
  if_false, Bool-cases, inl, inr,
}
use agentforum.Widgets.Renderer.{
  ToastRegion, clear_timeout, message_of, show_toast, includes, fire_timer,
}

-- An event with its message, its toast and its tone, or a timer that fires.
pub data ToastEvent : Type 0 where
  toasted : Option Text → Option Text → Option Text → ToastEvent
  fired : ℕ → ToastEvent

unfoldable pub toast_step : ToastRegion → ToastEvent → ToastRegion
unfolding fire_timer
toast_step s (toasted message toast shade) = show_toast (message_of message toast) shade s
toast_step s (fired id) = fire_timer id s

unfoldable pub toast_steps : ToastRegion → List ToastEvent → ToastRegion
unfolding toast_step
toast_steps s [] = s
toast_steps s (e ∷ es) = toast_steps (toast_step s e) es

-- The timers of a region that shows a toast, or none.
abbrev pub timers_for : Option (Text × Option Text) → Option ℕ → List ℕ
timers_for none timer = []
timers_for (some toast) none = []
timers_for (some toast) (some id) = id ∷ []

-- A toast is shown exactly as long as the timer runs that was set last, and no other timer runs.
pub record IsTimed (s : ToastRegion) : Type 0 where
  pub its_timer : s.running ≡ timers_for s.toast s.timer
  pub has_timer : s.timer ≡ none → s.toast ≡ none

clear_timeout-timers_for :
    (toast : Option (Text × Option Text)) (timer : Option ℕ)
    → clear_timeout timer (timers_for toast timer) ≡ []
clear_timeout-timers_for none none = refl
clear_timeout-timers_for none (some id) = refl
clear_timeout-timers_for (some toast) none = refl
clear_timeout-timers_for (some toast) (some id) = ground arith

show_toast-IsTimed :
    (message shade : Option Text) (s : ToastRegion)
    → IsTimed s
    → IsTimed (show_toast message shade s)
show_toast-IsTimed none shade s h = h
show_toast-IsTimed (some []) shade s h = h
show_toast-IsTimed (some (c ∷ m)) shade s h = record {
  its_timer =
      ap (λ ts. clear_timeout s.timer ts ++ s.next ∷ []) h.its_timer
      ∙ ap (λ ts. ts ++ s.next ∷ []) (clear_timeout-timers_for s.toast s.timer);
  has_timer = λ e. cc;
}

clear_timeout-running :
    (id : ℕ) (toast : Option (Text × Option Text)) (timer : Option ℕ)
    → includes id (timers_for toast timer) ≡ true
    → clear_timeout (some id) (timers_for toast timer) ≡ []
clear_timeout-running id none timer h = cc
clear_timeout-running id (some toast) none h = cc
clear_timeout-running id (some toast) (some t) h = ground arith

fire_timer-IsTimed : (id : ℕ) (s : ToastRegion) → IsTimed s → IsTimed (fire_timer id s)
unfolding fire_timer
fire_timer-IsTimed id s h = elim (Bool-cases (includes id s.running)) [
  | inl e ↦ subst IsTimed (sym (if_true _ _ e)) record {
    its_timer =
        ap (clear_timeout (some id)) h.its_timer
        ∙ clear_timeout-running id s.toast s.timer (sym (ap (includes id) h.its_timer) ∙ e);
    has_timer = λ k. refl;
  }
  | inr e ↦ subst IsTimed (sym (if_false _ _ e)) h
]

toast_step-IsTimed : (s : ToastRegion) (e : ToastEvent) → IsTimed s → IsTimed (toast_step s e)
unfolding toast_step
toast_step-IsTimed s (toasted message toast shade) h =
    show_toast-IsTimed (message_of message toast) shade s h
toast_step-IsTimed s (fired id) h = fire_timer-IsTimed id s h

-- However toasts come and timers fire, it stays so that a toast is shown exactly as long as the timer that
-- was set last runs, and no other timer runs.
pub toast_steps-IsTimed :
    (s : ToastRegion) (es : List ToastEvent) → IsTimed s → IsTimed (toast_steps s es)
unfolding toast_steps
toast_steps-IsTimed s [] h = h
toast_steps-IsTimed s (e ∷ es) h =
    toast_steps-IsTimed (toast_step s e) es (toast_step-IsTimed s e h)
