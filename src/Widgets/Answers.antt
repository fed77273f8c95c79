-- ===== src/Widgets/Answers.antt =====
-- web/src/widgets/actions.ts: what follows the answer to a server action (lines 127 to 146). A toast of it
-- goes to the region of web/src/widgets/WidgetRenderer.tsx.
use agentforum.Base.{
  ℕ, either_branch, Bool, true, false, ◌&&◌, ◌||◌, Option, none, some, List, [], ◌∷◌, ◌++◌, ◌≡◌,
  refl, ap, ◌∙◌, Text, codes, if◌then◌else◌, if_true,
}
use agentforum.Widgets.Values.{Fields}
use agentforum.Widgets.Dispatch.{Action}
use agentforum.Widgets.Renderer.{ToastRegion, message_of, show_toast}
use agentforum.Widgets.Renderer.Toasts.{ToastEvent, toasted, toast_step, toast_steps}

-- `ServerActionResult`, as far as it is read; a body that is no JSON is none.
pub record ServerActionResult : Type 0 where
  pub ok : Option Bool
  pub toast : Option Text
  pub error : Option Text
  pub refresh : Bool

-- What is dispatched on the window, in order.
pub data Notice : Type 0 where
  action_result : Action → Fields → Bool → Option ServerActionResult → Notice
  -- a toast with its message and its tone
  widget_toast : Option Text → Text → Notice
  popstate : Notice

-- A text that is not falsy
abbrev pub is_said : Option Text → Bool
is_said none = false
is_said (some []) = false
is_said (some (c ∷ t)) = true

abbrev pub not_false : Option Bool → Bool
not_false none = true
not_false (some b) = b

abbrev pub tone_of : Bool → Option Bool → Text
tone_of response_ok ok = if response_ok && not_false ok then codes "success" else codes "danger"

abbrev pub toast_notices : Bool → ServerActionResult → List Notice
toast_notices response_ok result =
    if is_said result.toast || is_said result.error
    then widget_toast (message_of result.toast result.error) (tone_of response_ok result.ok) ∷ []
    else []

abbrev pub refresh_notices : Bool → ServerActionResult → List Notice
refresh_notices response_ok result = if response_ok && result.refresh then popstate ∷ [] else []

abbrev pub result_notices : Bool → Option ServerActionResult → List Notice
result_notices response_ok none = []
result_notices response_ok (some result) =
    toast_notices response_ok result ++ refresh_notices response_ok result

unfoldable pub answer_action : Action → Fields → Bool → Option ServerActionResult → List Notice
answer_action action context response_ok result =
    action_result action context response_ok result ∷ result_notices response_ok result

-- The notices, as the region takes them.
abbrev pub toasts_of : List Notice → List ToastEvent
toasts_of [] = []
toasts_of (action_result action context response_ok result ∷ notices) = toasts_of notices
toasts_of (widget_toast message shade ∷ notices) =
    toasted message none (some shade) ∷ toasts_of notices
toasts_of (popstate ∷ notices) = toasts_of notices

-- What the region shows after an answer.
abbrev pub region_after :
    Action → Fields → Bool → Option ServerActionResult → ToastRegion → ToastRegion
region_after action context response_ok result s =
    toast_steps s (toasts_of (answer_action action context response_ok result))

no_toasts :
    (response_ok : Bool) (result : ServerActionResult)
    → toasts_of (refresh_notices response_ok result) ≡ []
no_toasts response_ok result =
    either_branch (λ ns. toasts_of ns ≡ []) (response_ok && result.refresh) refl refl

toasts_of-append :
    (first second : List Notice)
    → toasts_of second ≡ []
    → toasts_of (first ++ second) ≡ toasts_of first
toasts_of-append [] second h = h
toasts_of-append (action_result action context response_ok result ∷ first) second h =
    toasts_of-append first second h
toasts_of-append (widget_toast message shade ∷ first) second h =
    ap (◌∷◌ (toasted message none (some shade))) (toasts_of-append first second h)
toasts_of-append (popstate ∷ first) second h = toasts_of-append first second h

is_said-message_of :
    (toast error : Option Text) (c : ℕ) (t : Text)
    → message_of toast error ≡ some (c ∷ t)
    → (is_said toast || is_said error) ≡ true
is_said-message_of none error c t h = ap is_said h
is_said-message_of (some toast) error c t h = ap (λ o. is_said o || is_said error) h

-- The region after a toast with a message.
shown_after :
    (m : Option Text) (shade : Text) (s : ToastRegion) (c : ℕ) (t : Text)
    → m ≡ some (c ∷ t)
    → (show_toast (message_of m none) (some shade) s).toast ≡ some (c ∷ t, some shade)
shown_after m shade s c t h = ap (λ o. (show_toast (message_of o none) (some shade) s).toast) h

region_after-toasts :
    (action : Action) (context : Fields) (response_ok : Bool) (result : ServerActionResult)
    (s : ToastRegion)
    → region_after action context response_ok (some result) s
      ≡ toast_steps s (toasts_of (toast_notices response_ok result))
unfolding answer_action
region_after-toasts action context response_ok result s = ap (toast_steps s) (
    toasts_of-append (toast_notices response_ok result) (refresh_notices response_ok result)
      (no_toasts response_ok result))

-- An answer with a toast, or with an error and no toast, shows it in the region, in the tone of success
-- exactly if the response is one and the answer does not deny it. If its toast is the empty text, the
-- region stays as it was, whatever error the answer tells of.
pub answer_action-toast :
    (action : Action) (context : Fields) (response_ok : Bool) (result : ServerActionResult)
    (s : ToastRegion)
    → ((c : ℕ) (t : Text)
        → message_of result.toast result.error ≡ some (c ∷ t)
        → (region_after action context response_ok (some result) s).toast
          ≡ some (c ∷ t, some (tone_of response_ok result.ok)))
      × (result.toast ≡ some [] → region_after action context response_ok (some result) s ≡ s)
unfolding toast_steps toast_step
answer_action-toast action context response_ok result s =
    let toasts = region_after-toasts action context response_ok result s in
    (
      λ c t h.
          ap (λ (r : ToastRegion). r.toast) toasts
          ∙ ap (λ ns. (toast_steps s (toasts_of ns)).toast)
              (if_true _ _ (is_said-message_of result.toast result.error c t h))
          ∙ shown_after (message_of result.toast result.error) (tone_of response_ok result.ok) s c t
              h,
      λ h.
          toasts
          ∙ either_branch (λ ns. toast_steps s (toasts_of ns) ≡ s)
              (is_said result.toast || is_said result.error)
              (ap
                (λ o.
                  show_toast (message_of (message_of o result.error) none)
                    (some (tone_of response_ok result.ok)) s)
                h)
              refl,
    )
