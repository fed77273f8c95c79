-- ===== src/Widgets/Dispatch/Consent.antt =====
-- What the dispatcher does without the user's consent, and what it posts.
use mathlib.Core.Option
use agentforum.Base.{
  Bool, true, false, Bool-cases, Option, none, some, List, [], ◌∷◌, ◌≡◌, refl, sym, ap, ◌∙◌, ◌⊎◌,
  inl, inr, Text, text_eq, if_true, if_false,
}
use agentforum.Widgets.Values.{Fields}
use agentforum.Widgets.Dispatch.{
  Confirm, Action, Browser, Effect, asked, threw, confirm_of, ask, ask_first, render_template,
  confirm_widget_action, perform, dispatch_widget_action,
}

-- The effects that are neither a question nor an error.
abbrev pub acts : List Effect → Bool
acts [] = false
acts (asked text ∷ es) = acts es
acts (threw ∷ es) = acts es
acts (e ∷ es) = true

ask-consent :
    (browser : Browser) (rendered : Option Text) (effects : List Effect)
    → acts (ask browser rendered effects) ≡ true
    → (text : Text) × (rendered ≡ some text)
      × (ask browser rendered effects ≡ asked text ∷ effects)
      × (browser.confirmed text ≡ true)
unfolding ask
ask-consent browser none effects h = cc
ask-consent browser (some text) effects h = elim (Bool-cases (browser.confirmed text)) [
  | inl e ↦ (text, refl, ap (◌∷◌ (asked text)) (if_true effects [] e), e)
  | inr e ↦ absurd (cc (sym h ∙ ap acts (if_false effects [] e)))
]

ask_first-consent :
    (browser : Browser) (c : Option Confirm) (context : Fields) (effects : List Effect)
    → acts (ask_first browser c context effects) ≡ true
    → (c ≡ none)
      ⊎ ((text : Text) × (Option.map (λ d. render_template d context) c ≡ some (some text))
          × (ask_first browser c context effects ≡ asked text ∷ effects)
          × (browser.confirmed text ≡ true))
unfolding ask_first
ask_first-consent browser none context effects h = inl refl
ask_first-consent browser (some c) context effects h =
    let (text, rendered, shown, agreed) =
      ask-consent browser (render_template c context) effects h in
    inr (text, ap some rendered, shown, agreed)

-- If the dispatcher, without a handler, does anything to the browser, then the action asks for no
-- confirmation, or its rendered question was put first and the user's answer was yes.
pub dispatch_widget_action-consent :
    (browser : Browser) (action : Action) (context : Fields)
    → acts (dispatch_widget_action browser false action context) ≡ true
    → (confirm_of action.confirm ≡ none)
      ⊎ ((text : Text) × (Option.map (λ d. render_template d context) (confirm_of action.confirm)
            ≡ some (some text))
          × (dispatch_widget_action browser false action context
              ≡ asked text ∷ perform browser action context)
          × (browser.confirmed text ≡ true))
unfolding dispatch_widget_action confirm_widget_action
dispatch_widget_action-consent browser action context h =
    ask_first-consent browser (confirm_of action.confirm) context (perform browser action context) h
