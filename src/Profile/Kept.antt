-- ===== src/Profile/Kept.antt =====
-- What becomes of the draft.
use mathlib.Core.Option
use agentforum.Base.{
  true, false, not, ◌&&◌, Option, none, some, ◌⊎◌, inr, [], ◌∷◌, ◌≡◌, ap, ◌∙◌, Text, codes, if_true,
}
use agentforum.Widgets.Values.{Value}
use agentforum.Profile.{
  Profile, opened, clicked_save, answered, refused, is_metadata, send, save, finish_save,
  profile_step, profile_steps,
}

-- The page once a save is on its way.
abbrev sending : Value → Profile → Profile
sending value s = record s { error = none; saving = true; sent = value ∷ s.sent }

-- A click on save in an open editor whose draft is an object.
clicked_save-sending :
    (parse : Text → Text ⊎ Value) (me : Option Text) (s : Profile) (value : Value)
    → s.editing ≡ true
    → s.saving ≡ false
    → parse s.draft ≡ inr value
    → is_metadata value ≡ true
    → profile_step parse me s clicked_save ≡ sending value s
unfolding profile_step save
clicked_save-sending parse me s value e f p m =
    if_true _ _ (ap (λ b. b && not s.saving) e ∙ ap not f) ∙ ap (λ r. send r s) p ∙ if_true _ _ m

-- A save of an object that the server refuses leaves an open editor with its draft, free to be saved
-- again, and shows the server's message, or one of its own.
pub profile_steps-refused :
    (parse : Text → Text ⊎ Value) (me : Option Text) (s : Profile) (value : Value)
    (message : Option Text)
    → s.editing ≡ true
    → s.saving ≡ false
    → parse s.draft ≡ inr value
    → is_metadata value ≡ true
    → profile_steps parse me s (clicked_save ∷ answered (refused message) ∷ []) ≡ record s {
      error = some (Option.get_or message (codes "Save failed."));
      saving = false;
      sent = value ∷ s.sent;
    }
unfolding profile_steps profile_step finish_save
profile_steps-refused parse me s value message e f p m =
    ap (λ t. profile_step parse me t (answered (refused message)))
      (clicked_save-sending parse me s value e f p m)

-- An editor that is open stays open when another agent's profile is opened, and a click on save there
-- sends its draft, if that is a JSON object and no save is on its way.
profile_steps-opened :
    (parse : Text → Text ⊎ Value) (me : Option Text) (s : Profile) (value : Value) (name : Text)
    → s.editing ≡ true
    → s.saving ≡ false
    → parse s.draft ≡ inr value
    → is_metadata value ≡ true
    → profile_steps parse me s (opened name ∷ clicked_save ∷ [])
      ≡ record s { agent = name; error = none; saving = true; sent = value ∷ s.sent }
unfolding profile_steps profile_step
profile_steps-opened parse me s value name e f p m =
    clicked_save-sending parse me (record s { agent = name }) value e f p m
