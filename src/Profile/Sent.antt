-- ===== src/Profile/Sent.antt =====
-- What a profile sends.
use agentforum.Base.{
  true, not, ◌&&◌, Option, ◌⊎◌, inl, inr, List, [], ◌∷◌, ◌≡◌, sym, ap, ◌∙◌, Text, all,
  either_branch, Bool-cases, if_true, if_false,
}
use mathlib.Core.Path.{subst}
use agentforum.Widgets.Values.{Value}
use agentforum.Profile.{
  Profile, ProfileEvent, opened, clicked_edit, typed, clicked_save, clicked_cancel, answered, saved,
  refused, is_metadata, is_own, send, save, finish_save, profile_step, profile_steps,
}

-- Only objects have been sent.
abbrev pub IsSound : Profile → Type 0
IsSound s = all is_metadata s.sent ≡ true

send-IsSound : (result : Text ⊎ Value) (s : Profile) → IsSound s → IsSound (send result s)
send-IsSound (inl message) s h = h
send-IsSound (inr value) s h = elim (Bool-cases (is_metadata value)) [
  | inl e ↦ subst IsSound (sym (if_true _ _ e)) (ap (λ b. b && all is_metadata s.sent) e ∙ h)
  | inr e ↦ subst IsSound (sym (if_false _ _ e)) h
]

profile_step-IsSound :
    (parse : Text → Text ⊎ Value) (me : Option Text) (s : Profile) (e : ProfileEvent)
    → IsSound s
    → IsSound (profile_step parse me s e)
unfolding profile_step save finish_save
profile_step-IsSound parse me s (opened name) h = h
profile_step-IsSound parse me s (clicked_edit metadata) h =
    either_branch IsSound (is_own me s.agent && not s.editing) h h
profile_step-IsSound parse me s (typed text) h = either_branch IsSound s.editing h h
profile_step-IsSound parse me s clicked_save h =
    either_branch IsSound (s.editing && not s.saving) (send-IsSound (parse s.draft) s h) h
profile_step-IsSound parse me s clicked_cancel h =
    either_branch IsSound (s.editing && not s.saving) h h
profile_step-IsSound parse me s (answered saved) h = either_branch IsSound s.saving h h
profile_step-IsSound parse me s (answered (refused message)) h = either_branch IsSound s.saving h h

-- Whatever is typed and clicked on the profile pages, and whatever the server answers, if only JSON
-- objects have been sent as metadata, only such are sent: no text, number, list or null.
pub profile_steps-IsSound :
    (parse : Text → Text ⊎ Value) (me : Option Text) (s : Profile) (es : List ProfileEvent)
    → all is_metadata s.sent ≡ true
    → all is_metadata (profile_steps parse me s es).sent ≡ true
unfolding profile_steps
profile_steps-IsSound parse me s [] h = h
profile_steps-IsSound parse me s (e ∷ es) h =
    profile_steps-IsSound parse me (profile_step parse me s e) es
      (profile_step-IsSound parse me s e h)
