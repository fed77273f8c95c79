-- ===== src/Posts/Composer/Draft.antt =====
-- What becomes of the draft.
use agentforum.Base.{
  true, false, Bool-cases, Option, none, some, List, [], ◌∷◌, ◌≡◌, refl, ap, ◌∙◌, ◌⊎◌, inl, inr,
  Text, trim, ◌==◌, text_eq, if_true, if_false,
}
use agentforum.Api.{create_post}
use agentforum.Posts.Composer.{
  Composer, Edit, type_body, reply, cancel_reply, made, failed, edits, begin, finish, post_disabled,
}

-- An error that is shown has no part in the edits.
edits_error :
    (s : Composer) (e : Option Text) (es : List Edit)
    → ((edits (record s { error = e }) es).body ≡ (edits s es).body)
      × ((edits (record s { error = e }) es).reply_to ≡ (edits s es).reply_to)
unfolding edits
edits_error s e [] = (refl, refl)
edits_error s e (type_body text ∷ es) = edits_error (record s { body = text }) e es
edits_error s e (reply post ∷ es) = edits_error (record s { reply_to = some post }) e es
edits_error s e (cancel_reply ∷ es) = edits_error (record s { reply_to = none }) e es

begin_cases :
    (thread : Text) (s : Composer)
    → ((trim s.body == []) ≡ true × (begin thread s ≡ (s, none)))
      ⊎ ((trim s.body == []) ≡ false
          × (begin thread s
              ≡ (record s { error = none }, some (create_post thread (trim s.body) s.reply_to))))
unfolding begin
begin_cases thread s = elim (Bool-cases (trim s.body == [])) [
  | inl e ↦ inl (e, if_true _ _ e)
  | inr e ↦ inr (e, if_false _ _ e)
]

-- Submitting sends a post exactly if the button is enabled, with the trimmed draft and the post that is
-- replied to; and it leaves the draft.
begin_lem :
    (thread : Text) (s : Composer)
    → ((post_disabled false s ≡ true) × (begin thread s ≡ (s, none)))
      ⊎ ((post_disabled false s ≡ false)
          × ((begin thread s).1 ≡ some (create_post thread (trim s.body) s.reply_to))
          × ((begin thread s).0.body ≡ s.body)
          × ((begin thread s).0.reply_to ≡ s.reply_to))
unfolding post_disabled
begin_lem thread s = elim (begin_cases thread s) [
  | inl (e, same) ↦ inl (e, same)
  | inr (e, sent) ↦
      inr (e, ap (λ r. r.1) sent, ap (λ r. r.0.body) sent, ap (λ r. r.0.reply_to) sent)
]

-- A failed post shows an error and leaves the draft as the user has edited it meanwhile.
finish-edits :
    (thread : Text) (s : Composer) (es : List Edit) (message : Option Text)
    → ((finish (failed message) (edits (begin thread s).0 es)).body ≡ (edits s es).body)
      × ((finish (failed message) (edits (begin thread s).0 es)).reply_to ≡ (edits s es).reply_to)
      × ((finish (failed message) (edits (begin thread s).0 es)).error ≡ none → ⊥)
unfolding finish
finish-edits thread s es message = elim (begin_cases thread s) [
  | inl (e, same) ↦
      (ap (λ r. (edits r.0 es).body) same, ap (λ r. (edits r.0 es).reply_to) same, λ h. cc h)
  | inr (e, sent) ↦
      let (body, reply_to) = edits_error s none es in
      (
        ap (λ r. (edits r.0 es).body) sent ∙ body,
        ap (λ r. (edits r.0 es).reply_to) sent ∙ reply_to,
        λ h. cc h,
      )
]

-- Text that is typed while a post is on its way is neither part of the post nor left once it is made.
finish_lost :
    (thread : Text) (s : Composer) (es : List Edit) (typed : Text)
    → post_disabled false s ≡ false
    → ((begin thread s).1 ≡ some (create_post thread (trim s.body) s.reply_to))
      × ((edits (begin thread s).0 (type_body typed ∷ [])).body ≡ typed)
      × ((finish made (edits (begin thread s).0 (type_body typed ∷ es))).body ≡ [])
unfolding finish edits post_disabled
finish_lost thread s es typed enabled = elim (begin_cases thread s) [
  | inl (e, same) ↦ absurd (cc (e, enabled))
  | inr (e, sent) ↦ (ap (λ r. r.1) sent, refl, refl)
]
