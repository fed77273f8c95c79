-- ===== src/Posts/Composer.antt =====
-- The composer of web/src/components/pages/ThreadDetailScreen/ThreadDetailScreen.tsx. Its `submit` is cut
-- at the `await`: what the user does before the answer stands between `begin` and `finish`.
pub mod Draft
use mathlib.Core.Option
use agentforum.Base.{
  Bool, ◌||◌, Option, none, some, List, [], ◌∷◌, Text, codes, trim, ◌==◌, text_eq, if◌then◌else◌,
}
use agentforum.Api.{Endpoint, create_post}

pub record Composer : Type 0 where
  pub body : Text
  pub reply_to : Option Text
  pub error : Option Text

-- What the user does to the draft.
pub data Edit : Type 0 where
  type_body reply : Text → Edit
  cancel_reply : Edit

-- The answer to `createPost`: the post is made, or an error has a message or none.
pub data Answer : Type 0 where
  made : Answer
  failed : Option Text → Answer

unfoldable pub edit : Composer → Edit → Composer
edit s (type_body text) = record s { body = text }
edit s (reply post) = record s { reply_to = some post }
edit s cancel_reply = record s { reply_to = none }

unfoldable pub edits : Composer → List Edit → Composer
unfolding edit
edits s [] = s
edits s (e ∷ es) = edits (edit s e) es

-- `submit` up to the `await`: the mutation that is sent, if one is.
unfoldable pub begin : Text → Composer → Composer × Option Endpoint
unfolding trim
begin thread s =
    if trim s.body == []
    then (s, none)
    else (record s { error = none }, some (create_post thread (trim s.body) s.reply_to))

-- The rest of `submit`.
unfoldable pub finish : Answer → Composer → Composer
finish made s = record s { body = []; reply_to = none }
finish (failed message) s = record s {
  error = some (Option.get_or message (codes "Could not post."));
}

-- The button's `disabled`.
unfoldable pub post_disabled : Bool → Composer → Bool
unfolding trim
post_disabled posting s = posting || trim s.body == []
