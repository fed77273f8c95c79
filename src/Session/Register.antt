-- ===== src/Session/Register.antt =====
-- web/src/components/pages/RegisterScreen/RegisterScreen.tsx: a name in, a token out. The mutation is
-- a parameter, from the trimmed name to the server's answer.
use mathlib.Core.Option
use agentforum.Base.{
  ℕ, ◌+◌, Bool, ◌||◌, Option, none, some, [], Text, codes, trim, ◌==◌, text_eq, if◌then◌else◌,
}
use agentforum.Storage.{Storage}
use agentforum.Session.Token.{set_token}
use agentforum.Session.Gate.{status_is}

-- The answer to `register`: the response's token, or an error with its status and message. The token
-- is `none` where the decoded field is no string.
pub data Registration : Type 0 where
  registered : Option Text → Registration
  refused : Option ℕ → Option Text → Registration

-- The state of the screen; `reloads` counts the page loads that it asked for.
pub record RegisterForm : Type 0 where
  pub name : Text
  pub error : Option Text
  pub reloads : ℕ

unfoldable pub refusal : Option ℕ → Option Text → Text
refusal status message =
    if status_is 409 status
    then codes "That name is taken."
    else Option.get_or message (codes "Registration failed.")

-- The rest of `submit` behind the `await`.
unfoldable pub receive : Registration → RegisterForm → Storage → RegisterForm × Storage
unfolding refusal
receive (registered token) form s =
    (record form { error = none; reloads = form.reloads + 1 }, set_token token s)
receive (refused status message) form s = (record form { error = some (refusal status message) }, s)

unfoldable pub submit : (Text → Registration) → RegisterForm → Storage → RegisterForm × Storage
unfolding receive trim
submit register form s = receive (register (trim form.name)) (record form { error = none }) s

-- The button's `disabled`.
unfoldable pub submit_disabled : Bool → RegisterForm → Bool
unfolding trim
submit_disabled is_loading form = is_loading || trim form.name == []
