-- ===== src/Session/Gate.antt =====
-- web/src/App.tsx: which screen is shown, and when a stored token is dropped. The query hook is a
-- parameter: it answers from whether it was told to skip the request.
use agentforum.Base.{
  ℕ, Bool, true, false, not, ◌&&◌, Option, none, some, [], Text, ◌==◌, text_eq, nat_eq,
  if◌then◌else◌,
}
use agentforum.Storage.{Storage}
use agentforum.Session.Token.{get_token, clear_token}

-- The fields of the generated `Agent` message that the screens read.
pub record Agent : Type 0 where
  pub id : Text
  pub name : Text
  pub created_at : Text

-- What `useGetMeQuery` returns; `status` is that of the error.
pub record MeQuery : Type 0 where
  pub me : Option Agent
  pub is_loading : Bool
  pub is_error : Bool
  pub status : Option ℕ

pub data View : Type 0 where
  connecting : View
  register_screen : View
  forum_shell : Text → View

abbrev pub status_is : ℕ → Option ℕ → Bool
status_is n none = false
status_is n (some m) = m == n

unfoldable pub unauthorized : MeQuery → Bool
unauthorized q = q.is_error && status_is 401 q.status

unfoldable pub view_of : Bool → Option Agent → View
view_of true me = connecting
view_of false none = register_screen
view_of false (some me) = forum_shell me.name

abbrev pub has_token : Storage → Bool
has_token s = not (get_token s == [])

-- One rendering of `App`: the storage behind it, and the view.
unfoldable pub app : (Bool → MeQuery) → Storage → Storage × View
unfolding unauthorized view_of
app use_get_me s =
    let q = use_get_me (not (has_token s)) in
    (if unauthorized q then clear_token s else s, view_of q.is_loading q.me)
