-- ===== src/Session/Token.antt =====
-- web/src/store/forumApi.ts: the token's slot in the browser's storage, and the request header.
use mathlib.Core.Option
use agentforum.Base.{
  ℕ, Bool, false, not, ◌&&◌, ◌||◌, Option, none, some, [], ◌∷◌, ◌++◌, Text, codes, starts_with,
  drop, all, leb, ◌==◌, text_eq, nat_eq, if◌then◌else◌,
}
use agentforum.Storage.{Storage, get_item, set_item, remove_item}

-- `TOKEN_KEY`
abbrev pub token_key : Text
token_key = codes "agentforum.token"

unfoldable pub get_token : Storage → Text
get_token s = Option.get_or (get_item token_key s) []

abbrev within : ℕ → ℕ → ℕ → Bool
within lo hi c = leb lo c && leb c hi

-- The class `[A-Za-z0-9_-]`.
unfoldable pub is_token_char : ℕ → Bool
is_token_char c =
    within b'A' b'Z' c || within b'a' b'z' c || within b'0' b'9' c || c == b'_' || c == b'-'

abbrev one_or_more : (ℕ → Bool) → Text → Bool
one_or_more p [] = false
one_or_more p (c ∷ s) = p c && all p s

-- `TOKEN_RE`, `/^af_[A-Za-z0-9_-]+$/`.
unfoldable pub token_re : Text → Bool
unfolding is_token_char
token_re token = starts_with (codes "af_") token && one_or_more is_token_char (drop 3 token)

-- The argument is `none` where the value at run time is no string.
unfoldable pub set_token : Option Text → Storage → Storage
set_token none s = s
set_token (some token) s = if not (token_re token) then s else set_item token_key token s

unfoldable pub clear_token : Storage → Storage
clear_token s = remove_item token_key s

-- `prepareHeaders`: the value of the `Authorization` header, if one is set.
unfoldable pub prepare_headers : Storage → Option Text
unfolding get_token
prepare_headers s =
    let token = get_token s in if token == [] then none else some (codes "Bearer " ++ token)
