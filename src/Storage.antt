-- ===== src/Storage.antt =====
-- The browser's `localStorage`, which holds texts under texts; the token (web/src/store/forumApi.ts)
-- and the event cursors (web/src/hooks/useEventStream.ts) share it.
pub mod Laws
use agentforum.Base.{Option, none, some, List, [], ◌∷◌, Text, ◌==◌, text_eq, if◌then◌else◌}

abbrev pub Storage : Type 0
Storage = List (Text × Text)

unfoldable pub get_item : Text → Storage → Option Text
get_item key [] = none
get_item key ((k, v) ∷ s) = if k == key then some v else get_item key s

unfoldable pub set_item : Text → Text → Storage → Storage
set_item key value [] = (key, value) ∷ []
set_item key value ((k, v) ∷ s) =
    let later = set_item key value s in if k == key then (key, value) ∷ s else (k, v) ∷ later

unfoldable pub remove_item : Text → Storage → Storage
remove_item key [] = []
remove_item key ((k, v) ∷ s) =
    let later = remove_item key s in if k == key then later else (k, v) ∷ later
