-- ===== src/Subforums.antt =====
-- The subforums on the screen: web/src/components/pages/SubforumListScreen/SubforumListScreen.tsx, and
-- web/src/components/organisms/ForumSidebar/ForumSidebar.tsx; and the keys that
-- internal/service/subforums.go lets them have.
pub mod Keys
pub mod Watching
use agentforum.Base.{
  or_text, ℕ, suc, Bool, true, false, not, ◌&&◌, ◌||◌, Option, none, some, List, [], ◌∷◌, ◌++◌, map,
  Text, codes, leb, eq_nat, length, all, trim, to_decimal, ◌==◌, text_eq, if◌then◌else◌,
}

-- The generated `Subforum` message, less its metadata and time.
pub record Subforum : Type 0 where
  pub key : Text
  pub title : Text
  pub description : Text
  pub thread_count : ℕ
  pub watching : Bool

-- Where a click on a subforum goes, in the list and in the sidebar: the key is not encoded.
abbrev pub subforum_target : Text → Text
subforum_target key = codes "/s/" ++ key

-- A row of the list, with its button.
pub record SubforumRow : Type 0 where
  pub name : Text
  pub about : Text
  pub pressed : Bool
  pub disabled : Bool
  pub button_title : Text
  pub button_icon : Text
  pub button_label : Text
  pub count : Text

abbrev pub choose : Bool → Text → Text → Text
choose true a b = a
choose false a b = b

unfoldable pub subforum_row : Bool → Subforum → SubforumRow
unfolding to_decimal
subforum_row busy sf = record {
  name = or_text sf.title sf.key;
  about = or_text sf.description sf.key;
  pressed = sf.watching;
  disabled = busy;
  button_title =
      choose sf.watching (codes "Stop watching this subforum")
        (codes "Watch this subforum (events for new threads)");
  button_icon = choose sf.watching (codes "check") (codes "folder");
  button_label = choose sf.watching (codes "Watching") (codes "Watch");
  count = to_decimal sf.thread_count;
}

-- The list: its query is loading, has failed, or has data, which may be missing.
pub data SubforumScreen : Type 0 where
  loading_subforums could_not_load no_subforums : SubforumScreen
  subforum_rows : List SubforumRow → SubforumScreen

abbrev pub rows_or_none : List SubforumRow → SubforumScreen
rows_or_none [] = no_subforums
rows_or_none (r ∷ rs) = subforum_rows (r ∷ rs)

abbrev pub data_or_empty : Option (List Subforum) → List Subforum
data_or_empty none = []
data_or_empty (some sfs) = sfs

unfoldable pub subforum_screen : Bool → Bool → Option (List Subforum) → Bool → SubforumScreen
unfolding subforum_row
subforum_screen true failed subforums busy = loading_subforums
subforum_screen false true subforums busy = could_not_load
subforum_screen false false subforums busy =
    rows_or_none (map (subforum_row busy) (data_or_empty subforums))

-- An entry of the sidebar; the count stands in a tag if the subforum is watched.
pub record SidebarEntry : Type 0 where
  pub entry_active : Bool
  pub entry_name : Text
  pub tagged : Bool
  pub entry_count : Text

pub data Sidebar : Type 0 where
  sidebar_loading sidebar_empty : Sidebar
  sidebar_entries : List SidebarEntry → Sidebar

-- `params.key === sf.key`
abbrev pub is_param : Option Text → Text → Bool
is_param none key = false
is_param (some k) key = k == key

unfoldable pub sidebar_entry : Option Text → Subforum → SidebarEntry
unfolding to_decimal
sidebar_entry param sf = record {
  entry_active = is_param param sf.key;
  entry_name = or_text sf.title sf.key;
  tagged = sf.watching;
  entry_count = to_decimal sf.thread_count;
}

abbrev pub entries_or_none : List SidebarEntry → Sidebar
entries_or_none [] = sidebar_empty
entries_or_none (e ∷ es) = sidebar_entries (e ∷ es)

unfoldable pub forum_sidebar : Bool → Option (List Subforum) → Option Text → Sidebar
unfolding sidebar_entry
forum_sidebar true subforums param = sidebar_loading
forum_sidebar false subforums param =
    entries_or_none (map (sidebar_entry param) (data_or_empty subforums))

-- `^[a-z0-9][a-z0-9-]{0,62}$`, and the key that is stored for one that is given; Go's
-- `strings.TrimSpace` is a parameter.
abbrev pub is_key_start : ℕ → Bool
is_key_start c = (leb b'a' c && leb c b'z') || (leb b'0' c && leb c b'9')

abbrev pub is_key_unit : ℕ → Bool
is_key_unit c = is_key_start c || eq_nat c b'-'

unfoldable pub matches_key : Text → Bool
matches_key [] = false
matches_key (c ∷ s) = is_key_start c && (all is_key_unit s && leb (length s) 62)

unfoldable pub stored_key : (Text → Text) → Text → Option Text
unfolding matches_key
stored_key trim_space given =
    let key = trim_space given in if matches_key key then some key else none

-- What an event on a row does: the row goes to the subforum's page, and the button calls a mutation.
pub data RowEffect : Type 0 where
  goes_to : Text → RowEffect
  toggles : Subforum → RowEffect

pub data RowPart : Type 0 where
  row_itself watch_button : RowPart

-- A click on the button does not reach the row.
unfoldable pub row_click : Bool → RowPart → Subforum → List RowEffect
row_click busy row_itself sf = goes_to (subforum_target sf.key) ∷ []
row_click true watch_button sf = []
row_click false watch_button sf = toggles sf ∷ []

-- A key that goes down on a part of the row reaches the row from both of them.
unfoldable pub row_key_down : Text → RowPart → Subforum → List RowEffect
row_key_down key part sf =
    if key == codes "Enter" || key == codes " " then goes_to (subforum_target sf.key) ∷ [] else []
