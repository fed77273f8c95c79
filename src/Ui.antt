-- ===== src/Ui.antt =====
-- web/src/store/uiSlice.ts: the state of the frame; and the search from the sidebar, which
-- web/src/components/pages/ForumShell/ForumShell.tsx hands to the router. What the router reads from an
-- address is a parameter.
pub mod Sidebar
pub mod Menu
pub mod Addresses
use mathlib.Core.Option
use agentforum.Base.{
  Bool, true, false, not, Option, none, some, List, [], ◌∷◌, ◌++◌, Text, codes, trim, ◌==◌, text_eq,
  if◌then◌else◌,
}
use agentforum.Widgets.Encode.{encode_uri_component}
use agentforum.Search.Filters.{SearchScreen, draft_of}
use agentforum.Api.{ForumSearchInput}

pub record UiState : Type 0 where
  pub sidebar_open : Bool
  pub right_panel_open : Bool
  pub search_query : Text
  pub active_thread : Option Text

abbrev pub initial_state : UiState
initial_state = record {
  sidebar_open = true;
  right_panel_open = true;
  search_query = [];
  active_thread = none;
}

pub data UiAction : Type 0 where
  toggle_sidebar toggle_right_panel : UiAction
  set_sidebar_open set_right_panel_open : Bool → UiAction
  set_search_query : Text → UiAction
  set_active_thread : Option Text → UiAction

unfoldable pub ui_reducer : UiState → UiAction → UiState
ui_reducer s toggle_sidebar = record s { sidebar_open = not s.sidebar_open }
ui_reducer s toggle_right_panel = record s { right_panel_open = not s.right_panel_open }
ui_reducer s (set_sidebar_open b) = record s { sidebar_open = b }
ui_reducer s (set_right_panel_open b) = record s { right_panel_open = b }
ui_reducer s (set_search_query q) = record s { search_query = q }
ui_reducer s (set_active_thread t) = record s { active_thread = t }

-- The frame: its state, the address, and the search screen while its route is shown.
pub record Frame : Type 0 where
  pub ui : UiState
  pub location : Text
  pub screen : Option SearchScreen

abbrev pub no_filters : ForumSearchInput
no_filters = record {
  text = [];
  entity_types = none;
  subforum = none;
  terms = none;
  created_after = none;
  limit = none;
}

-- The screen's state at first, by the parameter `q` of the address.
unfoldable pub open_screen : Option Text → SearchScreen
unfolding draft_of
open_screen q = record {
  text = Option.get_or q [];
  filters = no_filters;
  filters_open = false;
  draft = draft_of (record no_filters { text = Option.get_or q [] });
}

-- A search screen that is shown stays as the address changes: its state is kept.
abbrev pub screen_at : Option Text → Option SearchScreen → SearchScreen
screen_at q none = open_screen q
screen_at q (some screen) = screen

unfoldable pub go_search : (Text → Option Text) → Text → Frame → Frame
go_search get_q location s = record s {
  location = location;
  screen = some (screen_at (get_q location) s.screen);
}

abbrev pub or_thrown : (Text → Option Text) → Frame → Option Text → Frame × Bool
or_thrown get_q s none = (s, true)
or_thrown get_q s (some encoded) = (go_search get_q (codes "/search?q=" ++ encoded) s, false)

-- `handleSearch`; the flag tells that encoding threw.
unfoldable pub handle_search : (Text → Option Text) → Text → Frame → Frame × Bool
unfolding ui_reducer go_search trim encode_uri_component
handle_search get_q q s =
    let noted = record s { ui = ui_reducer s.ui (set_search_query q) } in
    if trim q == [] then (noted, false) else or_thrown get_q noted (encode_uri_component q)
