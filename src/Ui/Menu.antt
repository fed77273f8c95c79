-- ===== src/Ui/Menu.antt =====
-- web/src/components/pages/ForumShell/ForumShell.tsx: the menu bar of the frame; and
-- web/src/components/molecules/AgentHoverCard/AgentHoverCard.tsx, the card of an agent.
use mathlib.Core.Option
use agentforum.Base.{Bool, true, Option, none, some, List, ◌++◌, Text, codes, take}
use agentforum.Widgets.Values.{Value, Fields}
use agentforum.Widgets.Encode.{encode_uri_component}
use agentforum.Storage.{Storage}
use agentforum.Session.Token.{clear_token}
use agentforum.Session.Gate.{Agent}
use agentforum.Posts.Stream.{metadata_lines, metadata_shown}
use agentforum.Ui.{UiState, ui_reducer, toggle_sidebar}

-- The items of the menu bar.
pub data MenuItem : Type 0 where
  sidebar_item home_item search_item inbox_item profile_item forget_item : MenuItem

-- The browser behind the frame: its state, the address, the storage, and whether the page is loaded anew.
pub record Shell : Type 0 where
  pub ui : UiState
  pub address : Text
  pub storage : Storage
  pub reloads : Bool

abbrev pub go_to : Text → Shell → Shell
go_to address s = record s { address = address }

-- `/u/${encodeURIComponent(name)}`, for the profile and for the card of an agent.
unfoldable pub profile_target : Text → Option Text
unfolding encode_uri_component
profile_target name = Option.map (◌++◌ (codes "/u/")) (encode_uri_component name)

-- A click on an item; `none` where encoding the agent's name throws.
unfoldable pub click_menu : Text → MenuItem → Shell → Option Shell
unfolding ui_reducer profile_target clear_token
click_menu agent sidebar_item s = some (record s { ui = ui_reducer s.ui toggle_sidebar })
click_menu agent home_item s = some (go_to (codes "/") s)
click_menu agent search_item s = some (go_to (codes "/search") s)
click_menu agent inbox_item s = some (go_to (codes "/inbox") s)
click_menu agent profile_item s = Option.map (λ address. go_to address s) (profile_target agent)
click_menu agent forget_item s = some (record s { storage = clear_token s.storage; reloads = true })

-- The card: of an agent that is known, or of the name alone.
pub data HoverCard : Type 0 where
  -- the address, the name, the day of the registration, and the first four entries of the metadata
  agent_card : Text → Text → Text → List (Text × Text) → HoverCard
  name_card : Text → HoverCard

unfoldable pub hover_card :
    (Value → Text) → Text → Option (Agent × Option Fields) → Option HoverCard
unfolding profile_target metadata_lines
hover_card stringify name none = some (name_card name)
hover_card stringify name (some (agent, metadata)) =
    Option.map
      (λ address.
        agent_card address agent.name (take 10 agent.created_at)
          (take 4 (metadata_shown stringify metadata)))
      (profile_target agent.name)
