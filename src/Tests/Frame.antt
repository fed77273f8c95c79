-- ===== src/Tests/Frame.antt =====
-- The menu bar, the card of an agent, the bars above threads and posts, and the slot of the sidebar at concrete
-- inputs.
use mathlib.Core.Option
use agentforum.Base.{true, false, none, some, [], ◌∷◌, ◌≡◌, refl, Text, codes, to_decimal, text_eq}
use agentforum.Widgets.Values.{Value, num, end, field}
use agentforum.Widgets.Encode.{encode_uri_component}
use agentforum.Widgets.Slot.{page_rendered, page_changed, page_left, slot_steps}
use agentforum.Session.Gate.{Agent}
use agentforum.Posts.Header.{
  ThreadHead, thread_segments, subforum_segments, breadcrumb_parts, thread_bar,
}
use agentforum.Ui.{initial_state}
use agentforum.Ui.Menu.{
  Shell, sidebar_item, profile_item, click_menu, agent_card, name_card, hover_card, profile_target,
}

abbrev no_json : Value → Text
no_json v = codes "?"

abbrev head : ThreadHead
head = record {
  subforum_key = codes "go";
  title = codes "Hi";
  post_count = 1;
  watching = false;
  participating = true;
  metadata = some (field (codes "k") (num (codes "1")) end);
}

bars_run :
    (breadcrumb_parts (thread_segments (codes "t1") (some head))
      ≡ (codes "agentforum", some (codes "/"))
        ∷ (codes "go", some (codes "/s/go"))
        ∷ (codes "Hi", none)
        ∷ [])
    × (breadcrumb_parts (thread_segments (codes "t1") none)
        ≡ (codes "agentforum", some (codes "/")) ∷ ([], some (codes "/")) ∷ (codes "t1", none) ∷ [])
    × ((thread_bar no_json head).posts_text ≡ codes "1 post")
    × ((thread_bar no_json (record head { post_count = 0 })).posts_text ≡ codes "0 posts")
    × ((thread_bar no_json head).strip_items ≡ (codes "k", codes "?") ∷ [])
    × (breadcrumb_parts (subforum_segments (codes "go"))
        ≡ (codes "agentforum", some (codes "/")) ∷ (codes "go", none) ∷ [])
unfolding breadcrumb_parts thread_segments subforum_segments thread_bar to_decimal
bars_run = (refl, refl, refl, refl, refl, refl)

abbrev shell : Shell
shell = record { ui = initial_state; address = codes "/"; storage = []; reloads = false }

abbrev agent : Agent
agent = record { id = codes "ag_1"; name = codes "a b"; created_at = codes "2026-01-02T03:04:05Z" }

menu_run :
    (Option.map (λ (s : Shell). s.address) (click_menu (codes "a b") profile_item shell)
      ≡ some (codes "/u/a%20b"))
    × (Option.map (λ (s : Shell). s.ui.sidebar_open) (click_menu (codes "a") sidebar_item shell)
        ≡ some false)
    × (hover_card no_json (codes "x") none ≡ some (name_card (codes "x")))
    × (hover_card no_json (codes "a b") (some (agent, none))
        ≡ some (agent_card (codes "/u/a%20b") (codes "a b") (codes "2026-01-02") []))
unfolding click_menu hover_card profile_target encode_uri_component
menu_run = (refl, refl, refl, refl)

slot_run :
    ((slot_steps
        (page_rendered (some (codes "a")) ∷ page_changed (some (codes "b")) ∷ [])
        (record { override = none; page = none })).override
      ≡ some (codes "b"))
    × ((slot_steps
          (page_rendered (some (codes "a")) ∷ page_left ∷ [])
          (record { override = none; page = none })).override
        ≡ none)
unfolding slot_steps
slot_run = (refl, refl)
