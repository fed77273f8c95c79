-- ===== src/Ui/Sidebar.antt =====
-- The search from the sidebar.
use agentforum.Base.{
  false, Option, none, some, [], ◌++◌, ◌≡◌, ap, ◌∙◌, Text, codes, trim, ◌==◌, text_eq, if_false,
}
use agentforum.Widgets.Encode.{encode_uri_component}
use agentforum.Ui.{
  Frame, ui_reducer, set_search_query, open_screen, screen_at, go_search, or_thrown, handle_search,
}

-- A search for a text that is not blank and can be encoded goes to the address of the search.
handle_search-goes :
    (get_q : Text → Option Text) (q encoded : Text) (s : Frame)
    → (trim q == []) ≡ false
    → encode_uri_component q ≡ some encoded
    → handle_search get_q q s ≡ (
      go_search get_q
          (codes "/search?q=" ++ encoded)
          (record s { ui = ui_reducer s.ui (set_search_query q) }),
      false,
    )
unfolding handle_search
handle_search-goes get_q q encoded s filled e =
    if_false _ _ filled
    ∙ ap (or_thrown get_q (record s { ui = ui_reducer s.ui (set_search_query q) })) e

-- A search from another page opens the search screen with the text, if the router reads from the address
-- what was encoded into it, and the text is not blank.
pub handle_search-opens :
    (get_q : Text → Option Text) (q encoded : Text) (s : Frame)
    → (trim q == []) ≡ false
    → encode_uri_component q ≡ some encoded
    → get_q (codes "/search?q=" ++ encoded) ≡ some q
    → s.screen ≡ none
    → (handle_search get_q q s).0.screen ≡ some (open_screen (some q))
unfolding go_search
handle_search-opens get_q q encoded s filled e read absent =
    ap (λ r. r.0.screen) (handle_search-goes get_q q encoded s filled e)
    ∙ ap (λ o. some (screen_at o s.screen)) read
    ∙ ap (λ o. some (screen_at (some q) o)) absent
