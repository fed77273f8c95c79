-- ===== src/Widgets/Dispatch/Opened.antt =====
-- Navigations to an address, without a query.
use agentforum.Base.{
  true, false, Option, none, some, ◌>>=◌, List, [], ◌∷◌, ◌++◌, ◌≡◌, ap, ◌∙◌, Text,
}
use agentforum.Widgets.Values.{Fields, end, obj}
use agentforum.Widgets.Template.{interpolate}
use agentforum.Widgets.Dispatch.{
  Browser, Effect, Action, NavigateAction, navigate, pushed_state, popped_state, or_threw,
  preserved_pairs, query_pairs, dispatch_widget_action, confirm_widget_action, ask_first, perform,
  structured_navigation_target,
}

-- The browser resolves an address to itself.
abbrev pub Opens : Browser → Text → Type 0
Opens browser target =
    (url : browser.Url) × (browser.parse_url target browser.href ≡ some url)
    × ((browser.pathname url ++ (browser.search url ++ browser.hash url)) ≡ target)

abbrev pub plain_navigation : Text → NavigateAction
plain_navigation to = record {
  to = to;
  params = none;
  query = none;
  preserve_query = none;
  omit_empty = false;
  replace = false;
}

abbrev pub plain_action : Text → Action
plain_action to = record { confirm = none; spec = navigate (plain_navigation to) }

plain_target :
    (browser : Browser) (to target : Text) (context : Fields)
    → interpolate true to (obj context) ≡ some target
    → Opens browser target
    → structured_navigation_target browser (plain_navigation to) context ≡ some target
unfolding structured_navigation_target preserved_pairs query_pairs
plain_target browser to target context h (url, parsed, its) =
    let address = λ (u : browser.Url). browser.pathname u ++ (browser.search u ++ browser.hash u) in
    let onwards =
      λ (t : Text). browser.parse_url t browser.href >>= (λ base. some (address base)) in
    ap (λ o. o >>= onwards) h ∙ ap (λ o. o >>= (λ base. some (address base))) parsed ∙ ap some its

abbrev opened_by : Option Text → List Effect
opened_by = or_threw (λ target. pushed_state end target ∷ popped_state ∷ [])

-- What the dispatcher does for such a navigation.
pub dispatch-plain :
    (browser : Browser) (to target : Text) (context : Fields)
    → interpolate true to (obj context) ≡ some target
    → Opens browser target
    → dispatch_widget_action browser false (plain_action to) context
      ≡ pushed_state end target ∷ popped_state ∷ []
unfolding dispatch_widget_action confirm_widget_action perform structured_navigation_target
    ask_first
dispatch-plain browser to target context h opens =
    ap opened_by (plain_target browser to target context h opens)
