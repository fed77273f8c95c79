-- ===== src/Widgets/Adapters/Clicked.antt =====
-- What a click on a tag of the cloud and on a crumb of the bar dispatches: TagCloud.widget.tsx and
-- BreadcrumbBar.widget.tsx, in a renderer without a handler of its own.
use agentforum.Base.{
  true, false, Option, none, some, List, [], ◌∷◌, ◌++◌, ◌≡◌, ap, ◌∙◌, Text, codes,
}
use agentforum.Widgets.Values.{str, obj, Fields, end, field}
use agentforum.Widgets.Encode.{encode_uri_component}
use agentforum.Widgets.Encode.Plain.{encode_uri_component-All}
use agentforum.Widgets.Template.Plain.{interpolate-no_place, All-no_place}
use agentforum.Widgets.Dispatch.{
  Browser, Effect, Action, pushed_state, popped_state, or_threw, dispatch_widget_action,
}
use agentforum.Widgets.Dispatch.Opened.{Opens, plain_action, dispatch-plain}

abbrev pub tag_context : Text → Fields
tag_context tag =
    field (codes "tag") (str tag) (field (codes "componentType") (str (codes "TagCloud")) end)

abbrev pub slug_context : Text → Fields
slug_context slug =
    field (codes "slug") (str slug)
      (field (codes "componentType") (str (codes "BreadcrumbBar")) end)

-- A click on a tag: the action that the properties give, or the search for the tag behind a `#`.
unfoldable pub click_tag : Browser → Option Action → Text → List Effect
unfolding dispatch_widget_action encode_uri_component
click_tag browser (some action) tag = dispatch_widget_action browser false action (tag_context tag)
click_tag browser none tag =
    or_threw
      (λ encoded.
        dispatch_widget_action browser false (plain_action (codes "/search?q=%23" ++ encoded))
          (tag_context tag))
      (encode_uri_component tag)

-- A click on a crumb; without an action nothing follows.
unfoldable pub click_crumb : Browser → Option Action → Text → List Effect
unfolding dispatch_widget_action
click_crumb browser none slug = []
click_crumb browser (some action) slug =
    dispatch_widget_action browser false action (slug_context slug)

-- A click on a tag of a cloud without an action of its own pushes the address of the search for the tag behind
-- an encoded `#`, with all of the tag encoded, so that no part of it is taken for a place of a template, and
-- tells the router; if the tag can be encoded and the browser resolves that address to itself.
pub click_tag-search :
    (browser : Browser) (tag encoded : Text)
    → encode_uri_component tag ≡ some encoded
    → Opens browser (codes "/search?q=%23" ++ encoded)
    → click_tag browser none tag
      ≡ pushed_state end (codes "/search?q=%23" ++ encoded) ∷ popped_state ∷ []
unfolding click_tag
click_tag-search browser tag encoded h opens =
    ap
      (or_threw (λ text.
        dispatch_widget_action browser false (plain_action (codes "/search?q=%23" ++ text))
          (tag_context tag)))
      h
    ∙ dispatch-plain browser (codes "/search?q=%23" ++ encoded) (codes "/search?q=%23" ++ encoded)
        (tag_context tag)
        (interpolate-no_place true (codes "/search?q=%23" ++ encoded) (obj (tag_context tag))
          (All-no_place encoded (encode_uri_component-All tag encoded h)))
        opens
