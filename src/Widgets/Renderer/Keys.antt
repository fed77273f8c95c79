-- ===== src/Widgets/Renderer/Keys.antt =====
-- The keys that siblings get.
use mathlib.Core.Option
use agentforum.Base.{
  ℕ, Option, none, some, [], ◌++◌, ◌≡◌, refl, sym, ap, ◌∙◌, ◌≢◌, Text, split, split-append,
  split-has_no, get_last?, get_last?-append, to_decimal, of_decimal, of_decimal-to_decimal,
  to_decimal-has_no,
}
use agentforum.Widgets.Renderer.{
  WidgetNode, text_node, element_node, component_node, other_node, given_key, numbered,
  widget_node_key,
}

-- What stands behind the last dash.
abbrev after_dash : Text → Text
after_dash key = Option.get_or (get_last? (split b'-' key)) []

after_dash-to_decimal : (index : ℕ) → after_dash (to_decimal index) ≡ to_decimal index
after_dash-to_decimal index =
    ap (λ ws. Option.get_or (get_last? ws) [])
      (split-has_no b'-' (to_decimal index) (to_decimal-has_no b'-' index refl))

after_dash-numbered :
    (name : Text) (index : ℕ) → after_dash (numbered name index) ≡ to_decimal index
after_dash-numbered name index =
    ap (λ ws. Option.get_or (get_last? ws) [])
      (split-append b'-' name (to_decimal index)
        ∙ ap (◌++◌ (split b'-' name))
            (split-has_no b'-' (to_decimal index) (to_decimal-has_no b'-' index refl)))
    ∙ ap (λ o. Option.get_or o []) (get_last?-append (split b'-' name) (to_decimal index))

-- A node that names no key of its own.
abbrev pub key_given : WidgetNode → Option Text
key_given (text_node t) = none
key_given (element_node tag attrs children) = given_key attrs
key_given (component_node type_name props children) = given_key props
key_given other_node = none

after_dash-widget_node_key :
    (node : WidgetNode) (index : ℕ)
    → key_given node ≡ none
    → after_dash (widget_node_key node index) ≡ to_decimal index
unfolding widget_node_key
after_dash-widget_node_key (text_node t) index h = after_dash-to_decimal index
after_dash-widget_node_key (element_node tag attrs children) index h =
    ap (λ o. after_dash (Option.get_or o (numbered tag index))) h ∙ after_dash-numbered tag index
after_dash-widget_node_key (component_node type_name props children) index h =
    ap (λ o. after_dash (Option.get_or o (numbered type_name index))) h
    ∙ after_dash-numbered type_name index
after_dash-widget_node_key other_node index h = after_dash-to_decimal index

to_decimal-inj : (i j : ℕ) → to_decimal i ≡ to_decimal j → i ≡ j
to_decimal-inj i j e =
    let same : some i ≡ some j =
      sym (of_decimal-to_decimal i) ∙ ap of_decimal e ∙ of_decimal-to_decimal j in
    cc

-- Two siblings that name no key of their own, at different places, have different keys, whatever kinds
-- and types of node they are.
widget_node_key-differs :
    (a b : WidgetNode) (i j : ℕ)
    → key_given a ≡ none
    → key_given b ≡ none
    → i ≢ j
    → widget_node_key a i ≢ widget_node_key b j
widget_node_key-differs a b i j ha hb differ e = differ (
    to_decimal-inj i j (
      sym (after_dash-widget_node_key a i ha)
      ∙ ap after_dash e
      ∙ after_dash-widget_node_key b j hb))
