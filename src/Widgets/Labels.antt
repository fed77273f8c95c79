-- ===== src/Widgets/Labels.antt =====
-- web/src/components/molecules/SidebarNav/SidebarNav.tsx: the labels of a page's navigation, which are
-- texts, beside what the renderer makes of the same values.
use agentforum.Base.{
  Bool, false, [], ◌≡◌, sym, ap, ◌∙◌, Text, codes, Bool-cases, inl, inr, if_true, if_false, text_eq,
  if◌then◌else◌,
}
use agentforum.Widgets.Values.{Value, property, text_of, shown_text, is_nullish}
use agentforum.Widgets.Cells.{View, text_view, is_kind}
use agentforum.Widgets.Table.{has_kind, render_value}

unfoldable pub label_text : Value → Text
unfolding property text_of shown_text
label_text value =
    if is_nullish value
    then []
    else if has_kind value
    then if is_kind (codes "text") (property (codes "kind") value)
      then shown_text (property (codes "text") value)
      else []
    else text_of value

-- `navigation.activeItemId === item.id`
abbrev pub is_active : Value → Text → Bool
is_active active_item_id id = is_kind id active_item_id

-- What is shown of a view that is no node.
abbrev pub view_text : View → Text
view_text (text_view t) = t
view_text _ = []

-- A label that is no node has the text that the renderer shows for the same value.
pub label_text-render_value :
    (value : Value) → has_kind value ≡ false → label_text value ≡ view_text (render_value value)
unfolding label_text render_value
label_text-render_value value h = elim (Bool-cases (is_nullish value)) [
  | inl e ↦ if_true _ _ e ∙ sym (ap view_text (if_false _ _ h ∙ if_true _ _ e))
  | inr e ↦ if_false _ _ e ∙ if_false _ _ h ∙ sym (ap view_text (if_false _ _ h ∙ if_false _ _ e))
]
