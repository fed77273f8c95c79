-- ===== src/Widgets/Adapters/Total.antt =====
-- The adapters on properties of their interfaces.
use agentforum.Base.{
  true, not, ◌&&◌, Option, List, ◌≡◌, refl, Text, codes, and_left, and_right, text_eq,
}
use agentforum.Widgets.Cells.{is_kind}
use agentforum.Widgets.Values.{Value, Fields, field_of}
use agentforum.Widgets.Shapes.{Members, text_shape, optional_shape, list_of, has_members}
use agentforum.Widgets.Shapes.Props.{
  gap_props, section_block_props, strip_item, key_value_strip_props, panel_props, toned_props,
  labelled_props, segment_spec, breadcrumb_bar_props, tag_spec, tag_cloud_props,
}
use agentforum.Widgets.Adapters.{
  react_child, shown_if, is_truthy, Element, map_array, strip_entry, crumbs_of, tag_count,
  tag_label, panel_widget, section_block_widget, key_value_strip_widget, divider_widget, tag_widget,
  breadcrumb_bar_widget, tag_cloud_widget, stack_widget, inline_widget, text_widget, caption_widget,
}
use agentforum.Widgets.Adapters.Parts.{
  Renders, bind-Renders, text-Renders, shown-Renders, map_array-Renders, tag-Renders, label-Renders,
  crumbs_of-Renders, ShowsStrip, strip-Renders, section-Renders,
}

-- The client's own widgets, but for the table.
pub data OwnWidget : Type 0 where
  own_stack own_inline own_panel own_section own_strip own_text own_caption own_divider own_tag :
      OwnWidget
  own_breadcrumb own_cloud : OwnWidget

abbrev pub interface_of : OwnWidget → Members
interface_of own_stack = gap_props
interface_of own_inline = gap_props
interface_of own_panel = panel_props
interface_of own_section = section_block_props
interface_of own_strip = key_value_strip_props
interface_of own_text = toned_props
interface_of own_caption = toned_props
interface_of own_divider = labelled_props
interface_of own_tag = labelled_props
interface_of own_breadcrumb = breadcrumb_bar_props
interface_of own_cloud = tag_cloud_props

module _ {R : Type 0} (inherited : Text → Text) (string_of : R → Text)
    (render_node : Value → Option R) where
  abbrev pub adapter_of : OwnWidget → Fields → List R → Option (Element R)
  adapter_of own_stack = stack_widget inherited string_of render_node
  adapter_of own_inline = inline_widget inherited string_of render_node
  adapter_of own_panel = panel_widget inherited string_of render_node
  adapter_of own_section = section_block_widget inherited string_of render_node
  adapter_of own_strip = key_value_strip_widget inherited string_of render_node
  adapter_of own_text = text_widget inherited string_of render_node
  adapter_of own_caption = caption_widget inherited string_of render_node
  adapter_of own_divider = divider_widget inherited string_of render_node
  adapter_of own_tag = tag_widget inherited string_of render_node
  adapter_of own_breadcrumb = breadcrumb_bar_widget inherited string_of render_node
  adapter_of own_cloud = tag_cloud_widget inherited string_of render_node

  -- The nodes that an adapter itself asks the render context for are shown: the labels and the values of a strip.
  abbrev pub ShowsParts : OwnWidget → Fields → Type 0
  ShowsParts own_strip props = ShowsStrip render_node (field_of (codes "items") props)
  ShowsParts _ props = Unit

  -- The adapter of each of the client's own widgets but the table makes an element of properties that are of
  -- the widget's interface, and does not throw; that of a strip if the render context shows the label and the
  -- value of each item.
  pub adapter_of-Renders :
      (w : OwnWidget) (props : Fields) (nodes : List R)
      → has_members (interface_of w) props ≡ true
      → ShowsParts w props
      → Renders (adapter_of w props nodes)
  unfolding has_members panel_props section_block_props key_value_strip_props labelled_props
      breadcrumb_bar_props tag_cloud_props panel_widget section_block_widget key_value_strip_widget
      divider_widget tag_widget breadcrumb_bar_widget tag_cloud_widget stack_widget inline_widget
      text_widget caption_widget
  adapter_of-Renders own_stack props nodes h shows = (_, refl)
  adapter_of-Renders own_inline props nodes h shows = (_, refl)
  adapter_of-Renders own_text props nodes h shows = (_, refl)
  adapter_of-Renders own_caption props nodes h shows = (_, refl)
  adapter_of-Renders own_panel props nodes h shows =
      bind-Renders (shown_if (field_of (codes "title") props)) _
        (shown-Renders (field_of (codes "title") props)
          (and_left (optional_shape text_shape (field_of (codes "title") props)) _ h))
        (λ title. (_, refl))
  adapter_of-Renders own_section props nodes h shows =
      let label = field_of (codes "label") props in
      let below = field_of (codes "caption") props in
      section-Renders (is_kind (codes "Content") label && not (is_truthy below)) _ _ (
        bind-Renders (react_child label) _ (text-Renders label (and_left (text_shape label) _ h))
          (λ title.
            bind-Renders (shown_if below) _
              (shown-Renders below
                (and_left (optional_shape text_shape below) _ (and_right (text_shape label) _ h)))
              (λ b. (_, refl))))
  adapter_of-Renders own_strip props nodes h shows =
      bind-Renders (map_array (strip_entry render_node) (field_of (codes "items") props)) _
        (strip-Renders render_node (field_of (codes "items") props)
          (and_left (list_of strip_item (field_of (codes "items") props)) _ h) shows)
        (λ entries. (_, refl))
  adapter_of-Renders own_divider props nodes h shows =
      bind-Renders (shown_if (field_of (codes "label") props)) _
        (shown-Renders (field_of (codes "label") props)
          (and_left (optional_shape text_shape (field_of (codes "label") props)) _ h))
        (λ label. (_, refl))
  adapter_of-Renders own_tag props nodes h shows =
      bind-Renders (tag_label string_of (field_of (codes "label") props) nodes) _
        (label-Renders string_of (field_of (codes "label") props) nodes
          (and_left (optional_shape text_shape (field_of (codes "label") props)) _ h))
        (λ label. (_, refl))
  adapter_of-Renders own_breadcrumb props nodes h shows =
      bind-Renders (crumbs_of (field_of (codes "segments") props)) _
        (crumbs_of-Renders (field_of (codes "segments") props)
          (and_left (list_of segment_spec (field_of (codes "segments") props)) _ h))
        (λ parts. (_, refl))
  adapter_of-Renders own_cloud props nodes h shows =
      bind-Renders (map_array tag_count (field_of (codes "tags") props)) _
        (map_array-Renders tag_spec tag_count tag-Renders (field_of (codes "tags") props)
          (and_left (list_of tag_spec (field_of (codes "tags") props)) _ h))
        (λ tags. (_, refl))
