-- ===== src/Widgets/Shapes/Props.antt =====
-- web/src/widgets/ir/cells.ts and props.ts: the types of a table's columns and cells, and of the properties of
-- the widgets.
use agentforum.Base.{◌||◌, [], ◌∷◌, Text, codes}
use agentforum.Widgets.Shapes.{
  Shape, Members, text_shape, number_shape, bool_shape, null_shape, one_of, either_shape,
  optional_shape, list_of, has_members, object_of, json_object, widget_node, renderable_value,
  kind_with, action_spec,
}

-- `RowKeySpec`
unfoldable pub row_key_spec : Shape
unfolding has_members
row_key_spec v =
    text_shape v
    || object_of ((codes "field", text_shape) ∷ []) v
    || object_of ((codes "template", text_shape) ∷ []) v

abbrev pub tone_shape : Shape
tone_shape = one_of (codes "default" ∷ codes "muted" ∷ codes "danger" ∷ codes "success" ∷ [])

-- `CellSpec`
unfoldable pub cell_spec : Shape
unfolding has_members renderable_value action_spec
cell_spec v =
    kind_with (codes "field")
      ((codes "field", text_shape) ∷ (codes "fallback", optional_shape text_shape) ∷ []) v
    || kind_with (codes "number")
        ((codes "field", text_shape)
          ∷ (codes "format", optional_shape (one_of (codes "integer" ∷ codes "fixed" ∷ [])))
          ∷ (codes "digits", optional_shape number_shape)
          ∷ (codes "fallback", optional_shape text_shape)
          ∷ [])
        v
    || kind_with (codes "status")
        ((codes "field", text_shape)
          ∷ (codes "icon", optional_shape bool_shape)
          ∷ (codes "fallback", optional_shape text_shape)
          ∷ [])
        v
    || kind_with (codes "caption")
        ((codes "field", text_shape)
          ∷ (codes "tone", optional_shape tone_shape)
          ∷ (codes "fallback", optional_shape text_shape)
          ∷ [])
        v
    || kind_with (codes "template") ((codes "template", text_shape) ∷ []) v
    || kind_with (codes "link")
        ((codes "hrefField", text_shape)
          ∷ (codes "labelField", text_shape)
          ∷ (
            codes "target",
            optional_shape
                (one_of (codes "_blank" ∷ codes "_self" ∷ codes "_parent" ∷ codes "_top" ∷ [])),
          )
          ∷ (codes "fallbackLabel", optional_shape text_shape)
          ∷ [])
        v
    || kind_with (codes "actionButton")
        ((codes "label", renderable_value)
          ∷ (codes "action", action_spec)
          ∷ (codes "disabled", optional_shape bool_shape)
          ∷ [])
        v
    || kind_with (codes "constant") ((codes "value", renderable_value) ∷ []) v

-- `DataTableColumnSpec`
unfoldable pub column_spec : Shape
unfolding has_members renderable_value cell_spec action_spec
column_spec = object_of (
    (codes "id", text_shape)
    ∷ (codes "header", renderable_value)
    ∷ (codes "cell", cell_spec)
    ∷ (codes "align", optional_shape (one_of (codes "start" ∷ codes "end" ∷ codes "center" ∷ [])))
    ∷ (codes "maxWidth", optional_shape (either_shape number_shape text_shape))
    ∷ (codes "sortable", optional_shape bool_shape)
    ∷ (codes "sortDirection", optional_shape (one_of (codes "ascending" ∷ codes "descending" ∷ [])))
    ∷ (codes "onSort", optional_shape action_spec)
    ∷ [])

abbrev pub gap_shape : Shape
gap_shape = one_of (codes "none" ∷ codes "xs" ∷ codes "sm" ∷ codes "md" ∷ codes "lg" ∷ [])

-- The member `className` of every interface.
abbrev pub class_name : Text × Shape
class_name = (codes "className", optional_shape text_shape)

-- `StackWidgetProps` and `InlineWidgetProps`
unfoldable pub gap_props : Members
gap_props = (codes "gap", optional_shape gap_shape) ∷ class_name ∷ []

unfoldable pub section_block_props : Members
section_block_props =
    (codes "label", text_shape)
    ∷ (codes "caption", optional_shape text_shape)
    ∷ (codes "level", optional_shape number_shape)
    ∷ (codes "density", optional_shape (one_of (codes "flush" ∷ codes "comfortable" ∷ [])))
    ∷ (codes "rule", optional_shape bool_shape)
    ∷ (codes "anchor", optional_shape text_shape)
    ∷ class_name
    ∷ []

unfoldable pub data_table_props : Members
unfolding column_spec json_object row_key_spec action_spec
data_table_props =
    (codes "columns", list_of column_spec)
    ∷ (codes "rows", list_of json_object)
    ∷ (codes "getRowKey", row_key_spec)
    ∷ (codes "onRowSelect", optional_shape action_spec)
    ∷ (
      codes "selectedKey",
      optional_shape (either_shape text_shape (either_shape number_shape null_shape)),
    )
    ∷ (codes "emptyMessage", optional_shape text_shape)
    ∷ class_name
    ∷ []

-- `KeyValueStripItemSpec`
unfoldable pub strip_item : Shape
unfolding has_members widget_node
strip_item = object_of (
    (codes "key", optional_shape widget_node)
    ∷ (codes "label", widget_node)
    ∷ (codes "value", widget_node)
    ∷ [])

unfoldable pub key_value_strip_props : Members
unfolding strip_item
key_value_strip_props = (codes "items", list_of strip_item) ∷ class_name ∷ []

unfoldable pub panel_props : Members
panel_props =
    (codes "title", optional_shape text_shape)
    ∷ (
      codes "tone",
      optional_shape (
          one_of (
            codes "default"
            ∷ codes "success"
            ∷ codes "warning"
            ∷ codes "danger"
            ∷ codes "info"
            ∷ [])),
    )
    ∷ class_name
    ∷ []

-- `TextWidgetProps` and `CaptionWidgetProps`
unfoldable pub toned_props : Members
toned_props = (codes "tone", optional_shape tone_shape) ∷ class_name ∷ []

-- `TagWidgetProps` and `DividerWidgetProps`
unfoldable pub labelled_props : Members
labelled_props = (codes "label", optional_shape text_shape) ∷ class_name ∷ []

unfoldable pub segment_spec : Shape
unfolding has_members
segment_spec =
    object_of ((codes "label", text_shape) ∷ (codes "slug", optional_shape text_shape) ∷ [])

unfoldable pub breadcrumb_bar_props : Members
unfolding segment_spec action_spec
breadcrumb_bar_props =
    (codes "segments", list_of segment_spec)
    ∷ (codes "onSelect", optional_shape action_spec)
    ∷ class_name
    ∷ []

unfoldable pub tag_spec : Shape
unfolding has_members
tag_spec =
    either_shape text_shape
      (object_of ((codes "tag", text_shape) ∷ (codes "count", optional_shape number_shape) ∷ []))

unfoldable pub tag_cloud_props : Members
unfolding tag_spec action_spec
tag_cloud_props =
    (codes "tags", list_of tag_spec)
    ∷ (codes "onSelect", optional_shape action_spec)
    ∷ class_name
    ∷ []
