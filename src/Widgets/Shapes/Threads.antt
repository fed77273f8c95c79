-- ===== src/Widgets/Shapes/Threads.antt =====
-- The node that web/src/components/pages/ThreadListScreen/ThreadListScreen.tsx builds of a subforum's threads.
use agentforum.Base.{Bool, false, true, ◌&&◌, List, [], ◌∷◌, ◌≡◌, refl, Text, codes, ap, ◌∙◌}
use agentforum.Widgets.Values.{Value, str, arr, obj, Items, nil, cons, Fields, end, field, field_of}
use agentforum.Widgets.Table.{ThreadSummary, thread_row}
use agentforum.Widgets.Shapes.{
  has_members, json_value, json_items, json_object, node_head, widget_node, renderable_value,
  action_spec, action_of, all_items,
}
use agentforum.Widgets.Shapes.Props.{row_key_spec, cell_spec, column_spec, data_table_props}

abbrev pub row_items : List ThreadSummary → Items
row_items [] = nil
row_items (t ∷ ts) = cons (obj (thread_row t)) (row_items ts)

abbrev cell_of : Text → Text → Fields → Fields
cell_of kind name more = field (codes "kind") (str kind) (field (codes "field") (str name) more)

-- A column, with `align: "end"` or without an alignment.
abbrev column_fields : Text → Text → Bool → Fields → Value
column_fields id header true cell = obj (
    field (codes "id") (str id) (
      field (codes "header") (str header)
        (field (codes "align") (str (codes "end")) (field (codes "cell") (obj cell) end))))
column_fields id header false cell = obj (
    field (codes "id") (str id)
      (field (codes "header") (str header) (field (codes "cell") (obj cell) end)))

abbrev column_items : Items
column_items =
    cons
      (column_fields (codes "title") (codes "Thread") false
        (cell_of (codes "field") (codes "title") end))
      (cons
        (column_fields (codes "posts") (codes "Posts") true
          (cell_of (codes "field") (codes "postCount") end))
        (cons
          (column_fields (codes "flags") [] true
            (cell_of (codes "status") (codes "perspective") end))
          (cons
            (column_fields (codes "updated") (codes "Updated") true (
              cell_of (codes "caption") (codes "updatedAt")
                (field (codes "tone") (str (codes "muted")) end)))
            nil)))

abbrev row_select : Value
row_select = obj (
    field (codes "kind") (str (codes "navigate"))
      (field (codes "to") (str (codes "/t/${row.id}")) end))

-- The properties of the table of threads, and the node.
unfoldable pub thread_table_props : List ThreadSummary → Fields
unfolding thread_row
thread_table_props threads = field (codes "columns") (arr column_items) (
    field (codes "rows") (arr (row_items threads)) (
      field (codes "getRowKey") (str (codes "id")) (
        field (codes "emptyMessage") (str (codes "No threads in this subforum yet."))
          (field (codes "onRowSelect") row_select end))))

unfoldable pub thread_table_node : List ThreadSummary → Value
unfolding thread_table_props
thread_table_node threads = obj (
    field (codes "kind") (str (codes "component")) (
      field (codes "type") (str (codes "DataTable"))
        (field (codes "props") (obj (thread_table_props threads)) end)))

row-json : (t : ThreadSummary) → json_object (obj (thread_row t)) ≡ true
unfolding thread_row json_object json_value
row-json t = refl

rows-json : (threads : List ThreadSummary) → all_items json_object (row_items threads) ≡ true
rows-json [] = refl
rows-json (t ∷ ts) = ap (λ b. b && all_items json_object (row_items ts)) (row-json t) ∙ rows-json ts

columns-column_spec : all_items column_spec column_items ≡ true
unfolding column_spec cell_spec renderable_value has_members widget_node node_head field_of
columns-column_spec = refl

select-action_spec : action_spec row_select ≡ true
unfolding action_spec action_of has_members field_of
select-action_spec = refl

props-data_table_props :
    (threads : List ThreadSummary)
    → has_members data_table_props (thread_table_props threads) ≡ true
unfolding has_members data_table_props thread_table_props field_of row_key_spec
props-data_table_props threads = ap (λ b. b && true) (rows-json threads)

rows-json_items : (threads : List ThreadSummary) → json_items (row_items threads) ≡ true
unfolding json_value thread_row
rows-json_items [] = refl
rows-json_items (t ∷ ts) = rows-json_items ts

node-json_value : (threads : List ThreadSummary) → json_value (thread_table_node threads) ≡ true
unfolding json_value thread_table_node
node-json_value threads = ap (λ b. (b && true) && true) (rows-json_items threads)

node-widget_node : (threads : List ThreadSummary) → widget_node (thread_table_node threads) ≡ true
unfolding widget_node thread_table_node has_members node_head field_of
node-widget_node threads = refl

-- Whatever threads a subforum has, the node that its page builds is a widget node of plain JSON, with no
-- bigint and nothing undefined in it, and its properties are of the interface of tables, with the types of
-- the columns, the cells, the rows, the row key and the action.
pub thread_table_node-typed :
    (threads : List ThreadSummary)
    → (widget_node (thread_table_node threads) ≡ true)
      × (json_value (thread_table_node threads) ≡ true)
      × (has_members data_table_props (thread_table_props threads) ≡ true)
thread_table_node-typed threads =
    (node-widget_node threads, node-json_value threads, props-data_table_props threads)
