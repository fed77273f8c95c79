-- ===== src/Widgets/Table.antt =====
-- web/src/components/molecules/DataTable: the table, and the adapter that makes it of a widget's
-- properties. web/src/components/pages/ThreadListScreen/ThreadListScreen.tsx is the widget of a
-- subforum's threads.
pub mod Selected
pub mod Threads
use mathlib.Core.Option
use agentforum.Base.{
  ℕ, Bool, true, false, not, ◌&&◌, Option, none, some, List, [], ◌∷◌, ◌++◌, map, length, eq_nat,
  Text, codes, take, to_decimal, ◌==◌, text_eq, if◌then◌else◌,
}
use agentforum.Widgets.Values.{
  Value, undefined, null, bool, num, str, other, arr, obj, Fields, end, field, is_nullish, text_of,
}
use agentforum.Widgets.Payload.{has_field}
use agentforum.Widgets.Dispatch.{
  Action, NavigateAction, navigate, Browser, Effect, dispatch_widget_action,
}
use agentforum.Widgets.Dispatch.Opened.{plain_navigation}
use agentforum.Widgets.Cells.{
  Numbers, RowKeySpec, path_key, CaptionTone, muted, CellSpec, field_cell, status_cell,
  caption_cell, View, nothing, text_view, node_view, row_key, render_cell,
}

pub data Align : Type 0 where
  start center end_side : Align

pub record Column : Type 0 where
  pub id : Text
  pub header : Value
  pub align : Option Align
  pub cell : CellSpec

pub record TableProps : Type 0 where
  pub columns : List Column
  pub rows : List Fields
  pub get_row_key : RowKeySpec
  pub on_row_select : Option Action
  pub selected_key : Value
  pub empty_message : Option Text

-- A row of the table, with what a click on it dispatches.
pub record RowView : Type 0 where
  pub key : Text
  pub selected : Bool
  pub cells : List View
  pub on_click : Option (Action × Fields)

pub record TableView : Type 0 where
  pub headers : List View
  -- the message of a table without rows, over all columns
  pub empty : Option (Text × ℕ)
  pub body : List RowView

-- web/src/widgets/WidgetRenderer.tsx `renderRenderableValue`
abbrev pub has_kind : Value → Bool
has_kind (obj fields) = has_field (codes "kind") fields
has_kind _ = false

unfoldable pub render_value : Value → View
unfolding text_of
render_value value =
    if has_kind value
    then node_view value
    else if is_nullish value
    then nothing
    else text_view (text_of value)

-- `selectedKey`, as text
abbrev pub selected_of : Value → Option Text
selected_of value = if is_nullish value then none else some (text_of value)

abbrev pub is_selected : Option Text → Text → Bool
is_selected none key = false
is_selected (some selected) key = key == selected

abbrev pub select_context : Fields → RowKeySpec → Fields
select_context row keys = field (codes "row") (obj row) (
    field (codes "rowKey") (str (row_key row keys))
      (field (codes "componentType") (str (codes "DataTable")) end))

unfoldable pub render_row : Numbers → TableProps → Fields → RowView
unfolding row_key render_cell text_of
render_row numbers props row = record {
  key = row_key row props.get_row_key;
  selected = is_selected (selected_of props.selected_key) (row_key row props.get_row_key);
  cells = map (λ c. render_cell numbers c.cell row (some props.get_row_key)) props.columns;
  on_click = Option.map (λ a. (a, select_context row props.get_row_key)) props.on_row_select;
}

abbrev pub empty_of : TableProps → Option (Text × ℕ)
empty_of props =
    if eq_nat (length props.rows) 0
    then some (Option.get_or props.empty_message (codes "No entries"), length props.columns)
    else none

unfoldable pub render_table : Numbers → TableProps → TableView
unfolding render_value render_row
render_table numbers props = record {
  headers = map (λ c. render_value c.header) props.columns;
  empty = empty_of props;
  body = map (render_row numbers props) props.rows;
}

-- A click on a row, in a renderer without a handler of its own.
unfoldable pub click_row : Browser → RowView → List Effect
unfolding dispatch_widget_action
click_row browser row = elim row.on_click [
  | none ↦ []
  | some (action, context) ↦ dispatch_widget_action browser false action context
]

-- What the server tells of a thread, as far as the list shows it.
pub record ThreadSummary : Type 0 where
  pub id : Text
  pub title : Text
  pub post_count : ℕ
  pub participating : Bool
  pub watching : Bool
  pub updated_at : Text

abbrev pub perspective : Bool → Bool → Text
perspective true true = codes "done"
perspective true false = codes "involved"
perspective false true = codes "published"
perspective false false = []

-- `.replace("T", " ")`
abbrev pub space_for_t : Text → Text
space_for_t [] = []
space_for_t (c ∷ s) = let rest = space_for_t s in if eq_nat c b'T' then b' ' ∷ s else c ∷ rest

unfoldable pub thread_row : ThreadSummary → Fields
unfolding to_decimal
thread_row t = field (codes "id") (str t.id) (
    field (codes "title") (str t.title) (
      field (codes "postCount") (str (to_decimal t.post_count)) (
        field (codes "perspective") (str (perspective t.participating t.watching))
          (field (codes "updatedAt") (str (space_for_t (take 16 t.updated_at))) end))))

abbrev pub thread_columns : List Column
thread_columns =
    record {
      id = codes "title";
      header = str (codes "Thread");
      align = none;
      cell = field_cell (codes "title") none;
    }
    ∷ record {
      id = codes "posts";
      header = str (codes "Posts");
      align = some end_side;
      cell = field_cell (codes "postCount") none;
    }
    ∷ record {
      id = codes "flags";
      header = str [];
      align = some end_side;
      cell = status_cell (codes "perspective") none;
    }
    ∷ record {
      id = codes "updated";
      header = str (codes "Updated");
      align = some end_side;
      cell = caption_cell (codes "updatedAt") (some muted) none;
    }
    ∷ []

abbrev pub thread_navigation : NavigateAction
thread_navigation = plain_navigation (codes "/t/${row.id}")

abbrev pub thread_action : Action
thread_action = record { confirm = none; spec = navigate thread_navigation }

unfoldable pub thread_table : List ThreadSummary → TableProps
unfolding thread_row
thread_table threads = record {
  columns = thread_columns;
  rows = map thread_row threads;
  get_row_key = path_key (codes "id");
  on_row_select = some thread_action;
  selected_key = undefined;
  empty_message = some (codes "No threads in this subforum yet.");
}
