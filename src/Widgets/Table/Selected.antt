-- ===== src/Widgets/Table/Selected.antt =====
-- The rows of a table.
use agentforum.Base.{
  ℕ, ◌≤◌, true, false, Option, none, some, List, [], ◌∷◌, map, keep, length, ◌≡◌, refl, arith, Text,
  contains, distinct, text_eq, contains-of-==,
}
use agentforum.Widgets.Values.{Fields}
use agentforum.Widgets.Cells.{Numbers, row_key}
use agentforum.Widgets.Table.{
  TableProps, RowView, render_row, render_table, is_selected, selected_of,
}

-- How many keys are the one selected.
abbrev matching : Option Text → List Text → ℕ
matching selected keys = length (keep (is_selected selected) keys)

matching-unseen :
    (key : Text) (keys : List Text) → contains key keys ≡ false → matching (some key) keys ≡ 0
matching-unseen key [] h = refl
matching-unseen key (k ∷ keys) h = ground (arith, matching-unseen key keys)

matching-none : (keys : List Text) → matching none keys ≡ 0
matching-none [] = refl
matching-none (k ∷ keys) = matching-none keys

matching-distinct :
    (key : Text) (keys : List Text) → distinct keys ≡ true → matching (some key) keys ≤ 1
matching-distinct key [] h = omega arith
matching-distinct key (k ∷ keys) h =
    ground (arith, matching-distinct key keys, matching-unseen key keys, contains-of-== k key keys)

matching-one :
    (selected : Option Text) (keys : List Text) → distinct keys ≡ true → matching selected keys ≤ 1
matching-one none keys h = omega (arith, matching-none keys)
matching-one (some key) keys h = matching-distinct key keys h

abbrev pub keys_of : TableProps → List Fields → List Text
keys_of props = map (λ row. row_key row props.get_row_key)

count-matching :
    (numbers : Numbers) (props : TableProps) (rows : List Fields)
    → length (keep (λ (r : RowView). r.selected) (map (render_row numbers props) rows))
      ≡ matching (selected_of props.selected_key) (keys_of props rows)
unfolding render_row
count-matching numbers props [] = refl
count-matching numbers props (row ∷ rows) = ground (arith, count-matching numbers props rows)

-- If the keys of a table's rows differ, at most one row is shown as selected.
pub render_table-selected :
    (numbers : Numbers) (props : TableProps)
    → distinct (keys_of props props.rows) ≡ true
    → length (keep (λ (r : RowView). r.selected) (render_table numbers props).body) ≤ 1
unfolding render_table
render_table-selected numbers props h = omega (
  arith,
  count-matching numbers props props.rows,
  matching-one (selected_of props.selected_key) (keys_of props props.rows) h,
)
