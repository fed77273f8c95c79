-- ===== src/Widgets/Table/Threads.antt =====
-- The widget of a subforum's threads.
use mathlib.Core.Option
use agentforum.Base.{
  Bool, true, false, Option, none, some, ◌>>=◌, List, [], ◌∷◌, ◌++◌, map, ◌≡◌, refl, ap, ◌∙◌,
  append-nil, Text, codes, take, to_decimal,
}
use agentforum.Widgets.Values.{property, text_of, Value, obj, end, shown_text}
use agentforum.Widgets.Paths.{lookup_context, walk, parts_of}
use agentforum.Widgets.Encode.{encode_uri_component}
use agentforum.Widgets.Template.{unit, braced, pieces, fill_all, fill, value_at, interpolate}
use agentforum.Widgets.Dispatch.{Browser, pushed_state, popped_state}
use agentforum.Widgets.Dispatch.Opened.{Opens, dispatch-plain}
use agentforum.Widgets.Cells.{
  Numbers, View, text_view, status_view, caption_view, find_tone, status_tones, caption_tones,
  muted, row_key, path_key, render_cell,
}
use agentforum.Widgets.Table.{
  RowView, ThreadSummary, thread_row, thread_table, render_row, render_table, click_row,
  select_context, perspective, space_for_t,
}

row_key-thread_row : (t : ThreadSummary) → row_key (thread_row t) (path_key (codes "id")) ≡ t.id
unfolding row_key thread_row walk parts_of property text_of
row_key-thread_row t = refl

-- The cells of a thread's row: its title, the number of its posts, the agent's part in it, and the minute
-- of its last change.
abbrev pub thread_cells : ThreadSummary → List View
thread_cells t =
    text_view t.title
    ∷ text_view (to_decimal t.post_count)
    ∷ status_view (find_tone (perspective t.participating t.watching) status_tones)
        (perspective t.participating t.watching)
    ∷ caption_view (caption_tones muted) (space_for_t (take 16 t.updated_at))
    ∷ []

abbrev thread_context : ThreadSummary → Value
thread_context t = obj (select_context (thread_row t) (path_key (codes "id")))

row_id :
    (t : ThreadSummary) → shown_text (lookup_context (codes "row.id") (thread_context t)) ≡ t.id
unfolding shown_text thread_row lookup_context walk parts_of property text_of
row_id t = refl

template_pieces :
    pieces (codes "/t/${row.id}") ≡ unit b'/' ∷ unit b't' ∷ unit b'/' ∷ braced (codes "row.id") ∷ []
unfolding pieces
template_pieces = refl

join_place :
    (o : Option Text)
    → ((((o >>= (λ text. some (text ++ []))) >>= (λ more. some (b'/' ∷ more)))
          >>= (λ more. some (b't' ∷ more)))
        >>= (λ more. some (b'/' ∷ more)))
      ≡ Option.map (◌++◌ (codes "/t/")) o
join_place none = refl
join_place (some text) = ap (λ t. some (codes "/t/" ++ t)) (append-nil text)

interpolate_place :
    (context : Value) (path : Text)
    → fill_all true context (unit b'/' ∷ unit b't' ∷ unit b'/' ∷ braced path ∷ [])
      ≡ Option.map
          (◌++◌ (codes "/t/"))
          (encode_uri_component (shown_text (lookup_context path context)))
unfolding fill_all fill value_at
interpolate_place context path =
    join_place (encode_uri_component (shown_text (lookup_context path context)))

interpolate-thread :
    (t : ThreadSummary)
    → interpolate true (codes "/t/${row.id}") (thread_context t)
      ≡ Option.map (◌++◌ (codes "/t/")) (encode_uri_component t.id)
unfolding interpolate
interpolate-thread t =
    ap (fill_all true (thread_context t)) template_pieces
    ∙ interpolate_place (thread_context t) (codes "row.id")
    ∙ ap (λ id. Option.map (◌++◌ (codes "/t/")) (encode_uri_component id)) (row_id t)

-- A click on a thread pushes the address of its page, with its id encoded, and tells the router, if the
-- id can be encoded and the browser resolves that address to itself.
pub click_row-thread :
    (browser : Browser) (numbers : Numbers) (threads : List ThreadSummary) (t : ThreadSummary)
    (id : Text)
    → encode_uri_component t.id ≡ some id
    → Opens browser (codes "/t/" ++ id)
    → click_row browser (render_row numbers (thread_table threads) (thread_row t))
      ≡ pushed_state end (codes "/t/" ++ id) ∷ popped_state ∷ []
unfolding click_row render_row thread_table
click_row-thread browser numbers threads t id h opens =
    dispatch-plain browser (codes "/t/${row.id}") (codes "/t/" ++ id)
      (select_context (thread_row t) (path_key (codes "id")))
      (interpolate-thread t ∙ ap (Option.map (◌++◌ (codes "/t/"))) h) opens

-- What is compared of a row: its key, whether it is selected, and its cells.
abbrev pub row_summary : RowView → Text × Bool × List View
row_summary r = (r.key, r.selected, r.cells)

abbrev pub thread_summary : ThreadSummary → Text × Bool × List View
thread_summary t = (t.id, false, thread_cells t)

render_row-thread :
    (numbers : Numbers) (threads : List ThreadSummary) (t : ThreadSummary)
    → row_summary (render_row numbers (thread_table threads) (thread_row t)) ≡ thread_summary t
unfolding render_row render_cell row_key thread_row thread_table walk parts_of property text_of
render_row-thread numbers threads t = refl

render_rows-threads :
    (numbers : Numbers) (threads ts : List ThreadSummary)
    → map row_summary (map (render_row numbers (thread_table threads)) (map thread_row ts))
      ≡ map thread_summary ts
render_rows-threads numbers threads [] = refl
render_rows-threads numbers threads (t ∷ ts) =
    λ i. render_row-thread numbers threads t i ∷ render_rows-threads numbers threads ts i

-- The table of a subforum's threads has one row for each thread, in their order, under its id and not
-- selected: its title, the number of its posts, the agent's part in it, and the minute of its last change.
pub render_table-threads :
    (numbers : Numbers) (threads : List ThreadSummary)
    → map row_summary (render_table numbers (thread_table threads)).body
      ≡ map thread_summary threads
unfolding render_table thread_table
render_table-threads numbers threads = render_rows-threads numbers threads threads
