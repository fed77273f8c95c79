-- ===== src/Tests/Tables.antt =====
-- The table of threads, the renderer and what follows an answer, at concrete inputs.
use agentforum.Base.{
  true, false, none, some, List, [], ◌∷◌, ◌++◌, ◌≡◌, refl, Text, codes, text_eq, to_decimal,
}
use agentforum.Widgets.Values.{null, bool, num, str, Fields, end, field, text_of, property}
use agentforum.Widgets.Encode.{encode_uri_component}
use agentforum.Widgets.Template.{interpolate}
use agentforum.Widgets.Paths.{lookup_context}
use agentforum.Widgets.Dispatch.{Browser}
use agentforum.Widgets.Cells.{
  Numbers, field_cell, number_cell, status_cell, link_cell, constant, text_view, status_view,
  inherited_class, link_view, nothing, render_cell, render_row_template,
}
use agentforum.Widgets.Table.{ThreadSummary, thread_row, thread_table, render_row, click_row}
use agentforum.Widgets.Dispatch.Opened.{Opens}
use agentforum.Widgets.Renderer.{
  WidgetNode, text_node, element_node, component_node, no_nodes, and_node, React,
  render_widget_node, widget_node_key, ToastRegion,
}
use agentforum.Widgets.Renderer.Keys.{key_given}
use agentforum.Widgets.Renderer.Toasts.{IsTimed, toasted, fired, toast_steps, toast_steps-IsTimed}
use agentforum.Widgets.Shell.{resolve_page_shell}

shut : Unit {0}
unfolding render_cell encode_uri_component text_of property interpolate lookup_context to_decimal
    render_row_template click_row render_row thread_table thread_row render_widget_node
    widget_node_key toast_steps resolve_page_shell
shut = tt

-- Numbers whose only format is their text; null is turned into 0.
abbrev numbers : Numbers
numbers = record {
  to_number = λ v. codes "0";
  is_finite = λ t. true;
  to_fixed = λ d t. t;
  to_rounded = λ t. t;
}

abbrev row : Fields
row =
    field (codes "n") null
      (field (codes "s") (str (codes "done")) (field (codes "o") (str (codes "toString")) end))

cells_run :
    (render_cell numbers (number_cell (codes "n") false none (some (codes "-"))) row none
      ≡ text_view (codes "0"))
    × (render_cell numbers (field_cell (codes "n") (some (codes "-"))) row none
        ≡ text_view (codes "-"))
    × (render_cell numbers (status_cell (codes "o") none) row none
        ≡ status_view (inherited_class (codes "toString")) (codes "toString"))
    × (render_cell numbers (link_cell (codes "s") (codes "x") (some (codes "_blank")) none) row none
        ≡ link_view
            (codes "done")
            (codes "done")
            (some (codes "_blank"))
            (some (codes "noreferrer")))
    × (render_cell numbers (constant (bool false)) row none ≡ nothing)
unfolding shut
cells_run = (refl, refl, refl, refl, refl)

-- A browser whose user says yes, and whose URLs are their own text.
abbrev browser : Browser
browser = record {
  confirmed = λ text. true;
  href = codes "/";
  Url = Text;
  parse_url = λ to base. some to;
  pathname = λ url. url;
  search = λ url. [];
  hash = λ url. [];
  with_search = λ pairs url. url;
  get_all = λ url key. [];
  params_text = λ pairs. [];
}

abbrev thread : ThreadSummary
thread = record {
  id = codes "a/b";
  title = codes "Hi";
  post_count = 3;
  participating = true;
  watching = false;
  updated_at = codes "2026-01-02T03:04:05Z";
}

encoded : encode_uri_component thread.id ≡ some (codes "a%2Fb")
unfolding shut
encoded = refl

opens : Opens browser (codes "/t/" ++ codes "a%2Fb")
opens = (codes "/t/a%2Fb", refl, refl)

-- A renderer that writes markup, whose registry knows no type.
abbrev markup : List (Text × Text) → Text
markup [] = []
markup ((key, html) ∷ children) = key ++ (codes "=" ++ (html ++ (codes ";" ++ markup children)))

abbrev writer : React Text
writer = record {
  text = λ t. t;
  create_element = λ tag attrs children. codes "<" ++ (tag ++ (codes ">" ++ markup children));
  null_node = [];
  unknown_widget = λ t. codes "?" ++ t;
}

abbrev tree : WidgetNode
tree = element_node (codes "p") end (
    and_node (text_node (codes "a")) (
      and_node (component_node (codes "Tag") end no_nodes) (
        and_node (component_node (codes "Tag") (field (codes "id") (num (codes "7")) end) no_nodes)
          no_nodes)))

renders : render_widget_node writer [] tree ≡ codes "<p>0=a;Tag-1=?Tag;7=?Tag;"
unfolding shut
renders = refl

no_key : key_given (component_node (codes "Tag") end no_nodes) ≡ none
unfolding shut
no_key = refl

abbrev no_toast : ToastRegion
no_toast = record { toast = none; timer = none; running = []; next = 1 }

timed : IsTimed no_toast
timed = record { its_timer = refl; has_timer = λ e. refl }

toasts_run :
    (toast_steps no_toast (
      toasted (some (codes "a")) none none
      ∷ toasted none (some (codes "b")) none
      ∷ fired 1
      ∷ [])).toast
    ≡ some (codes "b", none)
unfolding shut
toasts_run = refl

toast_steps-IsTimed_example : IsTimed (
    toast_steps no_toast
      (toasted (some (codes "a")) none none ∷ toasted none (some (codes "b")) none ∷ fired 1 ∷ []))
toast_steps-IsTimed_example =
    toast_steps-IsTimed no_toast
      (toasted (some (codes "a")) none none ∷ toasted none (some (codes "b")) none ∷ fired 1 ∷ [])
      timed
