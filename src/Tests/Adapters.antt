-- ===== src/Tests/Adapters.antt =====
-- The types of nodes and the adapters of the client's own widgets at concrete inputs.
use agentforum.Base.{
  true, false, none, some, Option, [], ◌∷◌, ◌≡◌, refl, Text, codes, text_eq, if◌then◌else◌,
}
use agentforum.Widgets.Values.{
  Value, undefined, null, num, str, arr, obj, nil, cons, Fields, end, field, property,
}
use agentforum.Widgets.Shapes.{has_members, widget_node, json_value}
use agentforum.Widgets.Shapes.Props.{data_table_props, key_value_strip_props}
use agentforum.Widgets.Shapes.Threads.{
  thread_table_node, thread_table_props, thread_table_node-typed,
}
use agentforum.Widgets.Table.{ThreadSummary}
use agentforum.Widgets.Adapters.{
  react_child, strip, callout, breadcrumb, tag_cloud, plain_section, panel_widget,
  key_value_strip_widget, breadcrumb_bar_widget, tag_cloud_widget, section_block_widget,
}
use agentforum.Widgets.Adapters.Clicked.{click_tag, click_crumb, click_tag-search}
use agentforum.Widgets.Encode.{encode_uri_component}
use agentforum.Widgets.Adapters.Parts.{Renders}
use agentforum.Widgets.Adapters.Total.{
  interface_of, adapter_of, own_strip, ShowsParts, adapter_of-Renders,
}
use agentforum.Widgets.Dispatch.{Browser, pushed_state, popped_state, query_pairs}
use agentforum.Widgets.Dispatch.Pairs.{with_text, query_pairs-omit}
use agentforum.Widgets.Cells.{Numbers, is_kind}
use agentforum.Widgets.Table.{thread_table, thread_row, render_row, click_row}
use agentforum.EventStream.Ingest.{Event}
use agentforum.Inbox.{open_event}
use agentforum.Posts.{Post}
use agentforum.Search.Hits.{HitThread, thread_hit, post_hit, hit_target}
use agentforum.Ui.Addresses.{new_thread_id, thread_opened-alike}

shut : Unit {0}
unfolding panel_widget key_value_strip_widget breadcrumb_bar_widget tag_cloud_widget
    section_block_widget has_members widget_node json_value query_pairs new_thread_id
    key_value_strip_props
shut = tt

abbrev text_of_node : Text → Value
text_of_node t = obj (field (codes "kind") (str (codes "text")) (field (codes "text") (str t) end))

abbrev no_text : Text → Text
no_text t = []

-- A context that shows every value.
abbrev shows_all : Value → Option Text
shows_all v = some (codes "n")

abbrev strip_props : Fields
strip_props =
    field (codes "items")
      (arr (
        cons
          (obj (
            field (codes "label") (text_of_node (codes "l"))
              (field (codes "value") (text_of_node (codes "v")) end)))
          nil))
      end

abbrev crumb_props : Fields
crumb_props =
    field (codes "segments")
      (arr (
        cons
          (obj
            (field (codes "label") (str (codes "a")) (field (codes "slug") (str (codes "/")) end)))
          (cons
            (obj (
              field (codes "label") (str (codes "b"))
                (field (codes "slug") (str (codes "/b")) end)))
            nil)))
      end

adapters_run :
    (key_value_strip_widget no_text no_text shows_all strip_props []
      ≡ some (strip ((codes "0", codes "n", codes "n") ∷ []) undefined))
    × (key_value_strip_widget no_text no_text shows_all end [] ≡ none)
    × (breadcrumb_bar_widget no_text no_text shows_all crumb_props []
        ≡ some (
            breadcrumb
              (record { crumb_label = codes "a"; link = some (str (codes "/")) }
                ∷ record { crumb_label = codes "b"; link = none }
                ∷ [])
              undefined))
    × (tag_cloud_widget no_text no_text shows_all
          (field (codes "tags") (arr (cons (str (codes "go")) nil)) end)
          []
        ≡ some (tag_cloud ((str (codes "go"), num (codes "0")) ∷ []) undefined))
    × (panel_widget no_text no_text shows_all (field (codes "tone") (str (codes "odd")) end) []
        ≡ some (callout (codes "callout undefined ") none []))
    × (section_block_widget no_text no_text shows_all
          (field (codes "label") (str (codes "Content")) end)
          []
        ≡ some (plain_section undefined []))
unfolding shut
adapters_run = (refl, refl, refl, refl, refl, refl)

-- A context that shows the nodes of texts and throws for all else.
abbrev shows_texts : Value → Option Text
shows_texts v =
    if is_kind (codes "text") (property (codes "kind") v)
    then react_child (property (codes "text") v)
    else none

strip_typed : has_members (interface_of own_strip) strip_props ≡ true
unfolding shut
strip_typed = refl

strip_shown : ShowsParts no_text no_text shows_texts own_strip strip_props
unfolding shut property react_child
strip_shown = (((codes "l", refl), (codes "v", refl)), tt)

adapter_of-Renders_example :
    Renders (adapter_of no_text no_text shows_texts own_strip strip_props [])
adapter_of-Renders_example =
    adapter_of-Renders no_text no_text shows_texts own_strip strip_props [] strip_typed strip_shown

-- A thread of the server, in a list, as a hit, with a post and in the inbox.
abbrev thread : ThreadSummary
thread = record {
  id = codes "th_01ARZ";
  title = codes "Hi";
  post_count = 3;
  participating = true;
  watching = false;
  updated_at = codes "2026-01-02T03:04:05Z";
}

thread_table_node-typed_example :
    (widget_node (thread_table_node (thread ∷ [])) ≡ true)
    × (json_value (thread_table_node (thread ∷ [])) ≡ true)
    × (has_members data_table_props (thread_table_props (thread ∷ [])) ≡ true)
thread_table_node-typed_example = thread_table_node-typed (thread ∷ [])

abbrev hit : HitThread
hit = record {
  id = codes "th_01ARZ";
  subforum_key = codes "go";
  title = codes "Hi";
  post_count = 3;
  created_at = [];
}

abbrev its_post : Post
its_post = record {
  id = codes "po_1";
  thread_id = codes "th_01ARZ";
  author_id = codes "a1";
  author_name = [];
  body = [];
  reply_to = [];
  created_at = [];
}

abbrev its_event : Event
its_event = record {
  sequence = 3;
  event_type = 2;
  reason = 1;
  actor_id = codes "a1";
  actor_name = [];
  thread_id = codes "th_01ARZ";
  thread_title = codes "Hi";
  subforum_key = codes "go";
  created_at = [];
}

-- A browser whose URLs are their own text.
abbrev browser : Browser
browser = record {
  confirmed = λ text. true;
  href = codes "/";
  Url = Text;
  parse_url = λ to base. some to;
  pathname = λ url. url;
  search = λ url. [];
  hash = λ url. [];
  with_search = λ pairs url. url;
  get_all = λ url key. [];
  params_text = λ pairs. [];
}

abbrev numbers : Numbers
numbers = record {
  to_number = λ v. codes "0";
  is_finite = λ t. true;
  to_fixed = λ d t. t;
  to_rounded = λ t. t;
}

its_id : codes "th_01ARZ" ≡ new_thread_id (codes "01ARZ")
unfolding shut
its_id = refl

thread_opened-alike_example :
    (click_row browser (render_row numbers (thread_table (thread ∷ [])) (thread_row thread))
      ≡ pushed_state end (codes "/t/th_01ARZ") ∷ popped_state ∷ [])
    × (hit_target (thread_hit hit) ≡ some (codes "/t/th_01ARZ"))
    × (hit_target (post_hit its_post) ≡ some (codes "/t/th_01ARZ"))
    × (open_event its_event ≡ codes "/t/th_01ARZ")
thread_opened-alike_example =
    thread_opened-alike browser numbers (thread ∷ []) (codes "01ARZ") thread hit its_post its_event
      refl its_id refl refl refl (codes "/t/th_01ARZ", refl, refl)

-- A query with an empty value between two others.
abbrev its_query : Fields
its_query = field (codes "a") (str (codes "1")) (
    field (codes "b") (str [])
      (field (codes "c") (arr (cons null (cons (str (codes "2")) nil))) end))

pairs_run :
    (query_pairs true its_query end ≡ some ((codes "a", codes "1") ∷ (codes "c", codes "2") ∷ []))
    × (query_pairs false its_query end
        ≡ some (
            (codes "a", codes "1")
            ∷ (codes "b", [])
            ∷ (codes "c", [])
            ∷ (codes "c", codes "2")
            ∷ []))
unfolding shut
pairs_run = (refl, refl)

query_pairs-omit_example :
    with_text (query_pairs true its_query end) ≡ with_text (query_pairs false its_query end)
query_pairs-omit_example = query_pairs-omit its_query end

hash_tag : encode_uri_component (codes "a/$b") ≡ some (codes "a%2F%24b")
unfolding shut encode_uri_component
hash_tag = refl

click_tag-search_example :
    click_tag browser none (codes "a/$b")
    ≡ pushed_state end (codes "/search?q=%23a%2F%24b") ∷ popped_state ∷ []
click_tag-search_example =
    click_tag-search browser (codes "a/$b") (codes "a%2F%24b") hash_tag
      (codes "/search?q=%23a%2F%24b", refl, refl)

crumb_run : click_crumb browser none (codes "/") ≡ []
unfolding click_crumb
crumb_run = refl
