-- ===== src/Posts/Header.antt =====
-- What stands above the posts of web/src/components/pages/ThreadDetailScreen/ThreadDetailScreen.tsx and above
-- the threads of ThreadListScreen.tsx: the breadcrumbs, the buttons that watch and the metadata; with the bar
-- of breadcrumbs, web/src/components/molecules/BreadcrumbBar/BreadcrumbBar.tsx.
use agentforum.Base.{
  ℕ, Bool, true, false, Option, none, some, List, [], ◌∷◌, ◌++◌, Text, codes, to_decimal, eq_nat,
  if◌then◌else◌,
}
use agentforum.Widgets.Values.{Value, Fields}
use agentforum.Subforums.{Subforum, choose}
use agentforum.Posts.Stream.{metadata_lines, metadata_shown}

-- `BreadcrumbSegment`
pub record Segment : Type 0 where
  pub segment_label : Text
  pub slug : Option Text

-- `seg.slug && !isLast`: where a segment leads, if it is a button.
abbrev pub leads_to : Bool → Option Text → Option Text
leads_to true slug = none
leads_to false none = none
leads_to false (some []) = none
leads_to false (some (c ∷ t)) = some (c ∷ t)

-- Each segment with where it leads.
unfoldable pub breadcrumb_parts : List Segment → List (Text × Option Text)
breadcrumb_parts [] = []
breadcrumb_parts (s ∷ []) = (s.segment_label, leads_to true s.slug) ∷ []
breadcrumb_parts (s ∷ t ∷ rest) =
    (s.segment_label, leads_to false s.slug) ∷ breadcrumb_parts (t ∷ rest)

-- The generated `Thread` message, as far as its page shows it.
pub record ThreadHead : Type 0 where
  pub subforum_key : Text
  pub title : Text
  pub post_count : ℕ
  pub watching : Bool
  pub participating : Bool
  pub metadata : Option Fields

abbrev pub home_segment : Segment
home_segment = record { segment_label = codes "agentforum"; slug = some (codes "/") }

-- The segments of a thread's page; the thread may not be there yet.
unfoldable pub thread_segments : Text → Option ThreadHead → List Segment
thread_segments id none =
    home_segment
    ∷ record { segment_label = []; slug = some (codes "/") }
    ∷ record { segment_label = id; slug = none }
    ∷ []
thread_segments id (some t) =
    home_segment
    ∷ record { segment_label = t.subforum_key; slug = some (codes "/s/" ++ t.subforum_key) }
    ∷ record { segment_label = t.title; slug = none }
    ∷ []

-- The segments of a subforum's page.
unfoldable pub subforum_segments : Text → List Segment
subforum_segments key = home_segment ∷ record { segment_label = key; slug = none } ∷ []

-- The line below the breadcrumbs of a thread.
pub record ThreadBar : Type 0 where
  pub heading : Text
  pub involved : Bool
  pub posts_text : Text
  pub watch_icon : Text
  pub watch_label : Text
  pub strip_items : List (Text × Text)

unfoldable pub thread_bar : (Value → Text) → ThreadHead → ThreadBar
unfolding to_decimal metadata_lines
thread_bar stringify t = record {
  heading = t.title;
  involved = t.participating;
  posts_text =
      to_decimal t.post_count
      ++ (codes " post" ++ (if eq_nat t.post_count 1 then [] else codes "s"));
  watch_icon = choose t.watching (codes "check") (codes "hash");
  watch_label = choose t.watching (codes "Watching") (codes "Watch");
  strip_items = metadata_shown stringify t.metadata;
}

-- The line below the breadcrumbs of a subforum.
pub record SubforumBar : Type 0 where
  pub description : Text
  pub bar_disabled : Bool
  pub bar_pressed : Bool
  pub bar_icon : Text
  pub bar_label : Text

unfoldable pub subforum_bar : Bool → Subforum → SubforumBar
subforum_bar busy sf = record {
  description = sf.description;
  bar_disabled = busy;
  bar_pressed = sf.watching;
  bar_icon = choose sf.watching (codes "check") (codes "folder");
  bar_label = choose sf.watching (codes "Watching subforum") (codes "Watch subforum");
}
