-- ===== src/Tests/Search.antt =====
-- The search bar and the search screen at concrete inputs.
use agentforum.Base.{
  List, Bool, not, to_decimal, if◌then◌else◌, Option, Text, some, trim, drop, ◌==◌, text_eq, true,
  false, none, [], ◌∷◌, ◌++◌, map, ◌≡◌, refl, inl, codes,
}
use agentforum.Search.Bar.{changed, searched, initial, change, run, bar_steps}
use agentforum.Search.Bar.Timers.{OneTimer, bar_steps-change}
use agentforum.Search.Filters.{
  SearchScreen, set_subforum, screen_step, edit_filters, answered, submitted_params,
}
use agentforum.Search.Filters.{edit_draft}
use agentforum.Search.Filters.Chosen.{chosen, click_types, is_odd, click_types-chosen}
use agentforum.Search.Hits.{empty_hit, hit_target, hits_text, excerpt}
use agentforum.Widgets.Encode.{encode_uri_component}
use agentforum.Ui.{Frame, initial_state, open_screen, handle_search}

empty_bar : OneTimer (initial [])
empty_bar = inl refl

bar_runs :
    (bar_steps false (initial []) (change (codes "a") ∷ change (codes "ab") ∷ run ∷ [])).1
    ≡ changed (codes "a") ∷ changed (codes "ab") ∷ searched (codes "ab") ∷ []
unfolding bar_steps
bar_runs = refl

bar_steps-change_example :
    (bar_steps false
      (initial [])
      (map change ((codes "a" ∷ []) ++ (codes "ab" ∷ [])) ++ (run ∷ []))).1
    ≡ map changed ((codes "a" ∷ []) ++ (codes "ab" ∷ [])) ++ (searched (codes "ab") ∷ [])
bar_steps-change_example =
    bar_steps-change false (initial []) (codes "a" ∷ []) (codes "ab") empty_bar

abbrev opened_screen : SearchScreen
opened_screen = record {
  text = codes "q";
  filters = record {
    text = [];
    entity_types = none;
    subforum = none;
    terms = none;
    created_after = none;
    limit = none;
  };
  filters_open = true;
  draft = record { terms = []; subforum = []; created_after = []; entity_types = [] };
}

draft_runs :
    ((screen_step opened_screen (edit_filters (set_subforum (codes "go")))).draft.subforum
      ≡ codes "go")
    × ((screen_step
          (screen_step opened_screen (edit_filters (set_subforum (codes "go"))))
          answered).draft.subforum
        ≡ [])
    × (submitted_params opened_screen ≡ (codes "q", codes "q") ∷ [])
unfolding screen_step submitted_params
draft_runs = (refl, refl, refl)

-- A router whose address has no other parameter, behind "/search?q=", and that decodes nothing.
abbrev plain_q : Text → Option Text
plain_q location = some (drop 10 location)

abbrev searching : Frame
searching = record { ui = initial_state; location = codes "/search"; screen = some opened_screen }

abbrev reading : Frame
reading = record { ui = initial_state; location = codes "/"; screen = none }

frame_runs :
    ((handle_search plain_q (codes "ab") reading).0.screen ≡ some (open_screen (some (codes "ab"))))
    × ((handle_search plain_q (codes "  ") reading).0.location ≡ codes "/")
    × ((handle_search plain_q (codes "  ") reading).0.ui.search_query ≡ codes "  ")
    × ((handle_search plain_q (0xD800 ∷ []) reading).1 ≡ true)
    × (encode_uri_component (codes "ab") ≡ some (codes "ab"))
    × ((trim (codes "ab") == []) ≡ false)
    × ((handle_search plain_q (codes "ab") searching).0.screen ≡ some opened_screen)
    × ((handle_search plain_q (codes "ab") searching).0.location ≡ codes "/search?q=ab")
unfolding handle_search trim encode_uri_component
frame_runs = (refl, refl, refl, refl, refl, refl, refl, refl)

-- Clicks on "post" and "thread" in two orders.
abbrev both_types : List Text
both_types = codes "post" ∷ codes "thread" ∷ []

abbrev other_way : List Text
other_way = codes "thread" ∷ codes "post" ∷ []

types_run :
    ((click_types both_types opened_screen.draft).entity_types ≡ codes "post" ∷ codes "thread" ∷ [])
    × ((click_types other_way opened_screen.draft).entity_types
        ≡ codes "thread" ∷ codes "post" ∷ [])
unfolding edit_draft
types_run = (refl, refl)

odds :
    (p t : Bool)
    → (if p then not (if t then true else false) else (if t then true else false))
      ≡ (if t then not (if p then true else false) else (if p then true else false))
odds true true = refl
odds true false = refl
odds false true = refl
odds false false = refl

same_odds : (u : Text) → is_odd u both_types ≡ is_odd u other_way
same_odds u = odds (u == codes "post") (u == codes "thread")

click_types-chosen_example :
    chosen (click_types both_types opened_screen.draft).entity_types
    ≡ chosen (click_types other_way opened_screen.draft).entity_types
click_types-chosen_example = click_types-chosen both_types other_way opened_screen.draft same_odds

hits_run :
    (hit_target empty_hit ≡ none)
    × (hits_text 1 ≡ codes "1 hit")
    × (hits_text 2 ≡ codes "2 hits")
    × (excerpt (codes "short") ≡ codes "short")
unfolding hit_target hits_text excerpt to_decimal
hits_run = (refl, refl, refl, refl)
