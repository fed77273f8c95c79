-- ===== src/Tests/Subforums.antt =====
-- The subforums, their keys and their buttons at concrete inputs.
use agentforum.Base.{
  ◌≤◌, Bool, true, false, none, some, inl, List, [], ◌∷◌, ◌++◌, map, ◌≡◌, refl, Text, codes, All,
  length, trim, to_decimal, text_eq,
}
use agentforum.Widgets.Encode.{encode_uri_component}
use agentforum.Api.{query}
use agentforum.Api.Paths.{delimiters}
use agentforum.Subforums.{
  Subforum, subforum_target, stored_key, subforum_screen, no_subforums, loading_subforums,
  could_not_load, subforum_row, forum_sidebar, sidebar_entry, sidebar_empty, row_click,
  row_key_down, watch_button, row_itself, toggles, goes_to,
}
use agentforum.Subforums.Keys.{subforum_path, of_key, url_of, stored_key-address}
use agentforum.Subforums.Watching.{
  WatchStep, watch_clicked, watch_answered, rows_fetched, watch_steps, put_row, with_table,
  click_watch_thread,
}
use agentforum.Subforums.Watching.Alone.{IsAlone, watch_steps-IsAlone}
use agentforum.Subforums.Watching.Toggled.{at_rest, clicked_times, clicks-toggled}

shut : Unit {0}
unfolding stored_key watch_steps subforum_screen forum_sidebar to_decimal trim click_watch_thread
shut = tt

abbrev go : Subforum
go = record {
  key = codes "go";
  title = [];
  description = codes "All of Go";
  thread_count = 12;
  watching = false;
}

abbrev all_there : Text → Bool
all_there key = true

abbrev nothing_watched : Text → Bool
nothing_watched key = false

screens_run :
    (subforum_screen true false none false ≡ loading_subforums)
    × (subforum_screen false true none false ≡ could_not_load)
    × (subforum_screen false false none false ≡ no_subforums)
    × ((subforum_row true go).name ≡ codes "go")
    × ((subforum_row true go).count ≡ codes "12")
    × ((sidebar_entry (some (codes "go")) go).entry_active ≡ true)
    × (forum_sidebar false (some []) none ≡ sidebar_empty)
unfolding shut
screens_run = (refl, refl, refl, refl, refl, refl, refl)

keys_run :
    (stored_key trim (codes " go ") ≡ some (codes "go"))
    × (stored_key trim (codes "-go") ≡ none)
    × (stored_key trim (codes "a/b") ≡ none)
    × (stored_key trim [] ≡ none)
unfolding shut
keys_run = (refl, refl, refl, refl)

stored_key-address_example :
    (encode_uri_component (codes "go") ≡ some (codes "go"))
    × All (λ e. url_of (query none e) ≡ subforum_path e) (of_key (codes "go"))
    × (delimiters (subforum_target (codes "go")) ≡ codes "//")
stored_key-address_example = stored_key-address trim (codes " go ") (codes "go") none keys_run.0

abbrev clicked_twice : List WatchStep
clicked_twice = watch_clicked go ∷ watch_clicked go ∷ watch_answered false 0 ∷ rows_fetched ∷ []

watching_run :
    (length
        (watch_steps all_there
          (watch_clicked go ∷ watch_clicked go ∷ [])
          (at_rest (go ∷ []) nothing_watched)).flights
      ≡ 1)
    × ((watch_steps all_there clicked_twice (at_rest (go ∷ []) nothing_watched)).table (codes "go")
        ≡ true)
    × (length
          (click_watch_thread false
            (codes "t")
            (click_watch_thread false (codes "t") (at_rest [] nothing_watched))).flights
        ≡ 2)
unfolding shut
watching_run = (refl, refl, refl)

watch_steps-IsAlone_example :
    IsAlone (watch_steps all_there clicked_twice (at_rest (go ∷ []) nothing_watched))
    × (length (watch_steps all_there clicked_twice (at_rest (go ∷ []) nothing_watched)).flights ≤ 1)
watch_steps-IsAlone_example =
    watch_steps-IsAlone all_there clicked_twice (at_rest (go ∷ []) nothing_watched) (inl refl)

clicks-toggled_example :
    watch_steps all_there
      (clicked_times 2 go ++ (rows_fetched ∷ []))
      (at_rest (go ∷ []) nothing_watched)
    ≡ at_rest
        (map (with_table (put_row true (codes "go") nothing_watched)) (go ∷ []))
        (put_row true (codes "go") nothing_watched)
clicks-toggled_example = clicks-toggled all_there go (go ∷ []) refl 1 nothing_watched

-- Enter on the button goes where a click on it does not.
rows_run :
    (row_click false watch_button go ≡ toggles go ∷ [])
    × (row_key_down (codes "Enter") watch_button go ≡ goes_to (codes "/s/go") ∷ [])
    × (row_key_down (codes "Tab") row_itself go ≡ [])
unfolding row_click row_key_down
rows_run = (refl, refl, refl)
