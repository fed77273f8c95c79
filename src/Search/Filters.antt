-- ===== src/Search/Filters.antt =====
-- web/src/components/molecules/MetadataFilterPanel/MetadataFilterPanel.tsx: the dialog of filters, and
-- web/src/components/pages/SearchScreen/SearchScreen.tsx, which holds what it applies.
pub mod Draft
pub mod Chosen
use mathlib.Core.Option
use agentforum.Base.{
  ℕ, zero, suc, Bool, true, false, not, ◌&&◌, Option, none, some, List, [], ◌∷◌, ◌++◌, Text, trim,
  contains, keep, starts_with, codes, ◌==◌, text_eq, if◌then◌else◌,
}
use agentforum.Api.{ForumSearchInput, Endpoint, search}

pub record FilterDraft : Type 0 where
  pub terms : List (Text × Text)
  pub subforum : Text
  pub created_after : Text
  pub entity_types : List Text

-- The state that the filters in force give: at first, and in the effect on `[open, current]`.
unfoldable pub draft_of : ForumSearchInput → FilterDraft
draft_of current = record {
  terms = Option.get_or current.terms [];
  subforum = Option.get_or current.subforum [];
  created_after = Option.get_or current.created_after [];
  entity_types = Option.get_or current.entity_types [];
}

unfoldable pub toggle_entity : Text → List Text → List Text
toggle_entity t types =
    if contains t types then keep (λ u. not (u == t)) types else types ++ (t ∷ [])

-- What the rows of terms do; a row that is not there changes nothing.
abbrev pub update_row : ℕ → (Text × Text → Text × Text) → List (Text × Text) → List (Text × Text)
update_row i f [] = []
update_row zero f (t ∷ ts) = f t ∷ ts
update_row (suc i) f (t ∷ ts) = t ∷ update_row i f ts

abbrev pub remove_row : ℕ → List (Text × Text) → List (Text × Text)
remove_row i [] = []
remove_row zero (t ∷ ts) = ts
remove_row (suc i) (t ∷ ts) = t ∷ remove_row i ts

pub data DraftEdit : Type 0 where
  set_subforum set_created_after toggle : Text → DraftEdit
  set_key set_value : ℕ → Text → DraftEdit
  remove_term : ℕ → DraftEdit
  add_term : DraftEdit

unfoldable pub edit_draft : FilterDraft → DraftEdit → FilterDraft
unfolding toggle_entity
edit_draft d (set_subforum key) = record d { subforum = key }
edit_draft d (set_created_after time) = record d { created_after = time }
edit_draft d (toggle t) = record d { entity_types = toggle_entity t d.entity_types }
edit_draft d (set_key i key) = record d { terms = update_row i (λ t. (key, t.1)) d.terms }
edit_draft d (set_value i value) = record d { terms = update_row i (λ t. (t.0, value)) d.terms }
edit_draft d (remove_term i) = record d { terms = remove_row i d.terms }
edit_draft d add_term = record d { terms = d.terms ++ (([], []) ∷ []) }

abbrev pub is_filled_term : Text × Text → Bool
is_filled_term t = not (trim t.0 == []) && not (trim t.1 == [])

-- `text || undefined`
abbrev pub non_empty : Text → Option Text
non_empty [] = none
non_empty (c ∷ s) = some (c ∷ s)

-- What "Apply" hands on.
unfoldable pub apply_draft : ForumSearchInput → FilterDraft → ForumSearchInput
unfolding trim
apply_draft current d = record current {
  subforum = some d.subforum;
  terms = some (keep is_filled_term d.terms);
  created_after = non_empty (trim d.created_after);
  entity_types = some d.entity_types;
}

-- The state of the screen with that of its dialog.
pub record SearchScreen : Type 0 where
  pub text : Text
  pub filters : ForumSearchInput
  pub filters_open : Bool
  pub draft : FilterDraft

-- `{ ...filters, text }`: the query's argument, and the dialog's `current`, a new object at every
-- rendering of the screen.
unfoldable pub current_of : SearchScreen → ForumSearchInput
current_of s = record s.filters { text = s.text }

pub data ScreenEvent : Type 0 where
  type_text : Text → ScreenEvent
  open_filters cancel apply : ScreenEvent
  edit_filters : DraftEdit → ScreenEvent
  -- the screen is rendered again, since its query has gone on
  answered : ScreenEvent

-- The effect of the dialog behind a rendering of the screen, whose `current` is always new.
unfoldable pub show_filters : SearchScreen → SearchScreen
unfolding draft_of current_of
show_filters s = if s.filters_open then record s { draft = draft_of (current_of s) } else s

-- An edit renders the dialog alone; all else renders the screen.
unfoldable pub screen_step : SearchScreen → ScreenEvent → SearchScreen
unfolding show_filters edit_draft apply_draft current_of
screen_step s (type_text text) = show_filters (record s { text = text })
screen_step s open_filters = show_filters (record s { filters_open = true })
screen_step s cancel = show_filters (record s { filters_open = false })
screen_step s apply =
    show_filters (record s { filters = apply_draft (current_of s) s.draft; filters_open = false })
screen_step s (edit_filters e) = record s { draft = edit_draft s.draft e }
screen_step s answered = show_filters s

-- The request of the screen's query.
unfoldable pub search_of : SearchScreen → Endpoint
unfolding current_of
search_of s = search (current_of s)

-- The parameters of the address that a submitted text is put into.
unfoldable pub submitted_params : SearchScreen → List (Text × Text)
submitted_params s = if s.text == [] then [] else (codes "q", s.text) ∷ []
