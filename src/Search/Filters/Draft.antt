-- ===== src/Search/Filters/Draft.antt =====
-- What the filters' dialog applies, keeps and loses.
use mathlib.Core.Option
use agentforum.Base.{
  true, false, not, ◌&&◌, List, [], ◌∷◌, ◌≡◌, refl, ap, ◌∙◌, arith, Text, trim, contains,
  contains-append, contains-of-==, keep, all, ◌==◌, ==_congr, ==_comm, text_eq, if◌then◌else◌,
  if_true,
}
use agentforum.Api.{ForumSearchInput, search}
use agentforum.Search.Filters.{
  FilterDraft, draft_of, toggle_entity, DraftEdit, edit_draft, is_filled_term, non_empty,
  apply_draft, SearchScreen, current_of, show_filters, screen_step, cancel, apply, edit_filters,
  answered, search_of,
}

contains-keep_others :
    (t u : Text) (types : List Text)
    → contains u (keep (λ v. not (v == t)) types) ≡ (contains u types && not (u == t))
contains-keep_others t u [] = refl
contains-keep_others t u (v ∷ types) =
    ground (arith, contains-keep_others t u types, ==_congr v u t)

-- Toggling an entity type changes whether it is chosen, and no other one.
pub contains-toggle_entity :
    (t u : Text) (types : List Text)
    → contains u (toggle_entity t types)
      ≡ (if u == t then not (contains t types) else contains u types)
unfolding toggle_entity
contains-toggle_entity t u types = ground (
  arith,
  contains-keep_others t u types,
  contains-append u types (t ∷ []),
  ==_comm t u,
  contains-of-== u t types,
)

keep-all : (ts : List (Text × Text)) → all is_filled_term ts ≡ true → keep is_filled_term ts ≡ ts
keep-all [] h = refl
keep-all (t ∷ ts) h = ground (arith, keep-all ts)

-- Whether the dialog's fields hold what applying would keep of them.
abbrev pub IsTidy : FilterDraft → Type 0
IsTidy d = (all is_filled_term d.terms ≡ true) × (trim d.created_after ≡ d.created_after)

non_empty-get_or : (t : Text) → Option.get_or (non_empty t) [] ≡ t
non_empty-get_or [] = refl
non_empty-get_or (c ∷ s) = refl

keep-filled : (ts : List (Text × Text)) → all is_filled_term (keep is_filled_term ts) ≡ true
keep-filled [] = refl
keep-filled (t ∷ ts) = ground (arith, keep-filled ts)

-- What is applied holds no term without a key or a value, and keeps the text; and a dialog that is opened
-- again shows the draft that was applied, if that was tidy.
pub apply_draft-draft_of :
    (current : ForumSearchInput) (d : FilterDraft)
    → (all is_filled_term (draft_of (apply_draft current d)).terms ≡ true)
      × ((apply_draft current d).text ≡ current.text)
      × (IsTidy d → draft_of (apply_draft current d) ≡ d)
unfolding apply_draft draft_of
apply_draft-draft_of current d = (
  keep-filled d.terms,
  refl,
  λ tidy. λ i. record {
    terms = keep-all d.terms tidy.0 i;
    subforum = d.subforum;
    created_after = (non_empty-get_or (trim d.created_after) ∙ tidy.1) i;
    entity_types = d.entity_types;
  },
)

-- While the dialog is open, an answer of the screen's query puts its fields back to the filters in force,
-- whatever the user has edited.
screen_step-answered :
    (s : SearchScreen) (e : DraftEdit)
    → s.filters_open ≡ true
    → (screen_step (screen_step s (edit_filters e)) answered).draft ≡ draft_of (current_of s)
unfolding screen_step show_filters current_of
screen_step-answered s e opened = ap (λ (t : SearchScreen). t.draft) (if_true _ _ opened)

-- Cancelling leaves the query as it was, and applying makes it that of the draft; both close the dialog.
pub screen_step_closes :
    (s : SearchScreen) (e : DraftEdit)
    → (search_of (screen_step (screen_step s (edit_filters e)) cancel) ≡ search_of s)
      × (search_of (screen_step (screen_step s (edit_filters e)) apply)
          ≡ search (apply_draft (current_of s) (edit_draft s.draft e)))
      × ((screen_step s apply).filters_open ≡ false)
      × ((screen_step s cancel).filters_open ≡ false)
unfolding screen_step show_filters search_of current_of apply_draft
screen_step_closes s e = (refl, refl, refl, refl)
