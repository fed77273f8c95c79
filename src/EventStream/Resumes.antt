-- ===== src/EventStream/Resumes.antt =====
-- The cursor: it only grows, and the stored text always brings it back.
use mathlib.Core.Option
use agentforum.Base.{
  ℕ, ◌≤◌, false, Option, some, List, [], ◌++◌, append-nil, append_assoc, ◌≡◌, refl, sym, ap, ◌∙◌,
  arith, Text, ltb, ◌==◌, ==_refl, text_eq, to_decimal, of_decimal-to_decimal, either_branch,
}
use agentforum.Storage.{Storage, get_item, set_item}
use agentforum.Storage.Laws.{get_item-set_item}
use agentforum.Session.Token.{token_key}
use agentforum.EventStream.Ingest.{
  Event, PollEventsResponse, EventStream, cursor_key, stored_cursor, hydrate, fresh, advance,
  ingest,
}
use agentforum.EventStream.Reader.{Attempt}
use agentforum.EventStream.Loop.{loop}
use agentforum.EventStream.Kept.{loop-Holds}

-- The cursor is the one that the stored text stands for.
abbrev pub Resumes : Text → ℕ → Storage → Type 0
Resumes agent_id cursor storage =
    stored_cursor (get_item (cursor_key agent_id) storage) ≡ some cursor

abbrev advanced : Text → ℕ → Storage → Storage
advanced agent_id next storage = set_item (cursor_key agent_id) (to_decimal next) storage

-- A number that is written to the slot is read back.
stored_cursor-advanced :
    (agent_id : Text) (next : ℕ) (storage : Storage)
    → Resumes agent_id next (advanced agent_id next storage)
unfolding stored_cursor
stored_cursor-advanced agent_id next storage =
    let key = cursor_key agent_id in
    let read : get_item key (advanced agent_id next storage) ≡ some (to_decimal next) =
      get_item-set_item key key (to_decimal next) storage ∙ rw (==_refl key) in
    ap stored_cursor read ∙ of_decimal-to_decimal next

ingest-Resumes :
    (agent_id : Text) (body : PollEventsResponse) (s : EventStream)
    → Resumes agent_id s.cursor s.storage
    → Resumes agent_id (ingest agent_id body s).cursor (ingest agent_id body s).storage
unfolding ingest advance
ingest-Resumes agent_id body s h =
    either_branch (λ (t : EventStream). Resumes agent_id t.cursor t.storage)
      (ltb s.cursor body.next_cursor) (stored_cursor-advanced agent_id body.next_cursor s.storage) h

ingest-cursor-le :
    (agent_id : Text) (body : PollEventsResponse) (s : EventStream)
    → s.cursor ≤ (ingest agent_id body s).cursor
unfolding ingest advance
ingest-cursor-le agent_id body s = ground arith

pub ingest-events :
    (agent_id : Text) (body : PollEventsResponse) (s : EventStream)
    → (ingest agent_id body s).events ≡ s.events ++ fresh s.shown body.events
unfolding ingest advance
ingest-events agent_id body s =
    either_branch (λ (t : EventStream). t.events ≡ s.events ++ fresh s.shown body.events)
      (ltb s.cursor body.next_cursor) refl refl

ingest-get_item :
    (agent_id : Text) (body : PollEventsResponse) (s : EventStream) (key : Text)
    → (cursor_key agent_id == key) ≡ false
    → get_item key (ingest agent_id body s).storage ≡ get_item key s.storage
unfolding ingest advance
ingest-get_item agent_id body s key ne =
    either_branch (λ (t : EventStream). get_item key t.storage ≡ get_item key s.storage)
      (ltb s.cursor body.next_cursor)
      (get_item-set_item (cursor_key agent_id) key (to_decimal body.next_cursor) s.storage ∙ rw ne)
      refl

cursor_key-ne-token_key : (agent_id : Text) → (cursor_key agent_id == token_key) ≡ false
unfolding cursor_key
cursor_key-ne-token_key agent_id = refl

-- The second list is the first with more behind it.
abbrev pub ListExtends : List Event → List Event → Type 0
ListExtends before after = (more : List Event) × (after ≡ before ++ more)

ListExtends-ingest :
    (agent_id : Text) (body : PollEventsResponse) (before : List Event) (s : EventStream)
    → ListExtends before s.events
    → ListExtends before (ingest agent_id body s).events
ListExtends-ingest agent_id body before s (more, e) =
    let new = fresh s.shown body.events in
    (more ++ new, ingest-events agent_id body s ∙ rw (e, append_assoc before more new))

module _ (decode : Text → Option PollEventsResponse) (agent_id : Text) where
  -- Whatever the connections bring, the cursor stays the one that the stored text stands for: an
  -- effect that starts anew takes the cursor up where the last one left it, with no events.
  pub hydrate-loop :
      (attempts : List Attempt) (s : EventStream)
      → Resumes agent_id s.cursor s.storage
      → hydrate agent_id (loop decode agent_id attempts s).0
        ≡ some (record (loop decode agent_id attempts s).0 { events = [] })
  unfolding hydrate
  hydrate-loop attempts s h =
      let s' = (loop decode agent_id attempts s).0 in
      ap (Option.map (λ c. record s' { cursor = c; events = [] })) (
        loop-Holds decode agent_id (λ _ c storage. Resumes agent_id c storage)
          (ingest-Resumes agent_id) attempts s h)

  -- Whatever the connections bring, the cursor never falls, the events of the list stay in front of
  -- what is added, and the token and every slot but that of the agent's cursor stay as they are.
  pub loop_keeps :
      (attempts : List Attempt) (s : EventStream)
      → (s.cursor ≤ (loop decode agent_id attempts s).0.cursor)
        × (ListExtends s.events (loop decode agent_id attempts s).0.events)
        × (get_item token_key (loop decode agent_id attempts s).0.storage
            ≡ get_item token_key s.storage)
        × ((key : Text)
            → (cursor_key agent_id == key) ≡ false
            → get_item key (loop decode agent_id attempts s).0.storage ≡ get_item key s.storage)
  loop_keeps attempts s =
      let untouched = λ (key : Text) (ne : (cursor_key agent_id == key) ≡ false).
        loop-Holds decode agent_id (λ _ _ storage. get_item key storage ≡ get_item key s.storage)
          (λ body t h. ingest-get_item agent_id body t key ne ∙ h) attempts s refl in
      (
        loop-Holds decode agent_id (λ _ c _. s.cursor ≤ c)
            (λ body t h. omega (arith, ingest-cursor-le agent_id body t)) attempts s (omega arith),
        loop-Holds decode agent_id (λ es _ _. ListExtends s.events es)
            (λ body t h. ListExtends-ingest agent_id body s.events t h) attempts s
            ([], sym (append-nil s.events)),
        untouched token_key (cursor_key-ne-token_key agent_id),
        untouched,
      )
