-- ===== src/EventStream/Ingest.antt =====
-- web/src/hooks/useEventStream.ts: the hook's state, its cursor in the browser's storage, and what
-- one decoded frame does. Sequences and cursors are `int64` values from 0 on.
use mathlib.Core.Option
use agentforum.Base.{
  ℕ, Bool, Option, none, some, List, [], ◌++◌, map, Text, codes, ltb, unseen, nat_eq, to_decimal,
  of_decimal, if◌then◌else◌,
}
use agentforum.Storage.{Storage, get_item, set_item}

-- The fields of the generated `Event` message that the inbox reads.
pub record Event : Type 0 where
  pub sequence : ℕ
  pub event_type : ℕ
  pub reason : ℕ
  pub actor_id : Text
  pub actor_name : Text
  pub thread_id : Text
  pub thread_title : Text
  pub subforum_key : Text
  pub created_at : Text

-- `PollEventsResponse`: one frame of the stream.
pub record PollEventsResponse : Type 0 where
  pub events : List Event
  pub next_cursor : ℕ

-- The hook's state. `events` is the list that React will show next, `shown` the one of the last
-- rendering, which `eventsRef` holds; `backoff` and `cancelled` belong to the running effect.
pub record EventStream : Type 0 where
  pub events : List Event
  pub shown : List Event
  pub cursor : ℕ
  pub connected : Bool
  pub error : Option Text
  pub backoff : ℕ
  pub cancelled : Bool
  pub storage : Storage

unfoldable pub cursor_key : Text → Text
cursor_key agent_id = codes "agentforum.cursor." ++ agent_id

-- `stored !== null ? BigInt(stored) : 0n`, for the texts that the hook writes, which are decimal; of the others
-- `BigInt` takes some (signs, spaces, hexadecimal), which are `none` here like those for which it throws.
unfoldable pub stored_cursor : Option Text → Option ℕ
stored_cursor none = some 0
stored_cursor (some text) = of_decimal text

-- The effect that takes the cursor of an agent up.
unfoldable pub hydrate : Text → EventStream → Option EventStream
hydrate agent_id s =
    Option.map (λ c. record s { cursor = c; events = [] })
      (stored_cursor (get_item (cursor_key agent_id) s.storage))

abbrev pub sequences : List Event → List ℕ
sequences = map (λ e. e.sequence)

-- The events of a frame whose sequence is not among those of the last rendering. Sequences are
-- compared as numbers, which is as their decimal texts are.
unfoldable pub fresh : List Event → List Event → List Event
fresh shown = unseen (λ e. e.sequence) (sequences shown)

-- The part of `ingest` on the cursor.
unfoldable pub advance : Text → ℕ → EventStream → EventStream
advance agent_id next s =
    if ltb s.cursor next
    then record s {
      cursor = next;
      storage = set_item (cursor_key agent_id) (to_decimal next) s.storage;
    }
    else s

unfoldable pub ingest : Text → PollEventsResponse → EventStream → EventStream
ingest agent_id body s =
    advance agent_id body.next_cursor (record s { events = s.events ++ fresh s.shown body.events })

-- A rendering: `eventsRef.current = events`.
unfoldable pub render : EventStream → EventStream
render s = record s { shown = s.events }

-- The path of the request that opens the stream.
unfoldable pub stream_url : EventStream → Text
stream_url s = codes "/v1/events/stream?cursor=" ++ to_decimal s.cursor
