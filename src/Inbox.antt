-- ===== src/Inbox.antt =====
-- web/src/components/pages/InboxScreen/InboxScreen.tsx: the list of events and their lines; and
-- `useAckEvents` of web/src/hooks/useEventStream.ts, which acknowledges them.
pub mod Acknowledged
use mathlib.Core.Option
use agentforum.Base.{
  or_text, ℕ, zero, suc, Bool, true, false, Option, none, some, List, [], ◌∷◌, ◌++◌, map, get_last?,
  Text, codes, drop, take, to_decimal, eq_nat, if◌then◌else◌,
}
use agentforum.EventStream.Ingest.{Event}
use agentforum.Widgets.Table.{space_for_t}

-- The word for a reason, and its class.
abbrev pub reason_label : ℕ → Text × Text
reason_label reason =
    if eq_nat reason 1
    then (codes "involved", codes "text-[var(--color-ink)]")
    else if eq_nat reason 2
    then (codes "watching", codes "text-[var(--color-link)]")
    else if eq_nat reason 3
    then (codes "subforum", codes "text-[var(--color-tag)]")
    else (codes "·", [])

abbrev pub what_happened : ℕ → Text
what_happened event_type =
    if eq_nat event_type 2
    then codes "replied in"
    else if eq_nat event_type 1
    then codes "started"
    else codes "touched"

-- A line: the reason with its class, the actor, what happened, the subforum, and the thread.
pub record EventLine : Type 0 where
  pub reason : Text × Text
  pub actor : Text
  pub what : Text
  pub subforum : Text
  pub thread : Text

unfoldable pub event_line : Event → EventLine
event_line ev = record {
  reason = reason_label ev.reason;
  actor = or_text ev.actor_name ev.actor_id;
  what = what_happened ev.event_type;
  subforum = ev.subforum_key ++ codes "/";
  thread = or_text ev.thread_title ev.thread_id;
}

-- `[...events].reverse()`
abbrev pub reverse_onto : List Event → List Event → List Event
reverse_onto [] done = done
reverse_onto (e ∷ es) done = reverse_onto es (e ∷ done)

unfoldable pub ordered : List Event → List Event
ordered events = reverse_onto events []

unfoldable pub last_seq : List Event → Option ℕ
last_seq events = Option.map (λ (e : Event). e.sequence) (get_last? events)

-- The acknowledgement: its address, its authorization and its body.
pub record AckRequest : Type 0 where
  pub url : Text
  pub authorization : Text
  pub schema_version : ℕ
  pub through_sequence : Text

unfoldable pub ack_events : Text → ℕ → AckRequest
unfolding to_decimal
ack_events token through = record {
  url = codes "/v1/events/ack";
  authorization = codes "Bearer " ++ token;
  schema_version = 1;
  through_sequence = to_decimal through;
}

-- What a click on the button sends; without events there is no button.
unfoldable pub click_ack : Text → List Event → Option AckRequest
unfolding ack_events last_seq
click_ack token events = Option.map (ack_events token) (last_seq events)

-- The page that a click on a line opens.
abbrev pub open_event : Event → Text
open_event ev = codes "/t/" ++ ev.thread_id

-- The time beside an event: `createdAt.slice(5, 16)`.
unfoldable pub event_time : Event → Text
event_time ev = space_for_t (drop 5 (take 16 ev.created_at))
