-- ===== src/Tests/Stream.antt =====
-- lib/sse.ts and hooks/useEventStream.ts at concrete inputs; the first tests are those of
-- web/src/lib/__tests__/sse.test.ts.
use agentforum.Base.{
  ℕ, ◌≤◌, true, false, ◌||◌, Option, none, some, List, [], ◌∷◌, ◌++◌, map, ◌≡◌, refl, arith, Text,
  codes, ◌==◌, nat_eq, text_eq, All, contains, distinct, if◌then◌else◌, to_decimal,
}
use agentforum.Storage.{get_item, set_item}
use agentforum.Session.Token.{token_key}
use agentforum.Sse.{separator, parse_sse_chunk}
use agentforum.Sse.Chunks.{parse_chunks, parse_chunks-join}
use agentforum.Sse.Frames.{Frame, event, comment, encode, IsWritten, parse_sse_chunk-encode}
use agentforum.EventStream.Ingest.{
  Event, PollEventsResponse, EventStream, cursor_key, hydrate, stored_cursor, sequences, ingest,
  fresh, advance, render,
}
use agentforum.EventStream.Reader.{
  chunk, done, rendering, Reply, unreachable, response, Attempt, ingest_all, read_all,
}
use agentforum.EventStream.Loop.{loop}
use agentforum.EventStream.Resumes.{Resumes, ListExtends, hydrate-loop, loop_keeps}
use agentforum.EventStream.Delivery.{after, ingest-distinct, ingest_twice}
use agentforum.EventStream.Reading.{left_with, read_all-encode}

abbrev lf : Text
lf = b'\n' ∷ []

split_chunks :
    parse_chunks (codes "data: {x" ∷ (codes "y}" ++ lf) ∷ lf ∷ []) []
    ≡ record { frames = codes "{xy}" ∷ []; rest = [] }
unfolding parse_chunks parse_sse_chunk
split_chunks = refl

heartbeat :
    parse_sse_chunk
      (codes ": ping" ++ separator ++ lf ++ codes "data: 7" ++ separator ++ codes "data: 1")
      []
    ≡ record { frames = codes "7" ∷ []; rest = codes "data: 1" }
unfolding parse_sse_chunk
heartbeat = refl

two_lines :
    parse_sse_chunk (codes "data: {" ++ lf ++ codes "data: 1}" ++ separator) []
    ≡ record { frames = codes "{1}" ∷ []; rest = [] }
unfolding parse_sse_chunk
two_lines = refl

parse_chunks-join_example :
    parse_chunks (codes "data: a" ∷ separator ∷ []) (codes ": x")
    ≡ parse_sse_chunk (codes "data: a" ++ separator) (codes ": x")
parse_chunks-join_example = parse_chunks-join (codes "data: a" ∷ separator ∷ []) (codes ": x") refl

abbrev written : List Frame
written = comment (codes " ping") ∷ event (codes "4") ∷ event (codes "x") ∷ []

written-IsWritten : All IsWritten written
written-IsWritten = ground arith

parse_sse_chunk-encode_example :
    parse_sse_chunk (encode written ++ codes "da") []
    ≡ record { frames = codes "4" ∷ codes "x" ∷ []; rest = codes "da" }
parse_sse_chunk-encode_example = parse_sse_chunk-encode written (codes "da") written-IsWritten refl

-- An event with nothing but its sequence, and a frame with that event.
abbrev numbered : ℕ → Event
numbered n = record {
  sequence = n;
  event_type = 2;
  reason = 1;
  actor_id = [];
  actor_name = [];
  thread_id = [];
  thread_title = [];
  subforum_key = [];
  created_at = [];
}

abbrev framed : ℕ → PollEventsResponse
framed n = record { events = numbered n ∷ []; next_cursor = n }

-- A decoder: a payload of digits is a frame with that event, any other payload cannot be decoded.
abbrev decode_number : Text → Option PollEventsResponse
decode_number payload =
    if payload == codes "4"
    then some (framed 4)
    else if payload == codes "5"
    then some (framed 5)
    else none

abbrev ann : Text
ann = codes "ag_1"

abbrev fresh_start : EventStream
fresh_start = record {
  events = [];
  shown = [];
  cursor = 0;
  connected = false;
  error = none;
  backoff = 500;
  cancelled = false;
  storage = (token_key, codes "af_x") ∷ [];
}

abbrev once_read : EventStream
once_read = record fresh_start { events = numbered 3 ∷ []; shown = numbered 3 ∷ [] }

abbrev attempts : List Attempt
attempts =
    record { cleanup_in_fetch = false; reply = unreachable; cleanup_in_pause = false }
    ∷ record {
      cleanup_in_fetch = false;
      reply = response 200 true (
          chunk (encode (event (codes "4") ∷ []))
          ∷ rendering
          ∷ chunk (encode (event (codes "5") ∷ []))
          ∷ done
          ∷ []);
      cleanup_in_pause = false;
    }
    ∷ record { cleanup_in_fetch = false; reply = response 401 true []; cleanup_in_pause = false }
    ∷ []

stream_run : Unit {0}
unfolding loop hydrate stored_cursor cursor_key ingest fresh advance parse_sse_chunk get_item
    set_item render
stream_run = tt

loop_run :
    (sequences (loop decode_number ann attempts fresh_start).0.events ≡ 4 ∷ 5 ∷ [])
    × ((loop decode_number ann attempts fresh_start).0.cursor ≡ 5)
    × ((loop decode_number ann attempts fresh_start).0.backoff ≡ 2000)
    × (get_item (cursor_key ann) (loop decode_number ann attempts fresh_start).0.storage
        ≡ some (codes "5"))
unfolding stream_run to_decimal
loop_run = (refl, refl, refl, refl)

fresh_start-Resumes : Resumes ann 0 fresh_start.storage
unfolding stored_cursor cursor_key get_item
fresh_start-Resumes = refl

hydrate-loop_example :
    hydrate ann (loop decode_number ann attempts fresh_start).0
    ≡ some (record (loop decode_number ann attempts fresh_start).0 { events = [] })
hydrate-loop_example = hydrate-loop decode_number ann attempts fresh_start fresh_start-Resumes

loop_keeps_example :
    (0 ≤ (loop decode_number ann attempts fresh_start).0.cursor)
    × (ListExtends [] (loop decode_number ann attempts fresh_start).0.events)
    × (get_item token_key (loop decode_number ann attempts fresh_start).0.storage
        ≡ get_item token_key fresh_start.storage)
    × ((key : Text)
        → (cursor_key ann == key) ≡ false
        → get_item key (loop decode_number ann attempts fresh_start).0.storage
          ≡ get_item key fresh_start.storage)
loop_keeps_example = loop_keeps decode_number ann attempts fresh_start

ingest-distinct_example :
    (distinct (after ann (framed 4) once_read) ≡ true)
    × ((q : ℕ)
        → contains q (after ann (framed 4) once_read)
          ≡ (contains q (3 ∷ []) || contains q (4 ∷ [])))
ingest-distinct_example = ingest-distinct ann (framed 4) once_read refl refl refl

ingest_twice_example : distinct (after ann (framed 4) (ingest ann (framed 4) once_read)) ≡ false
ingest_twice_example = ingest_twice ann (framed 4) once_read 4 refl refl

read_all-encode_example :
    read_all decode_number ann
      (map chunk (
        codes ": ping"
        ∷ (separator ++ codes "data: 4")
        ∷ (separator ++ codes "data: x")
        ∷ separator
        ∷ []))
      []
      fresh_start
    ≡ left_with (ingest_all decode_number ann (codes "4" ∷ codes "x" ∷ []) fresh_start)
read_all-encode_example =
    read_all-encode decode_number ann written
      (codes ": ping"
        ∷ (separator ++ codes "data: 4")
        ∷ (separator ++ codes "data: x")
        ∷ separator
        ∷ [])
      fresh_start written-IsWritten refl refl

abbrev failed_by : Reply → Attempt
failed_by reply = record { cleanup_in_fetch = false; reply = reply; cleanup_in_pause = false }

abbrev three_failures : List Attempt
three_failures =
    failed_by unreachable
    ∷ failed_by (response 503 true [])
    ∷ failed_by (response 200 false [])
    ∷ []
