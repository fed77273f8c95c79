-- ===== src/EventStream/Reader.antt =====
-- web/src/hooks/useEventStream.ts: `stream`, one connection from its answer to its end. Decoding a
-- frame (`JSON.parse` and `fromJson`) is a parameter, `none` where it throws.
use agentforum.Base.{
  ℕ, Bool, true, false, not, ltb, ◌&&◌, ◌||◌, Option, none, some, List, [], ◌∷◌, Text, codes, ◌==◌,
  nat_eq, if◌then◌else◌,
}
use agentforum.Sse.{parse_sse_chunk}
use agentforum.EventStream.Ingest.{PollEventsResponse, EventStream, ingest, render}

-- `BACKOFF_START_MS` and `BACKOFF_MAX_MS`.
abbrev pub backoff_start_ms : ℕ
backoff_start_ms = 500

abbrev pub backoff_max_ms : ℕ
backoff_max_ms = 10000

-- What happens while the stream is read: a chunk arrives, the stream ends, the read fails, React
-- renders between two reads, or the effect is cleaned up.
pub data Read : Type 0 where
  chunk : Text → Read
  done failed rendering cleanup : Read

-- What `fetch` comes to: an error, or a response with its status, whether it has a body, and what
-- happens from then on.
pub data Reply : Type 0 where
  unreachable : Reply
  response : (status : ℕ) → (has_body : Bool) → List Read → Reply

-- One attempt: what `fetch` comes to, and whether the effect is cleaned up while it is awaited, or
-- in the pause behind the attempt.
pub record Attempt : Type 0 where
  pub cleanup_in_fetch : Bool
  pub reply : Reply
  pub cleanup_in_pause : Bool

-- How `stream` ends: it returns, it throws, or it still waits for a read.
pub data Outcome : Type 0 where
  returned threw waiting : Outcome

-- `res.ok`
abbrev pub is_ok : ℕ → Bool
is_ok status = not (ltb status 200) && ltb status 300

module _ (decode : Text → Option PollEventsResponse) (agent_id : Text) where
  -- The loop over the frames of one chunk; the flag tells that a frame could not be decoded.
  unfoldable pub ingest_all : List Text → EventStream → EventStream × Bool
  ingest_all [] s = (s, false)
  ingest_all (frame ∷ frames) s = elim (decode frame) [
    | none ↦ (s, true)
    | some body ↦ ingest_all frames (ingest agent_id body s)
  ]

  -- The loop over the reads, with the parser's remainder. What a read brings after a cleanup is not
  -- looked at.
  unfoldable pub read_all : List Read → Text → EventStream → EventStream × Outcome
  unfolding ingest_all
  read_all [] rest s = (s, waiting)
  read_all (rendering ∷ reads) rest s = read_all reads rest (render s)
  read_all (cleanup ∷ reads) rest s = read_all reads rest (record s { cancelled = true })
  read_all (failed ∷ reads) rest s = (s, threw)
  read_all (done ∷ reads) rest s = (s, if s.cancelled then returned else threw)
  read_all (chunk value ∷ reads) rest s =
      let parsed = parse_sse_chunk value rest in
      let (s', broken) = ingest_all parsed.frames s in
      let onwards = read_all reads parsed.rest s' in
      if s.cancelled then (s, returned) else if broken then (s', threw) else onwards

  -- `stream`, from the answer of `fetch` on.
  unfoldable pub stream : Reply → EventStream → EventStream × Outcome
  unfolding read_all
  stream unreachable s = (s, threw)
  stream (response status has_body reads) s =
      if s.cancelled
      then (s, returned)
      else if status == 401
      then (record s { error = some (codes "unauthenticated"); connected = false }, returned)
      else if not (is_ok status) || not has_body
      then (s, threw)
      else read_all reads []
          (record s { connected = true; error = none; backoff = backoff_start_ms })
