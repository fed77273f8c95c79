-- ===== src/EventStream/Loop.antt =====
-- web/src/hooks/useEventStream.ts: `loop`, which opens the stream again after a pause.
use agentforum.Base.{
  ◌*◌, min, Bool, false, ◌||◌, Option, some, List, [], ◌∷◌, Text, codes, if◌then◌else◌,
}
use agentforum.EventStream.Ingest.{PollEventsResponse, EventStream}
use agentforum.EventStream.Reader.{
  Attempt, Outcome, returned, threw, waiting, backoff_max_ms, stream,
}

-- Where the loop stands: it has stopped, it waits for a read, or it goes on with its next round.
pub data Phase : Type 0 where
  stopped open_stream next_round : Phase

-- What stands behind the `try`, but for the pause.
unfoldable pub reconnect : EventStream → EventStream
reconnect s = record s {
  connected = false;
  error = some (codes "connection lost");
  backoff = min (s.backoff * 2) backoff_max_ms;
}

-- The body of the loop behind `stream`.
unfoldable pub after_stream : Outcome → EventStream → EventStream × Phase
unfolding reconnect
after_stream waiting s = (s, open_stream)
after_stream returned s = if s.cancelled then (s, stopped) else (reconnect s, next_round)
after_stream threw s = (reconnect s, next_round)

abbrev pub clean_up : Bool → EventStream → EventStream
clean_up now s = record s { cancelled = s.cancelled || now }

-- The pause before the next round, in which the effect may be cleaned up.
abbrev pub pause : Bool → EventStream → Phase → EventStream × Phase
pause now s next_round = (clean_up now s, next_round)
pause now s stopped = (s, stopped)
pause now s open_stream = (s, open_stream)

-- The loop goes on only with a next round.
abbrev pub go_on : Phase → EventStream → EventStream × Phase → EventStream × Phase
go_on next_round s onwards = onwards
go_on stopped s onwards = (s, stopped)
go_on open_stream s onwards = (s, open_stream)

module _ (decode : Text → Option PollEventsResponse) (agent_id : Text) where
  -- One round: the stream of an attempt, and the pause behind it.
  unfoldable pub round : Attempt → EventStream → EventStream × Phase
  unfolding stream after_stream
  round attempt s =
      let (s', outcome) =
        stream decode agent_id attempt.reply (clean_up attempt.cleanup_in_fetch s) in
      let (s'', phase) = after_stream outcome s' in pause attempt.cleanup_in_pause s'' phase

  -- `while (!cancelled)`, over the attempts that are made in turn.
  unfoldable pub loop : List Attempt → EventStream → EventStream × Phase
  unfolding round
  loop [] s = (s, if s.cancelled then stopped else next_round)
  loop (attempt ∷ attempts) s =
      let (s', phase) = round attempt s in
      let onwards = loop attempts s' in if s.cancelled then (s, stopped) else go_on phase s' onwards
