-- ===== src/EventStream/Steps.antt =====
-- The equations of the reader and of the loop, one for each branch.
use agentforum.Base.{
  Bool, true, false, Option, none, some, List, ◌∷◌, ◌≡◌, ◌∙◌, Text, nat_eq, if_true, if_false,
}
use agentforum.Sse.{parse_sse_chunk}
use agentforum.EventStream.Ingest.{PollEventsResponse, EventStream, ingest}
use agentforum.EventStream.Reader.{Read, chunk, Attempt, returned, threw, ingest_all, read_all}
use agentforum.EventStream.Loop.{Phase, stopped, go_on, round, loop}

module _ (decode : Text → Option PollEventsResponse) (agent_id : Text) where
  pub ingest_all_broken :
      (frame : Text) (frames : List Text) (s : EventStream)
      → decode frame ≡ none
      → ingest_all decode agent_id (frame ∷ frames) s ≡ (s, true)
  unfolding ingest_all
  ingest_all_broken frame frames s e = rw (e, ingest_all)

  pub ingest_all_next :
      (frame : Text) (frames : List Text) (s : EventStream) {body : PollEventsResponse}
      → decode frame ≡ some body
      → ingest_all decode agent_id (frame ∷ frames) s
        ≡ ingest_all decode agent_id frames (ingest agent_id body s)
  unfolding ingest_all
  ingest_all_next frame frames s e = rw (e, ingest_all)

  module _ (value : Text) (reads : List Read) (rest : Text) (s : EventStream) where
    abbrev parsed : Text
    parsed = (parse_sse_chunk value rest).rest

    abbrev taken : EventStream × Bool
    taken = ingest_all decode agent_id (parse_sse_chunk value rest).frames s

    pub read_all_cancelled :
        s.cancelled ≡ true → read_all decode agent_id (chunk value ∷ reads) rest s ≡ (s, returned)
    unfolding read_all
    read_all_cancelled e = if_true _ _ e

    pub read_all_broken :
        s.cancelled ≡ false
        → taken.1 ≡ true
        → read_all decode agent_id (chunk value ∷ reads) rest s ≡ (taken.0, threw)
    unfolding read_all
    read_all_broken e f = if_false _ _ e ∙ if_true _ _ f

    pub read_all_next :
        s.cancelled ≡ false
        → taken.1 ≡ false
        → read_all decode agent_id (chunk value ∷ reads) rest s
          ≡ read_all decode agent_id reads parsed taken.0
    unfolding read_all
    read_all_next e f = if_false _ _ e ∙ if_false _ _ f

  module _ (attempt : Attempt) (attempts : List Attempt) (s : EventStream) where
    abbrev first : EventStream × Phase
    first = round decode agent_id attempt s

    pub loop_cancelled :
        s.cancelled ≡ true → loop decode agent_id (attempt ∷ attempts) s ≡ (s, stopped)
    unfolding loop
    loop_cancelled e = if_true _ _ e

    pub loop_running :
        s.cancelled ≡ false
        → loop decode agent_id (attempt ∷ attempts) s
          ≡ go_on first.1 first.0 (loop decode agent_id attempts first.0)
    unfolding loop
    loop_running e = if_false _ _ e
