-- ===== src/EventStream/Kept.antt =====
-- What every frame keeps of the events, the cursor and the storage, the whole loop keeps.
use agentforum.Base.{
  ℕ, Bool, true, not, ◌||◌, either_branch, Option-cases, Option, List, [], ◌∷◌, inl, inr, Text,
  ◌==◌, nat_eq,
}
use agentforum.Storage.{Storage}
use agentforum.Sse.{parse_sse_chunk}
use agentforum.EventStream.Ingest.{Event, PollEventsResponse, EventStream, ingest, render}
use agentforum.EventStream.Reader.{
  Read, chunk, done, failed, rendering, cleanup, Reply, unreachable, response, Attempt, Outcome,
  returned, threw, waiting, is_ok, ingest_all, read_all, stream,
}
use agentforum.EventStream.Loop.{
  Phase, stopped, open_stream, next_round, reconnect, after_stream, clean_up, pause, go_on, round,
  loop,
}

module _ (decode : Text → Option PollEventsResponse) (agent_id : Text)
    (P : List Event → ℕ → Storage → Type 0) where
  abbrev pub Holds : EventStream → Type 0
  Holds s = P s.events s.cursor s.storage

  abbrev HoldsThen {ℓ} : {A : Type ℓ} → EventStream × A → Type 0
  HoldsThen r = Holds r.0

  after_stream-Holds : (o : Outcome) (s : EventStream) → Holds s → Holds (after_stream o s).0
  unfolding after_stream reconnect
  after_stream-Holds waiting s h = h
  after_stream-Holds returned s h = either_branch HoldsThen s.cancelled h h
  after_stream-Holds threw s h = h

  pause-Holds : (now : Bool) (s : EventStream) (p : Phase) → Holds s → Holds (pause now s p).0
  pause-Holds now s stopped h = h
  pause-Holds now s open_stream h = h
  pause-Holds now s next_round h = h

  go_on-Holds :
      (p : Phase) (s : EventStream) (onwards : EventStream × Phase)
      → Holds s
      → Holds onwards.0
      → Holds (go_on p s onwards).0
  go_on-Holds stopped s onwards h k = h
  go_on-Holds open_stream s onwards h k = h
  go_on-Holds next_round s onwards h k = k

  module _
      (kept : (body : PollEventsResponse) (s : EventStream)
        → Holds s
        → Holds (ingest agent_id body s)) where
    pub ingest_all-Holds :
        (frames : List Text) (s : EventStream)
        → Holds s
        → Holds (ingest_all decode agent_id frames s).0
    unfolding ingest_all
    ingest_all-Holds [] s h = h
    ingest_all-Holds (frame ∷ frames) s h = elim (Option-cases (decode frame)) [
      | inl e ↦ rw (e, ingest_all) h
      | inr (body, e) ↦
          rw (e, ingest_all) (ingest_all-Holds frames (ingest agent_id body s) (kept body s h))
    ]

    pub read_all-Holds :
        (reads : List Read) (rest : Text) (s : EventStream)
        → Holds s
        → Holds (read_all decode agent_id reads rest s).0
    unfolding read_all render
    read_all-Holds [] rest s h = h
    read_all-Holds (rendering ∷ reads) rest s h = read_all-Holds reads rest (render s) h
    read_all-Holds (cleanup ∷ reads) rest s h =
        read_all-Holds reads rest (record s { cancelled = true }) h
    read_all-Holds (failed ∷ reads) rest s h = h
    read_all-Holds (done ∷ reads) rest s h = h
    read_all-Holds (chunk value ∷ reads) rest s h =
        let parsed = parse_sse_chunk value rest in
        let (s', broken) = ingest_all decode agent_id parsed.frames s in
        let h' = ingest_all-Holds parsed.frames s h in
        either_branch HoldsThen s.cancelled h
          (either_branch HoldsThen broken h' (read_all-Holds reads parsed.rest s' h'))

    stream-Holds :
        (reply : Reply) (s : EventStream) → Holds s → Holds (stream decode agent_id reply s).0
    unfolding stream
    stream-Holds unreachable s h = h
    stream-Holds (response status has_body reads) s h = either_branch HoldsThen s.cancelled h (
        either_branch HoldsThen (status == 401) h (
          either_branch HoldsThen (not (is_ok status) || not has_body) h
            (read_all-Holds reads [] _ h)))

    round-Holds :
        (attempt : Attempt) (s : EventStream) → Holds s → Holds (round decode agent_id attempt s).0
    unfolding round
    round-Holds attempt s h =
        let begun = clean_up attempt.cleanup_in_fetch s in
        let (s', o) = stream decode agent_id attempt.reply begun in
        let (s'', p) = after_stream o s' in
        pause-Holds attempt.cleanup_in_pause s'' p
          (after_stream-Holds o s' (stream-Holds attempt.reply begun h))

    -- Whatever the connections bring.
    pub loop-Holds :
        (attempts : List Attempt) (s : EventStream)
        → Holds s
        → Holds (loop decode agent_id attempts s).0
    unfolding loop
    loop-Holds [] s h = h
    loop-Holds (attempt ∷ attempts) s h =
        let (s', phase) = round decode agent_id attempt s in
        let h' = round-Holds attempt s h in
        either_branch HoldsThen s.cancelled h
          (go_on-Holds phase s' _ h' (loop-Holds attempts s' h'))
