-- ===== src/EventStream/Reading.antt =====
-- Reading a stream: where the chunks are cut makes no difference, and a cleanup stops it.
use agentforum.Base.{
  Bool, true, false, Bool-cases, Option-cases, Option, List, [], ◌∷◌, ◌++◌, append-nil, map, All,
  ◌≡◌, refl, sym, ap, ◌∙◌, inl, inr, Text, ltb, if◌then◌else◌, either_branch, if_true, if_false,
  join,
}
use agentforum.Sse.{parse_sse_chunk}
use agentforum.Sse.Chunks.{parse_chunks, parse_chunks-join}
use agentforum.Sse.Frames.{Frame, encode, payloads, IsWritten, parse_sse_chunk-encode}
use agentforum.EventStream.Ingest.{PollEventsResponse, EventStream, advance, ingest, render}
use agentforum.EventStream.Reader.{
  Read, chunk, done, failed, rendering, cleanup, Outcome, threw, waiting, ingest_all, read_all,
}
use agentforum.EventStream.Steps.{
  ingest_all_broken, ingest_all_next, read_all_cancelled, read_all_broken, read_all_next,
}

ingest-cancelled :
    (agent_id : Text) (body : PollEventsResponse) (s : EventStream)
    → (ingest agent_id body s).cancelled ≡ s.cancelled
unfolding ingest advance
ingest-cancelled agent_id body s =
    either_branch (λ (t : EventStream). t.cancelled ≡ s.cancelled) (ltb s.cursor body.next_cursor)
      refl refl

-- What a reader is left with that has taken the frames in: it waits, or a broken frame made it throw.
abbrev pub left_with : EventStream × Bool → EventStream × Outcome
left_with r = (r.0, if r.1 then threw else waiting)

module _ (decode : Text → Option PollEventsResponse) (agent_id : Text) where
  abbrev taken : List Text → EventStream → EventStream × Bool
  taken = ingest_all decode agent_id

  ingest_all-cancelled :
      (frames : List Text) (s : EventStream) → (taken frames s).0.cancelled ≡ s.cancelled
  ingest_all-cancelled [] s = unfold ingest_all in refl
  ingest_all-cancelled (frame ∷ frames) s = elim (Option-cases (decode frame)) [
    | inl e ↦ rw (ingest_all_broken decode agent_id frame frames s e)
    | inr (body, e) ↦
        rw (ingest_all_next decode agent_id frame frames s e)
          (ingest_all-cancelled frames (ingest agent_id body s) ∙ ingest-cancelled agent_id body s)
  ]

  -- Two lists of frames in a row; the second is not looked at if the first has a broken frame.
  ingest_all-append :
      (a b : List Text) (s : EventStream)
      → taken (a ++ b) s ≡ (if (taken a s).1 then taken a s else taken b (taken a s).0)
  ingest_all-append [] b s = unfold ingest_all in refl
  ingest_all-append (frame ∷ a) b s = elim (Option-cases (decode frame)) [
    | inl e ↦ rw (
      ingest_all_broken decode agent_id frame (a ++ b) s e,
      ingest_all_broken decode agent_id frame a s e,
    )
    | inr (body, e) ↦
        rw
          (
            ingest_all_next decode agent_id frame (a ++ b) s e,
            ingest_all_next decode agent_id frame a s e,
          )
          (ingest_all-append a b (ingest agent_id body s))
  ]

  read_all-parse_chunks :
      (chunks : List Text) (rest : Text) (s : EventStream)
      → s.cancelled ≡ false
      → read_all decode agent_id (map chunk chunks) rest s
        ≡ left_with (taken (parse_chunks chunks rest).frames s)
  read_all-parse_chunks [] rest s live = unfold read_all ingest_all parse_chunks in refl
  read_all-parse_chunks (value ∷ chunks) rest s live =
      let first = parse_sse_chunk value rest in
      let more = (parse_chunks chunks first.rest).frames in
      let t = taken first.frames s in
      let joined = ingest_all-append first.frames more s in
      let split : (parse_chunks (value ∷ chunks) rest).frames ≡ first.frames ++ more =
        unfold parse_chunks in refl in
      elim (Bool-cases t.1) [
        | inl f ↦
            read_all_broken decode agent_id value (map chunk chunks) rest s live f
            ∙ sym (
                ap (λ fs. left_with (taken fs s)) split
                ∙ ap left_with (joined ∙ if_true _ _ f)
                ∙ ap (λ b. (t.0, if b then threw else waiting)) f)
        | inr f ↦
            read_all_next decode agent_id value (map chunk chunks) rest s live f
            ∙ read_all-parse_chunks chunks first.rest t.0
                (ingest_all-cancelled first.frames s ∙ live)
            ∙ sym (ap (λ fs. left_with (taken fs s)) split ∙ ap left_with (joined ∙ if_false _ _ f))
      ]

  -- A stream that is read without rendering or cleanup in between does to the state what its frames
  -- do, in order up to the first that cannot be decoded, wherever its text was cut into chunks.
  pub read_all-join :
      (chunks : List Text) (s : EventStream)
      → s.cancelled ≡ false
      → read_all decode agent_id (map chunk chunks) [] s
        ≡ left_with (ingest_all decode agent_id (parse_sse_chunk (join chunks) []).frames s)
  read_all-join chunks s live =
      read_all-parse_chunks chunks [] s live
      ∙ ap (λ r. left_with (taken r.frames s)) (parse_chunks-join chunks [] refl)

  -- Whatever a server writes, and however it is cut into chunks on the way, the payloads of its
  -- frames are taken in, in order up to the first that cannot be decoded; heartbeats do nothing.
  pub read_all-encode :
      (fs : List Frame) (chunks : List Text) (s : EventStream)
      → All IsWritten fs
      → join chunks ≡ encode fs
      → s.cancelled ≡ false
      → read_all decode agent_id (map chunk chunks) [] s
        ≡ left_with (ingest_all decode agent_id (payloads fs) s)
  read_all-encode fs chunks s written cut live =
      read_all-join chunks s live
      ∙ ap (λ t. left_with (taken (parse_sse_chunk t []).frames s))
          (cut ∙ sym (append-nil (encode fs)))
      ∙ ap (λ r. left_with (taken r.frames s)) (parse_sse_chunk-encode fs [] written refl)

  -- Once the effect is cleaned up, what the stream still brings changes neither the events nor the
  -- cursor nor the storage.
  read_all_cleaned_up :
      (reads : List Read) (rest : Text) (s : EventStream)
      → s.cancelled ≡ true
      → ((read_all decode agent_id reads rest s).0.events ≡ s.events)
        × ((read_all decode agent_id reads rest s).0.cursor ≡ s.cursor)
        × ((read_all decode agent_id reads rest s).0.storage ≡ s.storage)
  unfolding read_all render
  read_all_cleaned_up [] rest s off = (refl, refl, refl)
  read_all_cleaned_up (rendering ∷ reads) rest s off = read_all_cleaned_up reads rest (render s) off
  read_all_cleaned_up (cleanup ∷ reads) rest s off =
      read_all_cleaned_up reads rest (record s { cancelled = true }) refl
  read_all_cleaned_up (failed ∷ reads) rest s off = (refl, refl, refl)
  read_all_cleaned_up (done ∷ reads) rest s off = (refl, refl, refl)
  read_all_cleaned_up (chunk value ∷ reads) rest s off =
      let e = read_all_cancelled decode agent_id value reads rest s off in
      (ap (λ r. r.0.events) e, ap (λ r. r.0.cursor) e, ap (λ r. r.0.storage) e)
