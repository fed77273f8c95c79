-- ===== src/EventStream/Delivery.antt =====
-- Which events reach the list: each once, if React renders between two frames.
use mathlib.Core.List.{map-append}
use agentforum.Base.{
  ℕ, true, false, not, ◌&&◌, ◌||◌, List, ◌++◌, append-nil, ◌≡◌, refl, ap, ◌∙◌, arith, Text, ltb,
  nat_eq, either_branch, contains, contains-append, distinct, distinct-append, distinct-append_both,
  contains-unseen, distinct-unseen, unseen_none,
}
use agentforum.EventStream.Ingest.{
  Event, PollEventsResponse, EventStream, sequences, fresh, advance, ingest, render,
}
use agentforum.EventStream.Resumes.{ingest-events}

ingest-shown :
    (agent_id : Text) (body : PollEventsResponse) (s : EventStream)
    → (ingest agent_id body s).shown ≡ s.shown
unfolding ingest advance
ingest-shown agent_id body s =
    either_branch (λ (t : EventStream). t.shown ≡ s.shown) (ltb s.cursor body.next_cursor) refl refl

abbrev seq : Event → ℕ
seq e = e.sequence

abbrev pub after : Text → PollEventsResponse → EventStream → List ℕ
after agent_id body s = sequences (ingest agent_id body s).events

sequences-ingest :
    (agent_id : Text) (body : PollEventsResponse) (s : EventStream)
    → after agent_id body s ≡ sequences s.events ++ sequences (fresh s.shown body.events)
sequences-ingest agent_id body s =
    ap sequences (ingest-events agent_id body s)
    ∙ map-append seq s.events (fresh s.shown body.events)

contains-fresh :
    (shown events : List Event) (q : ℕ)
    → contains q (sequences (fresh shown events))
      ≡ (contains q (sequences events) && not (contains q (sequences shown)))
unfolding fresh
contains-fresh shown events q = contains-unseen seq (sequences shown) events q

contains-ingest :
    (agent_id : Text) (body : PollEventsResponse) (s : EventStream) (q : ℕ)
    → contains q (after agent_id body s) ≡ (
        contains q (sequences s.events)
        || (contains q (sequences body.events) && not (contains q (sequences s.shown))))
unfolding fresh
contains-ingest agent_id body s q =
    ap (contains q) (sequences-ingest agent_id body s)
    ∙ contains-append q (sequences s.events) (sequences (fresh s.shown body.events))
    ∙ ap (λ b. contains q (sequences s.events) || b)
        (contains-unseen seq (sequences s.shown) body.events q)

-- If the list has no sequence twice and React has rendered it, a frame that has no sequence twice in itself
-- leaves no sequence twice in the list; and the list then has the sequences that it had and those of the
-- frame, and no others.
pub ingest-distinct :
    (agent_id : Text) (body : PollEventsResponse) (s : EventStream)
    → s.shown ≡ s.events
    → distinct (sequences s.events) ≡ true
    → distinct (sequences body.events) ≡ true
    → (distinct (after agent_id body s) ≡ true)
      × ((q : ℕ)
          → contains q (after agent_id body s)
            ≡ (contains q (sequences s.events) || contains q (sequences body.events)))
unfolding fresh
ingest-distinct agent_id body s rendered d d' =
    let seen = λ (q : ℕ). ap (λ es. contains q (sequences es)) rendered in
    (
      ap distinct (sequences-ingest agent_id body s)
          ∙ distinct-append (sequences s.events) (sequences (fresh s.shown body.events)) d
              (distinct-unseen seq (sequences s.shown) body.events d')
              (λ q m.
                ground (arith, contains-unseen seq (sequences s.shown) body.events q, seen q)),
      λ q. ground (arith, contains-ingest agent_id body s q, seen q),
    )

-- A frame that is delivered again after a rendering adds no event.
ingest_again :
    (agent_id : Text) (body : PollEventsResponse) (s : EventStream)
    → s.shown ≡ s.events
    → (ingest agent_id body (render (ingest agent_id body s))).events
      ≡ (ingest agent_id body s).events
unfolding fresh render
ingest_again agent_id body s rendered =
    let once = ingest agent_id body s in
    ingest-events agent_id body (render once)
    ∙ ap (λ es. once.events ++ es)
        (unseen_none seq (sequences once.events) body.events (λ q m. ground (
          arith,
          contains-ingest agent_id body s q,
          ap (λ es. contains q (sequences es)) rendered,
        )))
    ∙ append-nil once.events

-- A frame that is delivered again before a rendering, as two frames of one chunk are, leaves a
-- sequence twice in the list, if it has one that was not there at the last rendering.
pub ingest_twice :
    (agent_id : Text) (body : PollEventsResponse) (s : EventStream) (q : ℕ)
    → contains q (sequences body.events) ≡ true
    → contains q (sequences s.shown) ≡ false
    → distinct (after agent_id body (ingest agent_id body s)) ≡ false
ingest_twice agent_id body s q new unshown =
    let once = ingest agent_id body s in
    let again = sequences (fresh once.shown body.events) in
    ap distinct (sequences-ingest agent_id body once)
    ∙ distinct-append_both q (sequences once.events) again
        (contains-ingest agent_id body s q ∙ ground arith)
        (contains-fresh once.shown body.events q ∙ rw (ingest-shown agent_id body s) (ground arith))
