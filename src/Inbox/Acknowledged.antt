-- ===== src/Inbox/Acknowledged.antt =====
-- What an acknowledgement covers.
use mathlib.Core.Option
use agentforum.Base.{
  ℕ, ◌≤◌, Bool, true, ◌&&◌, some, List, [], ◌∷◌, ◌≡◌, refl, ap, ◌∙◌, arith, get_last?, Text, ltb,
  leb, all, and_left, and_right, of_decimal, of_decimal-to_decimal,
}
use agentforum.EventStream.Ingest.{Event}
use agentforum.Inbox.{reverse_onto, ordered, last_seq, AckRequest, ack_events, click_ack}

-- The sequences of a list increase, as the stream delivers them.
abbrev pub increasing : List Event → Bool
increasing [] = true
increasing (a ∷ []) = true
increasing (a ∷ b ∷ es) = ltb a.sequence b.sequence && increasing (b ∷ es)

-- No event of a list lies behind a sequence.
abbrev pub all_through : ℕ → List Event → Bool
all_through n = all (λ (e : Event). leb e.sequence n)

-- The acknowledgement goes through the sequence that its body says, and covers these events.
abbrev pub Covers : List Event → AckRequest → Type 0
Covers events request =
    (n : ℕ) × (of_decimal request.through_sequence ≡ some n) × (all_through n events ≡ true)

and_both : (a b : Bool) → a ≡ true → b ≡ true → (a && b) ≡ true
and_both a b h k = ap (λ t. t && b) h ∙ k

below_last : (a b z : ℕ) → ltb a b ≡ true → b ≤ z → (leb a z ≡ true) × (a ≤ z)
below_last a b z h k = (ground arith, ground arith)

increasing-last :
    (a : Event) (es : List Event)
    → increasing (a ∷ es) ≡ true
    → (z : Event) × (get_last? (a ∷ es) ≡ some z)
      × (all_through z.sequence (a ∷ es) ≡ true)
      × (a.sequence ≤ z.sequence)
increasing-last a [] h = (a, refl, ground arith, omega arith)
increasing-last a (b ∷ es) h =
    let (z, last, through, below) =
      increasing-last b es (and_right (ltb a.sequence b.sequence) _ h) in
    let (first, order) =
      below_last a.sequence b.sequence z.sequence (and_left (ltb a.sequence b.sequence) _ h)
        below in
    (
      z,
      last,
      and_both (leb a.sequence z.sequence) (all_through z.sequence (b ∷ es)) first through,
      order,
    )

all_through-reverse_onto :
    (n : ℕ) (es done : List Event)
    → all_through n es ≡ true
    → all_through n done ≡ true
    → all_through n (reverse_onto es done) ≡ true
all_through-reverse_onto n [] done h k = k
all_through-reverse_onto n (e ∷ es) done h k =
    all_through-reverse_onto n es (e ∷ done) (and_right (leb e.sequence n) _ h)
      (and_both (leb e.sequence n) (all_through n done) (and_left (leb e.sequence n) _ h) k)

-- If the sequences of the events increase, as they come, the button acknowledges through a sequence that
-- no event shown lies behind.
pub click_ack-Covers :
    (token : Text) (e : Event) (es : List Event)
    → increasing (e ∷ es) ≡ true
    → (request : AckRequest) × (click_ack token (e ∷ es) ≡ some request)
      × Covers (ordered (e ∷ es)) request
unfolding click_ack last_seq ordered ack_events
click_ack-Covers token e es h =
    let (z, last, through, order) = increasing-last e es h in
    (
      ack_events token z.sequence,
      ap (λ o. Option.map (ack_events token) (Option.map (λ (e : Event). e.sequence) o)) last,
      (
        z.sequence,
        of_decimal-to_decimal z.sequence,
        all_through-reverse_onto z.sequence (e ∷ es) [] through refl,
      ),
    )
