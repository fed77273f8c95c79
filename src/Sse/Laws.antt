-- ===== src/Sse/Laws.antt =====
-- The search for a separator, and the loop: its fuel suffices, and its accumulator stands in front.
use agentforum.Base.{
  ℕ, zero, suc, ◌+◌, ◌≤◌, ◌≡◌, refl, sym, ◌∙◌, inl, inr, none, some, List, [], ◌∷◌, ◌++◌,
  append_assoc, arith, Text, index_of, length, take, drop, length-drop, length-append, drop-append,
  take-append, Option-cases,
}
use agentforum.Sse.{SseParseResult, separator, frame_data, push_frame, parse_from}

-- A found separator lies inside the text.
pub index_of-lt : (s : Text) {i : ℕ} → index_of separator s ≡ some i → i + 2 ≤ length s
index_of-lt [] h = cc
index_of-lt (c ∷ []) h = ground arith
index_of-lt (c ∷ d ∷ s) h = elim (Option-cases (index_of separator (d ∷ s))) [
  | inl e ↦ ground arith
  | inr (i, e) ↦ ground (arith, index_of-lt (d ∷ s) e)
]

-- A separator that is found stays where it is when text is added behind it.
pub index_of-append :
    (s t : Text) {i : ℕ} → index_of separator s ≡ some i → index_of separator (s ++ t) ≡ some i
index_of-append [] t h = cc
index_of-append (c ∷ []) t h = ground arith
index_of-append (c ∷ d ∷ s) t h = elim (Option-cases (index_of separator (d ∷ s))) [
  | inl e ↦ ground arith
  | inr (i, e) ↦ ground (arith, index_of-append (d ∷ s) t e)
]

-- With no separator in the buffer the loop stops, whatever the fuel.
pub parse_from_stop :
    (f : ℕ) (s : Text) (frames : List Text)
    → index_of separator s ≡ none
    → parse_from f s frames ≡ record { frames = frames; rest = s }
unfolding parse_from
parse_from_stop zero s frames e = refl
parse_from_stop (suc f) s frames e = rw (e, parse_from)

-- One round of the loop.
pub parse_from_next :
    (f : ℕ) (s : Text) (frames : List Text) {i : ℕ}
    → index_of separator s ≡ some i
    → parse_from (suc f) s frames
      ≡ parse_from f (drop (i + 2) s) (push_frame (frame_data (take i s)) frames)
unfolding parse_from
parse_from_next f s frames e = rw (e, parse_from)

-- With fuel for the whole buffer, more fuel changes nothing.
pub parse_from_fuel :
    (f g : ℕ) (s : Text) (frames : List Text)
    → length s ≤ f
    → length s ≤ g
    → parse_from f s frames ≡ parse_from g s frames
parse_from_fuel zero g s frames h k = elim (Option-cases (index_of separator s)) [
  | inl e ↦ parse_from_stop zero s frames e ∙ sym (parse_from_stop g s frames e)
  | inr (i, e) ↦ absurd (omega (arith, index_of-lt s e))
]
parse_from_fuel (suc f) zero s frames h k = elim (Option-cases (index_of separator s)) [
  | inl e ↦ parse_from_stop (suc f) s frames e ∙ sym (parse_from_stop zero s frames e)
  | inr (i, e) ↦ absurd (omega (arith, index_of-lt s e))
]
parse_from_fuel (suc f) (suc g) s frames h k = elim (Option-cases (index_of separator s)) [
  | inl e ↦ parse_from_stop (suc f) s frames e ∙ sym (parse_from_stop (suc g) s frames e)
  | inr (i, e) ↦
      rw (parse_from_next f s frames e, parse_from_next g s frames e)
        (parse_from_fuel f g (drop (i + 2) s) (push_frame (frame_data (take i s)) frames)
          (omega (arith, length-drop (i + 2) s, index_of-lt s e))
          (omega (arith, length-drop (i + 2) s, index_of-lt s e)))
]

-- The remainder holds no complete frame.
pub parse_from-rest :
    (f : ℕ) (s : Text) (frames : List Text)
    → length s ≤ f
    → index_of separator (parse_from f s frames).rest ≡ none
parse_from-rest zero s frames h = elim (Option-cases (index_of separator s)) [
  | inl e ↦ rw (parse_from_stop zero s frames e) e
  | inr (i, e) ↦ absurd (omega (arith, index_of-lt s e))
]
parse_from-rest (suc f) s frames h = elim (Option-cases (index_of separator s)) [
  | inl e ↦ rw (parse_from_stop (suc f) s frames e) e
  | inr (i, e) ↦ rw (parse_from_next f s frames e) (
      parse_from-rest f (drop (i + 2) s) (push_frame (frame_data (take i s)) frames)
        (omega (arith, length-drop (i + 2) s, index_of-lt s e)))
]

push_frame-append : (d : Text) (a b : List Text) → push_frame d (a ++ b) ≡ a ++ push_frame d b
push_frame-append [] a b = refl
push_frame-append (c ∷ d) a b = append_assoc a b ((c ∷ d) ∷ [])

abbrev pub prepend : List Text → SseParseResult → SseParseResult
prepend a r = record r { frames = a ++ r.frames }

-- The frames that are already there stand in front of the new ones.
pub parse_from-prepend :
    (f : ℕ) (s : Text) (a b : List Text) → parse_from f s (a ++ b) ≡ prepend a (parse_from f s b)
parse_from-prepend zero s a b = unfold parse_from in refl
parse_from-prepend (suc f) s a b = elim (Option-cases (index_of separator s)) [
  | inl e ↦ rw (parse_from_stop (suc f) s (a ++ b) e, parse_from_stop (suc f) s b e)
  | inr (i, e) ↦
      rw (parse_from_next f s (a ++ b) e, parse_from_next f s b e)
        (rw (push_frame-append (frame_data (take i s)) a b)
          (parse_from-prepend f (drop (i + 2) s) a (push_frame (frame_data (take i s)) b)))
]

-- Parsing a longer text goes on from what parsing its beginning left.
pub parse_from-append :
    (f g h : ℕ) (s t : Text) (frames : List Text)
    → length s ≤ f
    → length (s ++ t) ≤ g
    → length ((parse_from f s frames).rest ++ t) ≤ h
    → parse_from g (s ++ t) frames
      ≡ parse_from h ((parse_from f s frames).rest ++ t) (parse_from f s frames).frames
parse_from-append zero g h s t frames p q r = elim (Option-cases (index_of separator s)) [
  | inl e ↦
      rw (parse_from_stop zero s frames e)
        (parse_from_fuel g h (s ++ t) frames q (rw (parse_from_stop zero s frames e) at r))
  | inr (i, e) ↦ absurd (omega (arith, index_of-lt s e))
]
parse_from-append (suc f) g h s t frames p q r = elim (Option-cases (index_of separator s)) [
  | inl e ↦
      rw (parse_from_stop (suc f) s frames e)
        (parse_from_fuel g h (s ++ t) frames q (rw (parse_from_stop (suc f) s frames e) at r))
  | inr (i, e) ↦
      let inside = index_of-lt s e in
      parse_from_fuel g (suc g) (s ++ t) frames q (omega arith)
      ∙ parse_from_next g (s ++ t) frames (index_of-append s t e)
      ∙ rw
          (
            take-append i s t (omega arith),
            drop-append (i + 2) s t inside,
            parse_from_next f s frames e,
          )
          (parse_from-append f g h (drop (i + 2) s) t (push_frame (frame_data (take i s)) frames)
            (omega (arith, length-drop (i + 2) s))
            (omega
              (arith, length-drop (i + 2) s, length-append (drop (i + 2) s) t, length-append s t))
            (rw (parse_from_next f s frames e) at r))
]
