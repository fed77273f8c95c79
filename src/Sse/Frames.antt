-- ===== src/Sse/Frames.antt =====
-- What a server writes, and that the parser reads it back.
use Prim.Native.Nat.add
use agentforum.Base.{
  ℕ, suc, ◌+◌, ◌≤◌, ◌≡◌, ◌≢◌, refl, sym, ap, ◌∙◌, false, some, none, List, [], ◌∷◌, ◌++◌,
  append_assoc, append-nil, arith, Text, eq_nat, split, index_of, length, drop, All,
  take-length-append, length-append,
}
use agentforum.Sse.{separator, data_prefix, frame_data, push_frame, parse_from, parse_sse_chunk}
use agentforum.Sse.Laws.{parse_from_next, parse_from_stop, parse_from_fuel}

-- A frame of the stream: an event with its payload, or a heartbeat comment.
pub data Frame : Type 0 where
  event comment : Text → Frame

abbrev pub line : Frame → Text
line (event payload) = data_prefix ++ payload
line (comment text) = b':' ∷ text

-- The bytes on the wire: one line, and a blank line behind it.
abbrev pub encode : List Frame → Text
encode [] = []
encode (f ∷ fs) = line f ++ (separator ++ encode fs)

abbrev pub payloads : List Frame → List Text
payloads [] = []
payloads (event payload ∷ fs) = payload ∷ payloads fs
payloads (comment _ ∷ fs) = payloads fs

-- One line of text.
abbrev pub OneLine : Text → Type 0
OneLine = All (λ c. eq_nat c b'\n' ≡ false)

abbrev pub IsWritten : Frame → Type 0
IsWritten (event payload) = OneLine payload × (payload ≢ [])
IsWritten (comment text) = OneLine text

data_prefix-OneLine : (payload : Text) → OneLine payload → OneLine (data_prefix ++ payload)
data_prefix-OneLine payload h = (refl, (refl, (refl, (refl, (refl, (refl, h))))))

line-OneLine : (f : Frame) → IsWritten f → OneLine (line f)
line-OneLine (event payload) h = data_prefix-OneLine payload h.0
line-OneLine (comment text) h = (refl, h)

index_of-OneLine :
    (s t : Text) → OneLine s → index_of separator (s ++ (separator ++ t)) ≡ some (length s)
index_of-OneLine [] t h = refl
index_of-OneLine (c ∷ s) t h = ground (arith, index_of-OneLine s t h.1)

split-OneLine : (s : Text) → OneLine s → split b'\n' s ≡ s ∷ []
split-OneLine [] h = refl
split-OneLine (c ∷ s) h = ground (arith, split-OneLine s h.1)

frame_data-event :
    (payload : Text) → OneLine payload → frame_data (data_prefix ++ payload) ≡ payload
unfolding frame_data
frame_data-event payload h =
    rw (split-OneLine (data_prefix ++ payload) (data_prefix-OneLine payload h)) (append-nil payload)

frame_data-comment : (text : Text) → OneLine text → frame_data (b':' ∷ text) ≡ []
unfolding frame_data
frame_data-comment text h = rw (split-OneLine (b':' ∷ text) (refl, h))

push_frame_ne : (d : Text) (a : List Text) → d ≢ [] → push_frame d a ≡ a ++ d ∷ []
push_frame_ne [] a h = absurd (h refl)
push_frame_ne (c ∷ d) a h = refl

frame_data-line :
    (f : Frame) (a : List Text)
    → IsWritten f
    → push_frame (frame_data (line f)) a ≡ a ++ payloads (f ∷ [])
frame_data-line (event payload) a h =
    rw (frame_data-event payload h.0) (push_frame_ne payload a h.1)
frame_data-line (comment text) a h = rw (frame_data-comment text h) (sym (append-nil a))

payloads-cons : (f : Frame) (fs : List Frame) → payloads (f ∷ []) ++ payloads fs ≡ payloads (f ∷ fs)
payloads-cons (event payload) fs = refl
payloads-cons (comment text) fs = refl

drop_line : (l behind : Text) → drop (length l + 2) (l ++ (separator ++ behind)) ≡ behind
drop_line [] behind = refl
drop_line (c ∷ l) behind = rw (add.suc (length l) 2) (drop_line l behind)

length-whole :
    (l behind : Text) → length (l ++ (separator ++ behind)) ≡ length l + 2 + length behind
length-whole l behind = omega (arith, length-append l (separator ++ behind))

-- One written frame is taken off the front of the buffer.
parse_from-line :
    (n : ℕ) (f : Frame) (behind : Text) (a : List Text)
    → IsWritten f
    → parse_from (suc n) (line f ++ (separator ++ behind)) a
      ≡ parse_from n behind (a ++ payloads (f ∷ []))
parse_from-line n f behind a w =
    parse_from_next n (line f ++ (separator ++ behind)) a
      (index_of-OneLine (line f) behind (line-OneLine f w))
    ∙ rw (
      drop_line (line f) behind,
      take-length-append (line f) (separator ++ behind),
      frame_data-line f a w,
    )

parse_from-encode :
    (fs : List Frame) (n : ℕ) (t : Text) (a : List Text)
    → All IsWritten fs
    → index_of separator t ≡ none
    → length (encode fs ++ t) ≤ n
    → parse_from n (encode fs ++ t) a ≡ record { frames = a ++ payloads fs; rest = t }
parse_from-encode [] n t a w h le = rw append-nil (parse_from_stop n t a h)
parse_from-encode (f ∷ fs) n t a (w, ws) h le =
    let behind = encode fs ++ t in
    let whole = line f ++ (separator ++ behind) in
    let same : encode (f ∷ fs) ++ t ≡ whole = append_assoc (line f) (separator ++ encode fs) t in
    let le' : length whole ≤ n = rw same at le in
    ap (λ x. parse_from n x a) same
    ∙ parse_from_fuel n (suc n) whole a le' (omega arith)
    ∙ parse_from-line n f behind a w
    ∙ parse_from-encode fs n t (a ++ payloads (f ∷ [])) ws h
        (omega (arith, length-whole (line f) behind))
    ∙ rw (append_assoc a (payloads (f ∷ [])) (payloads fs), payloads-cons f fs)

-- Whatever frames a server writes, the parser returns their payloads in order and keeps a partial
-- frame behind them. Payloads are non-empty, and payloads and comments have no line feed.
pub parse_sse_chunk-encode :
    (fs : List Frame) (t : Text)
    → All IsWritten fs
    → index_of separator t ≡ none
    → parse_sse_chunk (encode fs ++ t) [] ≡ record { frames = payloads fs; rest = t }
unfolding parse_sse_chunk
parse_sse_chunk-encode fs t w h =
    parse_from-encode fs (length (encode fs ++ t)) t [] w h (omega arith)
