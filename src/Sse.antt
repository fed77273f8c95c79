-- ===== src/Sse.antt =====
-- web/src/lib/sse.ts: the frame parser of the server-sent-events stream.
pub mod Laws
pub mod Chunks
pub mod Frames
use mathlib.Core.Option
use agentforum.Base.{
  ℕ, zero, suc, ◌+◌, Option, none, some, List, [], ◌∷◌, ◌++◌, map, Text, codes, starts_with,
  index_of, split, join, length, take, drop, keep,
}

-- `SSEParseResult`
pub record SseParseResult : Type 0 where
  pub frames : List Text
  pub rest : Text

-- The two line feeds that end a frame.
abbrev pub separator : Text
separator = b'\n' ∷ b'\n' ∷ []

abbrev pub data_prefix : Text
data_prefix = codes "data: "

-- The payload of one frame: its "data: " lines without that prefix, joined.
unfoldable pub frame_data : Text → Text
frame_data frame = join (map (drop 6) (keep (starts_with data_prefix) (split b'\n' frame)))

-- `if (data !== "") frames.push(data)`
abbrev pub push_frame : Text → List Text → List Text
push_frame [] frames = frames
push_frame (c ∷ s) frames = frames ++ (c ∷ s) ∷ []

-- The loop; each round takes the fuel of one code unit and drops at least two from the buffer.
unfoldable pub parse_from : ℕ → Text → List Text → SseParseResult
parse_from zero buf frames = record { frames = frames; rest = buf }
parse_from (suc fuel) buf frames = elim (index_of separator buf) [
  | none ↦ record { frames = frames; rest = buf }
  | some idx ↦ parse_from fuel (drop (idx + 2) buf) (push_frame (frame_data (take idx buf)) frames)
]

unfoldable pub parse_sse_chunk : Text → Text → SseParseResult
unfolding parse_from frame_data
parse_sse_chunk chunk previous_rest =
    let buf = previous_rest ++ chunk in parse_from (length buf) buf []
