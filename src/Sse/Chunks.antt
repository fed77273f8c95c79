-- ===== src/Sse/Chunks.antt =====
-- Feeding the parser chunk by chunk, as the reader of a stream does.
use agentforum.Base.{
  ◌≡◌, sym, ap, ◌∙◌, none, List, [], ◌∷◌, ◌++◌, append_assoc, append-nil, arith, Text, index_of,
  join, length,
}
use agentforum.Sse.{SseParseResult, separator, parse_from, parse_sse_chunk}
use agentforum.Sse.Laws.{
  parse_from_stop, parse_from-rest, parse_from-prepend, parse_from-append, prepend,
}

-- Each chunk is parsed behind the remainder of the one before it.
unfoldable pub parse_chunks : List Text → Text → SseParseResult
parse_chunks [] rest = record { frames = []; rest = rest }
parse_chunks (chunk ∷ chunks) rest =
    let first = parse_sse_chunk chunk rest in prepend first.frames (parse_chunks chunks first.rest)

-- The remainder never holds a complete frame.
pub parse_sse_chunk-rest :
    (chunk rest : Text) → index_of separator (parse_sse_chunk chunk rest).rest ≡ none
unfolding parse_sse_chunk
parse_sse_chunk-rest chunk rest =
    parse_from-rest (length (rest ++ chunk)) (rest ++ chunk) [] (omega arith)

parse_whole : Text → SseParseResult
parse_whole s = parse_from (length s) s []

parse_whole-append :
    (s t : Text)
    → parse_whole (s ++ t)
      ≡ prepend (parse_whole s).frames (parse_whole ((parse_whole s).rest ++ t))
unfolding parse_whole
parse_whole-append s t =
    let before = parse_from (length s) s [] in
    let behind = before.rest ++ t in
    parse_from-append (length s) _ (length behind) s t [] (omega arith) (omega arith) (omega arith)
    ∙ (rw append-nil at (parse_from-prepend (length behind) behind before.frames []))

-- Two chunks give the frames and the remainder that they give as one chunk.
pub parse_sse_chunk-append :
    (a b rest : Text)
    → parse_sse_chunk (a ++ b) rest
      ≡ prepend (parse_sse_chunk a rest).frames (parse_sse_chunk b (parse_sse_chunk a rest).rest)
unfolding parse_sse_chunk parse_whole
parse_sse_chunk-append a b rest =
    ap parse_whole (sym (append_assoc rest a b)) ∙ parse_whole-append (rest ++ a) b

-- Fed chunk by chunk, the parser gives the frames and the remainder of the whole text, wherever
-- the chunks are cut. The remainder at the start holds no complete frame.
pub parse_chunks-join :
    (chunks : List Text) (rest : Text)
    → index_of separator rest ≡ none
    → parse_chunks chunks rest ≡ parse_sse_chunk (join chunks) rest
unfolding parse_chunks parse_sse_chunk
parse_chunks-join [] rest h = rw append-nil (sym (parse_from_stop (length rest) rest [] h))
parse_chunks-join (chunk ∷ chunks) rest h =
    ap (prepend (parse_sse_chunk chunk rest).frames)
      (parse_chunks-join chunks (parse_sse_chunk chunk rest).rest (parse_sse_chunk-rest chunk rest))
    ∙ sym (parse_sse_chunk-append chunk (join chunks) rest)
