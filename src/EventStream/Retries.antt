-- ===== src/EventStream/Retries.antt =====
-- The loop that reconnects: every failure is retried, after a pause that doubles up to a bound.
use agentforum.Base.{Bool, true, false, not, ◌||◌, ◌≡◌, nat_eq}
use agentforum.EventStream.Ingest.{EventStream}
use agentforum.EventStream.Reader.{Reply, unreachable, response, Attempt, is_ok}

-- The connection fails, or its response has no body or a status other than 200 to 299.
abbrev pub fails : Reply → Bool
fails unreachable = true
fails (response status has_body reads) = not (is_ok status) || not has_body

-- An attempt that fails, with no cleanup on the way.
abbrev pub Fails : Attempt → Type 0
Fails a = (fails a.reply ≡ true) × (a.cleanup_in_fetch ≡ false) × (a.cleanup_in_pause ≡ false)
