-- ===== src/EventStream.antt =====
-- web/src/hooks/useEventStream.ts: the inbox's stream of events. The hook's state and one decoded
-- frame are in Ingest, the reading of a stream in Reader, and the loop that reconnects in Loop.
pub mod Ingest
pub mod Reader
pub mod Loop
pub mod Steps
pub mod Kept
pub mod Resumes
pub mod Delivery
pub mod Reading
pub mod Retries
