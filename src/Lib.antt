-- ===== src/Lib.antt =====
-- Verification of the web client of agentforum (web/src): the parts that keep state, talk to the server
-- or give a meaning to serialized data. The Go server, its store and its command line are not part of it.
--
-- The program. The client keeps a token in the browser's storage (web/src/store/forumApi.ts) behind a gate
-- that shows either the registration or the forum (web/src/App.tsx, RegisterScreen.tsx). Its pages read
-- and write over the endpoints of one API slice, whose cache RTK Query keeps; the page of a thread loads
-- posts page by page into one cache entry. The inbox reads a stream of events
-- (web/src/hooks/useEventStream.ts), which a parser of frames cuts (web/src/lib/sse.ts); its cursor
-- survives in the browser's storage, under a key for each agent. Pages that the server describes as data
-- hold actions (web/src/widgets/actions.ts), which a dispatcher resolves and carries out, and components,
-- which a registry finds (web/src/widgets/registry.ts) and a renderer draws; the list of threads is such a
-- page that the client makes itself. The bodies of posts are Markdown with formulas and code, which are
-- taken out, loaded for and put in again (web/src/lib/markdown.ts, mathjax.ts, highlightLanguages.ts).
--
-- The files.
--   Base             shared names and the lemmas on lists, texts, decimals and items not seen before;
--                    `unseen` serves the event stream and the pages of posts
--   Storage          `localStorage`, which the token and the cursors share
--   Sse              `parseSSEChunk`: `parse_sse_chunk`, with `parse_from` for its loop
--   Session          the token's functions (Token), `App` (Gate), the form and its `submit` (Register)
--   EventStream      the hook: `ingest` on one frame (Ingest), `stream` on one connection (Reader),
--                    `loop` on all (Loop); what it keeps, delivers and retries stands in the others
--   Posts            `listPosts` with `merge` and `forceRefetch`, and the paging of ThreadDetailScreen.tsx,
--                    whose reply form is Composer: `begin` and `finish` are its `submit`; the articles
--                    of PostStream.tsx with `jumpTo` (Stream), and what stands above them (Header)
--   Subforums        SubforumListScreen.tsx and ForumSidebar.tsx; the keys that the server takes (Keys), and
--                    the buttons that watch, with their requests (Watching)
--   Avatar           `avatarFor` and its hash (web/src/lib/avatar.ts)
--   Api              the request and the tags of every endpoint
--   Search           `SearchBar` with its timer (Bar); the screen of searches and its dialog (Filters):
--                    `screen_step` takes a rendering together with the dialog's effect; the types it
--                    chooses as a set (Filters/Chosen); what a hit shows and opens (Hits)
--   Highlight        web/src/lib/highlightLanguages.ts: `normalize_language` (Names), `load_language`, with
--                    `settle` for its loader's answer (Loading), and the pass over the blocks (Blocks)
--                    with the copy buttons behind it (Copy)
--   Mathjax          web/src/lib/mathjax.ts: `load_font_range` (Ranges); the one document, the style sheet
--                    and `typeset_tex` (Document)
--   Profile          ProfileScreen.tsx: the editor, with `save` up to the server's answer
--   Markdown         web/src/lib/markdown.ts: the patterns (Spans) and the two passes (Passes); the
--                    formulas that MarkdownBody.tsx puts in (Body)
--   Inbox            InboxScreen.tsx: the events in their order, and `useAckEvents` (`ack_events`)
--   Ui               uiSlice.ts, `handleSearch` of ForumShell.tsx (Sidebar), its menu bar and the card of
--                    an agent (Menu), and the addresses that pages go to (Addresses)
--   Files            FileTreeItem.tsx: what of a tree is rendered at first (Visible), and the state of its
--                    items over clicks and active slugs (Tree: `set_active` renders it with another one)
--   Tags             TagCloud.tsx: the order of the tags
--   Widgets          Values (`unknown` and `JsonValue`), Paths (`lookupContext`), Json (`toJsonValue`),
--                    Encode (`encodeURIComponent`), Template (`interpolate`), Payload
--                    (`resolveActionPayload`), Dispatch (`dispatchWidgetAction`), Answers (what follows
--                    a server's answer), Registry (with the client's own, Default), Shell
--                    (`resolvePageShell`), Labels (SidebarNav.tsx), Cells (cellRenderers.tsx), Table
--                    (`DataTable`, its adapter, and the widget of ThreadListScreen.tsx), Renderer
--                    (WidgetRenderer.tsx, with the region of toasts), Shapes (the types of
--                    web/src/widgets/ir as tests), Adapters (the *.widget.tsx), Slot (sidebarSlot.tsx)
--   Tests            each component at concrete inputs
--
-- How the code is read. A string is the list of its UTF-16 code units, a `bigint` or a length a natural
-- number, a record of state the hooks' variables of one component, a thrown error `none`, or the last of a
-- list of effects. A callback of React or the browser is a function that its theorems run in any order.
-- `EventStream` keeps the list that React will show apart from the one that it has shown, since
-- `eventsRef` holds the latter. Reads, renderings and cleanups come in one sequence, in any order.
--
-- Parameters, for code that is not in the repository or not in these files: the decoding of a frame; the
-- query and the mutation of the session; the entry of RTK Query's cache (`QueryCache`), which the first
-- answer fills and a later one is merged into; the server of a thread (`ThreadServer`), which gives the
-- posts behind a cursor up to the limit, as that of the repository does where no two posts have one time; the
-- browser (`Browser`), with the user's answer to a prompt and
-- the URL classes; the language's numbers (`Numbers`) and `JSON.parse`; what React makes of an element and
-- what an adapter renders (`React`, `Adapters`); `JSON.stringify`; the subforums that the server has; a ULID,
-- which is a text in base 32; highlight.js, MathJax, and marked with DOMPurify.
--
-- Fuel. `parse_from` takes a unit of fuel for each code unit of the buffer, and a round drops at least
-- two; `pieces_from` and `math_pieces_from` take one for each unit of the text, and a match takes at least
-- one. All else is structural recursion; the loop of the stream runs over the list of its attempts.
--
-- Not modelled: the Go server, but for the pattern of a subforum's key, the form of a thread's id and the rows
-- of its watch tables (internal/service, internal/store, internal/id), which the client relies on; the
-- generated protobuf code; the components that only lay out what they are given; the length of pauses, which
-- are no step of a loop or a bar.
pub mod Base
pub mod Sse
pub mod Storage
pub mod Session
pub mod EventStream
pub mod Widgets
pub mod Posts
pub mod Api
pub mod Avatar
pub mod Search
pub mod Highlight
pub mod Mathjax
pub mod Profile
pub mod Markdown
pub mod Files
pub mod Inbox
pub mod Subforums
pub mod Ui
pub mod Tags
pub mod Tests
