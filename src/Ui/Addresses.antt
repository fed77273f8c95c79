-- ===== src/Ui/Addresses.antt =====
-- The addresses that the pages go to, and those that agents and threads can have.
use agentforum.Base.{
  ℕ, List, Bool, true, ◌&&◌, ◌||◌, some, [], ◌∷◌, ◌++◌, ◌≡◌, refl, sym, ap, ◌∙◌, arith, Text, codes,
  leb, all, and_left, and_right, keep-append,
}
use agentforum.Widgets.Encode.{is_unreserved, encode_uri_component}
use agentforum.Widgets.Encode.Same.{encode-same}
use agentforum.Widgets.Encode.Plain.{encode_uri_component-All}
use agentforum.Widgets.Template.Safe.{is_reserved, keep-All}
use agentforum.Widgets.Dispatch.{Browser, pushed_state, popped_state}
use agentforum.Widgets.Values.{end}
use agentforum.Widgets.Cells.{Numbers}
use agentforum.Widgets.Table.{ThreadSummary, thread_table, thread_row, render_row, click_row}
use agentforum.Widgets.Dispatch.Opened.{Opens}
use agentforum.Widgets.Table.Threads.{click_row-thread}
use agentforum.EventStream.Ingest.{Event}
use agentforum.Inbox.{open_event}
use agentforum.Search.Hits.{HitThread, thread_hit, post_hit, hit_target}
use agentforum.Posts.{Post}
use agentforum.Api.Paths.{delimiters, map-eq-some}
use agentforum.Ui.Menu.{profile_target}

-- Crockford's base 32: digits, and capitals but I, L, O and U.
abbrev pub is_base32 : ℕ → Bool
is_base32 c = (leb b'0' c && leb c b'9') || (leb b'A' c && leb c b'Z')

-- `NewThreadID` of internal/id/id.go, on a ULID.
unfoldable pub new_thread_id : Text → Text
new_thread_id ulid = codes "th_" ++ ulid

base32-is_unreserved : (c : ℕ) → is_base32 c ≡ true → is_unreserved c ≡ true
unfolding is_unreserved
base32-is_unreserved c h = ground (arith, h)

all_base32 : (s : Text) → all is_base32 s ≡ true → all is_unreserved s ≡ true
all_base32 [] h = refl
all_base32 (c ∷ s) h =
    ap (λ b. b && all is_unreserved s) (base32-is_unreserved c (and_left (is_base32 c) _ h))
    ∙ all_base32 s (and_right (is_base32 c) _ h)

encode-new_thread_id :
    (ulid : Text)
    → all is_base32 ulid ≡ true
    → encode_uri_component (new_thread_id ulid) ≡ some (new_thread_id ulid)
unfolding new_thread_id is_unreserved
encode-new_thread_id ulid h = encode-same (codes "th_" ++ ulid) (all_base32 ulid h)

abbrev pub thread_address : Text → Text
thread_address id = codes "/t/" ++ id

-- A thread whose id the server has made of a ULID, which is a text in base 32, is opened at one address from
-- everywhere: a click on its row in the list of threads, which encodes the id, pushes the address that a
-- search hit of the thread, a hit of a post in it and an event of it in the inbox go to, which do not; if the
-- browser resolves that address to itself.
pub thread_opened-alike :
    (browser : Browser) (numbers : Numbers) (threads : List ThreadSummary) (ulid : Text)
    (t : ThreadSummary) (hit : HitThread) (p : Post) (ev : Event)
    → all is_base32 ulid ≡ true
    → t.id ≡ new_thread_id ulid
    → hit.id ≡ t.id
    → p.thread_id ≡ t.id
    → ev.thread_id ≡ t.id
    → Opens browser (thread_address t.id)
    → (click_row browser (render_row numbers (thread_table threads) (thread_row t))
        ≡ pushed_state end (thread_address t.id) ∷ popped_state ∷ [])
      × (hit_target (thread_hit hit) ≡ some (thread_address t.id))
      × (hit_target (post_hit p) ≡ some (thread_address t.id))
      × (open_event ev ≡ thread_address t.id)
unfolding hit_target
thread_opened-alike browser numbers threads ulid t hit p ev base made same_hit same_post same_event
      opens =
    let plain : encode_uri_component t.id ≡ some t.id =
      ap encode_uri_component made ∙ encode-new_thread_id ulid base ∙ ap some (sym made) in
    (
      click_row-thread browser numbers threads t t.id plain opens,
      ap (λ id. some (thread_address id)) same_hit,
      ap (λ id. some (thread_address id)) same_post,
      ap thread_address same_event,
    )

-- The address of an agent's page, from the menu bar and from the agent's card, has no delimiter but its own
-- two slashes, whatever the name of the agent.
profile_target-delimiters :
    (name address : Text) → profile_target name ≡ some address → delimiters address ≡ codes "//"
unfolding profile_target is_unreserved
profile_target-delimiters name address h =
    let (encoded, fits, joined) =
      map-eq-some (◌++◌ (codes "/u/")) (encode_uri_component name) address h in
    sym (ap delimiters joined)
    ∙ keep-append is_reserved (codes "/u/") encoded
    ∙ ap (λ t. codes "//" ++ t) (keep-All encoded (encode_uri_component-All name encoded fits))
