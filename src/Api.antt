-- ===== src/Api.antt =====
-- web/src/store/forumApi.ts: the endpoints of the API slice, with the request that each builds and the
-- tags by which RTK Query knows what to fetch again. `listPosts` has its cache in Posts.antt.
pub mod Refetched
pub mod Paths
use mathlib.Core.Option
use agentforum.Base.{
  ℕ, Bool, true, false, Option, none, some, ◌>>=◌, List, [], ◌∷◌, ◌++◌, Text, codes, to_decimal,
  contains, StrictEq, if◌then◌else◌,
}
use agentforum.Widgets.Values.{
  Value, undefined, bool, num, str, arr, obj, Items, nil, cons, Fields, end, field,
}
use agentforum.Widgets.Encode.{encode_uri_component}
use agentforum.Widgets.Payload.{set_field}
use agentforum.Posts.{PostQuery, list_posts_query}

pub data Method : Type 0 where
  get post put patch delete : Method

-- `tagTypes`
pub data Tag : Type 0 where
  agent_tag subforum_tag thread_tag post_tag event_tag : Tag

pub record CreateThread : Type 0 where
  pub subforum_key : Text
  pub title : Text
  pub body : Text
  pub metadata : Option Fields
  pub watch : Option Bool
  pub idempotency_key : Option Text

pub record ForumSearchInput : Type 0 where
  pub text : Text
  pub entity_types : Option (List Text)
  pub subforum : Option Text
  pub terms : Option (List (Text × Text))
  pub created_after : Option Text
  pub limit : Option ℕ

-- The endpoints with their arguments.
pub data Endpoint : Type 0 where
  register : Text → Endpoint
  get_me list_subforums : Endpoint
  list_threads : Option Text → Option Bool → Option Bool → Endpoint
  list_posts : Text → Option Text → Endpoint
  get_thread : Text → Endpoint
  create_thread : CreateThread → Endpoint
  create_post : Text → Text → Option Text → Endpoint
  watch_thread unwatch_thread get_subforum watch_subforum unwatch_subforum : Text → Endpoint
  update_me : Fields → Endpoint
  poll_events : Text → Option ℕ → Endpoint
  get_agent : Text → Endpoint
  search : ForumSearchInput → Endpoint

pub record Request : Type 0 where
  pub url : Text
  pub method : Method
  pub params : Fields
  pub body : Option Fields

-- `key: value` of an object; an `undefined` value is sent as if the key were not there.
abbrev optional {ℓ} : {A : Type ℓ} → (A → Value) → Option A → Value
optional f none = undefined
optional f (some a) = f a

abbrev number : ℕ → Value
number n = num (to_decimal n)

abbrev texts : List Text → Items
texts [] = nil
texts (t ∷ ts) = cons (str t) (texts ts)

abbrev pub read_from : Text → Request
read_from url = record { url = url; method = get; params = end; body = none }

abbrev pub send_to : Method → Text → Option Fields → Request
send_to method url body = record { url = url; method = method; params = end; body = body }

abbrev versioned : Fields → Fields
versioned fs = field (codes "schemaVersion") (num (codes "1")) fs

-- `p.idempotencyKey ?? (globalThis.crypto?.randomUUID?.() ?? undefined)`
unfoldable pub idempotency_key_of : Option Text → Option Text → Value
idempotency_key_of (some key) random = str key
idempotency_key_of none random = optional str random

unfoldable pub create_thread_body : Option Text → CreateThread → Fields
unfolding idempotency_key_of
create_thread_body random p = versioned (
    field (codes "title") (str p.title) (
      field (codes "metadata") (optional obj p.metadata) (
        field (codes "initialPost") (obj (field (codes "body") (str p.body) end)) (
          field (codes "watch") (bool (Option.get_or p.watch true))
            (field (codes "idempotencyKey") (idempotency_key_of p.idempotency_key random) end)))))

unfoldable pub create_post_body : Option Text → Text → Option Text → Fields
create_post_body random body reply_to = versioned (
    field (codes "body") (str body) (
      field (codes "replyTo") (str (Option.get_or reply_to []))
        (field (codes "idempotencyKey") (optional str random) end)))

-- `p.subforum ? [p.subforum] : []`
abbrev subforums_of : Option Text → Items
subforums_of none = nil
subforums_of (some []) = nil
subforums_of (some (c ∷ t)) = cons (str (c ∷ t)) nil

-- `Object.fromEntries`: a key that comes again takes the later value.
unfoldable pub from_entries : Fields → List (Text × Text) → Fields
unfolding set_field
from_entries fs [] = fs
from_entries fs ((k, v) ∷ pairs) = from_entries (set_field k (str v) fs) pairs

unfoldable pub search_body : ForumSearchInput → Fields
unfolding to_decimal from_entries
search_body p = versioned (
    field (codes "entityTypes") (optional (λ ts. arr (texts ts)) p.entity_types) (
      field (codes "subforums") (arr (subforums_of p.subforum)) (
        field (codes "text") (str p.text) (
          field (codes "metadata") (obj (from_entries end (Option.get_or p.terms []))) (
            field (codes "createdAfter") (str (Option.get_or p.created_after []))
              (field (codes "limit") (number (Option.get_or p.limit 50)) end))))))

abbrev page_request : PostQuery → Request
page_request q = record {
  url = q.url;
  method = get;
  params =
      field (codes "after") (optional str q.after) (field (codes "limit") (number q.limit) end);
  body = none;
}

-- A path with an encoded name in it; `none` where encoding throws.
abbrev pub under_name : Text → Text → Text → Option Text
under_name front name back = Option.map (λ t. front ++ (t ++ back)) (encode_uri_component name)

-- `query` of each endpoint; the first argument is the random key, if the browser makes one.
unfoldable pub query : Option Text → Endpoint → Option Request
unfolding create_thread_body create_post_body search_body list_posts_query encode_uri_component
    to_decimal
query random (register name) = some (
    send_to post (codes "/agents/register")
      (some (versioned (field (codes "name") (str name) end))))
query random get_me = some (read_from (codes "/me"))
query random list_subforums = some (read_from (codes "/subforums"))
query random (list_threads subforum watching participating) = some (record {
  url = codes "/threads";
  method = get;
  params = field (codes "subforum") (optional str subforum) (
      field (codes "watching") (optional bool watching)
        (field (codes "participating") (optional bool participating) end));
  body = none;
})
query random (list_posts thread after) = some (page_request (list_posts_query thread after))
query random (get_thread thread) = some (read_from (codes "/threads/" ++ thread))
query random (create_thread p) = some (
    send_to post (codes "/subforums/" ++ (p.subforum_key ++ codes "/threads"))
      (some (create_thread_body random p)))
query random (create_post thread body reply_to) = some (
    send_to post (codes "/threads/" ++ (thread ++ codes "/posts"))
      (some (create_post_body random body reply_to)))
query random (watch_thread thread) =
    some (send_to put (codes "/threads/" ++ (thread ++ codes "/watch")) none)
query random (unwatch_thread thread) =
    some (send_to delete (codes "/threads/" ++ (thread ++ codes "/watch")) none)
query random (get_subforum key) = Option.map read_from (under_name (codes "/subforums/") key [])
query random (watch_subforum key) =
    Option.map (λ url. send_to put url none) (under_name (codes "/subforums/") key (codes "/watch"))
query random (unwatch_subforum key) =
    Option.map (λ url. send_to delete url none)
      (under_name (codes "/subforums/") key (codes "/watch"))
query random (update_me metadata) =
    some
      (send_to patch (codes "/me") (some (versioned (field (codes "metadata") (obj metadata) end))))
query random (poll_events cursor wait) = some (record {
  url = codes "/events";
  method = get;
  params =
      field (codes "cursor") (str cursor)
        (field (codes "wait") (number (Option.get_or wait 0)) end);
  body = none;
})
query random (get_agent name) = Option.map read_from (under_name (codes "/agents/") name [])
query random (search p) = some (send_to post (codes "/search") (some (search_body p)))

-- `builder.mutation`, and not `builder.query`
unfoldable pub is_mutation : Endpoint → Bool
is_mutation (register name) = true
is_mutation (create_thread p) = true
is_mutation (create_post thread body reply_to) = true
is_mutation (watch_thread thread) = true
is_mutation (unwatch_thread thread) = true
is_mutation (watch_subforum key) = true
is_mutation (unwatch_subforum key) = true
is_mutation (update_me metadata) = true
is_mutation e = false

unfoldable pub provides_tags : Endpoint → List Tag
provides_tags get_me = agent_tag ∷ []
provides_tags list_subforums = subforum_tag ∷ []
provides_tags (list_threads subforum watching participating) = thread_tag ∷ []
provides_tags (list_posts thread after) = post_tag ∷ []
provides_tags (get_thread thread) = thread_tag ∷ []
provides_tags (get_subforum key) = subforum_tag ∷ []
provides_tags (get_agent name) = agent_tag ∷ []
provides_tags e = []

unfoldable pub invalidates_tags : Endpoint → List Tag
invalidates_tags (register name) = agent_tag ∷ []
invalidates_tags (create_thread p) = thread_tag ∷ post_tag ∷ event_tag ∷ []
invalidates_tags (create_post thread body reply_to) = thread_tag ∷ post_tag ∷ event_tag ∷ []
invalidates_tags (watch_thread thread) = thread_tag ∷ []
invalidates_tags (unwatch_thread thread) = thread_tag ∷ []
invalidates_tags (watch_subforum key) = subforum_tag ∷ []
invalidates_tags (unwatch_subforum key) = subforum_tag ∷ []
invalidates_tags (update_me metadata) = agent_tag ∷ []
invalidates_tags e = []
