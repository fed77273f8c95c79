-- ===== src/Api/Paths.antt =====
-- The paths of the requests.
use mathlib.Core.Option
use agentforum.Base.{
  Option, none, some, [], ◌++◌, ◌≡◌, refl, sym, ap, ◌∙◌, Text, codes, keep, keep-append,
}
use agentforum.Widgets.Encode.{encode_uri_component}
use agentforum.Widgets.Encode.Plain.{encode_uri_component-All}
use agentforum.Widgets.Template.Safe.{is_reserved, keep-All}
use agentforum.Api.{
  Request, Endpoint, get_subforum, watch_subforum, unwatch_subforum, get_agent, under_name, query,
}

-- The delimiters of a path, in order.
abbrev pub delimiters : Text → Text
delimiters = keep is_reserved

pub map-eq-some :
    {A B : Type 0} (f : A → B) (o : Option A) (b : B)
    → Option.map f o ≡ some b
    → (a : A) × (o ≡ some a) × (f a ≡ b)
map-eq-some f none b h = cc
map-eq-some f (some a) b h = (a, refl, cc)

encoded-delimiters :
    (name encoded front back : Text)
    → encode_uri_component name ≡ some encoded
    → delimiters (front ++ (encoded ++ back)) ≡ delimiters (front ++ back)
encoded-delimiters name encoded front back h =
    keep-append is_reserved front (encoded ++ back)
    ∙ ap (λ t. delimiters front ++ t)
        (keep-append is_reserved encoded back
          ∙ ap (λ t. t ++ delimiters back)
              (keep-All encoded (encode_uri_component-All name encoded h)))
    ∙ sym (keep-append is_reserved front back)

under_name-delimiters :
    (front name back : Text) (f : Text → Request) (r : Request)
    → ((url : Text) → (f url).url ≡ url)
    → Option.map f (under_name front name back) ≡ some r
    → delimiters r.url ≡ delimiters (front ++ back)
under_name-delimiters front name back f r keeps h =
    let (url, found, made) = map-eq-some f (under_name front name back) r h in
    let (encoded, fits, joined) =
      map-eq-some (λ t. front ++ (t ++ back)) (encode_uri_component name) url found in
    sym (ap (λ (q : Request). delimiters q.url) made)
    ∙ ap delimiters (keeps url)
    ∙ sym (ap delimiters joined)
    ∙ encoded-delimiters name encoded front back fits

-- The path of an endpoint that is named by an argument, less the name.
abbrev pub path_around : Endpoint → Option Text
path_around (get_subforum key) = some (codes "/subforums/")
path_around (watch_subforum key) = some (codes "/subforums//watch")
path_around (unwatch_subforum key) = some (codes "/subforums//watch")
path_around (get_agent name) = some (codes "/agents/")
path_around e = none

delimiters-some : {a b : Text} → some a ≡ some b → delimiters a ≡ delimiters b
delimiters-some {a} {b} h = let same : a ≡ b = cc in ap delimiters same

-- The key of a subforum or the name of an agent adds no delimiter to the path of a request, whatever
-- it holds.
query-delimiters :
    (random : Option Text) (e : Endpoint) (around : Text) (r : Request)
    → path_around e ≡ some around
    → query random e ≡ some r
    → delimiters r.url ≡ delimiters around
unfolding query
query-delimiters random (get_subforum key) around r h k =
    under_name-delimiters (codes "/subforums/") key [] _ r (λ url. refl) k ∙ delimiters-some h
query-delimiters random (watch_subforum key) around r h k =
    under_name-delimiters (codes "/subforums/") key (codes "/watch") _ r (λ url. refl) k
    ∙ delimiters-some h
query-delimiters random (unwatch_subforum key) around r h k =
    under_name-delimiters (codes "/subforums/") key (codes "/watch") _ r (λ url. refl) k
    ∙ delimiters-some h
query-delimiters random (get_agent name) around r h k =
    under_name-delimiters (codes "/agents/") name [] _ r (λ url. refl) k ∙ delimiters-some h
query-delimiters random e around r h k = cc
