-- ===== src/Subforums/Keys.antt =====
-- The keys of subforums in addresses.
use mathlib.Core.Option
use agentforum.Base.{
  ℕ, true, ◌&&◌, Option, none, some, inl, inr, List, [], ◌∷◌, ◌++◌, ◌≡◌, refl, sym, ap, ◌∙◌, arith,
  Text, codes, all, All, and_left, and_right, keep-append, if_true, if_false, Bool-cases,
}
use agentforum.Widgets.Encode.{is_unreserved, encode_uri_component}
use agentforum.Widgets.Encode.Same.{encode-same}
use agentforum.Widgets.Encode.Plain.{encode_uri_component-All}
use agentforum.Widgets.Template.Safe.{is_reserved, keep-All}
use agentforum.Api.{
  Request, Endpoint, read_from, send_to, put, delete, get_subforum, watch_subforum,
  unwatch_subforum, query, under_name,
}
use agentforum.Api.Paths.{delimiters}
use agentforum.Subforums.{is_key_start, is_key_unit, matches_key, stored_key, subforum_target}

key_unit_plain : (c : ℕ) → is_key_unit c ≡ true → is_unreserved c ≡ true
unfolding is_unreserved
key_unit_plain c h = ground (arith, h)

start_is_unit : (c : ℕ) → is_key_start c ≡ true → is_key_unit c ≡ true
start_is_unit c h = rw h

units_plain : (s : Text) → all is_key_unit s ≡ true → all is_unreserved s ≡ true
units_plain [] h = refl
units_plain (c ∷ s) h =
    ap (λ b. b && all is_unreserved s) (key_unit_plain c (and_left (is_key_unit c) _ h))
    ∙ units_plain s (and_right (is_key_unit c) _ h)

encode-matches_key : (key : Text) → matches_key key ≡ true → encode_uri_component key ≡ some key
unfolding matches_key
encode-matches_key [] h = cc
encode-matches_key (c ∷ s) h =
    let start = and_left (is_key_start c) _ h in
    let rest = and_left (all is_key_unit s) _ (and_right (is_key_start c) _ h) in
    encode-same (c ∷ s)
      (units_plain (c ∷ s) (ap (λ b. b && all is_key_unit s) (start_is_unit c start) ∙ rest))

stored_matches :
    (trim_space : Text → Text) (given key : Text)
    → stored_key trim_space given ≡ some key
    → matches_key key ≡ true
unfolding stored_key
stored_matches trim_space given key h = elim (Bool-cases (matches_key (trim_space given))) [
  | inl e ↦
      let same : trim_space given ≡ key = cc (h, if_true (some (trim_space given)) none e) in
      sym (ap matches_key same) ∙ e
  | inr e ↦ absurd (cc (h, if_false (some (trim_space given)) none e))
]

-- The endpoints of a subforum, and the path of each, with the key as it is.
abbrev pub subforum_path : Endpoint → Option Text
subforum_path (get_subforum key) = some (codes "/subforums/" ++ (key ++ []))
subforum_path (watch_subforum key) = some (codes "/subforums/" ++ (key ++ codes "/watch"))
subforum_path (unwatch_subforum key) = some (codes "/subforums/" ++ (key ++ codes "/watch"))
subforum_path e = none

abbrev pub of_key : Text → List Endpoint
of_key key = get_subforum key ∷ watch_subforum key ∷ unwatch_subforum key ∷ []

abbrev pub url_of : Option Request → Option Text
url_of = Option.map (λ (r : Request). r.url)

under_matching :
    (key back : Text)
    → matches_key key ≡ true
    → under_name (codes "/subforums/") key back ≡ some (codes "/subforums/" ++ (key ++ back))
under_matching key back h =
    ap (Option.map (λ t. codes "/subforums/" ++ (t ++ back))) (encode-matches_key key h)

paths_of_key :
    (random : Option Text) (key : Text)
    → matches_key key ≡ true
    → All (λ e. url_of (query random e) ≡ subforum_path e) (of_key key)
unfolding query
paths_of_key random key h = (
  ap (λ o. url_of (Option.map read_from o)) (under_matching key [] h),
  (
    ap (λ o. url_of (Option.map (λ url. send_to put url none) o))
        (under_matching key (codes "/watch") h),
    (
      ap (λ o. url_of (Option.map (λ url. send_to delete url none) o))
          (under_matching key (codes "/watch") h),
      tt,
    ),
  ),
)

target_delimiters :
    (key : Text)
    → encode_uri_component key ≡ some key
    → delimiters (subforum_target key) ≡ codes "//"
unfolding is_unreserved
target_delimiters key h =
    keep-append is_reserved (codes "/s/") key
    ∙ ap (λ t. codes "//" ++ t) (keep-All key (encode_uri_component-All key key h))

-- The key of every subforum that the server has stored stands for itself in an address: encoding does not
-- change it, the requests of getSubforum, watchSubforum and unwatchSubforum have it in their paths as it is,
-- and the address that the pages go to without encoding it has no delimiter but its own two slashes.
pub stored_key-address :
    (trim_space : Text → Text) (given key : Text) (random : Option Text)
    → stored_key trim_space given ≡ some key
    → (encode_uri_component key ≡ some key)
      × All (λ e. url_of (query random e) ≡ subforum_path e) (of_key key)
      × (delimiters (subforum_target key) ≡ codes "//")
stored_key-address trim_space given key random h =
    let fits = stored_matches trim_space given key h in
    let plain = encode-matches_key key fits in
    (plain, paths_of_key random key fits, target_delimiters key plain)
