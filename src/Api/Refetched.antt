-- ===== src/Api/Refetched.antt =====
-- What a write makes RTK Query fetch again: what the answer of each endpoint holds and what each write changes
-- on the server, as the messages of the API say, against the tags of web/src/store/forumApi.ts.
use mathlib.Core.Path.{subst}
use agentforum.Base.{
  sym, ap, ◌∙◌, ℕ, Bool, true, false, not, Bool-cases, ◌||◌, ◌⊎◌, inl, inr, List, [], ◌∷◌, map, ◌≡◌,
  ◌≢◌, refl, arith, All, contains, contains-of-==, nat_eq,
}
use agentforum.Api.{
  Tag, agent_tag, subforum_tag, thread_tag, post_tag, event_tag, Endpoint, register, get_me,
  list_subforums, list_threads, list_posts, get_thread, create_thread, create_post, watch_thread,
  unwatch_thread, get_subforum, watch_subforum, unwatch_subforum, update_me, poll_events, get_agent,
  search, provides_tags, invalidates_tags, CreateThread,
}

-- What the pages show.
pub data Shown : Type 0 where
  agents subforum_watches thread_counts threads posts events : Shown

unfoldable pub shown_by : Endpoint → List Shown
shown_by get_me = agents ∷ []
shown_by (get_agent name) = agents ∷ []
shown_by list_subforums = subforum_watches ∷ thread_counts ∷ []
shown_by (get_subforum key) = subforum_watches ∷ thread_counts ∷ []
shown_by (list_threads subforum watching participating) = threads ∷ []
shown_by (get_thread thread) = threads ∷ []
shown_by (list_posts thread after) = posts ∷ []
shown_by (poll_events cursor wait) = events ∷ []
shown_by (search p) = threads ∷ posts ∷ []
shown_by e = []

-- The endpoints whose answers no tag stands for: the hits of a search and a batch of events.
unfoldable pub is_untagged : Endpoint → Bool
is_untagged (poll_events cursor wait) = true
is_untagged (search p) = true
is_untagged e = false

unfoldable pub changed_by : Endpoint → List Shown
changed_by (register name) = agents ∷ []
changed_by (update_me metadata) = agents ∷ []
changed_by (create_thread p) = threads ∷ posts ∷ events ∷ thread_counts ∷ []
changed_by (create_post thread body reply_to) = threads ∷ posts ∷ events ∷ []
changed_by (watch_thread thread) = threads ∷ []
changed_by (unwatch_thread thread) = threads ∷ []
changed_by (watch_subforum key) = subforum_watches ∷ []
changed_by (unwatch_subforum key) = subforum_watches ∷ []
changed_by e = []

abbrev tag_number : Tag → ℕ
tag_number agent_tag = 0
tag_number subforum_tag = 1
tag_number thread_tag = 2
tag_number post_tag = 3
tag_number event_tag = 4

abbrev meet : List ℕ → List ℕ → Bool
meet [] ys = false
meet (x ∷ xs) ys = contains x ys || meet xs ys

-- A query is fetched again where a tag that it provides is invalidated.
unfoldable pub fetched_again : Endpoint → Endpoint → Bool
unfolding provides_tags invalidates_tags
fetched_again write read =
    meet (map tag_number (invalidates_tags write)) (map tag_number (provides_tags read))

meet-contains :
    (k : ℕ) (xs ys : List ℕ) → contains k xs ≡ true → contains k ys ≡ true → meet xs ys ≡ true
meet-contains k [] ys h h' = cc
meet-contains k (x ∷ xs) ys h h' = ground (arith, contains-of-== x k ys, meet-contains k xs ys)

-- The tag that stands for what is shown.
abbrev tag_for : Shown → ℕ
tag_for agents = 0
tag_for subforum_watches = 1
tag_for thread_counts = 1
tag_for threads = 2
tag_for posts = 3
tag_for events = 4

abbrev Provided : Endpoint → Shown → Type 0
Provided read x =
    is_untagged read ≡ false → contains (tag_for x) (map tag_number (provides_tags read)) ≡ true

abbrev Invalidated : Endpoint → Shown → Type 0
Invalidated write x =
    (x ≡ thread_counts) ⊎ (contains (tag_for x) (map tag_number (invalidates_tags write)) ≡ true)

shown_by-Provided : (read : Endpoint) → All (Provided read) (shown_by read)
unfolding shown_by provides_tags is_untagged
shown_by-Provided get_me = (λ t. refl, tt)
shown_by-Provided (get_agent name) = (λ t. refl, tt)
shown_by-Provided list_subforums = (λ t. refl, (λ t. refl, tt))
shown_by-Provided (get_subforum key) = (λ t. refl, (λ t. refl, tt))
shown_by-Provided (list_threads subforum watching participating) = (λ t. refl, tt)
shown_by-Provided (get_thread thread) = (λ t. refl, tt)
shown_by-Provided (list_posts thread after) = (λ t. refl, tt)
shown_by-Provided (poll_events cursor wait) = (λ t. cc t, tt)
shown_by-Provided (search p) = (λ t. cc t, (λ t. cc t, tt))
shown_by-Provided e = tt

changed_by-Invalidated : (write : Endpoint) → All (Invalidated write) (changed_by write)
unfolding changed_by invalidates_tags
changed_by-Invalidated (register name) = (inr refl, tt)
changed_by-Invalidated (update_me metadata) = (inr refl, tt)
changed_by-Invalidated (create_thread p) = (inr refl, (inr refl, (inr refl, (inl refl, tt))))
changed_by-Invalidated (create_post thread body reply_to) = (inr refl, (inr refl, (inr refl, tt)))
changed_by-Invalidated (watch_thread thread) = (inr refl, tt)
changed_by-Invalidated (unwatch_thread thread) = (inr refl, tt)
changed_by-Invalidated (watch_subforum key) = (inr refl, tt)
changed_by-Invalidated (unwatch_subforum key) = (inr refl, tt)
changed_by-Invalidated e = tt

-- Membership in a list.
abbrev pub Among : Shown → List Shown → Type 0
Among x [] = ⊥
Among x (y ∷ ys) = (x ≡ y) ⊎ Among x ys

All-Among : (P : Shown → Type 0) (xs : List Shown) (x : Shown) → All P xs → Among x xs → P x
All-Among P [] x all_hold m = elim m [ ]
All-Among P (y ∷ ys) x (p, ps) (inl e) = subst P (sym e) p
All-Among P (y ∷ ys) x (p, ps) (inr m) = All-Among P ys x ps m

meet-none : (xs : List ℕ) → meet xs [] ≡ false
meet-none [] = refl
meet-none (x ∷ xs) = meet-none xs

untagged-fetched_again :
    (write read : Endpoint) → is_untagged read ≡ true → fetched_again write read ≡ false
unfolding fetched_again is_untagged provides_tags
untagged-fetched_again write (poll_events cursor wait) h =
    meet-none (map tag_number (invalidates_tags write))
untagged-fetched_again write (search p) h = meet-none (map tag_number (invalidates_tags write))
untagged-fetched_again write read h = cc

-- If a write changes something that a query shows, other than the number of threads in a subforum, the query is
-- fetched again, unless it is a search or a poll for events; and those two are never fetched again, though they
-- show threads, posts and events that writes change.
pub fetched_again-Among :
    (write read : Endpoint) (x : Shown)
    → Among x (changed_by write)
    → Among x (shown_by read)
    → x ≢ thread_counts
    → fetched_again write read ≡ not (is_untagged read)
unfolding fetched_again
fetched_again-Among write read x changed shown other = elim (Bool-cases (is_untagged read)) [
  | inl e ↦ untagged-fetched_again write read e ∙ sym (ap not e)
  | inr e ↦
      elim (All-Among (Invalidated write) (changed_by write) x (changed_by-Invalidated write)
        changed) [
          | inl counts ↦ absurd (other counts)
          | inr invalid ↦
              meet-contains (tag_for x) _ _ invalid
                (All-Among (Provided read) (shown_by read) x (shown_by-Provided read) shown e)
              ∙ sym (ap not e)
        ]
]

-- A new thread changes the number of threads in a subforum, and no query that shows it is fetched again.
create_thread-stale :
    (p : CreateThread) (read : Endpoint)
    → Among thread_counts (shown_by read)
    → Among thread_counts (changed_by (create_thread p))
      × (fetched_again (create_thread p) read ≡ false)
unfolding fetched_again shown_by changed_by provides_tags invalidates_tags
create_thread-stale p (list_threads subforum watching participating) h = elim h [
  | inl e ↦ absurd (cc e)
  | inr none_else ↦ absurd none_else
]
create_thread-stale p (get_thread thread) h = elim h [
  | inl e ↦ absurd (cc e)
  | inr none_else ↦ absurd none_else
]
create_thread-stale p (list_posts thread after) h = elim h [
  | inl e ↦ absurd (cc e)
  | inr none_else ↦ absurd none_else
]
create_thread-stale p read h = (inr (inr (inr (inl refl))), refl)
