-- ===== src/Posts/Stream/Jumps.antt =====
-- The jumps from replies to their parents.
use agentforum.Base.{
  ℕ, suc, Bool, true, false, ◌&&◌, ◌||◌, ◌⊎◌, inl, inr, Option, none, some, List, [], ◌∷◌, ◌++◌,
  ◌≡◌, refl, sym, ap, ◌∙◌, ◌*◌, Text, All, contains, ◌==◌, text_eq, and_left, and_right, drop,
  take-append-drop, Bool-cases, if◌then◌else◌,
}
use agentforum.Widgets.Values.{Value, Fields}
use agentforum.Posts.{Post, ids, QueryCache, load_pages}
use agentforum.Posts.Server.{ThreadServer}
use agentforum.Posts.Paging.{load_pages-take}
use agentforum.Posts.Stream.{Article, article, articles, jump_to, parent_of}

-- A reply comes behind its parent; the ids before are given.
abbrev pub replies_later : List Text → List Post → Bool
replies_later seen [] = true
replies_later seen (p ∷ ps) =
    (p.reply_to == [] || contains p.reply_to seen) && replies_later (p.id ∷ seen) ps

both_true : (a b c : Bool) → (a && b) ≡ true → (b ≡ true → c ≡ true) → (a && c) ≡ true
both_true true b c h f = f h
both_true false b c h f = h

or_widen : (a b c : Bool) → (a || b) ≡ true → (b ≡ true → c ≡ true) → (a || c) ≡ true
or_widen true b c h f = refl
or_widen false b c h f = f h

or_right : (a b : Bool) → b ≡ true → (a || b) ≡ true
or_right true b h = refl
or_right false b h = h

rest_of : (a b : Bool) → (a || b) ≡ true → a ≡ false → b ≡ true
rest_of true b h e = cc
rest_of false b h e = h

no_rest : (a : Bool) → (a || false) ≡ true → a ≡ false → ⊥
no_rest true h e = cc
no_rest false h e = cc

or_elim :
    (a b c : Bool) → (a || b) ≡ true → (a ≡ true → c ≡ true) → (b ≡ true → c ≡ true) → c ≡ true
or_elim true b c h f g = f refl
or_elim false b c h f g = g h

replies-append :
    (seen : List Text) (xs ys : List Post)
    → replies_later seen (xs ++ ys) ≡ true
    → replies_later seen xs ≡ true
replies-append seen [] ys h = refl
replies-append seen (x ∷ xs) ys h =
    both_true (x.reply_to == [] || contains x.reply_to seen) _ _ h
      (replies-append (x.id ∷ seen) xs ys)

-- Each reply's parent is among some posts.
abbrev HasParent : List Text → Post → Type 0
HasParent known p = (p.reply_to == [] || contains p.reply_to known) ≡ true

within_more :
    (id : Text) (more seen known : List Text)
    → ((k : Text) → contains k (id ∷ more) ≡ true → contains k known ≡ true)
    → ((k : Text) → contains k seen ≡ true → contains k known ≡ true)
    → (k : Text) → contains k (id ∷ seen) ≡ true
    → contains k known ≡ true
within_more id more seen known v w k h =
    or_elim (id == k) (contains k seen) (contains k known) h
      (λ e. v k (ap (λ b. b || contains k more) e)) (w k)

-- What is known holds what was seen and the ids of the posts.
abbrev Within : List Text → List Text → Type 0
Within seen known = (k : Text) → contains k seen ≡ true → contains k known ≡ true

widen :
    (seen known : List Text) (p : Post) → Within seen known → HasParent seen p → HasParent known p
widen seen known p w h = or_widen (p.reply_to == []) (contains p.reply_to seen) _ h (w p.reply_to)

replies-HasParent :
    (seen known : List Text) (ps : List Post)
    → Within seen known
    → Within (ids ps) known
    → replies_later seen ps ≡ true
    → All (HasParent known) ps
replies-HasParent seen known [] w v h = tt
replies-HasParent seen known (p ∷ ps) w v h = (
  widen seen known p w (and_left _ _ h),
  replies-HasParent (p.id ∷ seen) known ps (within_more p.id (ids ps) seen known v w)
      (λ k e. v k (or_right (p.id == k) _ e))
      (and_right (p.reply_to == [] || contains p.reply_to seen) _ h),
)

-- An article of the id is found among those of posts that have it.
module _ (stringify : Value → Text) (metadata : Post → Option Fields) where
  abbrev pub Lands : List Post → Text → Type 0
  Lands posts id =
      (a : Article) × (jump_to id (articles stringify metadata posts) ≡ some a)
      × (a.answers_to ≡ id)

  found_or :
      (id : Text) (test : Bool) (first : Article) (later : Option Article)
      → (test ≡ true → first.answers_to ≡ id)
      → (test ≡ false → (b : Article) × (later ≡ some b) × (b.answers_to ≡ id))
      → (b : Article) × ((if test then some first else later) ≡ some b) × (b.answers_to ≡ id)
  found_or id true first later f g = (first, refl, f refl)
  found_or id false first later f g = g refl

  Lands-contains : (posts : List Post) (id : Text) → contains id (ids posts) ≡ true → Lands posts id
  unfolding articles article jump_to
  Lands-contains [] id h = cc
  Lands-contains (p ∷ []) id h =
      found_or id (p.id == id) (article stringify false p (metadata p)) none
        ((text_eq.same_iff p.id id).0) (λ e. absurd (no_rest (p.id == id) h e))
  Lands-contains (p ∷ q ∷ ps) id h =
      found_or id (p.id == id) (article stringify true p (metadata p)) _
        ((text_eq.same_iff p.id id).0)
        (λ e. Lands-contains (q ∷ ps) id (rest_of (p.id == id) _ h e))

  -- The article of a post that is no reply has no button. That of a reply has one, whose click lands on an
  -- article of the post that is answered.
  abbrev pub Jumps : List Post → Post → Article → Type 0
  Jumps posts p a =
      ((p.reply_to ≡ []) × (a.parent ≡ none))
      ⊎ ((target : Text) × (a.parent ≡ some target)
          × (b : Article) × (jump_to target (articles stringify metadata posts) ≡ some b)
          × (b.answers_to ≡ p.reply_to))

  -- The articles are those of the posts, one for each and in their order, and each of them jumps.
  abbrev pub AllJump : List Post → List Post → List Article → Type 0
  AllJump posts [] [] = Unit
  AllJump posts (p ∷ ps) (a ∷ found) =
      (a.answers_to ≡ p.id) × Jumps posts p a × AllJump posts ps found
  AllJump posts _ _ = ⊥

  parent_of-none : (t : Text) → t ≡ [] → parent_of t ≡ none
  parent_of-none [] h = refl
  parent_of-none (c ∷ t) h = cc

  parent_of-some : (t : Text) → (t == []) ≡ false → parent_of t ≡ some t
  parent_of-some [] h = cc
  parent_of-some (c ∷ t) h = refl

  HasParent-Jumps :
      (posts : List Post) (divided : Bool) (p : Post)
      → HasParent (ids posts) p
      → Jumps posts p (article stringify divided p (metadata p))
  unfolding article
  HasParent-Jumps posts divided p h = elim (Bool-cases (p.reply_to == [])) [
    | inl e ↦
        let empty = (text_eq.same_iff p.reply_to []).0 e in
        inl (empty, parent_of-none p.reply_to empty)
    | inr e ↦
        let (b, found, same) = Lands-contains posts p.reply_to (rest_of (p.reply_to == []) _ h e) in
        inr (p.reply_to, parent_of-some p.reply_to e, b, found, same)
  ]

  articles-AllJump :
      (posts ps : List Post)
      → All (HasParent (ids posts)) ps
      → AllJump posts ps (articles stringify metadata ps)
  unfolding articles article
  articles-AllJump posts [] h = tt
  articles-AllJump posts (p ∷ []) (h, hs) = (refl, HasParent-Jumps posts false p h, tt)
  articles-AllJump posts (p ∷ q ∷ ps) (h, hs) =
      (refl, HasParent-Jumps posts true p h, articles-AllJump posts (q ∷ ps) hs)

  -- If on the server each reply of a thread comes behind its parent, then after the first page and any number
  -- of clicks on "Load more posts", there is an article for each post that is shown, in their order. That of a
  -- reply has a button for its parent, whose click lands on an article of the post that is answered; and that
  -- of a post that is no reply has no such button.
  pub load_pages-Jumps :
      (cache : QueryCache) {thread : Text} (server : ThreadServer thread) (n : ℕ)
      → replies_later [] server.all_posts ≡ true
      → AllJump
          (load_pages cache server.serve thread n).posts
          (load_pages cache server.serve thread n).posts
          (articles stringify metadata (load_pages cache server.serve thread n).posts)
  load_pages-Jumps cache {thread} server n h =
      let posts = (load_pages cache server.serve thread n).posts in
      let (first, _) = load_pages-take cache server n in
      let rest = drop (50 * suc n) server.all_posts in
      let whole : server.all_posts ≡ posts ++ rest =
        sym (take-append-drop (50 * suc n) server.all_posts) ∙ ap (λ ps. ps ++ rest) (sym first) in
      articles-AllJump posts posts (
        replies-HasParent [] (ids posts) posts (λ k e. cc) (λ k e. e)
          (replies-append [] posts rest (sym (ap (replies_later []) whole) ∙ h)))
