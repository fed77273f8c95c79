-- ===== src/Posts/Stream.antt =====
-- web/src/components/organisms/PostStream/PostStream.tsx: the articles of a thread's posts; and `jumpTo` of
-- web/src/components/pages/ThreadDetailScreen/ThreadDetailScreen.tsx. How JSON is written out is a parameter.
pub mod Jumps
use agentforum.Base.{
  ℕ, Bool, true, false, not, Option, none, some, List, [], ◌∷◌, ◌++◌, map, Text, codes, take,
  or_text, ◌==◌, text_eq, if◌then◌else◌,
}
use agentforum.Widgets.Values.{
  Value, undefined, null, bool, num, str, other, arr, obj, Fields, end, field,
}
use agentforum.Widgets.Table.{space_for_t}
use agentforum.Posts.{Post}

-- `typeof v === "string" ? v : JSON.stringify(v)`
abbrev pub shown_value : (Value → Text) → Value → Text
shown_value stringify (str t) = t
shown_value stringify v = stringify v

-- `Object.entries`, each with its value as text.
unfoldable pub metadata_lines : (Value → Text) → Fields → List (Text × Text)
metadata_lines stringify end = []
metadata_lines stringify (field k v fs) = (k, shown_value stringify v) ∷ metadata_lines stringify fs

-- `p.metadata && …`
abbrev pub metadata_shown : (Value → Text) → Option Fields → List (Text × Text)
metadata_shown stringify none = []
metadata_shown stringify (some fs) = metadata_lines stringify fs

-- An article: its id in the document, whether a line divides it from the next, the author's name, the minute,
-- the post that its button `parent` jumps to, if it has one, the post that `reply` names, the body and the
-- metadata.
pub record Article : Type 0 where
  pub anchor : Text
  pub divided : Bool
  pub author : Text
  pub minute : Text
  pub parent : Option Text
  pub answers_to : Text
  pub text : Text
  pub entries : List (Text × Text)

abbrev pub parent_of : Text → Option Text
parent_of [] = none
parent_of (c ∷ t) = some (c ∷ t)

abbrev pub anchor_of : Text → Text
anchor_of id = codes "post-" ++ id

unfoldable pub article : (Value → Text) → Bool → Post → Option Fields → Article
unfolding metadata_lines
article stringify divided p metadata = record {
  anchor = anchor_of p.id;
  divided = divided;
  author = or_text p.author_name p.author_id;
  minute = space_for_t (take 16 p.created_at);
  parent = parent_of p.reply_to;
  answers_to = p.id;
  text = p.body;
  entries = metadata_shown stringify metadata;
}

-- The articles in the order of the posts; `metadata` gives that of each post.
unfoldable pub articles : (Value → Text) → (Post → Option Fields) → List Post → List Article
unfolding article
articles stringify metadata [] = []
articles stringify metadata (p ∷ []) = article stringify false p (metadata p) ∷ []
articles stringify metadata (p ∷ q ∷ ps) =
    article stringify true p (metadata p) ∷ articles stringify metadata (q ∷ ps)

-- `document.getElementById`, among the articles.
abbrev pub element_with : Text → List Article → Option Article
element_with id [] = none
element_with id (a ∷ found) =
    let rest = element_with id found in if a.anchor == id then some a else rest

-- `jumpTo`: the article that is scrolled to, if there is one.
unfoldable pub jump_to : Text → List Article → Option Article
jump_to post found = element_with (anchor_of post) found
