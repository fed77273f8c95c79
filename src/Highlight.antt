-- ===== src/Highlight.antt =====
-- web/src/lib/highlightLanguages.ts: which languages a post's code blocks need, their loads, and the
-- pass over the blocks. highlight.js and the language files are parameters.
pub mod Names
pub mod Loading
pub mod Blocks
pub mod Copy
use agentforum.Base.{
  ℕ, ◌+◌, Bool, true, false, not, ◌&&◌, ◌||◌, Option, none, some, List, [], ◌∷◌, ◌++◌, map, Text,
  codes, starts_with, drop, leb, contains, ◌==◌, text_eq, if◌then◌else◌,
}

-- `languageModules`, by the names that have a loader, and `autoDetectLanguages`.
abbrev pub language_modules : List Text
language_modules =
    codes "bash"
    ∷ codes "css"
    ∷ codes "go"
    ∷ codes "javascript"
    ∷ codes "json"
    ∷ codes "markdown"
    ∷ codes "python"
    ∷ codes "sql"
    ∷ codes "typescript"
    ∷ codes "xml"
    ∷ codes "yaml"
    ∷ []

abbrev pub auto_detect_languages : List Text
auto_detect_languages =
    codes "bash"
    ∷ codes "css"
    ∷ codes "go"
    ∷ codes "javascript"
    ∷ codes "json"
    ∷ codes "markdown"
    ∷ codes "python"
    ∷ codes "sql"
    ∷ codes "typescript"
    ∷ codes "xml"
    ∷ codes "yaml"
    ∷ []

abbrev pub aliases : List (Text × Text)
aliases =
    (codes "bash", codes "bash")
    ∷ (codes "cjs", codes "javascript")
    ∷ (codes "css", codes "css")
    ∷ (codes "htm", codes "xml")
    ∷ (codes "html", codes "xml")
    ∷ (codes "javascript", codes "javascript")
    ∷ (codes "javaScript", codes "javascript")
    ∷ (codes "js", codes "javascript")
    ∷ (codes "json", codes "json")
    ∷ (codes "markdown", codes "markdown")
    ∷ (codes "md", codes "markdown")
    ∷ (codes "mjs", codes "javascript")
    ∷ (codes "py", codes "python")
    ∷ (codes "python", codes "python")
    ∷ (codes "sh", codes "bash")
    ∷ (codes "shell", codes "bash")
    ∷ (codes "sql", codes "sql")
    ∷ (codes "ts", codes "typescript")
    ∷ (codes "tsx", codes "typescript")
    ∷ (codes "typescript", codes "typescript")
    ∷ (codes "xml", codes "xml")
    ∷ (codes "xhtml", codes "xml")
    ∷ (codes "yaml", codes "yaml")
    ∷ (codes "yml", codes "yaml")
    ∷ (codes "go", codes "go")
    ∷ []

-- The members that every object inherits, as far as their names have no capital letter.
abbrev pub inherited_names : List Text
inherited_names = codes "constructor" ∷ codes "__proto__" ∷ []

-- What `aliases[requested]` gives: nothing, a language's name, or an inherited member, which is no text.
pub data Alias : Type 0 where
  missing inherited : Alias
  canonical : Text → Alias

abbrev pub find_alias : Text → List (Text × Text) → Alias
find_alias requested [] = if contains requested inherited_names then inherited else missing
find_alias requested ((from, to) ∷ rest) =
    if from == requested then canonical to else find_alias requested rest

-- `toLowerCase`; letters beyond ASCII, which no name has, are left.
unfoldable pub to_lower : Text → Text
to_lower = map (λ c. if leb b'A' c && leb c b'Z' then c + 32 else c)

abbrev pub language_class : Text → Bool
language_class name = starts_with (codes "language-") name || starts_with (codes "lang-") name

abbrev pub find_class : List Text → Option Text
find_class [] = none
find_class (name ∷ names) = if language_class name then some name else find_class names

unfoldable pub requested_of : Text → Text
unfolding to_lower
requested_of name = to_lower (drop (if starts_with (codes "language-") name then 9 else 5) name)

unfoldable pub normalize_language : List Text → Alias
unfolding requested_of
normalize_language classes = elim (find_class classes) [
  | none ↦ missing
  | some name ↦ find_alias (requested_of name) aliases
]

-- The languages that are loaded and those on their way, with the calls of the loaders so far.
pub record Loads : Type 0 where
  pub loaded : List Text
  pub pending : List Text
  pub calls : List Text

-- Whether `languageModules` has a loader for a name.
unfoldable pub loadable : Text → Bool
loadable name = contains name language_modules

-- `loadLanguage` up to the loader's answer.
unfoldable pub load_language : Text → Loads → Loads
load_language name s =
    if contains name s.loaded
    then s
    else if contains name s.pending
    then s
    else if not (loadable name)
    then s
    else record s { pending = s.pending ++ (name ∷ []); calls = s.calls ++ (name ∷ []) }

abbrev pub remove : Text → List Text → List Text
remove name [] = []
remove name (x ∷ xs) = if x == name then remove name xs else x ∷ remove name xs

-- The answer: the language is registered, or the loader has failed.
unfoldable pub settle : Text → Bool → Loads → Loads
settle name succeeded s =
    if contains name s.pending
    then record s {
      loaded = if succeeded then s.loaded ++ (name ∷ []) else s.loaded;
      pending = remove name s.pending;
    }
    else s

-- The languages of one block, and those of all; an inherited member has no loader.
abbrev pub languages_of : Alias → List Text
languages_of missing = auto_detect_languages
languages_of inherited = []
languages_of (canonical name) = name ∷ []

unfoldable pub requested_languages : List (List Text) → List Text
unfolding normalize_language
requested_languages [] = []
requested_languages (classes ∷ blocks) =
    languages_of (normalize_language classes) ++ requested_languages blocks

unfoldable pub load_all : List Text → Loads → Loads
unfolding load_language
load_all [] s = s
load_all (name ∷ names) s = load_all names (load_language name s)

-- A block's markup: as it was, in one language, or in one that highlight.js has found.
pub data Markup : Type 0 where
  plain detected : Markup
  in_language : Text → Markup

pub record Block : Type 0 where
  pub classes : List Text
  pub highlighted : Bool
  pub markup : Markup

-- The block with its markup, as the pass leaves it.
abbrev pub marked : Block → Markup → Block
marked b m = record b { highlighted = true; markup = m }

-- What the pass does to a block that it has not seen, by the alias of its class. `throws` tells whether
-- `getLanguage` throws for a value that is no text; else it finds nothing.
abbrev pub mark_block : (Text → Bool) → Bool → Block → Alias → Option Block
mark_block known throws b missing = some (marked b detected)
mark_block known throws b (canonical name) =
    some (marked b (if known name then in_language name else detected))
mark_block known throws b inherited = if throws then none else some (marked b detected)

unfoldable pub highlight_block : (Text → Bool) → Bool → Block → Option Block
unfolding normalize_language
highlight_block known throws b =
    if b.highlighted then some b else mark_block known throws b (normalize_language b.classes)

-- The pass over the blocks, which goes on from a block that does not throw; the flag tells that it threw.
abbrev pub pass_on : Block → List Block → Option Block → List Block × Bool → List Block × Bool
pass_on b bs none rest = (b ∷ bs, true)
pass_on b bs (some done) rest = (done ∷ rest.0, rest.1)

unfoldable pub highlight_blocks : (Text → Bool) → Bool → List Block → List Block × Bool
unfolding highlight_block
highlight_blocks known throws [] = ([], false)
highlight_blocks known throws (b ∷ bs) =
    pass_on b bs (highlight_block known throws b) (highlight_blocks known throws bs)
