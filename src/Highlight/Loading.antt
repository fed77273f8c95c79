-- ===== src/Highlight/Loading.antt =====
-- The loads of languages over requests and answers in any order.
use mathlib.Core.Path.{subst}
use agentforum.Base.{
  and_left, and_right, either_branch, Bool, true, false, not, ◌&&◌, ◌||◌, List, [], ◌∷◌, ◌++◌, ◌≡◌,
  refl, sym, arith, Text, all, contains, contains-append, contains-of-==, distinct, distinct-append,
  ◌==◌, ==_refl, ==_comm, ==_congr, text_eq, Bool-cases, inl, inr, if_true, if_false,
}
use agentforum.Highlight.{
  requested_languages, loadable, Loads, load_language, remove, settle, load_all,
}
use agentforum.Highlight.Names.{requested_languages-loadable}

-- A caller asks for a language, or a loader answers.
pub data LoadEvent : Type 0 where
  asked : Text → LoadEvent
  answered : Text → Bool → LoadEvent

unfoldable pub load_step : Loads → LoadEvent → Loads
unfolding load_language settle
load_step s (asked name) = load_language name s
load_step s (answered name succeeded) = settle name succeeded s

unfoldable pub load_steps : Loads → List LoadEvent → Loads
unfolding load_step
load_steps s [] = s
load_steps s (e ∷ es) = load_steps (load_step s e) es

abbrev pub succeeds : LoadEvent → Bool
succeeds (asked name) = true
succeeds (answered name succeeded) = succeeded

abbrev pub nothing_loaded : Loads
nothing_loaded = record { loaded = []; pending = []; calls = [] }

-- A loader has been called once for each language that is loaded or on its way, and for no other.
pub record CalledOnce (s : Loads) : Type 0 where
  pub once : distinct s.calls ≡ true
  pub called :
      (name : Text) → contains name s.calls ≡ (contains name s.loaded || contains name s.pending)

contains-remove :
    (name x : Text) (xs : List Text)
    → contains x (remove name xs) ≡ (contains x xs && not (x == name))
contains-remove name x [] = refl
contains-remove name x (y ∷ ys) = ground (arith, contains-remove name x ys, ==_congr y x name)

-- The state in which a loader has just been called.
abbrev called_for : Text → Loads → Loads
called_for name s = record s { pending = s.pending ++ (name ∷ []); calls = s.calls ++ (name ∷ []) }

called_for-CalledOnce :
    (name : Text) (s : Loads)
    → contains name s.loaded ≡ false
    → contains name s.pending ≡ false
    → CalledOnce s
    → CalledOnce (called_for name s)
called_for-CalledOnce name s new idle h = record {
  once = distinct-append s.calls (name ∷ []) h.once refl (λ k m.
      ground (arith, m, h.called k, h.called name, new, idle, contains-of-== name k s.calls));
  called = λ x. ground (
    arith,
    h.called x,
    contains-append x s.calls (name ∷ []),
    contains-append x s.pending (name ∷ []),
  );
}

load_language-CalledOnce :
    (name : Text) (s : Loads) → CalledOnce s → CalledOnce (load_language name s)
unfolding load_language
load_language-CalledOnce name s h = elim (Bool-cases (contains name s.loaded)) [
  | inl e ↦ subst CalledOnce (sym (if_true _ _ e)) h
  | inr new ↦
      subst CalledOnce (sym (if_false _ _ new)) (elim (Bool-cases (contains name s.pending)) [
        | inl e ↦ subst CalledOnce (sym (if_true _ _ e)) h
        | inr idle ↦ subst CalledOnce (sym (if_false _ _ idle)) (
            either_branch CalledOnce (not (loadable name)) h
              (called_for-CalledOnce name s new idle h))
      ])
]

-- The state in which a loader has just succeeded.
abbrev loaded_by : Text → Loads → Loads
loaded_by name s = record s { loaded = s.loaded ++ (name ∷ []); pending = remove name s.pending }

loaded_by-CalledOnce :
    (name : Text) (s : Loads)
    → contains name s.pending ≡ true
    → CalledOnce s
    → CalledOnce (loaded_by name s)
loaded_by-CalledOnce name s e h = record {
  once = h.once;
  called = λ x. ground (
    arith,
    h.called x,
    contains-append x s.loaded (name ∷ []),
    contains-remove name x s.pending,
    ==_comm name x,
    contains-of-== x name s.pending,
  );
}

settle-CalledOnce : (name : Text) (s : Loads) → CalledOnce s → CalledOnce (settle name true s)
unfolding settle
settle-CalledOnce name s h = elim (Bool-cases (contains name s.pending)) [
  | inl e ↦
      subst CalledOnce (sym (if_true (loaded_by name s) s e)) (loaded_by-CalledOnce name s e h)
  | inr e ↦ subst CalledOnce (sym (if_false (loaded_by name s) s e)) h
]

load_step-CalledOnce :
    (s : Loads) (e : LoadEvent) → succeeds e ≡ true → CalledOnce s → CalledOnce (load_step s e)
unfolding load_step
load_step-CalledOnce s (asked name) k h = load_language-CalledOnce name s h
load_step-CalledOnce s (answered name true) k h = settle-CalledOnce name s h
load_step-CalledOnce s (answered name false) k h = cc

-- However the requests of posts and the answers of loaders come, if none fails, it stays so that no
-- loader is called twice, and one has been called exactly for the languages that are loaded or on their
-- way.
pub load_steps-CalledOnce :
    (s : Loads) (es : List LoadEvent)
    → all succeeds es ≡ true
    → CalledOnce s
    → CalledOnce (load_steps s es)
unfolding load_steps
load_steps-CalledOnce s [] k h = h
load_steps-CalledOnce s (e ∷ es) k h =
    load_steps-CalledOnce (load_step s e) es (ground arith)
      (load_step-CalledOnce s e (ground arith) h)

-- What a caller has asked for is loaded or on its way.
abbrev pub Wanted : Text → Loads → Type 0
Wanted name s = (contains name s.loaded || contains name s.pending) ≡ true

load_language-Wanted :
    (name : Text) (s : Loads) → loadable name ≡ true → Wanted name (load_language name s)
unfolding load_language
load_language-Wanted name s h =
    ground (arith, h, contains-append name s.pending (name ∷ []), ==_refl name)

called_for-keeps :
    (name other : Text) (s : Loads) → Wanted other s → Wanted other (called_for name s)
called_for-keeps name other s h = ground (arith, h, contains-append other s.pending (name ∷ []))

load_language-keeps :
    (name other : Text) (s : Loads) → Wanted other s → Wanted other (load_language name s)
unfolding load_language
load_language-keeps name other s h = either_branch (Wanted other) (contains name s.loaded) h (
    either_branch (Wanted other) (contains name s.pending) h
      (either_branch (Wanted other) (not (loadable name)) h (called_for-keeps name other s h)))

-- A language that is the same as the one asked for is wanted too.
load_language-Wanted_same :
    (n name : Text) (s : Loads) → loadable n ≡ true → n ≡ name → Wanted name (load_language n s)
load_language-Wanted_same n name s h e =
    subst (λ k. Wanted k (load_language n s)) e (load_language-Wanted n s h)

load_all-keeps :
    (names : List Text) (other : Text) (s : Loads)
    → Wanted other s
    → Wanted other (load_all names s)
unfolding load_all
load_all-keeps [] other s h = h
load_all-keeps (name ∷ names) other s h =
    load_all-keeps names other (load_language name s) (load_language-keeps name other s h)

or_right : (a b : Bool) → a ≡ false → (a || b) ≡ true → b ≡ true
or_right true b e h = cc
or_right false b e h = h

load_all-Wanted :
    (names : List Text) (s : Loads) (name : Text)
    → all loadable names ≡ true
    → contains name names ≡ true
    → Wanted name (load_all names s)
unfolding load_all
load_all-Wanted [] s name h m = cc
load_all-Wanted (n ∷ names) s name h m = elim (Bool-cases (n == name)) [
  | inl e ↦ load_all-keeps names name (load_language n s) (
      load_language-Wanted_same n name s (and_left (loadable n) _ h)
        ((text_eq.same_iff n name).0 e))
  | inr e ↦
      load_all-Wanted names (load_language n s) name (and_right (loadable n) _ h)
        (or_right (n == name) (contains name names) e m)
]

-- Once a post has asked for its languages, whatever has been loaded before, every language that its blocks
-- need is loaded or on its way: each has a loader.
pub load_all-requested_languages :
    (blocks : List (List Text)) (s : Loads) (name : Text)
    → contains name (requested_languages blocks) ≡ true
    → Wanted name (load_all (requested_languages blocks) s)
load_all-requested_languages blocks s name =
    load_all-Wanted (requested_languages blocks) s name (requested_languages-loadable blocks)
