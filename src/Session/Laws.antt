-- ===== src/Session/Laws.antt =====
-- What the token's slot can hold, and what each part of the program does to it.
use mathlib.Core.Option
use agentforum.Base.{
  ℕ, nat_eq, Bool, true, false, not, ◌&&◌, ◌||◌, Bool-cases, Option, none, some, List, map, [], ◌∷◌,
  ◌≡◌, ◌⊎◌, inl, inr, refl, ap, ◌∙◌, Text, trim, ◌==◌, text_eq, if◌then◌else◌, either_branch,
}
use agentforum.Storage.{Storage, get_item}
use agentforum.Storage.Laws.{get_item-set_item, get_item-remove_item}
use agentforum.Session.Token.{token_key, get_token, token_re, set_token, clear_token}
use agentforum.Session.Gate.{MeQuery, status_is, unauthorized, has_token, app}
use agentforum.Session.Register.{Registration, registered, refused, RegisterForm, receive, submit}

-- The token of an answer, if it is one that the guard lets through.
abbrev pub accepted : Option Text → Bool
accepted none = false
accepted (some token) = token_re token

abbrev pub or_else : Option Text → Text → Text
or_else none d = d
or_else (some t) d = t

-- `setToken` stores a token that matches the pattern, and leaves the slot as it is for any other
-- value; no other slot changes.
set_token_lem :
    (token : Option Text) (s : Storage)
    → (get_token (set_token token s) ≡ (if accepted token then or_else token [] else get_token s))
      × ((key : Text)
          → (token_key == key) ≡ false
          → get_item key (set_token token s) ≡ get_item key s)
unfolding set_token get_token
set_token_lem none s = (refl, λ key h. refl)
set_token_lem (some token) s = elim (Bool-cases (token_re token)) [
  | inl e ↦ rw e (
    ap (λ o. Option.get_or o []) (get_item-set_item token_key token_key token s),
    λ key h. get_item-set_item token_key key token s ∙ rw h,
  )
  | inr e ↦ rw e (refl, λ key h. refl)
]

-- `clearToken` empties the slot of the token, and no other.
pub clear_token_lem :
    (s : Storage)
    → (get_token (clear_token s) ≡ [])
      × ((key : Text) → (token_key == key) ≡ false → get_item key (clear_token s) ≡ get_item key s)
unfolding clear_token get_token
clear_token_lem s = (
  ap (λ o. Option.get_or o []) (get_item-remove_item token_key token_key s),
  λ key h. get_item-remove_item token_key key s ∙ rw h,
)

-- The slot holds nothing, or a token that matches the pattern.
abbrev pub IsSigned : Storage → Type 0
IsSigned s = (get_token s ≡ []) ⊎ (token_re (get_token s) ≡ true)

set_token-IsSigned : (token : Option Text) (s : Storage) → IsSigned s → IsSigned (set_token token s)
set_token-IsSigned none s h = unfold set_token in h
set_token-IsSigned (some token) s h = elim (Bool-cases (token_re token)) [
  | inl e ↦
      let stored : get_token (set_token (some token) s) ≡ token =
        (set_token_lem (some token) s).0 ∙ rw e in
      rw stored (inr e)
  | inr e ↦ unfold set_token in rw e h
]

clear_token-IsSigned : (s : Storage) → IsSigned (clear_token s)
clear_token-IsSigned s = inl (clear_token_lem s).0

-- A rendering drops the token exactly when the query answers 401, and changes no other slot.
app-get_token :
    (use_get_me : Bool → MeQuery) (s : Storage)
    → get_token (app use_get_me s).0
      ≡ (if unauthorized (use_get_me (not (has_token s))) then [] else get_token s)
unfolding app
app-get_token use_get_me s = elim (Bool-cases (unauthorized (use_get_me (not (has_token s))))) [
  | inl e ↦ rw e (clear_token_lem s).0
  | inr e ↦ rw e
]

-- What happens to the token over time: a rendering of `App`, with what the query hook answers; a
-- registration, with what the server answers; a click on the button that forgets the token.
pub data Happening : Type 0 where
  rendered : (Bool → MeQuery) → Happening
  registers : (Text → Registration) → RegisterForm → Happening
  forgets : Happening

abbrev pub happen : Happening → Storage → Storage
happen (rendered use_get_me) s = (app use_get_me s).0
happen (registers register form) s = (submit register form s).1
happen forgets s = clear_token s

abbrev pub happen_all : List Happening → Storage → Storage
happen_all [] s = s
happen_all (h ∷ hs) s = happen_all hs (happen h s)

receive-IsSigned :
    (answer : Registration) (form : RegisterForm) (s : Storage)
    → IsSigned s
    → IsSigned (receive answer form s).1
unfolding receive
receive-IsSigned (registered token) form s h = set_token-IsSigned token s h
receive-IsSigned (refused status message) form s h = h

happen-IsSigned : (h : Happening) (s : Storage) → IsSigned s → IsSigned (happen h s)
unfolding app submit
happen-IsSigned (rendered use_get_me) s h =
    elim (Bool-cases (unauthorized (use_get_me (not (has_token s))))) [
      | inl e ↦ rw e (clear_token-IsSigned s)
      | inr e ↦ rw e h
    ]
happen-IsSigned (registers register form) s h = receive-IsSigned (register (trim form.name)) _ s h
happen-IsSigned forgets s h = clear_token-IsSigned s

-- Whatever the server and the query hook answer, and in whatever order things happen, the slot holds
-- nothing or a token that matches the pattern.
pub happen_all-IsSigned :
    (hs : List Happening) (s : Storage) → IsSigned s → IsSigned (happen_all hs s)
happen_all-IsSigned [] s h = h
happen_all-IsSigned (x ∷ xs) s h = happen_all-IsSigned xs (happen x s) (happen-IsSigned x s h)

abbrev pub renders : List (Bool → MeQuery) → List Happening
renders = map rendered

-- An answer is an error with the status 401, and no other.
abbrev pub is_401 : Bool → Option ℕ → Bool
is_401 true (some status) = status == 401
is_401 _ _ = false

-- A rendering of one of the hooks is answered by 401, if it sends its request.
abbrev pub refuses : List (Bool → MeQuery) → Bool
refuses [] = false
refuses (u ∷ us) = is_401 (u false).is_error (u false).status || refuses us

and_status : (b : Bool) (o : Option ℕ) → (b && status_is 401 o) ≡ is_401 b o
and_status true none = refl
and_status true (some n) = refl
and_status false none = refl
and_status false (some n) = refl

unauthorized-is_401 : (q : MeQuery) → unauthorized q ≡ is_401 q.is_error q.status
unfolding unauthorized
unauthorized-is_401 q = and_status q.is_error q.status

renders_empty :
    (hooks : List (Bool → MeQuery)) (s : Storage)
    → get_token s ≡ []
    → get_token (happen_all (renders hooks) s) ≡ []
renders_empty [] s h = h
renders_empty (u ∷ us) s h =
    renders_empty us (app u s).0 (
      app-get_token u s ∙ either_branch (λ t. t ≡ []) (unauthorized (u (not (has_token s)))) refl h)

renders_signed :
    (hooks : List (Bool → MeQuery)) (s : Storage)
    → (get_token s == []) ≡ false
    → get_token (happen_all (renders hooks) s) ≡ (if refuses hooks then [] else get_token s)
renders_signed [] s e = refl
renders_signed (u ∷ us) s e =
    let after : get_token (app u s).0
        ≡ (if is_401 (u false).is_error (u false).status then [] else get_token s) =
      app-get_token u s
      ∙ ap (λ b. if unauthorized (u (not (not b))) then [] else get_token s) e
      ∙ ap (λ b. if b then [] else get_token s) (unauthorized-is_401 (u false)) in
    elim (Bool-cases (is_401 (u false).is_error (u false).status)) [
      | inl rejects ↦ renders_empty us (app u s).0 (after ∙ rw rejects) ∙ rw rejects
      | inr accepts ↦
          let same : get_token (app u s).0 ≡ get_token s = after ∙ rw accepts in
          renders_signed us (app u s).0 (ap (λ t. t == []) same ∙ e)
          ∙ ap (λ t. if refuses us then [] else t) same
          ∙ rw accepts
    ]

nonempty-token_re : (token : Text) → token_re token ≡ true → (token == []) ≡ false
unfolding token_re
nonempty-token_re [] h = cc
nonempty-token_re (c ∷ t) h = refl

-- A login lasts through any renderings until a request of one is answered by 401. If the answer to a
-- registration has a token that matches the pattern, then, whatever the storage held before, after any
-- renderings that follow the slot holds that token, if no hook of theirs answers its request by 401; and
-- else it is empty, however many more renderings come.
pub login_lasts :
    (register : Text → Registration) (form : RegisterForm) (hooks : List (Bool → MeQuery))
    (s : Storage) (token : Text)
    → register (trim form.name) ≡ registered (some token)
    → token_re token ≡ true
    → get_token (happen_all (registers register form ∷ renders hooks) s)
      ≡ (if refuses hooks then [] else token)
unfolding submit receive
login_lasts register form hooks s token answer fits =
    let start : happen (registers register form) s ≡ set_token (some token) s =
      ap (λ r. (receive r (record form { error = none }) s).1) answer in
    let stored : get_token (happen (registers register form) s) ≡ token =
      ap get_token start ∙ (set_token_lem (some token) s).0 ∙ rw fits in
    renders_signed hooks (happen (registers register form) s)
      (ap (λ t. t == []) stored ∙ nonempty-token_re token fits)
    ∙ ap (λ t. if refuses hooks then [] else t) stored
