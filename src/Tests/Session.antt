-- ===== src/Tests/Session.antt =====
-- The token and the gate at concrete inputs; the first test is that of web/src/store/forumApi.test.ts.
use agentforum.Base.{
  Bool, true, false, none, some, [], ◌∷◌, ◌≡◌, refl, inr, Text, codes, trim, if◌then◌else◌, ◌==◌,
  text_eq,
}
use agentforum.Storage.{Storage, get_item, set_item, remove_item}
use agentforum.Session.Token.{token_key, get_token, token_re, set_token, clear_token}
use agentforum.Session.Gate.{MeQuery, app, register_screen}
use agentforum.Session.Register.{Registration, registered, refused, RegisterForm, submit}
use agentforum.Session.Laws.{
  rendered, registers, forgets, happen_all, IsSigned, happen_all-IsSigned, renders, refuses,
  login_lasts,
}

session : Unit {0}
unfolding get_token set_token token_re clear_token get_item set_item remove_item app submit
session = tt

guarded :
    (get_token (set_token (some (codes "undefined")) (set_token (some (codes "af_")) [])) ≡ [])
    × (get_token (set_token (some (codes "af_probe_ok")) []) ≡ codes "af_probe_ok")
    × (get_token (set_token (some (codes "af_a b")) []) ≡ [])
unfolding session
guarded = (refl, refl, refl)

abbrev nobody : MeQuery
nobody = record { me = none; is_loading = false; is_error = false; status = none }

abbrev rejected : MeQuery
rejected = record { me = none; is_loading = false; is_error = true; status = some 401 }

-- A query hook that is skipped with no token, and else answered by 401.
abbrev stale : Bool → MeQuery
stale true = nobody
stale false = rejected

abbrev signed : Storage
signed = (token_key, codes "af_old") ∷ (codes "theme", codes "dark") ∷ []

gate_runs :
    (app stale signed ≡ ((codes "theme", codes "dark") ∷ [], register_screen))
    × (app stale [] ≡ ([], register_screen))
unfolding session
gate_runs = (refl, refl)

abbrev form : RegisterForm
form = record { name = codes " bob "; error = none; reloads = 0 }

abbrev server : Text → Registration
server name =
    if name == codes "bob" then registered (some (codes "af_new")) else refused (some 409) none

submit_runs :
    (submit server form [] ≡ (record form { reloads = 1 }, (token_key, codes "af_new") ∷ []))
    × ((submit server (record form { name = codes "al" }) []).0.error
        ≡ some (codes "That name is taken."))
unfolding session trim
submit_runs = (refl, refl)

signed-IsSigned : IsSigned signed
unfolding session
signed-IsSigned = inr refl

happen_all-IsSigned_example :
    IsSigned (happen_all (rendered stale ∷ registers server form ∷ forgets ∷ []) signed)
happen_all-IsSigned_example =
    happen_all-IsSigned (rendered stale ∷ registers server form ∷ forgets ∷ []) signed
      signed-IsSigned

server_answer : server (trim (codes " bob ")) ≡ registered (some (codes "af_new"))
unfolding trim
server_answer = refl

af_new-token_re : token_re (codes "af_new") ≡ true
unfolding token_re
af_new-token_re = refl

-- A query hook that is answered by a body.
abbrev answered : Bool → MeQuery
answered skip = nobody

refused_once : refuses (answered ∷ stale ∷ answered ∷ []) ≡ true
refused_once = refl

login_lasts_example :
    get_token (happen_all (registers server form ∷ renders (answered ∷ answered ∷ [])) signed)
    ≡ (if refuses (answered ∷ answered ∷ []) then [] else codes "af_new")
login_lasts_example =
    login_lasts server form (answered ∷ answered ∷ []) signed (codes "af_new") server_answer
      af_new-token_re
