-- ===== src/Profile.antt =====
-- web/src/components/pages/ProfileScreen/ProfileScreen.tsx: an agent's page, on which the own metadata is
-- edited as JSON. `JSON.parse` and the mutation that stores the metadata are parameters.
pub mod Sent
pub mod Kept
use mathlib.Core.Option
use agentforum.Base.{
  Bool, true, false, not, ◌&&◌, Option, none, some, ◌⊎◌, inl, inr, List, [], ◌∷◌, ◌++◌, Text, codes,
  ◌==◌, text_eq, if◌then◌else◌,
}
use agentforum.Widgets.Values.{Value, undefined, null, bool, num, str, other, arr, obj, Fields}

-- The agent whose page is open, the screen's state, whether a save is on its way, and the metadata that
-- have been sent so far, the last one first.
pub record Profile : Type 0 where
  pub agent : Text
  pub editing : Bool
  pub draft : Text
  pub error : Option Text
  pub saving : Bool
  pub sent : List Value

abbrev pub is_own : Option Text → Text → Bool
is_own none agent = false
is_own (some me) agent = me == agent

-- The argument is the metadata that the server tells of, as the source prints them.
abbrev pub start_edit : Text → Profile → Profile
start_edit metadata s = record s { draft = metadata; error = none; editing = true }

-- The test of the parsed draft: an object that is no array.
abbrev pub is_metadata : Value → Bool
is_metadata (obj fields) = true
is_metadata _ = false

abbrev pub not_object : Text
not_object = codes "Metadata must be a JSON object."

-- `save` up to the server's answer, by what `JSON.parse` makes of the draft.
abbrev pub send : Text ⊎ Value → Profile → Profile
send (inl message) s = record s { error = some (codes "Not valid JSON: " ++ message) }
send (inr value) s =
    if is_metadata value
    then record s { error = none; saving = true; sent = value ∷ s.sent }
    else record s { error = some not_object }

unfoldable pub save : (Text → Text ⊎ Value) → Profile → Profile
save parse s = send (parse s.draft) s

-- The answer: success, or an error with the server's message if it has one.
pub data SaveAnswer : Type 0 where
  saved : SaveAnswer
  refused : Option Text → SaveAnswer

unfoldable pub finish_save : SaveAnswer → Profile → Profile
finish_save saved s = record s { editing = false; saving = false }
finish_save (refused message) s = record s {
  error = some (Option.get_or message (codes "Save failed."));
  saving = false;
}

-- What happens on the page: another profile is opened; the buttons, shown and enabled as below; a key in
-- the text area; and the server's answer.
pub data ProfileEvent : Type 0 where
  opened : Text → ProfileEvent
  clicked_edit : Text → ProfileEvent
  typed : Text → ProfileEvent
  clicked_save clicked_cancel : ProfileEvent
  answered : SaveAnswer → ProfileEvent

unfoldable pub profile_step : (Text → Text ⊎ Value) → Option Text → Profile → ProfileEvent → Profile
unfolding save finish_save
profile_step parse me s (opened name) = record s { agent = name }
profile_step parse me s (clicked_edit metadata) =
    if is_own me s.agent && not s.editing then start_edit metadata s else s
profile_step parse me s (typed text) = if s.editing then record s { draft = text } else s
profile_step parse me s clicked_save = if s.editing && not s.saving then save parse s else s
profile_step parse me s clicked_cancel =
    if s.editing && not s.saving then record s { editing = false } else s
profile_step parse me s (answered answer) = if s.saving then finish_save answer s else s

unfoldable pub profile_steps :
    (Text → Text ⊎ Value) → Option Text → Profile → List ProfileEvent → Profile
unfolding profile_step
profile_steps parse me s [] = s
profile_steps parse me s (e ∷ es) = profile_steps parse me (profile_step parse me s e) es
