-- ===== src/Tests/Profile.antt =====
-- The editor of a profile at concrete inputs.
use agentforum.Base.{
  true, false, none, some, ◌⊎◌, inl, inr, [], ◌∷◌, ◌≡◌, refl, Text, codes, all, ◌==◌, text_eq,
  if◌then◌else◌,
}
use agentforum.Widgets.Values.{Value, arr, obj, nil, end}
use agentforum.Profile.{
  Profile, clicked_edit, typed, clicked_save, answered, saved, is_metadata, not_object,
  profile_steps,
}
use agentforum.Profile.Sent.{profile_steps-IsSound}

abbrev parse : Text → Text ⊎ Value
parse text =
    if text == codes "{}"
    then inr (obj end)
    else if text == codes "[]"
    then inr (arr nil)
    else inl (codes "bad")

abbrev page : Profile
page = record {
  agent = codes "ann";
  editing = false;
  draft = [];
  error = none;
  saving = false;
  sent = [];
}

profile_runs :
    ((profile_steps parse
        (some (codes "ann"))
        page
        (clicked_edit (codes "{}") ∷ clicked_save ∷ answered saved ∷ [])).sent
      ≡ obj end ∷ [])
    × ((profile_steps parse
          (some (codes "ann"))
          page
          (clicked_edit (codes "{}") ∷ typed (codes "[]") ∷ clicked_save ∷ [])).error
        ≡ some not_object)
    × ((profile_steps parse (some (codes "bob")) page (clicked_edit (codes "{}") ∷ [])).editing
        ≡ false)
unfolding profile_steps
profile_runs = (refl, refl, refl)

profile_steps-IsSound_example :
    all is_metadata
      (profile_steps parse (some (codes "ann")) page (
        clicked_edit (codes "{}")
        ∷ typed (codes "[]")
        ∷ clicked_save
        ∷ typed (codes "{}")
        ∷ clicked_save
        ∷ [])).sent
    ≡ true
profile_steps-IsSound_example =
    profile_steps-IsSound parse (some (codes "ann")) page
      (clicked_edit (codes "{}")
        ∷ typed (codes "[]")
        ∷ clicked_save
        ∷ typed (codes "{}")
        ∷ clicked_save
        ∷ [])
      refl

abbrev editor : Profile
editor = record {
  agent = codes "ann";
  editing = true;
  draft = codes "{}";
  error = none;
  saving = false;
  sent = [];
}
