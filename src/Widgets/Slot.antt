-- ===== src/Widgets/Slot.antt =====
-- web/src/widgets/sidebarSlot.tsx: the slot that lets a page put its own sidebar into the frame around it.
-- React compares two elements by `===`, and runs the cleanups of a commit before its effects.
use agentforum.Base.{
  Bool, true, false, Option, none, some, List, [], ◌∷◌, ◌≡◌, refl, ap, ◌∙◌, StrictEq, ◌==◌,
}

-- The override of the frame, and what the page that is mounted passed to `useSidebarOverride` last, if one is.
pub record Slot (E : Type 0) : Type 0 where
  pub override : Option E
  pub page : Option (Option E)

pub data SlotStep (E : Type 0) : Type 0 where
  -- the page that is mounted is rendered; or it is another page, which is mounted in its place
  page_rendered page_changed : Option E → SlotStep E
  page_left : SlotStep E

-- The cleanup of the effect, which a page without an element has not.
abbrev pub clean_slot : {E : Type 0} → Option (Option E) → Option E → Option E
clean_slot none override = override
clean_slot (some none) override = override
clean_slot (some (some e)) override = none

-- The effect.
abbrev pub set_override : {E : Type 0} → Option E → Option E → Option E
set_override none override = override
set_override (some e) override = some e

module _ {E : Type 0} ⦃s : StrictEq E⦄ where
  abbrev pub same_element : Option (Option E) → Option E → Bool
  same_element (some none) none = true
  same_element (some (some a)) (some b) = a == b
  same_element before element = false

  -- Cleanup and effect run if the dependencies have changed; a change of the page runs them all the same.
  abbrev pub put_element : Bool → Option E → Slot E → Slot E
  put_element true element slot = record slot { page = some element }
  put_element false element slot = record {
    override = set_override element (clean_slot slot.page slot.override);
    page = some element;
  }

  unfoldable pub slot_step : SlotStep E → Slot E → Slot E
  slot_step (page_rendered element) slot = put_element (same_element slot.page element) element slot
  slot_step (page_changed element) slot = put_element false element slot
  slot_step page_left slot = record { override = clean_slot slot.page slot.override; page = none }

  unfoldable pub slot_steps : List (SlotStep E) → Slot E → Slot E
  unfolding slot_step
  slot_steps [] slot = slot
  slot_steps (step ∷ steps) slot = slot_steps steps (slot_step step slot)

  -- The element of the page that is mounted.
  abbrev pub of_page : Option (Option E) → Option E
  of_page none = none
  of_page (some element) = element

  IsInPlace : Slot E → Type 0
  IsInPlace slot = slot.override ≡ of_page slot.page

  cleaned :
      (page : Option (Option E)) (override : Option E)
      → override ≡ of_page page
      → clean_slot page override ≡ none
  cleaned none override h = h
  cleaned (some none) override h = h
  cleaned (some (some e)) override h = refl

  set_in_place :
      (element : Option E) (override : Option E)
      → override ≡ none
      → set_override element override ≡ element
  set_in_place none override h = h
  set_in_place (some e) override h = refl

  same_in_place :
      (page : Option (Option E)) (element : Option E)
      → same_element page element ≡ true
      → of_page page ≡ element
  same_in_place none element h = cc
  same_in_place (some none) none h = refl
  same_in_place (some none) (some b) h = cc
  same_in_place (some (some a)) none h = cc
  same_in_place (some (some a)) (some b) h = ap some ((s.same_iff a b).0 h)

  put-IsInPlace :
      (kept : Bool) (element : Option E) (slot : Slot E)
      → IsInPlace slot
      → (kept ≡ true → of_page slot.page ≡ element)
      → IsInPlace (put_element kept element slot)
  unfolding IsInPlace
  put-IsInPlace true element slot h same = h ∙ same refl
  put-IsInPlace false element slot h same =
      set_in_place element (clean_slot slot.page slot.override) (cleaned slot.page slot.override h)

  step-IsInPlace :
      (step : SlotStep E) (slot : Slot E) → IsInPlace slot → IsInPlace (slot_step step slot)
  unfolding IsInPlace slot_step
  step-IsInPlace (page_rendered element) slot h =
      put-IsInPlace (same_element slot.page element) element slot h
        (same_in_place slot.page element)
  step-IsInPlace (page_changed element) slot h = put-IsInPlace false element slot h (λ e. cc)
  step-IsInPlace page_left slot h = cleaned slot.page slot.override h

  steps-IsInPlace :
      (steps : List (SlotStep E)) (slot : Slot E)
      → IsInPlace slot
      → IsInPlace (slot_steps steps slot)
  unfolding slot_steps
  steps-IsInPlace [] slot h = h
  steps-IsInPlace (step ∷ steps) slot h =
      steps-IsInPlace steps (slot_step step slot) (step-IsInPlace step slot h)

  -- However pages are mounted, rendered again with other elements, changed and left, from a frame without a
  -- page and an override, the override is the element of the page that is mounted, and none without a page or
  -- an element.
  slot_steps-of_page :
      (steps : List (SlotStep E))
      → (slot_steps steps (record { override = none; page = none })).override
        ≡ of_page (slot_steps steps (record { override = none; page = none })).page
  unfolding IsInPlace
  slot_steps-of_page steps = steps-IsInPlace steps (record { override = none; page = none }) refl
