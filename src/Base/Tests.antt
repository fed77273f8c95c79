-- ===== src/Base/Tests.antt =====
-- Boolean tests on native numbers, the conditional, and equality as an interface.
use Prim.Native.Nat.{ℕ, compare, Ordering}
use mathlib.Core.Bool.{Bool, true, false, ◌&&◌}
use mathlib.Core.List.{List, [], ◌∷◌}
use mathlib.Core.Logic.{◌↔◌, ◌⊎◌, inl, inr}
use mathlib.Core.Option.{Option, none, some}
use mathlib.Core.Path.{◌≡◌, refl}
use native.Mathlib.Omega.{arith}

abbrev pub ltb : ℕ → ℕ → Bool
ltb a b = elim (compare a b) [ Ordering.lt ↦ true | _ ↦ false ]

abbrev pub leb : ℕ → ℕ → Bool
leb a b = elim (compare a b) [ Ordering.gt ↦ false | _ ↦ true ]

abbrev pub eq_nat : ℕ → ℕ → Bool
eq_nat a b = elim (compare a b) [ Ordering.eq ↦ true | _ ↦ false ]

pub eq_nat_iff : (a b : ℕ) → (eq_nat a b ≡ true) ↔ (a ≡ b)
eq_nat_iff a b = ground arith

infix 1 if◌then◌else◌
abbrev pub if◌then◌else◌ {ℓ} : {A : Type ℓ} → Bool → A → A → A
if true then x else y = x
if false then x else y = y

module _ {ℓ} {A : Type ℓ} (x y : A) where
  pub if_true : {b : Bool} → b ≡ true → (if b then x else y) ≡ x
  if_true e = rw e

  pub if_false : {b : Bool} → b ≡ false → (if b then x else y) ≡ y
  if_false e = rw e

pub either_branch {ℓ κ} :
    {A : Type ℓ} (Good : A → Type κ) (test : Bool) {first second : A}
    → Good first
    → Good second
    → Good (if test then first else second)
either_branch Good true now _ = now
either_branch Good false _ later = later

pub Bool-cases : (b : Bool) → (b ≡ true) ⊎ (b ≡ false)
Bool-cases true = inl refl
Bool-cases false = inr refl

pub Option-cases {ℓ} : {A : Type ℓ} (o : Option A) → (o ≡ none) ⊎ ((a : A) × (o ≡ some a))
Option-cases none = inl refl
Option-cases (some a) = inr (a, refl)

pub and_left : (a b : Bool) → (a && b) ≡ true → a ≡ true
and_left true b h = refl
and_left false b h = h

pub and_right : (a b : Bool) → (a && b) ≡ true → b ≡ true
and_right true b h = h
and_right false b h = cc

-- A step that can fail, in a `do` block.
infixl 5 ◌>>=◌
abbrev pub ◌>>=◌ {ℓ κ} : {A : Type ℓ} {B : Type κ} → Option A → (A → Option B) → Option B
none >>= next = none
some a >>= next = next a

pub >>=-eq-some {ℓ κ} :
    {A : Type ℓ} {B : Type κ} (m : Option A) (next : A → Option B) {b : B}
    → (m >>= next) ≡ some b
    → (a : A) × (m ≡ some a) × (next a ≡ some b)
>>=-eq-some none next h = cc
>>=-eq-some (some a) next h = (a, refl, h)

-- `===` on the values of a type.
pub record StrictEq {ℓ} (A : Type ℓ) : Type ℓ where
  pub same : A → A → Bool
  pub same_iff : (x y : A) → (same x y ≡ true) ↔ (x ≡ y)

infix 50 ◌==◌
abbrev pub ◌==◌ {ℓ} : {A : Type ℓ} ⦃s : StrictEq A⦄ → A → A → Bool
◌==◌ ⦃s⦄ = s.same

pub ==_refl {ℓ} : {A : Type ℓ} ⦃s : StrictEq A⦄ (a : A) → (a == a) ≡ true
==_refl ⦃s⦄ a = (s.same_iff a a).1 refl

instance abbrev pub nat_eq : StrictEq ℕ
nat_eq = record { same = eq_nat; same_iff = eq_nat_iff }

-- A string of the source: its UTF-16 code units.
abbrev pub Text : Type 0
Text = List ℕ

abbrev pub eq_text : Text → Text → Bool
eq_text [] [] = true
eq_text (x ∷ xs) (y ∷ ys) = eq_nat x y && eq_text xs ys
eq_text _ _ = false

pub eq_text_iff : (a b : Text) → (eq_text a b ≡ true) ↔ (a ≡ b)
eq_text_iff (x ∷ a) (y ∷ b) = ground (arith, eq_text_iff a b)
eq_text_iff _ _ = ground arith

instance abbrev pub text_eq : StrictEq Text
text_eq = record { same = eq_text; same_iff = eq_text_iff }
