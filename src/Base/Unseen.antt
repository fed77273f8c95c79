-- ===== src/Base/Unseen.antt =====
-- Lists without repetition, and the items of a list whose key has not been seen before: what the
-- stream of events and the pages of posts are merged by.
use mathlib.Core.Bool.{true, false, not, ◌&&◌}
use mathlib.Core.List.{List, [], ◌∷◌, ◌++◌, map}
use mathlib.Core.Path.{◌≡◌, refl, sym}
use native.Mathlib.Omega.{arith}
use agentforum.Base.Tests.{StrictEq, ◌==◌, ==_refl}
use agentforum.Base.Lists.{contains, distinct, keep, contains-append}

module _ {ℓ} {K : Type ℓ} ⦃e : StrictEq K⦄ where
  pub contains-of-== : (a b : K) (xs : List K) → (a == b) ≡ true → contains a xs ≡ contains b xs
  contains-of-== a b xs h = rw ((e.same_iff a b).0 h)

  pub ==_congr : (a b c : K) → (a == b) ≡ true → (a == c) ≡ (b == c)
  ==_congr a b c h = rw ((e.same_iff a b).0 h)

  ==_swap : (a b : K) → (a == b) ≡ true → (b == a) ≡ true
  ==_swap a b h = (e.same_iff b a).1 (sym ((e.same_iff a b).0 h))

  pub ==_comm : (a b : K) → (a == b) ≡ (b == a)
  ==_comm a b = ground (arith, ==_swap a b, ==_swap b a)

  pub distinct-append :
      (xs ys : List K)
      → distinct xs ≡ true
      → distinct ys ≡ true
      → ((a : K) → contains a xs ≡ true → contains a ys ≡ false)
      → distinct (xs ++ ys) ≡ true
  distinct-append [] ys h k apart = k
  distinct-append (x ∷ xs) ys h k apart = ground (
    arith,
    contains-append x xs ys,
    apart x,
    ==_refl x,
    distinct-append xs ys (ground arith) k (λ a m. apart a (ground (arith, m))),
  )

  pub distinct-prefix : (xs ys : List K) → distinct (xs ++ ys) ≡ true → distinct xs ≡ true
  distinct-prefix [] ys h = refl
  distinct-prefix (x ∷ xs) ys h = ground (arith, contains-append x xs ys, distinct-prefix xs ys)

  -- What stands in both halves of a list stands twice in it.
  pub distinct-append_both :
      (a : K) (xs ys : List K)
      → contains a xs ≡ true
      → contains a ys ≡ true
      → distinct (xs ++ ys) ≡ false
  distinct-append_both a [] ys h k = cc
  distinct-append_both a (x ∷ xs) ys h k =
      ground (arith, contains-append x xs ys, contains-of-== x a ys, distinct-append_both a xs ys)

module _ {ℓ κ} {A : Type ℓ} {K : Type κ} ⦃e : StrictEq K⦄ (key : A → K) where
  -- The items whose key is not among those seen.
  abbrev pub unseen : List K → List A → List A
  unseen seen = keep (λ a. not (contains (key a) seen))

  pub contains-unseen :
      (seen : List K) (items : List A) (k : K)
      → contains k (map key (unseen seen items))
        ≡ (contains k (map key items) && not (contains k seen))
  contains-unseen seen [] k = refl
  contains-unseen seen (a ∷ items) k =
      ground (arith, contains-unseen seen items k, contains-of-== (key a) k seen)

  pub distinct-unseen :
      (seen : List K) (items : List A)
      → distinct (map key items) ≡ true
      → distinct (map key (unseen seen items)) ≡ true
  distinct-unseen seen [] h = refl
  distinct-unseen seen (a ∷ items) h =
      ground (arith, distinct-unseen seen items, contains-unseen seen items (key a))

  -- Nothing is left where every key has been seen.
  pub unseen_none :
      (seen : List K) (items : List A)
      → ((k : K) → contains k (map key items) ≡ true → contains k seen ≡ true)
      → unseen seen items ≡ []
  unseen_none seen [] h = refl
  unseen_none seen (a ∷ items) h =
      ground
        (arith, h (key a), ==_refl (key a), unseen_none seen items (λ k m. h k (ground (arith, m))))

  -- All are left where no key has been seen.
  pub unseen_all :
      (seen : List K) (items : List A)
      → ((k : K) → contains k (map key items) ≡ true → contains k seen ≡ false)
      → unseen seen items ≡ items
  unseen_all seen [] h = refl
  unseen_all seen (a ∷ items) h =
      ground
        (arith, h (key a), ==_refl (key a), unseen_all seen items (λ k m. h k (ground (arith, m))))
