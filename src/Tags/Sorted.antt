-- ===== src/Tags/Sorted.antt =====
-- The order of the tags.
use agentforum.Base.{
  ℕ, Bool, true, false, not, ◌&&◌, ◌||◌, List, [], ◌∷◌, ◌≡◌, refl, sym, ap, ◌∙◌, arith, Text, ltb,
  leb, eq_nat, all, keep, length, and_left, and_right, either_branch, Bool-cases, inl, inr, if_true,
  if_false, if◌then◌else◌,
}
use mathlib.Core.Path.{subst}
use agentforum.Tags.{TagCount, goes_first, insert, sorted}

-- No count of a list is above a number; and counts never rise along a list.
abbrev pub at_most : ℕ → List TagCount → Bool
at_most n = all (λ (t : TagCount). leb t.count n)

abbrev pub falls : List TagCount → Bool
falls [] = true
falls (t ∷ ts) = at_most t.count ts && falls ts

both : (a b : Bool) → a ≡ true → b ≡ true → (a && b) ≡ true
both a b h k = ap (λ t. t && b) h ∙ k

leb_trans : (a b c : ℕ) → leb a b ≡ true → leb b c ≡ true → leb a c ≡ true
leb_trans a b c h k = ground arith

at_most_trans :
    (m n : ℕ) (ts : List TagCount) → leb m n ≡ true → at_most m ts ≡ true → at_most n ts ≡ true
at_most_trans m n [] h k = refl
at_most_trans m n (t ∷ ts) h k =
    both (leb t.count n) (at_most n ts) (leb_trans t.count m n (and_left (leb t.count m) _ k) h)
      (at_most_trans m n ts h (and_right (leb t.count m) _ k))

insert-at_most :
    (not_behind : Text → Text → Bool) (n : ℕ) (t : TagCount) (us : List TagCount)
    → leb t.count n ≡ true
    → at_most n us ≡ true
    → at_most n (insert not_behind t us) ≡ true
insert-at_most not_behind n t [] h k = both (leb t.count n) true h refl
insert-at_most not_behind n t (u ∷ us) h k =
    either_branch (λ r. at_most n r ≡ true) (goes_first not_behind t u)
      (both (leb t.count n) (at_most n (u ∷ us)) h k)
      (both (leb u.count n) (at_most n (insert not_behind t us)) (and_left (leb u.count n) _ k)
        (insert-at_most not_behind n t us h (and_right (leb u.count n) _ k)))

-- The count decides, or is the same.
goes_first-count :
    (a b : ℕ) (words : Bool) → (if not (eq_nat b a) then ltb b a else words) ≡ true → leb b a ≡ true
goes_first-count a b words h = ground arith

goes_later-count :
    (a b : ℕ) (words : Bool)
    → (if not (eq_nat b a) then ltb b a else words) ≡ false
    → leb a b ≡ true
goes_later-count a b words h = ground arith

insert-falls :
    (not_behind : Text → Text → Bool) (t : TagCount) (us : List TagCount)
    → falls us ≡ true
    → falls (insert not_behind t us) ≡ true
insert-falls not_behind t [] h = refl
insert-falls not_behind t (u ∷ us) h = elim (Bool-cases (goes_first not_behind t u)) [
  | inl e ↦
      let below : leb u.count t.count ≡ true =
        goes_first-count t.count u.count (not_behind t.tag u.tag) e in
      subst (λ r. falls r ≡ true) (sym (if_true _ _ e))
        (both (at_most t.count (u ∷ us)) (falls (u ∷ us))
          (both (leb u.count t.count) (at_most t.count us) below
            (at_most_trans u.count t.count us below (and_left (at_most u.count us) _ h)))
          h)
  | inr e ↦
      subst (λ r. falls r ≡ true) (sym (if_false _ _ e))
        (both (at_most u.count (insert not_behind t us)) (falls (insert not_behind t us))
          (insert-at_most not_behind u.count t us
            (goes_later-count t.count u.count (not_behind t.tag u.tag) e)
            (and_left (at_most u.count us) _ h))
          (insert-falls not_behind t us (and_right (at_most u.count us) _ h)))
]

-- The number of tags that pass a test.
abbrev pub number_of : (TagCount → Bool) → List TagCount → ℕ
number_of p ts = length (keep p ts)

insert-number_of :
    (not_behind : Text → Text → Bool) (p : TagCount → Bool) (t : TagCount) (us : List TagCount)
    → number_of p (insert not_behind t us) ≡ number_of p (t ∷ us)
insert-number_of not_behind p t [] = refl
insert-number_of not_behind p t (u ∷ us) = ground (arith, insert-number_of not_behind p t us)

sorted-falls :
    (not_behind : Text → Text → Bool) (ts : List TagCount) → falls (sorted not_behind ts) ≡ true
unfolding sorted
sorted-falls not_behind [] = refl
sorted-falls not_behind (t ∷ ts) =
    insert-falls not_behind t (sorted not_behind ts) (sorted-falls not_behind ts)

sorted-number_of :
    (not_behind : Text → Text → Bool) (p : TagCount → Bool) (ts : List TagCount)
    → number_of p (sorted not_behind ts) ≡ number_of p ts
unfolding sorted
sorted-number_of not_behind p [] = refl
sorted-number_of not_behind p (t ∷ ts) =
    insert-number_of not_behind p t (sorted not_behind ts)
    ∙ ground (arith, sorted-number_of not_behind p ts)

-- A tag may stand before another: its count is greater, or the same with its word not behind.
abbrev pub in_order : (Text → Text → Bool) → TagCount → TagCount → Bool
in_order not_behind a b = ltb b.count a.count || (eq_nat a.count b.count && not_behind a.tag b.tag)

-- Each tag and the next one.
abbrev pub in_turn : (Text → Text → Bool) → List TagCount → Bool
in_turn not_behind [] = true
in_turn not_behind (t ∷ []) = true
in_turn not_behind (t ∷ u ∷ us) = in_order not_behind t u && in_turn not_behind (u ∷ us)

first-in_order :
    (a b : ℕ) (words : Bool)
    → (if not (eq_nat b a) then ltb b a else words) ≡ true
    → (ltb b a || (eq_nat a b && words)) ≡ true
first-in_order a b words h = ground arith

later-in_order :
    (a b : ℕ) (words other : Bool)
    → (if not (eq_nat b a) then ltb b a else words) ≡ false
    → (words || other) ≡ true
    → (ltb a b || (eq_nat b a && other)) ≡ true
later-in_order a b words other h k = ground arith

module _ (not_behind : Text → Text → Bool)
    (total : (a b : Text) → (not_behind a b || not_behind b a) ≡ true) where
  behind-in_turn :
      (u t : TagCount) (us : List TagCount)
      → in_order not_behind u t ≡ true
      → in_turn not_behind (u ∷ us) ≡ true
      → in_turn not_behind (u ∷ insert not_behind t us) ≡ true
  behind-in_turn u t [] h k = both (in_order not_behind u t) true h refl
  behind-in_turn u t (v ∷ vs) h k = elim (Bool-cases (goes_first not_behind t v)) [
    | inl e ↦
        let first = first-in_order t.count v.count (not_behind t.tag v.tag) e in
        subst (λ r. in_turn not_behind (u ∷ r) ≡ true) (sym (if_true _ _ e))
          (both (in_order not_behind u t) _ h
            (both (in_order not_behind t v) _ first (and_right (in_order not_behind u v) _ k)))
    | inr e ↦
        let later =
          later-in_order t.count v.count (not_behind t.tag v.tag) (not_behind v.tag t.tag) e
            (total t.tag v.tag) in
        subst (λ r. in_turn not_behind (u ∷ r) ≡ true) (sym (if_false _ _ e))
          (both (in_order not_behind u v) _ (and_left (in_order not_behind u v) _ k)
            (behind-in_turn v t vs later (and_right (in_order not_behind u v) _ k)))
  ]

  insert-in_turn :
      (t : TagCount) (us : List TagCount)
      → in_turn not_behind us ≡ true
      → in_turn not_behind (insert not_behind t us) ≡ true
  insert-in_turn t [] k = refl
  insert-in_turn t (u ∷ us) k = elim (Bool-cases (goes_first not_behind t u)) [
    | inl e ↦
        let first = first-in_order t.count u.count (not_behind t.tag u.tag) e in
        subst (λ r. in_turn not_behind r ≡ true) (sym (if_true _ _ e))
          (both (in_order not_behind t u) _ first k)
    | inr e ↦
        let later =
          later-in_order t.count u.count (not_behind t.tag u.tag) (not_behind u.tag t.tag) e
            (total t.tag u.tag) in
        subst (λ r. in_turn not_behind r ≡ true) (sym (if_false _ _ e))
          (behind-in_turn u t us later k)
  ]

  sorted-in_turn : (ts : List TagCount) → in_turn not_behind (sorted not_behind ts) ≡ true
  unfolding sorted
  sorted-in_turn [] = refl
  sorted-in_turn (t ∷ ts) = insert-in_turn t (sorted not_behind ts) (sorted-in_turn ts)

  -- If of two words one is not behind the other, counts never rise along the tags as they are shown, and where a
  -- tag and the next one have the same count, its word is not behind that of the next; and the tags are those
  -- given: of each kind as many, whatever test tells the kind.
  pub sorted_lem :
      (ts : List TagCount)
      → (falls (sorted not_behind ts) ≡ true)
        × (in_turn not_behind (sorted not_behind ts) ≡ true)
        × ((p : TagCount → Bool) → number_of p (sorted not_behind ts) ≡ number_of p ts)
  sorted_lem ts =
      (sorted-falls not_behind ts, sorted-in_turn ts, λ p. sorted-number_of not_behind p ts)
