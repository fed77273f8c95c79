-- ===== src/Markdown/Spans.antt =====
-- The matches of the patterns for formulas stand at the head of their text.
use mathlib.Core.Path.{subst}
use mathlib.Core.Option
use agentforum.Base.{
  ℕ, suc, ◌≤◌, true, Option, none, some, [], ◌∷◌, ◌++◌, append_assoc, ◌≡◌, refl, sym, ap, ◌∙◌, inl,
  inr, arith, Text, codes, length, take, drop, starts_with, index_of, eq_nat, eq_nat_iff,
  either_branch, Bool-cases, if_true, if_false, and_left, and_right,
}
use agentforum.Markdown.{
  display_at, inline_at, between, lazy_to, first_of, to_dollar, has_edges, dollars, inline_dollars,
}

-- What `index_of` finds, and `lazy_to`, and what a match is.
abbrev IndexOf : Text → Text → Option ℕ → Type 0
IndexOf pattern s none = Unit
IndexOf pattern s (some n) = (rest : Text) × (s ≡ take n s ++ (pattern ++ rest))

abbrev LazyOf : Text → Text → Option Text → Type 0
LazyOf close s none = Unit
LazyOf close s (some tex) = (rest : Text) × (s ≡ tex ++ (close ++ rest))

abbrev pub MatchOf : Text → Option (Text × Text) → Type 0
MatchOf s none = Unit
MatchOf s (some m) = (1 ≤ length m.0) × ((rest : Text) × (s ≡ m.0 ++ rest))

starts_with-split : (p s : Text) → starts_with p s ≡ true → (rest : Text) × (s ≡ p ++ rest)
starts_with-split [] s h = (s, refl)
starts_with-split (c ∷ p) [] h = cc
starts_with-split (c ∷ p) (d ∷ s) h =
    let (rest, e) = starts_with-split p s (and_right (eq_nat c d) _ h) in
    let same : c ≡ d = (eq_nat_iff c d).0 (and_left _ _ h) in (rest, λ i. sym same i ∷ e i)

IndexOf-suc :
    (pattern : Text) (c : ℕ) (s : Text) (o : Option ℕ)
    → IndexOf pattern s o
    → IndexOf pattern (c ∷ s) (Option.map suc o)
IndexOf-suc pattern c s none h = tt
IndexOf-suc pattern c s (some n) (rest, e) = (rest, ap (◌∷◌ c) e)

index_of-IndexOf : (pattern s : Text) → IndexOf pattern s (index_of pattern s)
index_of-IndexOf pattern [] = elim (Bool-cases (starts_with pattern [])) [
  | inl e ↦ subst (IndexOf pattern []) (sym (if_true _ _ e)) (starts_with-split pattern [] e)
  | inr e ↦ subst (IndexOf pattern []) (sym (if_false _ _ e)) tt
]
index_of-IndexOf pattern (c ∷ s) = elim (Bool-cases (starts_with pattern (c ∷ s))) [
  | inl e ↦
      subst (IndexOf pattern (c ∷ s)) (sym (if_true _ _ e)) (starts_with-split pattern (c ∷ s) e)
  | inr e ↦
      subst (IndexOf pattern (c ∷ s)) (sym (if_false _ _ e))
        (IndexOf-suc pattern c s (index_of pattern s) (index_of-IndexOf pattern s))
]

LazyOf-map :
    (close : Text) (c : ℕ) (s : Text) (o : Option ℕ)
    → IndexOf close s o
    → LazyOf close (c ∷ s) (Option.map (λ n. c ∷ take n s) o)
LazyOf-map close c s none h = tt
LazyOf-map close c s (some n) (rest, e) = (rest, ap (◌∷◌ c) e)

lazy_to-LazyOf : (close s : Text) → LazyOf close s (lazy_to close s)
lazy_to-LazyOf close [] = tt
lazy_to-LazyOf close (c ∷ s) = LazyOf-map close c s (index_of close s) (index_of-IndexOf close s)

pub drop-append_length : (xs ys : Text) → drop (length xs) (xs ++ ys) ≡ ys
drop-append_length [] ys = refl
drop-append_length (x ∷ xs) ys = drop-append_length xs ys

MatchOf-map :
    (c : ℕ) (open_text close inner s : Text) (o : Option Text)
    → s ≡ (c ∷ open_text) ++ inner
    → LazyOf close inner o
    → MatchOf s (Option.map (λ tex. ((c ∷ open_text) ++ (tex ++ close), tex)) o)
MatchOf-map c open_text close inner s none e h = tt
MatchOf-map c open_text close inner s (some tex) e (rest, h) =
    let regroup : (c ∷ open_text) ++ (tex ++ (close ++ rest))
        ≡ ((c ∷ open_text) ++ (tex ++ close)) ++ rest =
      ap (◌++◌ (c ∷ open_text)) (sym (append_assoc tex close rest))
      ∙ sym (append_assoc (c ∷ open_text) (tex ++ close) rest) in
    (omega arith, (rest, e ∙ ap (◌++◌ (c ∷ open_text)) h ∙ regroup))

between-MatchOf : (c : ℕ) (open_text close s : Text) → MatchOf s (between (c ∷ open_text) close s)
between-MatchOf c open_text close s = elim (Bool-cases (starts_with (c ∷ open_text) s)) [
  | inl e ↦
      let (inner, split) = starts_with-split (c ∷ open_text) s e in
      let dropped : drop (length (c ∷ open_text)) s ≡ inner =
        ap (drop (length (c ∷ open_text))) split ∙ drop-append_length (c ∷ open_text) inner in
      subst (MatchOf s) (sym (if_true _ _ e)) (
        MatchOf-map c open_text close (drop (length (c ∷ open_text)) s) s
          (lazy_to close (drop (length (c ∷ open_text)) s))
          (split ∙ ap (◌++◌ (c ∷ open_text)) (sym dropped))
          (lazy_to-LazyOf close (drop (length (c ∷ open_text)) s)))
  | inr e ↦ subst (MatchOf s) (sym (if_false _ _ e)) tt
]

first_of-MatchOf :
    (s : Text) (a b : Option (Text × Text)) → MatchOf s a → MatchOf s b → MatchOf s (first_of a b)
first_of-MatchOf s none b h k = k
first_of-MatchOf s (some m) b h k = h

pub display_at-MatchOf : (s : Text) → MatchOf s (display_at s)
unfolding display_at
display_at-MatchOf s =
    first_of-MatchOf s _ _ (between-MatchOf b'$' (codes "$") (codes "$$") s)
      (between-MatchOf b'\\' (codes "[") (codes "\\]") s)

dollars-MatchOf :
    (s : Text) (o : Option ℕ)
    → IndexOf (codes "$") s o
    → MatchOf (b'$' ∷ s) (dollars (Option.map (λ n. take n s) o))
dollars-MatchOf s none h = tt
dollars-MatchOf s (some n) (rest, e) =
    either_branch (MatchOf (b'$' ∷ s)) (has_edges (take n s))
      (omega arith, (rest, ap (◌∷◌ b'$') (e ∙ sym (append_assoc (take n s) (codes "$") rest)))) tt

inline_dollars-MatchOf : (s : Text) → MatchOf s (inline_dollars s)
inline_dollars-MatchOf [] = tt
inline_dollars-MatchOf (c ∷ s) = elim (Bool-cases (eq_nat c b'$')) [
  | inl e ↦
      let same : c ≡ b'$' = (eq_nat_iff c b'$').0 e in
      subst (MatchOf (c ∷ s)) (sym (if_true _ _ e)) (
        subst (λ d. MatchOf (d ∷ s) (dollars (to_dollar s))) (sym same)
          (dollars-MatchOf s (index_of (codes "$") s) (index_of-IndexOf (codes "$") s)))
  | inr e ↦ subst (MatchOf (c ∷ s)) (sym (if_false _ _ e)) tt
]

pub inline_at-MatchOf : (s : Text) → MatchOf s (inline_at s)
unfolding inline_at
inline_at-MatchOf s =
    first_of-MatchOf s _ _ (inline_dollars-MatchOf s)
      (between-MatchOf b'\\' (codes "(") (codes "\\)") s)
