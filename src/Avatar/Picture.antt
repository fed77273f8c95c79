-- ===== src/Avatar/Picture.antt =====
-- The picture is well formed for every id.
use agentforum.Base.{
  ℕ, zero, suc, ◌%◌, ◌^◌, ◌<◌, ◌-◌, min, Bool, true, Option, some, List, [], ◌∷◌, ◌++◌, ◌≡◌, refl,
  ap, ◌∙◌, arith, Text, length, contains, text_eq, ==_refl, ◌+◌, ◌>>=◌,
}
use agentforum.Avatar.{
  palette, hash_step, hash_from, hash, get_elem?, AvatarSpec, cell, row, rows, avatar_for,
}

hash_step-below : (h c : ℕ) → hash_step h c < 2 ^ 32
unfolding hash_step
hash_step-below h c = omega arith

hash_from-below : (h : ℕ) (s : Text) → h < 2 ^ 32 → hash_from h s < 2 ^ 32
unfolding hash_from
hash_from-below h [] below = below
hash_from-below h (c ∷ s) below = hash_from-below (hash_step h c) s (hash_step-below h c)

hash_from-append : (h : ℕ) (a b : Text) → hash_from h (a ++ b) ≡ hash_from (hash_from h a) b
unfolding hash_from
hash_from-append h [] b = refl
hash_from-append h (c ∷ a) b = hash_from-append (hash_step h c) a b

-- The hash is a 32-bit integer, and that of a longer text goes on from that of its beginning.
hash-append : (a b : Text) → (hash a < 2 ^ 32) × (hash (a ++ b) ≡ hash_from (hash a) b)
unfolding hash
hash-append a b = (hash_from-below 0x811C9DC5 a (omega arith), hash_from-append 0x811C9DC5 a b)

get_elem?-contains :
    (xs : List Text) (n : ℕ)
    → n < length xs
    → (x : Text) × (get_elem? xs n ≡ some x) × (contains x xs ≡ true)
get_elem?-contains [] n h = absurd (omega arith)
get_elem?-contains (x ∷ xs) zero h = (x, refl, ground (arith, ==_refl x))
get_elem?-contains (x ∷ xs) (suc n) h =
    let (y, found, there) = get_elem?-contains xs n (omega arith) in
    (y, found, ground (arith, there))

get_elem?-rows : (id : Text) (y n k : ℕ) → k < n → get_elem? (rows id y n) k ≡ some (row id (y + k))
unfolding rows
get_elem?-rows id y zero k h = absurd (omega arith)
get_elem?-rows id y (suc n) zero h =
    let same : y ≡ y + 0 = omega arith in ap (λ m. some (row id m)) same
get_elem?-rows id y (suc n) (suc k) h =
    let same : suc y + k ≡ y + suc k = omega arith in
    get_elem?-rows id (suc y) n k (omega arith) ∙ ap (λ m. some (row id m)) same

get_elem?-row :
    (id : Text) (y x : ℕ) → x < 5 → get_elem? (row id y) x ≡ some (cell id y (min x (4 - x)))
unfolding row
get_elem?-row id y zero h = refl
get_elem?-row id y (suc zero) h = refl
get_elem?-row id y (suc (suc zero)) h = refl
get_elem?-row id y (suc (suc (suc zero))) h = refl
get_elem?-row id y (suc (suc (suc (suc zero)))) h = refl
get_elem?-row id y (suc (suc (suc (suc (suc x))))) h = absurd (omega arith)

zero_add : (n : ℕ) → 0 + n ≡ n
zero_add n = omega arith

-- The cell in a row and a column.
abbrev pub cell_at : AvatarSpec → ℕ → ℕ → Option Bool
cell_at spec y x = do cells ← get_elem? spec.cells y; get_elem? cells x

-- The colour of an avatar is one of the palette's, and each of its five times five cells is the hashed
-- one of its column or, in the right half, of the column that mirrors it.
pub avatar_for_lem :
    (id : Text)
    → ((colour : Text) × ((avatar_for id).fg ≡ some colour) × (contains colour palette ≡ true))
      × ((y x : ℕ) → y < 5 → x < 5 → cell_at (avatar_for id) y x ≡ some (cell id y (min x (4 - x))))
unfolding avatar_for
avatar_for_lem id = (
  get_elem?-contains palette (hash id % 6) (omega arith),
  λ y x below_y below_x.
      ap (λ o. o >>= λ cells. get_elem? cells x) (get_elem?-rows id 0 5 y below_y)
      ∙ get_elem?-row id (0 + y) x below_x
      ∙ ap (λ m. some (cell id m (min x (4 - x)))) (zero_add y),
)
