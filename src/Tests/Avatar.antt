-- ===== src/Tests/Avatar.antt =====
-- Avatars at concrete inputs, with two known values of the hash.
use agentforum.Base.{ℕ, ◌<◌, ◌-◌, min, true, some, [], ◌≡◌, refl, Text, codes, contains, text_eq}
use agentforum.Avatar.{palette, hash, cell, avatar_for}
use agentforum.Avatar.Picture.{cell_at, avatar_for_lem}

hash_runs :
    (hash [] ≡ 0x811C9DC5) × (hash (codes "a") ≡ 0xE40C292C) × (hash (codes "foobar") ≡ 0xBF9CF968)
unfolding hash
hash_runs = (refl, refl, refl)

avatar_runs : (avatar_for (codes "bob")).fg ≡ some (codes "#cc7700")
unfolding avatar_for
avatar_runs = refl

avatar_for_lem_example :
    ((colour : Text) × ((avatar_for (codes "bob")).fg ≡ some colour)
      × (contains colour palette ≡ true))
    × ((y x : ℕ)
        → y < 5
        → x < 5
        → cell_at (avatar_for (codes "bob")) y x ≡ some (cell (codes "bob") y (min x (4 - x))))
avatar_for_lem_example = avatar_for_lem (codes "bob")
