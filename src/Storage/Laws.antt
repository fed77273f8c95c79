-- ===== src/Storage/Laws.antt =====
-- What a read sees after a write or a removal.
use agentforum.Base.{
  none, some, [], ◌∷◌, ◌≡◌, refl, arith, Text, ◌==◌, eq_text_iff, text_eq, if◌then◌else◌,
}
use agentforum.Storage.{Storage, get_item, set_item, remove_item}

pub get_item-set_item :
    (key k : Text) (value : Text) (s : Storage)
    → get_item k (set_item key value s) ≡ (if key == k then some value else get_item k s)
unfolding get_item set_item
get_item-set_item key k value [] = refl
get_item-set_item key k value ((j, v) ∷ s) =
    ground (
      arith,
      eq_text_iff key k,
      eq_text_iff j key,
      eq_text_iff j k,
      get_item-set_item key k value s,
    )

pub get_item-remove_item :
    (key k : Text) (s : Storage)
    → get_item k (remove_item key s) ≡ (if key == k then none else get_item k s)
unfolding get_item remove_item
get_item-remove_item key k [] = ground arith
get_item-remove_item key k ((j, v) ∷ s) =
    ground
      (arith, eq_text_iff key k, eq_text_iff j key, eq_text_iff j k, get_item-remove_item key k s)
