-- ===== src/Files/Visible.antt =====
-- The active node is rendered.
use agentforum.Base.{
  ℕ, suc, Bool, true, false, ◌&&◌, ◌||◌, Option, some, List, [], ◌∷◌, ◌++◌, ◌≡◌, refl, ap, ◌∙◌,
  arith, Text, ltb, and_left, and_right, if◌then◌else◌,
}
use agentforum.Files.{
  FileNode, FileNodes, file_node, no_children, and_child, is_slug, node_contains_slug,
  some_contains_slug, rendered, rendered_children,
}

-- Only folders have below.
unfoldable mutual
  pub well_formed : FileNode → Bool
  well_formed (file_node true s below) = all_well_formed below
  well_formed (file_node false s no_children) = true
  well_formed (file_node false s (and_child child below)) = false

  pub all_well_formed : FileNodes → Bool
  all_well_formed no_children = true
  all_well_formed (and_child child below) = well_formed child && all_well_formed below

-- Whether a node of a slug is among those rendered.
abbrev pub shows : Text → List (Option Text) → Bool
shows slug [] = false
shows slug (s ∷ ss) = is_slug s slug || shows slug ss

pub shows-append :
    (slug : Text) (xs ys : List (Option Text))
    → shows slug (xs ++ ys) ≡ (shows slug xs || shows slug ys)
shows-append slug [] ys = refl
shows-append slug (x ∷ xs) ys = ground (arith, shows-append slug xs ys)

pub or_true : (a b : Bool) → b ≡ true → (a || b) ≡ true
or_true true b h = refl
or_true false b h = h

folder_shows :
    (a b shallow : Bool) (slug : Text) (below : List (Option Text))
    → (a || b) ≡ true
    → (b ≡ true → shows slug below ≡ true)
    → (a || shows slug (if shallow || (a || b) then below else [])) ≡ true
folder_shows true b shallow slug below h found = refl
folder_shows false b shallow slug below h found =
    ap (λ t. shows slug (if t then below else [])) (or_true shallow b h) ∙ found h

pub either_shows :
    (a b x y : Bool)
    → (a || b) ≡ true
    → (a ≡ true → x ≡ true)
    → (b ≡ true → y ≡ true)
    → (x || y) ≡ true
either_shows true b x y h f g = ap (λ z. z || y) (f refl)
either_shows false b x y h f g = or_true x y (g h)

mutual
  unfolding rendered well_formed node_contains_slug

  rendered-shows :
      (depth : ℕ) (c : ℕ) (slug : Text) (node : FileNode)
      → well_formed node ≡ true
      → node_contains_slug node (c ∷ slug) ≡ true
      → shows (c ∷ slug) (rendered depth (some (c ∷ slug)) node) ≡ true
  rendered-shows depth c slug (file_node true s below) w h =
      folder_shows (is_slug s (c ∷ slug)) (some_contains_slug below (c ∷ slug)) (ltb depth 2)
        (c ∷ slug) (rendered_children (suc depth) (some (c ∷ slug)) below) h
        (rendered_children-shows (suc depth) c slug below w)
  rendered-shows depth c slug (file_node false s no_children) w h = h
  rendered-shows depth c slug (file_node false s (and_child child below)) w h = cc

  pub rendered_children-shows :
      (depth : ℕ) (c : ℕ) (slug : Text) (below : FileNodes)
      → all_well_formed below ≡ true
      → some_contains_slug below (c ∷ slug) ≡ true
      → shows (c ∷ slug) (rendered_children depth (some (c ∷ slug)) below) ≡ true
  rendered_children-shows depth c slug no_children w h = cc
  rendered_children-shows depth c slug (and_child child below) w h =
      shows-append (c ∷ slug) (rendered depth (some (c ∷ slug)) child)
        (rendered_children depth (some (c ∷ slug)) below)
      ∙ either_shows (node_contains_slug child (c ∷ slug)) (some_contains_slug below (c ∷ slug)) _ _
          h (rendered-shows depth c slug child (and_left (well_formed child) _ w))
          (rendered_children-shows depth c slug below (and_right (well_formed child) _ w))

-- If only folders have children, a tree that has a node of the active slug, which is not empty, renders
-- such a node at first, however deep it lies.
rendered-active :
    (depth c : ℕ) (slug : Text) (node : FileNode)
    → well_formed node ≡ true
    → node_contains_slug node (c ∷ slug) ≡ true
    → shows (c ∷ slug) (rendered depth (some (c ∷ slug)) node) ≡ true
rendered-active depth c slug node = rendered-shows depth c slug node
