-- ===== src/Files/Tree/Found.antt =====
-- The node of a new active slug, in a tree whose folders have been clicked.
use agentforum.Base.{
  ℕ, suc, Bool, true, false, not, ◌&&◌, ◌||◌, Option, none, some, List, [], ◌∷◌, ◌≡◌, refl, ap, All,
  ◌∙◌, ◌++◌, Text, ltb, if◌then◌else◌, and_left, and_right,
}
use agentforum.Files.{
  FileNode, FileNodes, file_node, no_children, and_child, is_slug, node_contains_slug,
  some_contains_slug, active_descendant, rendered, rendered_children,
}
use agentforum.Files.Visible.{
  well_formed, all_well_formed, shows, shows-append, either_shows, rendered_children-shows,
}
use agentforum.Files.Tree.{
  Item, Items, item, no_items, and_item, if_expanded, mount, mount_all, set_active, set_all_active,
  click_folder, tree_rows, tree_rows_below, Tree, TreeStep, opens_slug, tree_step, tree_steps,
}
use agentforum.Files.Tree.Opened.{
  node_of, IsKept, AreKept, mount-IsKept, node_of-mount, steps-IsKept,
}

abbrev active_below : FileNodes → Option Text → Bool
active_below nodes none = false
active_below nodes (some []) = false
active_below nodes (some (c ∷ slug)) = some_contains_slug nodes (c ∷ slug)

and_false : (a : Bool) → (a && false) ≡ false
and_false true = refl
and_false false = refl

or_false : (a b : Bool) → (a || b) ≡ false → (a ≡ false) × (b ≡ false)
or_false true b h = cc
or_false false b h = (refl, h)

active_below-false :
    (is_folder : Bool) (s : Option Text) (nodes : FileNodes) (before : Option Text)
    → active_descendant (file_node is_folder s nodes) before ≡ false
    → active_below nodes before ≡ false
unfolding node_contains_slug
active_below-false is_folder s nodes none h = refl
active_below-false is_folder s nodes (some []) h = refl
active_below-false is_folder s nodes (some (c ∷ slug)) h =
    let (_, g) = or_false (is_slug s (c ∷ slug)) (some_contains_slug nodes (c ∷ slug)) h in g

active_below-parts :
    (node : FileNode) (nodes : FileNodes) (before : Option Text)
    → active_below (and_child node nodes) before ≡ false
    → (active_descendant node before ≡ false) × (active_below nodes before ≡ false)
unfolding node_contains_slug
active_below-parts node nodes none h = (refl, refl)
active_below-parts node nodes (some []) h = (refl, refl)
active_below-parts node nodes (some (c ∷ slug)) h =
    or_false (node_contains_slug node (c ∷ slug)) (some_contains_slug nodes (c ∷ slug)) h

rows_expanded :
    (b : Bool) (below : Items) (xs : List (Option Text))
    → tree_rows_below below ≡ xs
    → tree_rows_below (if_expanded b below) ≡ (if b then xs else [])
unfolding tree_rows
rows_expanded true below xs h = h
rows_expanded false below xs h = refl

mutual
  unfolding mount tree_rows rendered

  tree_rows-mount :
      (depth : ℕ) (active : Option Text) (node : FileNode)
      → tree_rows (mount depth active node) ≡ rendered depth active node
  tree_rows-mount depth active (file_node is_folder s nodes) = ap (◌∷◌ s) (
      rows_expanded
        (is_folder && (ltb depth 2 || active_descendant (file_node is_folder s nodes) active)) _ _
        (tree_rows-mount_all (suc depth) active nodes))

  tree_rows-mount_all :
      (depth : ℕ) (active : Option Text) (nodes : FileNodes)
      → tree_rows_below (mount_all depth active nodes) ≡ rendered_children depth active nodes
  tree_rows-mount_all depth active no_children = refl
  tree_rows-mount_all depth active (and_child node nodes) =
      ap (λ xs. xs ++ tree_rows_below (mount_all depth active nodes))
        (tree_rows-mount depth active node)
      ∙ ap (λ ys. rendered depth active node ++ ys) (tree_rows-mount_all depth active nodes)

closed_opens :
    (x b was : Bool) (slug : Text) (fresh : Items)
    → (x || b) ≡ true
    → was ≡ false
    → (b ≡ true → shows slug (tree_rows_below fresh) ≡ true)
    → (x || shows slug (tree_rows_below (if_expanded ((x || b) && not was) fresh))) ≡ true
closed_opens true b was slug fresh h w found = refl
closed_opens false true true slug fresh h w found = cc
closed_opens false true false slug fresh h w found = found refl
closed_opens false false was slug fresh h w found = cc

mutual
  unfolding set_active IsKept well_formed node_contains_slug tree_rows

  set_active-shows :
      (depth c : ℕ) (slug : Text) (before : Option Text) (i : Item)
      → IsKept before i
      → well_formed (node_of i) ≡ true
      → active_descendant (node_of i) before ≡ false
      → node_contains_slug (node_of i) (c ∷ slug) ≡ true
      → shows (c ∷ slug) (tree_rows (set_active depth (some (c ∷ slug)) i)) ≡ true
  set_active-shows depth c slug before (item (file_node false s no_children) expanded was below) k w
        a h =
      h
  set_active-shows depth c slug before
        (item (file_node false s (and_child node nodes)) expanded was below) k w a h =
      cc
  set_active-shows depth c slug before (item (file_node true s nodes) true was below) (m, k) w a h =
      either_shows (is_slug s (c ∷ slug)) _ _ _ h (λ e. e)
        (set_all_active-shows (suc depth) c slug before nodes below k w
          (active_below-false true s nodes before a))
  set_active-shows depth c slug before (item (file_node true s nodes) false was below) (m, k) w a
        h =
      closed_opens (is_slug s (c ∷ slug)) (some_contains_slug nodes (c ∷ slug)) was (c ∷ slug) _ h
        (m ∙ a)
        (λ e.
          ap (shows (c ∷ slug)) (tree_rows-mount_all (suc depth) (some (c ∷ slug)) nodes)
          ∙ rendered_children-shows (suc depth) c slug nodes w e)

  set_all_active-shows :
      (depth c : ℕ) (slug : Text) (before : Option Text) (nodes : FileNodes) (below : Items)
      → AreKept before nodes below
      → all_well_formed nodes ≡ true
      → active_below nodes before ≡ false
      → some_contains_slug nodes (c ∷ slug) ≡ true
      → shows (c ∷ slug) (tree_rows_below (set_all_active depth (some (c ∷ slug)) below)) ≡ true
  set_all_active-shows depth c slug before no_children below k w a h = cc
  set_all_active-shows depth c slug before (and_child node nodes) no_items k w a h = cc
  set_all_active-shows depth c slug before (and_child node nodes) (and_item first rest)
        (same, k, ks) w a h =
      let (a1, a2) = active_below-parts node nodes before a in
      shows-append (c ∷ slug) (tree_rows (set_active depth (some (c ∷ slug)) first)) _
      ∙ either_shows (node_contains_slug node (c ∷ slug)) (some_contains_slug nodes (c ∷ slug)) _ _
          h
          (λ e.
            set_active-shows depth c slug before first k
              (ap well_formed same ∙ and_left (well_formed node) _ w)
              (ap (λ n. active_descendant n before) same ∙ a1)
              (ap (λ n. node_contains_slug n (c ∷ slug)) same ∙ e))
          (set_all_active-shows depth c slug before nodes rest ks (and_right (well_formed node) _ w)
            a2)

-- A tree of a node that is first rendered with an active slug, and then clicked and given other slugs.
abbrev pub tree_after : FileNode → Option Text → List TreeStep → Tree
tree_after node start steps =
    tree_steps steps (record { active = start; root = mount 0 start node })

-- If only folders have children, then whatever folders have been clicked and slugs if_expanded, a slug that the
-- tree has is on the screen once it is if_expanded, if the tree has no node of the slug that was active before.
pub tree_steps-found :
    (node : FileNode) (start : Option Text) (steps : List TreeStep) (c : ℕ) (slug : Text)
    → well_formed node ≡ true
    → active_descendant node (tree_after node start steps).active ≡ false
    → node_contains_slug node (c ∷ slug) ≡ true
    → shows
        (c ∷ slug)
        (tree_rows (tree_step (opens_slug (some (c ∷ slug))) (tree_after node start steps)).root)
      ≡ true
unfolding tree_step
tree_steps-found node start steps c slug w a h =
    let (kept, same) =
      steps-IsKept steps (record { active = start; root = mount 0 start node })
        (mount-IsKept 0 start node) in
    let of_node = same ∙ node_of-mount 0 start node in
    set_active-shows 0 c slug (tree_after node start steps).active
      (tree_after node start steps).root kept (ap well_formed of_node ∙ w)
      (ap (λ n. active_descendant n (tree_after node start steps).active) of_node ∙ a)
      (ap (λ n. node_contains_slug n (c ∷ slug)) of_node ∙ h)

-- One active slug after the other.
abbrev pub open_each : ℕ → List (Option Text) → Item → Item
open_each depth [] i = i
open_each depth (active ∷ slugs) i = open_each depth slugs (set_active depth active i)

closed_stays :
    (depth : ℕ) (slugs : List (Option Text)) (s : Option Text) (nodes : FileNodes) (was : Bool)
    → was ≡ true
    → All (λ active. active_descendant (file_node true s nodes) active ≡ true) slugs
    → tree_rows (open_each depth slugs (item (file_node true s nodes) false was no_items)) ≡ s ∷ []
unfolding set_active tree_rows
closed_stays depth [] s nodes was w _ = refl
closed_stays depth (active ∷ slugs) s nodes false w _ = cc
closed_stays depth (active ∷ slugs) s nodes true w (h, hs) =
    ap
      (λ effect. tree_rows (
        open_each depth slugs (
          item (file_node true s nodes) effect (active_descendant (file_node true s nodes) active)
            (if_expanded effect (mount_all (suc depth) active nodes)))))
      (and_false (active_descendant (file_node true s nodes) active))
    ∙ closed_stays depth slugs s nodes _ h hs

-- An open folder on the screen with the active slug in it, that is clicked and so closed, stays closed
-- however many other slugs in it are if_expanded then: no node below it is on the screen.
pub click-stays_closed :
    (depth : ℕ) (before s : Option Text) (nodes : FileNodes) (was : Bool) (below : Items)
    (slugs : List (Option Text))
    → IsKept before (item (file_node true s nodes) true was below)
    → active_descendant (file_node true s nodes) before ≡ true
    → All (λ active. active_descendant (file_node true s nodes) active ≡ true) slugs
    → tree_rows (
        open_each depth slugs
          (click_folder depth before [] (item (file_node true s nodes) true was below)))
      ≡ s ∷ []
unfolding click_folder IsKept
click-stays_closed depth before s nodes was below slugs (w, _) a h =
    closed_stays depth slugs s nodes was (w ∙ a) h
