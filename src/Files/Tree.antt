-- ===== src/Files/Tree.antt =====
-- web/src/components/molecules/FileTreeItem/FileTreeItem.tsx: the state of each item that is mounted, the
-- clicks on folders, and a new active slug.
pub mod Opened
pub mod Found
use agentforum.Base.{
  ℕ, zero, suc, Bool, true, false, not, ◌&&◌, ◌||◌, Option, List, [], ◌∷◌, ◌++◌, Text, ltb,
}
use agentforum.Files.{
  FileNode, FileNodes, file_node, no_children, and_child, node_contains_slug, active_descendant,
}

-- An item that is mounted: its node, `expanded`, `activeDescendant` when its effect ran last, and the items
-- below that are mounted.
mutual
  pub data Item : Type 0 where
    item : FileNode → Bool → Bool → Items → Item

  pub data Items : Type 0 where
    no_items : Items
    and_item : Item → Items → Items

-- `expanded && node.children?.map(…)`
abbrev pub if_expanded : Bool → Items → Items
if_expanded true below = below
if_expanded false below = no_items

-- An item is mounted: `useState(depth < 2 || activeDescendant)`.
unfoldable mutual
  unfolding node_contains_slug

  pub mount : ℕ → Option Text → FileNode → Item
  mount depth active (file_node is_folder s nodes) =
      let below = mount_all (suc depth) active nodes in
      let inside = active_descendant (file_node is_folder s nodes) active in
      let expanded = ltb depth 2 || inside in
      item (file_node is_folder s nodes) expanded inside (if_expanded (is_folder && expanded) below)

  pub mount_all : ℕ → Option Text → FileNodes → Items
  mount_all depth active no_children = no_items
  mount_all depth active (and_child child nodes) =
      and_item (mount depth active child) (mount_all depth active nodes)

-- What is below an item that is rendered again: if it was expanded, its items stay mounted; if its effect
-- expands it, they are mounted anew.
abbrev pub below_again : Bool → Bool → Items → Items → Items
below_again true effect kept fresh = kept
below_again false effect kept fresh = if_expanded effect fresh

-- Rendered again with another active slug. The effect runs where `activeDescendant` has changed.
unfoldable mutual
  unfolding mount node_contains_slug

  pub set_active : ℕ → Option Text → Item → Item
  set_active depth active (item (file_node is_folder s nodes) expanded was below) =
      let kept = set_all_active (suc depth) active below in
      let fresh = mount_all (suc depth) active nodes in
      let inside = active_descendant (file_node is_folder s nodes) active in
      let effect = inside && not was in
      item (file_node is_folder s nodes) (expanded || effect) inside
        (if_expanded is_folder (below_again expanded effect kept fresh))

  pub set_all_active : ℕ → Option Text → Items → Items
  set_all_active depth active no_items = no_items
  set_all_active depth active (and_item first rest) =
      and_item (set_active depth active first) (set_all_active depth active rest)

-- `setExpanded((v) => !v)` of the item whose button is clicked, at a path of places in the tree; a file has no
-- such button, and what is not mounted cannot be clicked.
unfoldable mutual
  unfolding mount

  pub click_folder : ℕ → Option Text → List ℕ → Item → Item
  click_folder depth active [] (item (file_node true s nodes) expanded was below) =
      item (file_node true s nodes) (not expanded) was
        (if_expanded (not expanded) (mount_all (suc depth) active nodes))
  click_folder depth active [] (item (file_node false s nodes) expanded was below) =
      item (file_node false s nodes) expanded was below
  click_folder depth active (i ∷ path) (item node expanded was below) =
      item node expanded was (click_below (suc depth) active i path below)

  pub click_below : ℕ → Option Text → ℕ → List ℕ → Items → Items
  click_below depth active i path no_items = no_items
  click_below depth active zero path (and_item first rest) =
      and_item (click_folder depth active path first) rest
  click_below depth active (suc i) path (and_item first rest) =
      and_item first (click_below depth active i path rest)

-- The slugs of the nodes that are on the screen.
unfoldable mutual
  pub tree_rows : Item → List (Option Text)
  tree_rows (item (file_node is_folder s nodes) expanded was below) = s ∷ tree_rows_below below

  pub tree_rows_below : Items → List (Option Text)
  tree_rows_below no_items = []
  tree_rows_below (and_item first rest) = tree_rows first ++ tree_rows_below rest

-- A tree on the screen with its active slug, and what happens to it.
pub record Tree : Type 0 where
  pub active : Option Text
  pub root : Item

pub data TreeStep : Type 0 where
  clicked : List ℕ → TreeStep
  opens_slug : Option Text → TreeStep

unfoldable pub tree_step : TreeStep → Tree → Tree
unfolding click_folder set_active
tree_step (clicked path) t = record t { root = click_folder 0 t.active path t.root }
tree_step (opens_slug slug) t = record { active = slug; root = set_active 0 slug t.root }

unfoldable pub tree_steps : List TreeStep → Tree → Tree
unfolding tree_step
tree_steps [] t = t
tree_steps (step ∷ steps) t = tree_steps steps (tree_step step t)
