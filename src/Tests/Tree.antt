-- ===== src/Tests/Tree.antt =====
-- The tree of files, with clicks, at concrete inputs.
use agentforum.Base.{true, false, none, some, List, [], ◌∷◌, ◌≡◌, refl, Text, codes}
use agentforum.Files.{
  file_node, no_children, and_child, FileNode, FileNodes, node_contains_slug, active_descendant,
  rendered,
}
use agentforum.Files.Visible.{well_formed, shows}
use agentforum.Files.Tree.{
  item, Items, no_items, and_item, mount, set_active, click_folder, tree_rows, clicked, opens_slug,
  tree_step, tree_steps, TreeStep,
}
use agentforum.Files.Tree.Opened.{IsKept}
use agentforum.Files.Tree.Found.{tree_after, tree_steps-found, open_each, click-stays_closed}

shut : Unit {0}
unfolding mount set_active click_folder tree_rows tree_steps well_formed node_contains_slug IsKept
    rendered
shut = tt

abbrev leaf : Text → FileNode
leaf name = file_node false (some name) no_children

-- A folder with two files.
abbrev folder : FileNode
folder =
    file_node true (some (codes "a"))
      (and_child (leaf (codes "x")) (and_child (leaf (codes "y")) no_children))

-- The folder is clicked twice over, and a slug opened that the tree does not have.
abbrev clicks : List TreeStep
clicks = clicked [] ∷ clicked [] ∷ clicked [] ∷ opens_slug (some (codes "z")) ∷ []

tree_run :
    (well_formed folder ≡ true)
    × (active_descendant folder (tree_after folder none clicks).active ≡ false)
    × (node_contains_slug folder (codes "y") ≡ true)
    × (tree_rows (tree_after folder none clicks).root ≡ some (codes "a") ∷ [])
    × (tree_rows
          (tree_after folder
            (some (codes "x"))
            (clicked [] ∷ opens_slug (some (codes "y")) ∷ [])).root
        ≡ some (codes "a") ∷ [])
    × (active_descendant folder (some (codes "x")) ≡ true)
    × (active_descendant folder (some (codes "y")) ≡ true)
unfolding shut
tree_run = (refl, refl, refl, refl, refl, refl, refl)

tree_steps-found_example :
    shows
      (codes "y")
      (tree_rows (tree_step (opens_slug (some (codes "y"))) (tree_after folder none clicks)).root)
    ≡ true
tree_steps-found_example =
    tree_steps-found folder none clicks b'y' [] tree_run.0 tree_run.1 tree_run.2

-- What is mounted below the folder, where "x" is active.
abbrev mounted : Items
mounted =
    and_item (item (leaf (codes "x")) true true no_items)
      (and_item (item (leaf (codes "y")) true false no_items) no_items)

abbrev both_nodes : FileNodes
both_nodes = and_child (leaf (codes "x")) (and_child (leaf (codes "y")) no_children)

kept : IsKept (some (codes "x")) (item folder true true mounted)
unfolding shut
kept = (refl, (refl, (refl, tt), (refl, (refl, tt), tt)))

click-stays_closed_example :
    tree_rows (
      open_each 0
        (some (codes "y") ∷ [])
        (click_folder 0 (some (codes "x")) [] (item folder true true mounted)))
    ≡ some (codes "a") ∷ []
click-stays_closed_example =
    click-stays_closed 0 (some (codes "x")) (some (codes "a")) both_nodes true mounted
      (some (codes "y") ∷ []) kept tree_run.5 (tree_run.6, tt)
