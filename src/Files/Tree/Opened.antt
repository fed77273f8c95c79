-- ===== src/Files/Tree/Opened.antt =====
-- What a tree of files shows after clicks and changes of the active slug.
use agentforum.Base.{
  ℕ, zero, suc, Bool, true, false, not, ◌&&◌, ◌||◌, Option, List, [], ◌∷◌, ◌≡◌, refl, ◌∙◌, Text,
}
use agentforum.Files.{FileNode, FileNodes, file_node, no_children, and_child, active_descendant}
use agentforum.Files.Tree.{
  Item, Items, item, no_items, and_item, if_expanded, mount, mount_all, below_again, set_active,
  set_all_active, click_folder, click_below, Tree, TreeStep, clicked, opens_slug, tree_step,
  tree_steps,
}

abbrev pub node_of : Item → FileNode
node_of (item node expanded was below) = node

abbrev pub if_open : Bool → FileNodes → FileNodes
if_open true nodes = nodes
if_open false nodes = no_children

-- Each item remembers whether the active slug is in it, and the items below a folder are mounted exactly
-- while it is expanded.
unfoldable mutual
  pub IsKept : Option Text → Item → Type 0
  IsKept active (item (file_node is_folder s nodes) expanded was below) =
      (was ≡ active_descendant (file_node is_folder s nodes) active)
      × AreKept active (if_open (is_folder && expanded) nodes) below

  pub AreKept : Option Text → FileNodes → Items → Type 0
  AreKept active no_children no_items = Unit
  AreKept active no_children (and_item first rest) = true ≡ false
  AreKept active (and_child child nodes) no_items = true ≡ false
  AreKept active (and_child child nodes) (and_item first rest) =
      (node_of first ≡ child) × IsKept active first × AreKept active nodes rest

pub node_of-mount :
    (depth : ℕ) (active : Option Text) (node : FileNode) → node_of (mount depth active node) ≡ node
unfolding mount
node_of-mount depth active (file_node is_folder s nodes) = refl

AreKept-if_expanded :
    (b : Bool) (active : Option Text) (nodes : FileNodes) (below : Items)
    → AreKept active nodes below
    → AreKept active (if_open b nodes) (if_expanded b below)
unfolding AreKept
AreKept-if_expanded true active nodes below k = k
AreKept-if_expanded false active nodes below k = tt

mutual
  unfolding mount IsKept

  pub mount-IsKept :
      (depth : ℕ) (active : Option Text) (node : FileNode) → IsKept active (mount depth active node)
  mount-IsKept depth active (file_node is_folder s nodes) =
      (refl, AreKept-if_expanded _ active nodes _ (mount_all-AreKept (suc depth) active nodes))

  mount_all-AreKept :
      (depth : ℕ) (active : Option Text) (nodes : FileNodes)
      → AreKept active nodes (mount_all depth active nodes)
  mount_all-AreKept depth active no_children = tt
  mount_all-AreKept depth active (and_child child nodes) = (
    node_of-mount depth active child,
    mount-IsKept depth active child,
    mount_all-AreKept depth active nodes,
  )

again-AreKept :
    (is_folder expanded effect : Bool) (active : Option Text) (nodes : FileNodes)
    (kept fresh : Items)
    → AreKept active (if_open (is_folder && expanded) nodes) kept
    → AreKept active nodes fresh
    → AreKept active
        (if_open (is_folder && (expanded || effect)) nodes)
        (if_expanded is_folder (below_again expanded effect kept fresh))
unfolding AreKept
again-AreKept true true effect active nodes kept fresh k f = k
again-AreKept true false true active nodes kept fresh k f = f
again-AreKept true false false active nodes kept fresh k f = tt
again-AreKept false expanded effect active nodes kept fresh k f = tt

node_of-set_active :
    (depth : ℕ) (active : Option Text) (i : Item) → node_of (set_active depth active i) ≡ node_of i
unfolding set_active
node_of-set_active depth active (item (file_node is_folder s nodes) expanded was below) = refl

mutual
  unfolding set_active IsKept

  set_active-IsKept :
      (depth : ℕ) (before active : Option Text) (i : Item)
      → IsKept before i
      → IsKept active (set_active depth active i)
  set_active-IsKept depth before active (item (file_node is_folder s nodes) expanded was below)
        (_, k) =
      (
        refl,
        again-AreKept is_folder expanded _ active nodes _ _
            (set_all_active-AreKept (suc depth) before active
              (if_open (is_folder && expanded) nodes) below k)
            (mount_all-AreKept (suc depth) active nodes),
      )

  set_all_active-AreKept :
      (depth : ℕ) (before active : Option Text) (nodes : FileNodes) (below : Items)
      → AreKept before nodes below
      → AreKept active nodes (set_all_active depth active below)
  set_all_active-AreKept depth before active no_children no_items k = tt
  set_all_active-AreKept depth before active no_children (and_item first rest) k = cc
  set_all_active-AreKept depth before active (and_child child nodes) no_items k = cc
  set_all_active-AreKept depth before active (and_child child nodes) (and_item first rest)
        (same, k, ks) =
      (
        node_of-set_active depth active first ∙ same,
        set_active-IsKept depth before active first k,
        set_all_active-AreKept depth before active nodes rest ks,
      )

node_of-click :
    (depth : ℕ) (active : Option Text) (path : List ℕ) (i : Item)
    → node_of (click_folder depth active path i) ≡ node_of i
unfolding click_folder
node_of-click depth active [] (item (file_node true s nodes) expanded was below) = refl
node_of-click depth active [] (item (file_node false s nodes) expanded was below) = refl
node_of-click depth active (i ∷ path) (item node expanded was below) = refl

mutual
  unfolding click_folder IsKept

  click-IsKept :
      (depth : ℕ) (active : Option Text) (path : List ℕ) (i : Item)
      → IsKept active i
      → IsKept active (click_folder depth active path i)
  click-IsKept depth active [] (item (file_node true s nodes) expanded was below) (w, k) = (
    w,
    AreKept-if_expanded (not expanded) active nodes _ (mount_all-AreKept (suc depth) active nodes),
  )
  click-IsKept depth active [] (item (file_node false s nodes) expanded was below) k = k
  click-IsKept depth active (i ∷ path) (item (file_node is_folder s nodes) expanded was below)
        (w, k) =
      (w, click_below-AreKept (suc depth) active i path _ below k)

  click_below-AreKept :
      (depth : ℕ) (active : Option Text) (i : ℕ) (path : List ℕ) (nodes : FileNodes) (below : Items)
      → AreKept active nodes below
      → AreKept active nodes (click_below depth active i path below)
  click_below-AreKept depth active i path nodes no_items k = k
  click_below-AreKept depth active i path no_children (and_item first rest) k = cc
  click_below-AreKept depth active zero path (and_child child nodes) (and_item first rest)
        (same, k, ks) =
      (node_of-click depth active path first ∙ same, click-IsKept depth active path first k, ks)
  click_below-AreKept depth active (suc i) path (and_child child nodes) (and_item first rest)
        (same, k, ks) =
      (same, k, click_below-AreKept depth active i path nodes rest ks)

node_of-step : (step : TreeStep) (t : Tree) → node_of (tree_step step t).root ≡ node_of t.root
unfolding tree_step
node_of-step (clicked path) t = node_of-click 0 t.active path t.root
node_of-step (opens_slug slug) t = node_of-set_active 0 slug t.root

step-IsKept :
    (step : TreeStep) (t : Tree)
    → IsKept t.active t.root
    → IsKept (tree_step step t).active (tree_step step t).root
unfolding tree_step
step-IsKept (clicked path) t k = click-IsKept 0 t.active path t.root k
step-IsKept (opens_slug slug) t k = set_active-IsKept 0 t.active slug t.root k

-- Whatever is clicked and selected, a tree stays as it should be, and of the same nodes.
pub steps-IsKept :
    (steps : List TreeStep) (t : Tree)
    → IsKept t.active t.root
    → IsKept (tree_steps steps t).active (tree_steps steps t).root
      × (node_of (tree_steps steps t).root ≡ node_of t.root)
unfolding tree_steps
steps-IsKept [] t k = (k, refl)
steps-IsKept (step ∷ steps) t k =
    let (kept, same) = steps-IsKept steps (tree_step step t) (step-IsKept step t k) in
    (kept, same ∙ node_of-step step t)
