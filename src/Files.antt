-- ===== src/Files.antt =====
-- web/src/components/molecules/FileTreeItem/FileTreeItem.tsx: a tree of folders and files, and what of it is
-- rendered.
pub mod Visible
pub mod Tree
use agentforum.Base.{
  ℕ, suc, Bool, true, false, ◌&&◌, ◌||◌, Option, none, some, List, [], ◌∷◌, ◌++◌, Text, ltb, ◌==◌,
  text_eq, if◌then◌else◌,
}

-- A node: whether it is a folder, its slug, if it has one, and its children; those that are missing are none.
mutual
  pub data FileNode : Type 0 where
    file_node : Bool → Option Text → FileNodes → FileNode

  pub data FileNodes : Type 0 where
    no_children : FileNodes
    and_child : FileNode → FileNodes → FileNodes

abbrev pub is_slug : Option Text → Text → Bool
is_slug none slug = false
is_slug (some s) slug = s == slug

unfoldable mutual
  pub node_contains_slug : FileNode → Text → Bool
  node_contains_slug (file_node is_folder s children) slug =
      is_slug s slug || some_contains_slug children slug

  pub some_contains_slug : FileNodes → Text → Bool
  some_contains_slug no_children slug = false
  some_contains_slug (and_child child children) slug =
      node_contains_slug child slug || some_contains_slug children slug

-- `activeSlug ? nodeContainsSlug(node, activeSlug) : false`
abbrev pub active_descendant : FileNode → Option Text → Bool
active_descendant node none = false
active_descendant node (some []) = false
active_descendant node (some (c ∷ slug)) = node_contains_slug node (c ∷ slug)

-- The nodes of a tree that are rendered at first, by their slugs: each item's state starts with
-- `depth < 2 || activeDescendant`, a folder that is expanded renders its children, and a file none.
unfoldable mutual
  unfolding node_contains_slug

  pub rendered : ℕ → Option Text → FileNode → List (Option Text)
  rendered depth active (file_node is_folder s children) =
      let below = rendered_children (suc depth) active children in
      s
      ∷ (if is_folder && (ltb depth 2 || active_descendant (file_node is_folder s children) active)
          then below
          else [])

  pub rendered_children : ℕ → Option Text → FileNodes → List (Option Text)
  rendered_children depth active no_children = []
  rendered_children depth active (and_child child children) =
      rendered depth active child ++ rendered_children depth active children
