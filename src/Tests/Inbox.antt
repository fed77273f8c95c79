-- ===== src/Tests/Inbox.antt =====
-- The inbox and the tree of files at concrete inputs.
use mathlib.Core.Option
use agentforum.Base.{ℕ, true, false, none, some, [], ◌∷◌, map, ◌≡◌, refl, Text, codes, to_decimal}
use agentforum.EventStream.Ingest.{Event}
use agentforum.Inbox.{AckRequest, event_line, ordered, click_ack}
use agentforum.Inbox.Acknowledged.{Covers, click_ack-Covers}
use agentforum.Files.{file_node, no_children, and_child, FileNode, rendered, node_contains_slug}
use agentforum.Files.Visible.{well_formed, shows}

shut : Unit {0}
unfolding event_line ordered click_ack rendered node_contains_slug well_formed to_decimal
shut = tt

abbrev event_at : ℕ → Event
event_at n = record {
  sequence = n;
  event_type = 2;
  reason = 1;
  actor_id = codes "a1";
  actor_name = [];
  thread_id = codes "t1";
  thread_title = codes "Hi";
  subforum_key = codes "go";
  created_at = [];
}

inbox_runs :
    (map (λ (e : Event). e.sequence) (ordered (event_at 3 ∷ event_at 12 ∷ [])) ≡ 12 ∷ 3 ∷ [])
    × (Option.map
          (λ (r : AckRequest). r.through_sequence)
          (click_ack (codes "af_x") (event_at 3 ∷ event_at 12 ∷ []))
        ≡ some (codes "12"))
    × (click_ack (codes "af_x") [] ≡ none)
    × ((event_line (event_at 3)).actor ≡ codes "a1")
unfolding shut
inbox_runs = (refl, refl, refl, refl)

click_ack-Covers_example :
    (request : AckRequest) × (click_ack (codes "af_x") (event_at 3 ∷ event_at 12 ∷ [])
      ≡ some request)
    × Covers (ordered (event_at 3 ∷ event_at 12 ∷ [])) request
click_ack-Covers_example = click_ack-Covers (codes "af_x") (event_at 3) (event_at 12 ∷ []) refl

-- A file four folders deep.
abbrev folder : Text → FileNode → FileNode
folder name child = file_node true (some name) (and_child child no_children)

abbrev leaf : FileNode
leaf = file_node false (some (codes "x")) no_children

abbrev deep : FileNode
deep = folder (codes "a") (folder (codes "b") (folder (codes "c") (folder (codes "d") leaf)))

tree_runs :
    (shows (codes "x") (rendered 0 none deep) ≡ false)
    × (well_formed deep ≡ true)
    × (node_contains_slug deep (codes "x") ≡ true)
unfolding shut
tree_runs = (refl, refl, refl)
