-- ===== src/Core/Containers/SavedNodes.antt =====
-- The nodes of the list and of the tree as the payload of a slot: exportSlot and restoreSlot
-- (core/container.h). A node on an arena holds slab ids; 0:0 is the null pointer.
use agentc.Core.Reader.{
  SlabId, Outcome, ok, refused, Reader, ◌>>=◌, pure, le, size_of_size, append_pod, append_string,
  append_slab_id, read_pod, read_slab_id, read_string, to_the_end, start,
}
use agentc.Core.Reader.Reads.{
  Reads, Reads-bind, Reads-map, Reads-read_pod, Reads-read_slab_id, Reads-read_string,
}
use agentc.Core.Images.RoundTrip.{IsSlabId}
use mathlib.Core.List.{append_assoc}
use agentc.Prelude.{ℕ, ◌<◌, ◌≤◌, ◌^◌, ◌≡◌, ap, ◌∙◌, Bytes, [], ◌++◌, length, ltb, if◌then◌else◌}

-- CLL
pub record ListNode : Type 0 where
  pub prev : SlabId
  pub next : SlabId
  pub data_sid : SlabId

-- AATree
pub record TreeNode : Type 0 where
  pub name : Bytes
  pub level : ℕ
  pub left : SlabId
  pub right : SlabId
  pub data_sid : SlabId

unfoldable pub export_list_node : ListNode → Bytes
export_list_node node =
    append_slab_id node.data_sid (append_slab_id node.next (append_slab_id node.prev []))

unfoldable pub export_tree_node : TreeNode → Bytes
export_tree_node node = append_slab_id node.data_sid (
    append_slab_id node.right
      (append_slab_id node.left (append_pod 4 node.level (append_string node.name []))))

abbrev list_node_reader : Reader ListNode
list_node_reader = do
  prev ← read_slab_id
  next ← read_slab_id
  sid ← read_slab_id
  pure (record { prev = prev; next = next; data_sid = sid })

unfoldable pub restore_list_node : Bytes → Outcome ListNode
restore_list_node payload = to_the_end (list_node_reader (start payload))

abbrev tree_node_reader : ℕ → Reader TreeNode
tree_node_reader max_size = do
  name ← read_string max_size
  level ← read_pod 4
  left ← read_slab_id
  right ← read_slab_id
  sid ← read_slab_id
  pure (record { name = name; level = level; left = left; right = right; data_sid = sid })

unfoldable pub restore_tree_node : ℕ → Bytes → Outcome TreeNode
restore_tree_node max_size payload = to_the_end (tree_node_reader max_size (start payload))

abbrev sid_text : SlabId → Bytes
sid_text sid = le 2 sid.index ++ le 2 sid.offset

Reads-sid_text : (sid : SlabId) → IsSlabId sid → Reads read_slab_id (sid_text sid) sid
unfolding append_slab_id append_pod
Reads-sid_text sid h = Reads-read_slab_id sid h.0 h.1

pub record ListNodeFits (node : ListNode) : Type 0 where
  pub prev : IsSlabId node.prev
  pub next : IsSlabId node.next
  pub data_sid : IsSlabId node.data_sid

pub record TreeNodeFits (max_size : ℕ) (node : TreeNode) : Type 0 where
  pub held : length node.name ≤ max_size
  pub counted : length node.name < 2 ^ 64
  pub level : node.level < 2 ^ 32
  pub left : IsSlabId node.left
  pub right : IsSlabId node.right
  pub data_sid : IsSlabId node.data_sid

abbrev list_node_text : ListNode → Bytes
list_node_text n = sid_text n.prev ++ (sid_text n.next ++ sid_text n.data_sid)

abbrev tree_node_text : TreeNode → Bytes
tree_node_text n =
    (le size_of_size (length n.name) ++ n.name)
    ++ (le 4 n.level ++ (sid_text n.left ++ (sid_text n.right ++ sid_text n.data_sid)))

Reads-list_node_reader :
    (n : ListNode) → ListNodeFits n → Reads list_node_reader (list_node_text n) n
Reads-list_node_reader n h = Reads-bind _ _ _ _ _ _ (Reads-sid_text n.prev h.prev) (
    Reads-bind _ _ _ _ _ _ (Reads-sid_text n.next h.next) (
      Reads-map _ (λ sid. record { prev = n.prev; next = n.next; data_sid = sid }) _ _
        (Reads-sid_text n.data_sid h.data_sid)))

Reads-tree_node_reader :
    (max_size : ℕ) (n : TreeNode)
    → TreeNodeFits max_size n
    → Reads (tree_node_reader max_size) (tree_node_text n) n
Reads-tree_node_reader max_size n h =
    Reads-bind _ _ _ _ _ _ (Reads-read_string max_size n.name h.held h.counted) (
      Reads-bind _ _ _ _ _ _ (Reads-read_pod 4 n.level h.level) (
        Reads-bind _ _ _ _ _ _ (Reads-sid_text n.left h.left) (
          Reads-bind _ _ _ _ _ _ (Reads-sid_text n.right h.right) (
            Reads-map _
              (λ sid. record {
                name = n.name;
                level = n.level;
                left = n.left;
                right = n.right;
                data_sid = sid;
              })
              _ _ (Reads-sid_text n.data_sid h.data_sid)))))

-- The payload of a list node restores that node, and no payload with more bytes is taken.
pub restore-export_list_node :
    (node : ListNode) (extra : Bytes)
    → ListNodeFits node
    → restore_list_node (export_list_node node ++ extra)
      ≡ (if ltb 0 (length extra) then refused else ok node)
unfolding restore_list_node export_list_node append_slab_id append_pod
restore-export_list_node node extra h =
    ap (λ t. restore_list_node (t ++ extra)) (simp append_assoc)
    ∙ ap to_the_end (Reads-list_node_reader node h 0 extra)

-- The payload of a tree node restores that node, and no payload with more bytes is taken.
pub restore-export_tree_node :
    (max_size : ℕ) (node : TreeNode) (extra : Bytes)
    → TreeNodeFits max_size node
    → restore_tree_node max_size (export_tree_node node ++ extra)
      ≡ (if ltb 0 (length extra) then refused else ok node)
unfolding restore_tree_node export_tree_node append_slab_id append_string append_pod
restore-export_tree_node max_size node extra h =
    ap (λ t. restore_tree_node max_size (t ++ extra)) (simp append_assoc)
    ∙ ap to_the_end (Reads-tree_node_reader max_size node h 0 extra)
