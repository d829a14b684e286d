-- ===== src/Core/Tests.antt =====
-- Runs of the arenas at concrete inputs.
use agentc.Core.Reader.{SlabId, ok, refused}
use agentc.Core.Images.{
  ArenaRootState, ArenaSlabImage, structured, serialize_arena_root_state,
  deserialize_arena_root_state, serialize_arena_slab_image, deserialize_arena_slab_image,
}
use agentc.Core.Images.RoundTrip.{deserialize-serialize_arena_root_state}
use agentc.Core.Images.SlabRoundTrip.{deserialize-serialize_arena_slab_image}
use agentc.Core.Containers.SavedNodes.{
  ListNode, TreeNode, export_tree_node, restore_tree_node, restore-export_tree_node,
}
use agentc.Core.Containers.NameOrder.{name_cmp}
use agentc.Core.Containers.AaTree.{Tree, new_tree, insert, add, remove, for_each}
use agentc.Core.Containers.AaTree.Dictionary.{
  IsDictionary, get, new_tree-IsDictionary, add-IsDictionary, get-remove,
}
use agentc.Core.Containers.AaTree.Traversal.{
  IsAscending, entry, for_each-IsAscending, entry-for_each,
}
use agentc.Core.BlobAllocator.{
  BlobSlab, BlobAllocator, no_blobs, num_slabs, allocate, allocate_all, highest, checkpoint,
  rollback,
}
use agentc.Core.BlobAllocator.Stored.{IsValid, Allocated, allocate-Allocated}
use agentc.Core.BlobAllocator.Rollback.{RolledBack, rollback-RolledBack}
use agentc.Prelude.{
  ℕ, ◌≡◌, refl, true, [], ◌∷◌, ◌++◌, none, some, codes, arith, ◌==◌, if◌then◌else◌,
}

abbrev at : ℕ → ℕ → SlabId
at i o = record { index = i; offset = o }

abbrev root : ArenaRootState
root = record { version = 1; anchors = record { name = codes "main"; value_sid = at 3 7 } ∷ [] }

deserialize-serialize_arena_root_state_example :
    deserialize_arena_root_state 1000 (serialize_arena_root_state root ++ []) ≡ ok root
deserialize-serialize_arena_root_state_example =
    deserialize-serialize_arena_root_state 1000 root [] (record {
      version = omega arith;
      held = omega arith;
      counted = omega arith;
      anchors = (
        record { held = omega arith; counted = omega arith; sid = (omega arith, omega arith) },
        tt,
      );
    })

abbrev image : ArenaSlabImage
image = record {
  slab_index = 2;
  count = 1;
  in_use = 1 ∷ 0 ∷ [];
  encoding = structured;
  bytes = [];
  structured_slots = record { offset = 0; payload = codes "node" } ∷ [];
}

deserialize-serialize_arena_slab_image_example :
    deserialize_arena_slab_image 1000 (serialize_arena_slab_image image ++ codes "x") ≡ refused
deserialize-serialize_arena_slab_image_example =
    deserialize-serialize_arena_slab_image 1000 image (codes "x")
      (record {
        slab_index = omega arith;
        count = omega arith;
        held = omega arith;
        counted = omega arith;
        in_use = (omega arith, (omega arith, tt));
        body = (
          refl,
          omega arith,
          omega arith,
          (record { offset = omega arith; held = omega arith; counted = omega arith }, tt),
        );
      })
      (omega arith)

abbrev list_node : ListNode
list_node = record { prev = at 1 2; next = at 1 3; data_sid = at 0 9 }

abbrev tree_node : TreeNode
tree_node = record {
  name = codes "key";
  level = 1;
  left = at 0 0;
  right = at 1 3;
  data_sid = at 0 9;
}

restore-export_tree_node_example :
    restore_tree_node 1000 (export_tree_node tree_node ++ []) ≡ ok tree_node
restore-export_tree_node_example = restore-export_tree_node 1000 tree_node [] (record {
  held = omega arith;
  counted = omega arith;
  level = omega arith;
  left = (omega arith, omega arith);
  right = (omega arith, omega arith);
  data_sid = (omega arith, omega arith);
})

abbrev one_name : Tree ℕ
one_name = add new_tree (codes "m") (some 1)

abbrev names : Tree ℕ
names = add (add one_name (codes "z") (some 2)) (codes "a") (some 3)

one_name-IsDictionary : IsDictionary one_name
one_name-IsDictionary = add-IsDictionary new_tree (codes "m") 1 new_tree-IsDictionary

names-IsDictionary : IsDictionary names
names-IsDictionary =
    add-IsDictionary (add one_name (codes "z") (some 2)) (codes "a") 3
      (add-IsDictionary one_name (codes "z") 2 one_name-IsDictionary)

-- The callbacks come in the order of the names.
in_order :
    for_each names true ≡ (codes "a", some 3) ∷ (codes "m", some 1) ∷ (codes "z", some 2) ∷ []
unfolding for_each add insert name_cmp
in_order = refl

get-remove_example : get (remove names (codes "m")) (codes "z") ≡ get names (codes "z")
unfolding name_cmp
get-remove_example = get-remove names (codes "m") (codes "z") names-IsDictionary

for_each-IsAscending_example : IsAscending (for_each names true)
for_each-IsAscending_example = for_each-IsAscending names names-IsDictionary.ordered

entry-for_each_example : entry (for_each names true) (codes "z") ≡ get names (codes "z")
entry-for_each_example = entry-for_each names (codes "z") names-IsDictionary.ordered

abbrev pub no_bytes : ℕ → ℕ → ℕ
no_bytes i j = 0

no_blobs-IsValid : IsValid no_blobs.slabs
no_blobs-IsValid = record {
  bounded = λ i s e. absurd cc;
  reserved = λ s e. absurd cc;
  limited = λ i s e. absurd cc;
}

allocate-Allocated_example :
    Allocated no_bytes
      (codes "blob")
      no_blobs.slabs
      (allocate no_bytes (codes "blob") no_blobs).0
      (allocate no_bytes (codes "blob") no_blobs).1.slabs
    × ((allocate no_bytes (codes "blob") no_blobs).1.checkpoint_stack ≡ [])
    × ((allocate no_bytes (codes "blob") no_blobs).1.checkpoint_watermarks ≡ [])
allocate-Allocated_example = allocate-Allocated no_bytes (codes "blob") no_blobs no_blobs-IsValid

abbrev pub slab : BlobSlab
slab = record { count = 5; bytes = λ _. 7 }

abbrev pub five_bytes : BlobAllocator
five_bytes = record {
  slabs = λ i. if i == 0 then some slab else none;
  checkpoint_watermarks = [];
  checkpoint_stack = [];
}

pub five_bytes-IsValid : IsValid five_bytes.slabs
five_bytes-IsValid = record {
  bounded = λ i s e. ground arith;
  reserved = λ s e. ground arith;
  limited = λ i s e. ground arith;
}

rollback-RolledBack_example :
    RolledBack
      (highest num_slabs five_bytes.slabs)
      five_bytes
      (allocate_all no_bytes (codes "one" ∷ codes "two" ∷ []) (checkpoint five_bytes).1).slabs
      (rollback
        (checkpoint five_bytes).0
        (allocate_all no_bytes (codes "one" ∷ codes "two" ∷ []) (checkpoint five_bytes).1))
unfolding highest
rollback-RolledBack_example =
    rollback-RolledBack no_bytes five_bytes (codes "one" ∷ codes "two" ∷ []) slab five_bytes-IsValid
      refl (omega arith)
