-- ===== src/RedBlack/Tests.antt =====
-- RedBlack.antt at a tree of two keys with a second version, and the theorems there.
use kvdb.Base.{ℕ, ◌≤◌, ◌+◌, ◌*◌, ◌^◌, ◌≡◌, ◌↔◌, refl, true, some, [], ◌∷◌, if◌then◌else◌}
use kvdb.Status.{ok_code, duplicate}
use kvdb.Entry.{entry_eq, entry_lt, memcmp}
use kvdb.Record.{InternalRecord, put, node_lt}
use kvdb.Record.Versions.{IsSorted, insert_version, newer, outcome}
use kvdb.Tree.{
  nil, node, inorder, size, find_latest_by_key, bst_ordering_correct, ordering_loop, push_left,
  next,
}
use kvdb.RedBlack.{
  RbTree, red, black, insert, validate, root_is_black, subtree_has_no_red_node_with_red_child,
  subtree_black_height_info,
}
use kvdb.RedBlack.Order.{insert-insert_version, find_latest_by_key-insert}
use kvdb.RedBlack.Valid.{validate_iff, validate-insert}
use kvdb.RedBlack.Colors.{IsColored}
use kvdb.RedBlack.Depth.{depth, depth-validate}

abbrev version : ℕ → ℕ → InternalRecord
version k s = record { key_entry = k ∷ []; value_entry = s ∷ []; kind = put; seq_num = s }

-- Keys 1, 2, 3 in this order: the second insertion hangs a red node, the third rotates.
abbrev sample : RbTree
sample = node black (version 2 2) (node red (version 1 1) nil nil) (node red (version 3 3) nil nil)

built : (insert (version 3 3) (insert (version 2 2) (insert (version 1 1) nil).1).1).1 ≡ sample
unfolding insert node_lt entry_eq entry_lt memcmp
built = refl

refused : (insert (version 2 2) sample).0 ≡ duplicate
unfolding insert node_lt entry_eq entry_lt memcmp
refused = refl

sample_valid : validate sample ≡ true
unfolding validate root_is_black subtree_has_no_red_node_with_red_child bst_ordering_correct
    ordering_loop push_left next subtree_black_height_info node_lt entry_eq entry_lt memcmp
sample_valid = refl

sample-IsSorted : IsSorted (inorder sample)
sample-IsSorted = ((validate_iff sample).0 sample_valid).0

insert-insert_version_example :
    ((insert (version 2 9) sample).0, inorder (insert (version 2 9) sample).1)
    ≡ outcome (inorder sample) (insert_version (version 2 9) (inorder sample))
insert-insert_version_example = insert-insert_version (version 2 9) sample sample-IsSorted

find_latest_by_key-insert_example :
    ((insert (version 2 9) sample).0 ≡ ok_code
      → find_latest_by_key (insert (version 2 9) sample).1 (2 ∷ []) ≡ (
          if entry_eq (2 ∷ []) (2 ∷ [])
          then some (newer (version 2 9) (find_latest_by_key sample (2 ∷ [])))
          else find_latest_by_key sample (2 ∷ [])))
    × ((insert (version 2 9) sample).0 ≡ duplicate
        → find_latest_by_key (insert (version 2 9) sample).1 (2 ∷ [])
          ≡ find_latest_by_key sample (2 ∷ []))
find_latest_by_key-insert_example =
    find_latest_by_key-insert (version 2 9) sample (2 ∷ []) sample-IsSorted

validate_iff_example : (validate sample ≡ true) ↔ (IsSorted (inorder sample) × IsColored sample)
validate_iff_example = validate_iff sample

validate-insert_example : validate (insert (version 2 9) sample).1 ≡ true
validate-insert_example = validate-insert (version 2 9) sample sample_valid

depth-validate_example : (k : ℕ) × (depth sample ≤ 2 * k) × (2 ^ k ≤ size sample + 1)
depth-validate_example = depth-validate sample sample_valid
