-- ===== src/Splay/Tests.antt =====
-- Splay.antt at a tree of three keys, and the theorems there.
use kvdb.Base.{ℕ, ◌≡◌, refl, true, some, [], ◌∷◌}
use kvdb.Status.{duplicate}
use kvdb.Entry.{entry_eq, entry_lt, memcmp}
use kvdb.Record.{InternalRecord, put, node_lt}
use kvdb.Record.Versions.{insert_version, outcome}
use kvdb.Tree.{
  nil, node, inorder, find_latest_by_key, bst_ordering_correct, ordering_loop, push_left, next,
}
use kvdb.Tree.Iterate.{bst_ordering_correct_iff}
use kvdb.Splay.{SplayTree, insert, find_mutable}
use kvdb.Splay.Order.{insert_splay-outcome}
use kvdb.Splay.Find.{find_mutable-find_latest_by_key}
use kvdb.Splay.Interface.{splay_driver}

abbrev version : ℕ → ℕ → InternalRecord
version k s = record { key_entry = k ∷ []; value_entry = s ∷ []; kind = put; seq_num = s }

abbrev sample : SplayTree
sample = node tt (version 3 3) (node tt (version 2 2) (node tt (version 1 1) nil nil) nil) nil

built : (insert (version 3 3) (insert (version 2 2) (insert (version 1 1) nil).1).1).1 ≡ sample
unfolding insert node_lt entry_eq entry_lt memcmp
built = refl

-- Zig-zig: the lookup of key 1 brings its node to the root.
splayed : find_mutable sample (1 ∷ []) ≡ (
  node tt (version 1 1) nil (node tt (version 2 2) nil (node tt (version 3 3) nil nil)),
  some (version 1 1),
)
unfolding find_mutable entry_eq entry_lt memcmp
splayed = refl

sample_ordered : bst_ordering_correct sample ≡ true
unfolding bst_ordering_correct ordering_loop push_left next node_lt entry_eq entry_lt memcmp
sample_ordered = refl

refused : ((splay_driver 72).insert (version 2 2) sample).0 ≡ duplicate
unfolding insert node_lt entry_eq entry_lt memcmp
refused = refl

insert_splay-outcome_example :
    ((insert (version 2 9) sample).0, inorder (insert (version 2 9) sample).1)
    ≡ outcome (inorder sample) (insert_version (version 2 9) (inorder sample))
insert_splay-outcome_example =
    insert_splay-outcome (version 2 9) sample ((bst_ordering_correct_iff sample).0 sample_ordered)

find_mutable-find_latest_by_key_example :
    ((find_mutable sample (1 ∷ [])).1 ≡ find_latest_by_key sample (1 ∷ []))
    × (inorder (find_mutable sample (1 ∷ [])).0 ≡ inorder sample)
find_mutable-find_latest_by_key_example = find_mutable-find_latest_by_key sample (1 ∷ [])
