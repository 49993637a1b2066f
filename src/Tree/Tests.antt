-- ===== src/Tree/Tests.antt =====
-- Tree.antt at a tree of three versions.
use kvdb.Base.{◌≡◌, ◌↔◌, refl, true, [], ◌∷◌}
use kvdb.Entry.{ArenaEntry, entry_eq, entry_lt, memcmp}
use kvdb.Record.{InternalRecord, put, node_lt}
use kvdb.Record.Versions.{IsSorted, first_version}
use kvdb.Tree.{Tree, nil, node, inorder, find_latest_by_key, dump_inorder, bst_ordering_correct}
use kvdb.Tree.Iterate.{dump_inorder-inorder, bst_ordering_correct_iff}
use kvdb.Tree.Lookup.{find_latest_by_key-first_version}

abbrev version : ArenaEntry → InternalRecord
version k = record { key_entry = k; value_entry = []; kind = put; seq_num = 1 }

abbrev sample : Tree Unit
sample =
    node tt (version (2 ∷ [])) (node tt (version (1 ∷ [])) nil nil)
      (node tt (version (3 ∷ [])) nil nil)

sample-IsSorted : IsSorted (inorder sample)
unfolding node_lt entry_eq entry_lt memcmp
sample-IsSorted = ((refl, (refl, tt)), ((refl, tt), (tt, tt)))

dump_inorder-inorder_example : dump_inorder sample ≡ inorder sample
dump_inorder-inorder_example = dump_inorder-inorder sample

bst_ordering_correct_iff_example : (bst_ordering_correct sample ≡ true) ↔ IsSorted (inorder sample)
bst_ordering_correct_iff_example = bst_ordering_correct_iff sample

find_latest_by_key-first_version_example :
    find_latest_by_key sample (3 ∷ []) ≡ first_version (3 ∷ []) (inorder sample)
find_latest_by_key-first_version_example =
    find_latest_by_key-first_version sample (3 ∷ []) sample-IsSorted
