-- ===== src/Treap/Tests.antt =====
-- Treap.antt at a treap of three keys, and the theorems there.
use kvdb.Base.{ℕ, ◌+◌, ◌≡◌, refl, true, [], ◌∷◌}
use kvdb.Status.{duplicate}
use kvdb.Entry.{entry_eq, entry_lt, memcmp}
use kvdb.Record.{InternalRecord, put, node_lt}
use kvdb.Record.Versions.{insert_version, outcome}
use kvdb.Tree.{nil, node, inorder, bst_ordering_correct, ordering_loop, push_left, next}
use kvdb.Tree.Iterate.{bst_ordering_correct_iff}
use kvdb.Treap.{Treap, insert, validate}
use kvdb.Treap.Order.{insert-outcome}
use kvdb.Driver.{Driver}
use kvdb.Treap.Interface.{treap_driver}
use kvdb.Treap.Heap.{validate-insert_treap}

abbrev version : ℕ → ℕ → InternalRecord
version k s = record { key_entry = k ∷ []; value_entry = s ∷ []; kind = put; seq_num = s }

-- The priority of key 2 is the greatest, so the node rises to the root.
abbrev sample : Treap
sample = node 9 (version 2 2) (node 5 (version 1 1) nil nil) (node 4 (version 3 3) nil nil)

built :
    (insert 9 (version 2 2) (insert 4 (version 3 3) (insert 5 (version 1 1) nil).1).1).1 ≡ sample
unfolding insert node_lt entry_eq entry_lt memcmp
built = refl

refused : (insert 7 (version 2 2) sample).0 ≡ duplicate
unfolding insert node_lt entry_eq entry_lt memcmp
refused = refl

sample_valid : validate sample ≡ true
unfolding validate bst_ordering_correct ordering_loop push_left next node_lt entry_eq entry_lt
    memcmp
sample_valid = refl

sample_ordered : bst_ordering_correct sample ≡ true
unfolding bst_ordering_correct ordering_loop push_left next node_lt entry_eq entry_lt memcmp
sample_ordered = refl

insert-outcome_example :
    ((insert 8 (version 2 9) sample).0, inorder (insert 8 (version 2 9) sample).1)
    ≡ outcome (inorder sample) (insert_version (version 2 9) (inorder sample))
insert-outcome_example =
    insert-outcome 8 (version 2 9) sample ((bst_ordering_correct_iff sample).0 sample_ordered)

validate-insert_treap_example : validate (insert 8 (version 2 9) sample).1 ≡ true
validate-insert_treap_example = validate-insert_treap 8 (version 2 9) sample sample_valid

-- A driver that draws 4, 5, 6, …
abbrev counting : Driver
counting = treap_driver (λ n. (n, n + 1)) 4 100

draws_once : (counting.insert (version 1 1) (nil, 4)).1.1 ≡ 5
unfolding insert
draws_once = refl
