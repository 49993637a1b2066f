-- ===== src/RedBlack/Interface.antt =====
-- The red-black tree fills the driver interface. `node_size` is the platform's `sizeof(Node)`.
use kvdb.Base.{ℕ, ◌≡◌, ◌↔◌, refl, true, List, [], ◌∷◌, ◌++◌}
use kvdb.Record.{InternalRecord}
use kvdb.Record.Versions.{IsSorted, insert_version, first_version, outcome}
use kvdb.Driver.{Driver}
use kvdb.Tree.{
  Tree, nil, node, inorder, find_latest_by_key, empty, dump_inorder,
  approximate_subtree_memory_usage, bst_ordering_correct, ordering_loop,
}
use kvdb.Tree.Iterate.{dump_inorder-inorder}
use kvdb.Tree.Lookup.{find_latest_by_key-first_version}
use kvdb.RedBlack.{
  RbTree, insert, validate, root_is_black, subtree_has_no_red_node_with_red_child,
  subtree_black_height_info,
}
use kvdb.RedBlack.Order.{insert-insert_version}
use kvdb.RedBlack.Valid.{validate_iff, validate-insert}

-- A tree is empty exactly if its iterator visits nothing.
pub empty_iff : {E : Type 0} (t : Tree E) → (empty t ≡ true) ↔ (dump_inorder t ≡ [])
unfolding empty
empty_iff nil = rw dump_inorder-inorder (λ _. refl, λ _. refl)
empty_iff (node e x l r) =
    rw dump_inorder-inorder (λ h. cc, λ h. absurd (not_nil (inorder l) x (inorder r) h))
  where
    not_nil :
        (xs : List InternalRecord) (y : InternalRecord) (ys : List InternalRecord)
        → xs ++ (y ∷ ys) ≡ []
        → ⊥
    not_nil [] y ys h = cc
    not_nil (z ∷ xs) y ys h = cc

pub rb_insert_law :
    (r : InternalRecord) (t : RbTree)
    → validate t ≡ true
    → ((insert r t).0, dump_inorder (insert r t).1)
      ≡ outcome (dump_inorder t) (insert_version r (dump_inorder t))
rb_insert_law r t h =
    rw (dump_inorder-inorder (insert r t).1, dump_inorder-inorder t)
      (insert-insert_version r t ((validate_iff t).0 h).0)

pub rb_find_law :
    (t : RbTree) (key : List ℕ)
    → validate t ≡ true
    → find_latest_by_key t key ≡ first_version key (dump_inorder t)
rb_find_law t key h =
    rw dump_inorder-inorder (find_latest_by_key-first_version t key ((validate_iff t).0 h).0)

pub rb-IsSorted : (t : RbTree) → validate t ≡ true → IsSorted (dump_inorder t)
rb-IsSorted t h = rw dump_inorder-inorder ((validate_iff t).0 h).0

pub rb_new : validate nil ≡ true
unfolding validate root_is_black subtree_has_no_red_node_with_red_child bst_ordering_correct
    ordering_loop subtree_black_height_info
rb_new = refl

abbrev pub rb_driver : ℕ → Driver
rb_driver node_size = record {
  Table = RbTree;
  new_table = nil;
  insert = insert;
  find_latest_by_key = find_latest_by_key;
  find_mutable = λ t key. (t, find_latest_by_key t key);
  dump_inorder = dump_inorder;
  empty = empty;
  approximate_memory_usage = approximate_subtree_memory_usage node_size;
  IsValid = λ t. validate t ≡ true;
  new_table-IsValid = rb_new;
  dump_inorder-new_table = dump_inorder-inorder nil;
  dump_inorder-IsSorted = rb-IsSorted;
  insert-IsValid = validate-insert;
  insert_law = rb_insert_law;
  find_law = rb_find_law;
  find_mutable_law = rb_find_law;
  find_mutable_keeps = λ t key. refl;
  find_mutable-IsValid = λ t key h. h;
  empty_law = empty_iff;
}
