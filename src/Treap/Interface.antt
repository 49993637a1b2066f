-- ===== src/Treap/Interface.antt =====
-- The treap fills the driver interface. The library's random generator is a parameter: its states and
-- how a priority is drawn. In the source the generator is one static object; here each table carries
-- the state from which its next priority is drawn, which stands for any sequence of draws.
-- `node_size` is the platform's `sizeof(Node)`.
use kvdb.Base.{arith, ℕ, ◌≡◌, refl, true}
use kvdb.Status.{StatusCode}
use kvdb.Entry.{ArenaEntry}
use kvdb.Record.{InternalRecord}
use kvdb.Record.Versions.{IsSorted, insert_version, first_version, outcome}
use kvdb.Driver.{Driver}
use kvdb.Tree.{
  nil, inorder, find_latest_by_key, empty, dump_inorder, approximate_subtree_memory_usage,
  bst_ordering_correct, ordering_loop,
}
use kvdb.Tree.Iterate.{dump_inorder-inorder, bst_ordering_correct_iff}
use kvdb.Tree.Lookup.{find_latest_by_key-first_version}
use kvdb.RedBlack.Interface.{empty_iff}
use kvdb.Treap.{Treap, insert, validate}
use kvdb.Treap.Order.{insert-outcome}
use kvdb.Treap.Heap.{validate-insert_treap}

pub validate-IsSorted : (t : Treap) → validate t ≡ true → IsSorted (inorder t)
unfolding validate
validate-IsSorted t h =
    let order : bst_ordering_correct t ≡ true = ground arith in (bst_ordering_correct_iff t).0 order

pub new_treap : validate nil ≡ true
unfolding validate bst_ordering_correct ordering_loop
new_treap = refl

pub find_treap_law :
    (t : Treap) (key : ArenaEntry)
    → validate t ≡ true
    → find_latest_by_key t key ≡ first_version key (dump_inorder t)
find_treap_law t key h =
    rw dump_inorder-inorder (find_latest_by_key-first_version t key (validate-IsSorted t h))

pub insert_treap_law :
    (priority : ℕ) (r : InternalRecord) (t : Treap)
    → validate t ≡ true
    → ((insert priority r t).0, dump_inorder (insert priority r t).1)
      ≡ outcome (dump_inorder t) (insert_version r (dump_inorder t))
insert_treap_law priority r t h =
    rw (dump_inorder-inorder (insert priority r t).1, dump_inorder-inorder t)
      (insert-outcome priority r t (validate-IsSorted t h))

module _ {Rng : Type 0} (draw : Rng → ℕ × Rng) (seed : Rng) (node_size : ℕ) where
  abbrev pub insert_drawn : InternalRecord → Treap × Rng → StatusCode × (Treap × Rng)
  insert_drawn r (t, rng) =
      let (priority, next) = draw rng in
      let (status, treap) = insert priority r t in (status, (treap, next))

  abbrev pub treap_driver : Driver
  treap_driver = record {
    Table = Treap × Rng;
    new_table = (nil, seed);
    insert = insert_drawn;
    find_latest_by_key = λ (t, rng) key. find_latest_by_key t key;
    find_mutable = λ (t, rng) key. ((t, rng), find_latest_by_key t key);
    dump_inorder = λ (t, rng). dump_inorder t;
    empty = λ (t, rng). empty t;
    approximate_memory_usage = λ (t, rng). approximate_subtree_memory_usage node_size t;
    IsValid = λ (t, rng). validate t ≡ true;
    new_table-IsValid = new_treap;
    dump_inorder-new_table = dump_inorder-inorder nil;
    dump_inorder-IsSorted = λ (t, rng) h. rw dump_inorder-inorder (validate-IsSorted t h);
    insert-IsValid = λ r (t, rng) h. validate-insert_treap (draw rng).0 r t h;
    insert_law = λ r (t, rng) h. insert_treap_law (draw rng).0 r t h;
    find_law = λ (t, rng) key h. find_treap_law t key h;
    find_mutable_law = λ (t, rng) key h. find_treap_law t key h;
    find_mutable_keeps = λ t key. refl;
    find_mutable-IsValid = λ (t, rng) key h. h;
    empty_law = λ (t, rng). empty_iff t;
  }
