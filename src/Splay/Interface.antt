-- ===== src/Splay/Interface.antt =====
-- The splay tree fills the driver interface. `node_size` is the platform's `sizeof(Node)`. Its
-- `validate` is the ordering check, since the parent links are right by construction.
use mathlib.Core.Path.{subst}
use kvdb.Base.{ℕ, ◌≡◌, sym, ◌∙◌}
use kvdb.Entry.{ArenaEntry}
use kvdb.Record.{InternalRecord}
use kvdb.Record.Versions.{IsSorted, insert_version, first_version, outcome}
use kvdb.Driver.{Driver}
use kvdb.Tree.{
  nil, inorder, find_latest_by_key, empty, dump_inorder, approximate_subtree_memory_usage,
}
use kvdb.Tree.Iterate.{dump_inorder-inorder}
use kvdb.Tree.Lookup.{find_latest_by_key-first_version}
use kvdb.RedBlack.Interface.{empty_iff}
use kvdb.Splay.{SplayTree, insert, find_mutable}
use kvdb.Splay.Order.{insert_splay-outcome, insert_splay-IsSorted}
use kvdb.Splay.Find.{find_mutable-find_latest_by_key}

pub splay_find_law :
    (t : SplayTree) (key : ArenaEntry)
    → IsSorted (inorder t)
    → find_latest_by_key t key ≡ first_version key (dump_inorder t)
splay_find_law t key h = rw dump_inorder-inorder (find_latest_by_key-first_version t key h)

pub splay_insert_law :
    (r : InternalRecord) (t : SplayTree)
    → IsSorted (inorder t)
    → ((insert r t).0, dump_inorder (insert r t).1)
      ≡ outcome (dump_inorder t) (insert_version r (dump_inorder t))
splay_insert_law r t h =
    rw (dump_inorder-inorder (insert r t).1, dump_inorder-inorder t) (insert_splay-outcome r t h)

pub splay_keeps :
    (t : SplayTree) (key : ArenaEntry) → dump_inorder (find_mutable t key).0 ≡ dump_inorder t
splay_keeps t key =
    rw (dump_inorder-inorder (find_mutable t key).0, dump_inorder-inorder t)
      (find_mutable-find_latest_by_key t key).1

abbrev pub splay_driver : ℕ → Driver
splay_driver node_size = record {
  Table = SplayTree;
  new_table = nil;
  insert = insert;
  find_latest_by_key = find_latest_by_key;
  find_mutable = find_mutable;
  dump_inorder = dump_inorder;
  empty = empty;
  approximate_memory_usage = approximate_subtree_memory_usage node_size;
  IsValid = λ t. IsSorted (inorder t);
  new_table-IsValid = tt;
  dump_inorder-new_table = dump_inorder-inorder nil;
  dump_inorder-IsSorted = λ t h. rw dump_inorder-inorder h;
  insert-IsValid = insert_splay-IsSorted;
  insert_law = splay_insert_law;
  find_law = splay_find_law;
  find_mutable_law = λ t key h. (find_mutable-find_latest_by_key t key).0 ∙ splay_find_law t key h;
  find_mutable_keeps = splay_keeps;
  find_mutable-IsValid =
      λ t key h. subst IsSorted (sym (find_mutable-find_latest_by_key t key).1) h;
  empty_law = empty_iff;
}
