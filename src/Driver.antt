-- ===== src/Driver.antt =====
-- The abstract class `Driver` of include/core/engine/driver.h as an interface: the operations that
-- the memtable calls, and the laws that it relies on. `contents` is the abstract view: the sorted
-- list of versions. RedBlack.antt, Treap.antt and Splay.antt fill it. `find_latest_by_key` is the
-- overload for a `const` table, `find_mutable` the other, which may rearrange the table.
use kvdb.Base.{ℕ, ◌≡◌, ◌↔◌, Bool, true, Option, List, []}
use kvdb.Status.{StatusCode}
use kvdb.Entry.{ArenaEntry}
use kvdb.Record.{InternalRecord}
use kvdb.Record.Versions.{IsSorted, insert_version, first_version, outcome}

pub record Driver : Type 1 where
  pub Table : Type 0
  pub new_table : Table
  pub insert : InternalRecord → Table → StatusCode × Table
  pub find_latest_by_key : Table → ArenaEntry → Option InternalRecord
  pub find_mutable : Table → ArenaEntry → Table × Option InternalRecord
  pub dump_inorder : Table → List InternalRecord
  pub empty : Table → Bool
  pub approximate_memory_usage : Table → ℕ
  pub IsValid : Table → Type 0
  pub new_table-IsValid : IsValid new_table
  pub dump_inorder-new_table : dump_inorder new_table ≡ []
  pub dump_inorder-IsSorted : (t : Table) → IsValid t → IsSorted (dump_inorder t)
  pub insert-IsValid : (r : InternalRecord) (t : Table) → IsValid t → IsValid (insert r t).1
  pub insert_law :
      (r : InternalRecord) (t : Table)
      → IsValid t
      → ((insert r t).0, dump_inorder (insert r t).1)
        ≡ outcome (dump_inorder t) (insert_version r (dump_inorder t))
  pub find_law :
      (t : Table) (key : ArenaEntry)
      → IsValid t
      → find_latest_by_key t key ≡ first_version key (dump_inorder t)
  pub find_mutable_law :
      (t : Table) (key : ArenaEntry)
      → IsValid t
      → (find_mutable t key).1 ≡ first_version key (dump_inorder t)
  pub find_mutable_keeps :
      (t : Table) (key : ArenaEntry) → dump_inorder (find_mutable t key).0 ≡ dump_inorder t
  pub find_mutable-IsValid :
      (t : Table) (key : ArenaEntry) → IsValid t → IsValid (find_mutable t key).0
  pub empty_law : (t : Table) → (empty t ≡ true) ↔ (dump_inorder t ≡ [])
