-- ===== src/MemTable/Tests.antt =====
-- The memtable over red-black trees: a frozen generation with an old version of key 1, and the
-- active tree with a newer one.
use kvdb.Base.{ℕ, suc, ◌++◌, ◌<◌, ◌≡◌, refl, true, false, some, [], ◌∷◌, arith, if◌then◌else◌}
use kvdb.Status.{ok_code, ok}
use kvdb.Entry.{entry_eq}
use kvdb.Record.{InternalRecord, put}
use kvdb.Record.Versions.{Whenever}
use kvdb.Driver.{Driver}
use kvdb.Tree.{
  nil, node, empty, dump_inorder, bst_ordering_correct, ordering_loop, push_left, next, dump_loop,
}
use kvdb.RedBlack.{
  RbTree, black, validate, root_is_black, subtree_has_no_red_node_with_red_child,
  subtree_black_height_info,
}
use kvdb.RedBlack.Interface.{rb_driver}
use kvdb.MemTable.{
  MemTable, apply, get, freeze_mutable, retire_oldest_immutable, dump_oldest_immutable,
  immutable_count,
}
use kvdb.MemTable.Reads.{AllRecords, TablesValid, NoNewer, get_newest, get_stored}
use kvdb.MemTable.Invariant.{IsValid, freeze_mutable-IsValid}
use kvdb.MemTable.Writes.{
  get-freeze_mutable, get-apply, frozen_records, retire_oldest_immutable-dump_oldest_immutable,
  retire_oldest_immutable_twice,
}

abbrev version : ℕ → InternalRecord
version s = record { key_entry = 1 ∷ []; value_entry = s ∷ []; kind = put; seq_num = s }

abbrev rb : Driver
rb = rb_driver 80

abbrev old_table : RbTree
old_table = node black (version 4) nil nil

abbrev sample : MemTable rb
sample = record {
  mutable_table = node black (version 6) nil nil;
  immutable_tables = record { generation_id = 1; table = old_table } ∷ [];
  next_generation_id = 2;
}

sample-IsValid : IsValid rb sample
unfolding validate root_is_black subtree_has_no_red_node_with_red_child bst_ordering_correct
    ordering_loop push_left next subtree_black_height_info empty
sample-IsValid = record {
  valid_mutable = refl;
  valid_frozen = (refl, tt);
  frozen_nonempty = (refl, tt);
  ids_below_next = (omega arith, tt);
  ids_ascending = (tt, tt);
}

sample-TablesValid : TablesValid rb sample
sample-TablesValid = (sample-IsValid.valid_mutable, sample-IsValid.valid_frozen)

below_nine : AllRecords rb (λ y. y.seq_num < 9) sample
unfolding dump_inorder dump_loop push_left next
below_nine = ((omega arith, tt), ((omega arith, tt), tt))

dumped : dump_oldest_immutable rb sample ≡ ok (version 4 ∷ [], 1)
unfolding dump_oldest_immutable dump_inorder dump_loop push_left next
dumped = refl

get_newest_example : AllRecords rb (NoNewer (1 ∷ []) (get rb sample (1 ∷ [])).1) sample
get_newest_example = get_newest rb sample (1 ∷ []) sample-TablesValid

below_nine_if : AllRecords rb (λ y. entry_eq y.key_entry (1 ∷ []) ≡ true → y.seq_num < 9) sample
unfolding dump_inorder dump_loop push_left next
below_nine_if = ((λ e. omega arith, tt), ((λ e. omega arith, tt), tt))

get_stored_example : Whenever (λ y. y.seq_num < 9) (get rb sample (1 ∷ [])).1
get_stored_example =
    get_stored rb sample (1 ∷ []) (λ y. y.seq_num < 9) sample-TablesValid below_nine_if

get-freeze_mutable_example :
    (get rb (freeze_mutable rb sample) (1 ∷ [])).1 ≡ (get rb sample (1 ∷ [])).1
get-freeze_mutable_example = get-freeze_mutable rb sample (1 ∷ []) sample-TablesValid

get-apply_example :
    ((apply rb (version 9) sample).0 ≡ ok_code)
    × ((get rb (apply rb (version 9) sample).1 (1 ∷ [])).1
        ≡ (if entry_eq (1 ∷ []) (1 ∷ []) then some (version 9) else (get rb sample (1 ∷ [])).1))
get-apply_example = get-apply rb (version 9) sample (1 ∷ []) sample-TablesValid below_nine

freeze_mutable-IsValid_example : IsValid rb (freeze_mutable rb sample)
freeze_mutable-IsValid_example = freeze_mutable-IsValid rb sample sample-IsValid (omega arith)

retire_oldest_immutable-dump_oldest_immutable_example :
    let after = (retire_oldest_immutable rb 1 sample).1 in
    ((retire_oldest_immutable rb 1 sample).0 ≡ true)
    × (immutable_count rb sample ≡ suc (immutable_count rb after))
    × (frozen_records rb sample.immutable_tables
        ≡ (version 4 ∷ []) ++ frozen_records rb after.immutable_tables)
    × (after.mutable_table ≡ sample.mutable_table)
    × (after.next_generation_id ≡ sample.next_generation_id)
    × (retire_oldest_immutable rb 1 (freeze_mutable rb sample) ≡ (true, freeze_mutable rb after))
retire_oldest_immutable-dump_oldest_immutable_example =
    retire_oldest_immutable-dump_oldest_immutable rb sample (version 4 ∷ []) 1 dumped

retired_one : (retire_oldest_immutable rb 1 sample).0 ≡ true
unfolding retire_oldest_immutable
retired_one = refl

retire_oldest_immutable_twice_example :
    retire_oldest_immutable rb 1 (retire_oldest_immutable rb 1 sample).1
    ≡ (false, (retire_oldest_immutable rb 1 sample).1)
retire_oldest_immutable_twice_example =
    retire_oldest_immutable_twice rb sample 1 sample-IsValid retired_one
