-- ===== src/Record.antt =====
-- Versioned records: `InternalRecord` of include/utils/record.h, `Type` of include/utils/type.h,
-- the comparisons of `VirtualNode` (src/core/engine/driver.cpp), `internal_before` of
-- include/utils/merge_iterator.h, and the retention rule of compaction_record_policy.h.
-- `VirtualNode` has the four fields of `InternalRecord`, and one type stands for both.
pub mod Order
pub mod Versions
mod Tests
use kvdb.Base.{ℕ, ◌+◌, ◌%◌, ◌^◌, Bool, true, false, not, ◌&&◌, length, ltb, ◌==◌, if◌then◌else◌}
use kvdb.Entry.{ArenaEntry, entry_lt, entry_eq}

-- `Type`: the mutation kind.
pub data RecordType : Type 0 where
  put : RecordType
  tombstone : RecordType
  undefined : RecordType

unfoldable pub type_eq : RecordType → RecordType → Bool
type_eq put put = true
type_eq tombstone tombstone = true
type_eq undefined undefined = true
type_eq _ _ = false

pub record InternalRecord : Type 0 where
  pub key_entry : ArenaEntry
  pub value_entry : ArenaEntry
  pub kind : RecordType
  pub seq_num : ℕ

-- `VirtualNode::operator<(const VirtualNode&)`: key ascending, sequence descending.
unfoldable pub node_lt : InternalRecord → InternalRecord → Bool
node_lt a b =
    if entry_eq a.key_entry b.key_entry
    then ltb b.seq_num a.seq_num
    else entry_lt a.key_entry b.key_entry

-- `VirtualNode::operator>(const InternalRecord&)`
unfoldable pub node_gt : InternalRecord → InternalRecord → Bool
node_gt a b =
    if entry_eq a.key_entry b.key_entry
    then ltb a.seq_num b.seq_num
    else entry_lt b.key_entry a.key_entry

-- `VirtualNode::operator==`: identity is key and sequence.
unfoldable pub node_eq : InternalRecord → InternalRecord → Bool
node_eq a b = entry_eq a.key_entry b.key_entry && a.seq_num == b.seq_num

-- `internal_before`, the order of the merge.
unfoldable pub internal_before : InternalRecord → InternalRecord → Bool
internal_before a b =
    if entry_lt a.key_entry b.key_entry
    then true
    else if entry_lt b.key_entry a.key_entry
    then false
    else ltb b.seq_num a.seq_num

-- `InternalRecord::operator==`
unfoldable pub record_eq : InternalRecord → InternalRecord → Bool
record_eq a b =
    entry_eq a.key_entry b.key_entry
    && entry_eq a.value_entry b.value_entry
    && type_eq a.kind b.kind
    && a.seq_num == b.seq_num

-- `InternalRecord::disk_size`, a `uint32_t` sum: 25 fixed bytes and the two payloads.
unfoldable pub disk_size : InternalRecord → ℕ
disk_size r = (25 + length r.key_entry + length r.value_entry) % 2 ^ 32

-- `compaction_keep_newest_record`
unfoldable pub compaction_keep_newest_record : RecordType → Bool → Bool
compaction_keep_newest_record kind is_bottommost_level =
    not (type_eq kind tombstone && is_bottommost_level)
