-- ===== src/Record/Order.antt =====
-- `VirtualNode::operator<` orders records strictly, identity is key and sequence number, and the
-- merge uses the same order.
use kvdb.Base.{◌<◌, ◌≡◌, inl, inr, true, false, Bool-cases, arith}
use kvdb.Entry.{entry_lt}
use kvdb.Entry.Order.{
  entry_lt_irrefl, entry_lt_trans, entry_lt_asym, entry_lt_connected, eq_of_entry_eq, entry_eq_refl,
}
use kvdb.Record.{InternalRecord, node_lt, node_gt, internal_before}

-- The order as a relation.
infix 50 ◌≺◌
abbrev pub ◌≺◌ : InternalRecord → InternalRecord → Type 0
a ≺ b = node_lt a b ≡ true

-- Trees, memtables and the merge agree on one order.
pub internal_before-node_lt : (a b : InternalRecord) → internal_before a b ≡ node_lt a b
unfolding internal_before node_lt
internal_before-node_lt a b = ground (
  arith,
  entry_lt_irrefl b.key_entry,
  eq_of_entry_eq a.key_entry b.key_entry,
  entry_lt_connected a.key_entry b.key_entry,
  entry_eq_refl b.key_entry,
  entry_lt_asym a.key_entry b.key_entry,
)

pub node_lt_irrefl : (a : InternalRecord) → node_lt a a ≡ false
unfolding node_lt
node_lt_irrefl a = ground (arith, entry_eq_refl a.key_entry)

pub node_lt_trans : (a b c : InternalRecord) → a ≺ b → b ≺ c → a ≺ c
unfolding node_lt
node_lt_trans a b c h k = ground (
  arith,
  eq_of_entry_eq a.key_entry b.key_entry,
  eq_of_entry_eq b.key_entry c.key_entry,
  eq_of_entry_eq a.key_entry c.key_entry,
  entry_eq_refl a.key_entry,
  entry_lt_trans a.key_entry b.key_entry c.key_entry,
  entry_lt_asym a.key_entry b.key_entry,
)

pub node_lt_asym : (a b : InternalRecord) → a ≺ b → node_lt b a ≡ false
node_lt_asym a b h = elim (Bool-cases (node_lt b a)) [
  | inl k ↦ ground (arith, node_lt_trans a b a h k, node_lt_irrefl a)
  | inr k ↦ k
]

-- Neither comes first exactly if key and sequence number are equal.
pub node_lt_connected :
    (a b : InternalRecord)
    → node_lt a b ≡ false
    → node_lt b a ≡ false
    → (a.key_entry ≡ b.key_entry) × (a.seq_num ≡ b.seq_num)
unfolding node_lt
node_lt_connected a b h k = ground (
  arith,
  eq_of_entry_eq a.key_entry b.key_entry,
  eq_of_entry_eq b.key_entry a.key_entry,
  entry_eq_refl a.key_entry,
  entry_lt_connected a.key_entry b.key_entry,
)

pub node_gt-node_lt : (a b : InternalRecord) → node_gt a b ≡ node_lt b a
unfolding node_gt node_lt
node_gt-node_lt a b = ground (
  arith,
  eq_of_entry_eq a.key_entry b.key_entry,
  eq_of_entry_eq b.key_entry a.key_entry,
  entry_eq_refl a.key_entry,
)

-- A record with a smaller key comes first, and the keys of ordered records do not fall.
pub key_le_of_lt : (a b : InternalRecord) → a ≺ b → entry_lt b.key_entry a.key_entry ≡ false
unfolding node_lt
key_le_of_lt a b h = ground (
  arith,
  eq_of_entry_eq a.key_entry b.key_entry,
  entry_lt_irrefl a.key_entry,
  entry_lt_asym a.key_entry b.key_entry,
)

-- Of two ordered records with one key, the first is the newer.
pub seq_lt_of_lt :
    (a b : InternalRecord) → a ≺ b → a.key_entry ≡ b.key_entry → b.seq_num < a.seq_num
unfolding node_lt
seq_lt_of_lt a b h e = ground (arith, entry_eq_refl a.key_entry, entry_lt_irrefl a.key_entry)

-- A record's place depends on its key and sequence number only.
pub node_lt_congr :
    (a b c : InternalRecord) → c.key_entry ≡ b.key_entry → c.seq_num ≡ b.seq_num → a ≺ b → a ≺ c
unfolding node_lt
node_lt_congr a b c e f h = ground arith
