-- ===== src/TableMeta.antt =====
-- `TableMeta` of include/core/engine/table_meta.h: the metadata of one SSTable.
use kvdb.Base.{ℕ, List}
use kvdb.Entry.{ArenaEntry}

pub record TableMeta : Type 0 where
  pub table_id : ℕ
  pub level : ℕ
  pub path : List ℕ
  pub min_seq : ℕ
  pub max_seq : ℕ
  pub file_size : ℕ
  pub record_count : ℕ
  pub tombstone_count : ℕ
  pub data_block_count : ℕ
  pub data_bytes : ℕ
  pub smallest_key : ArenaEntry
  pub largest_key : ArenaEntry
