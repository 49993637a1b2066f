-- ===== src/MemTable.antt =====
-- src/core/engine/mem_table.cpp: the active table and the queue of frozen generations, the oldest
-- first. `mutex_` makes each operation one step, so the operations are functions of the state. A
-- read holds it shared; for a driver whose lookup changes the table the reads stand one by one.
-- Allocation failure (`bad_alloc`) is not modelled; `find_latest_by_key` and `insert` of a driver
-- then fail only with `Duplicate`, so that `get` has no error path. A frozen table is shared with
-- the readers that pinned it as an immutable value.

pub mod Reads
pub mod Invariant
pub mod Writes
mod Tests
use mathlib.Core.List.{reverse}
use kvdb.Base.{
  ℕ, ◌+◌, ◌%◌, ◌^◌, Bool, true, false, not, ◌||◌, Option, none, some, List, [], ◌∷◌, ◌++◌, length,
  ltb, ◌==◌, if◌then◌else◌,
}
use kvdb.Status.{StatusCode, ok_code, not_found, Result, ok, fail, ◌>>=◌}
use kvdb.Entry.{ArenaEntry}
use kvdb.Record.{InternalRecord, RecordType, put, tombstone}
use kvdb.Driver.{Driver}

-- The replacement of `latest` in the loop of `get`.
unfoldable pub pick : Option InternalRecord → Option InternalRecord → Option InternalRecord
pick latest none = latest
pick none (some candidate) = some candidate
pick (some l) (some candidate) = if ltb l.seq_num candidate.seq_num then some candidate else some l

module _ (d : Driver) where
  open d use {Table}

  -- `ImmutableTable` and `ImmutableSnapshot`
  pub record ImmutableTable : Type 0 where
    pub generation_id : ℕ
    pub table : Table

  pub record MemTable : Type 0 where
    pub mutable_table : Table
    pub immutable_tables : List ImmutableTable
    pub next_generation_id : ℕ

  abbrev pub new_mem_table : MemTable
  new_mem_table = record {
    mutable_table = d.new_table;
    immutable_tables = [];
    next_generation_id = 1;
  }

  unfoldable pub apply : InternalRecord → MemTable → StatusCode × MemTable
  apply entry m =
      let (status, table) = d.insert entry m.mutable_table in
      (status, record m { mutable_table = table })

  unfoldable pub put_key : ArenaEntry → ArenaEntry → ℕ → MemTable → StatusCode × MemTable
  put_key key value sequence_number =
      apply (record { key_entry = key; value_entry = value; kind = put; seq_num = sequence_number })

  unfoldable pub remove : ArenaEntry → ℕ → MemTable → StatusCode × MemTable
  remove key sequence_number =
      apply
        (record { key_entry = key; value_entry = []; kind = tombstone; seq_num = sequence_number })

  -- The loop of `get`, over the generations from the newest.
  unfoldable pub scan :
      ArenaEntry → Option InternalRecord → List ImmutableTable → Option InternalRecord
  scan key latest [] = latest
  scan key latest (g ∷ older) = scan key (pick latest (d.find_latest_by_key g.table key)) older

  unfoldable pub get : MemTable → ArenaEntry → MemTable × Option InternalRecord
  get m key =
      let (table, latest) = d.find_mutable m.mutable_table key in
      (record m { mutable_table = table }, scan key latest (reverse m.immutable_tables))

  -- `++next_generation_id_` is a `uint64_t`.
  unfoldable pub freeze_mutable : MemTable → MemTable
  freeze_mutable m = if d.empty m.mutable_table then m else record {
    mutable_table = d.new_table;
    immutable_tables =
        m.immutable_tables
        ++ (record { generation_id = m.next_generation_id; table = m.mutable_table } ∷ []);
    next_generation_id = (m.next_generation_id + 1) % 2 ^ 64;
  }

  abbrev pub oldest_of : List ImmutableTable → Result ImmutableTable
  oldest_of [] = fail not_found
  oldest_of (g ∷ newer) = ok g

  unfoldable pub oldest_immutable : MemTable → Result ImmutableTable
  oldest_immutable m = oldest_of m.immutable_tables

  abbrev pub pop_generation : List ImmutableTable → ℕ → Option (List ImmutableTable)
  pop_generation [] id = none
  pop_generation (g ∷ newer) id = if not (g.generation_id == id) then none else some newer

  abbrev pub retired : MemTable → Option (List ImmutableTable) → Bool × MemTable
  retired m none = (false, m)
  retired m (some rest) = (true, record m { immutable_tables = rest })

  -- The answer, and the memtable after it.
  unfoldable pub retire_oldest_immutable : ℕ → MemTable → Bool × MemTable
  retire_oldest_immutable id m = retired m (pop_generation m.immutable_tables id)

  -- The records of the oldest generation with its identity, for the builder of an SSTable.
  unfoldable pub dump_oldest_immutable : MemTable → Result (List InternalRecord × ℕ)
  unfolding oldest_immutable
  dump_oldest_immutable m = do
    snapshot ← oldest_immutable m
    ok (d.dump_inorder snapshot.table, snapshot.generation_id)

  unfoldable pub has_immutable : MemTable → Bool
  has_immutable m = elim m.immutable_tables [ [] ↦ false | g ∷ newer ↦ true ]

  unfoldable pub immutable_count : MemTable → ℕ
  immutable_count m = length m.immutable_tables

  unfoldable pub mutable_memory_usage : MemTable → ℕ
  mutable_memory_usage m = d.approximate_memory_usage m.mutable_table

  unfoldable pub add_usage : ℕ → List ImmutableTable → ℕ
  add_usage total [] = total
  add_usage total (g ∷ newer) =
      add_usage ((total + d.approximate_memory_usage g.table) % 2 ^ 64) newer

  unfoldable pub approximate_memory_usage : MemTable → ℕ
  approximate_memory_usage m =
      add_usage (d.approximate_memory_usage m.mutable_table) m.immutable_tables
