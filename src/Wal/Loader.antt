-- ===== src/Wal/Loader.antt =====
-- `WALLoader` of src/core/engine/wal.cpp: the batch recovery of a log. The loop runs on fuel, one more
-- than the bytes left, and answers none when it has none left. The messages of errors are not
-- modelled, and the arena holds the entries of the records.
use kvdb.Base.{
  ℕ, zero, suc, Bool, true, false, List, [], ◌∷◌, ◌++◌, length, Option, none, some, if◌then◌else◌,
}
use kvdb.Record.{InternalRecord}
use kvdb.Status.{StatusCode, Result, ok, fail, unexpected_eof}
use kvdb.Wal.{is_recoverable_tail_error, is_corruption_error}
use kvdb.Wal.Header.{WalFileHeader, load_file_header}
use kvdb.Wal.Fragment.{load_fragment}
use kvdb.Wal.Assembler.{LogicalRecordAssembler, idle, consume}

-- `WALLoader::LoadResult`; `good` is its field `ok`.
pub record LoadResult : Type 0 where
  pub records : List InternalRecord
  pub header : Option WalFileHeader
  pub good : Bool
  pub had_torn_tail : Bool
  pub had_corruption : Bool

-- The answer of a load, and the offset that it leaves.
abbrev pub Loaded : Type 0
Loaded = Result LoadResult × ℕ

-- The result with a header and nothing else yet.
abbrev pub started : WalFileHeader → LoadResult
started h = record {
  records = [];
  header = some h;
  good = true;
  had_torn_tail = false;
  had_corruption = false;
}

abbrev pub torn_tail : LoadResult → LoadResult
torn_tail r = record {
  records = r.records;
  header = r.header;
  good = r.good;
  had_torn_tail = true;
  had_corruption = r.had_corruption;
}

abbrev pub corrupted : LoadResult → LoadResult
corrupted r = record {
  records = r.records;
  header = r.header;
  good = false;
  had_torn_tail = r.had_torn_tail;
  had_corruption = true;
}

-- `records.emplace_back`
abbrev pub with_record : InternalRecord → LoadResult → LoadResult
with_record new r = record {
  records = r.records ++ (new ∷ []);
  header = r.header;
  good = r.good;
  had_torn_tail = r.had_torn_tail;
  had_corruption = r.had_corruption;
}

-- What the loop makes of a fragment that it could not load.
unfoldable pub stop_at : StatusCode → ℕ → LoadResult → Loaded
stop_at code last_good_offset result =
    if is_recoverable_tail_error code
    then (ok (record (torn_tail result) { good = true }), last_good_offset)
    else if is_corruption_error code
    then (ok (corrupted result), last_good_offset)
    else (fail code, last_good_offset)

-- What it makes of the end of the file.
unfoldable pub stop_at_end : LogicalRecordAssembler → ℕ → ℕ → LoadResult → Loaded
stop_at_end assembler offset last_good_offset result =
    if assembler.active then (ok (torn_tail result), last_good_offset) else (ok result, offset)

module _ (crc32 : ℕ → List ℕ → ℕ) (file : List ℕ) where
  -- `while (true)`
  unfoldable pub load_loop : ℕ → ℕ → LogicalRecordAssembler → ℕ → LoadResult → Option Loaded
  load_loop zero offset assembler last_good_offset result = none
  load_loop (suc fuel) offset assembler last_good_offset result =
      elim (load_fragment crc32 file offset) [
        | fail code ↦ some (stop_at code last_good_offset result)
        | ok (found, offset') ↦ elim found [
          | none ↦ some (stop_at_end assembler offset' last_good_offset result)
          | some f ↦
              let (assembler', answer) = consume f assembler in
              elim answer [
                | fail _ ↦ some (ok (corrupted result), last_good_offset)
                | ok assembled ↦ elim assembled [
                  | none ↦ load_loop fuel offset' assembler' last_good_offset result
                  | some r ↦ load_loop fuel offset' assembler' offset' (with_record r result)
                ]
              ]
        ]
      ]

  -- `WALLoader::load`
  unfoldable pub load : ℕ → ℕ → Option Loaded
  load expected_wal_id offset = elim (load_file_header crc32 file expected_wal_id offset) [
    | fail code ↦ some (fail code, offset)
    | ok (found, offset') ↦ elim found [
      | none ↦ some (fail unexpected_eof, offset')
      | some header ↦ load_loop (suc (length file)) offset' idle offset' (started header)
    ]
  ]
