-- ===== src/Wal.antt =====
-- The write-ahead log: include/core/engine/wal.h and src/core/engine/wal.cpp. Here are the constants,
-- the types of the format and the checksums; the children hold the file header, the fragments, the
-- payload of a record, the assembler, the writer and the loader. zlib's `crc32` is the parameter
-- `crc32`, which takes the running checksum and the bytes. Memory is assumed to be had.
pub mod Payload
pub mod Header
pub mod Fragment
pub mod Assembler
pub mod Writer
pub mod Loader
pub mod Layout
pub mod Rounds
pub mod Parse
pub mod Whole
pub mod Cut
pub mod Steps
pub mod Progress
pub mod Recovery
pub mod Opening
pub mod Codec
pub mod Pieces
pub mod Assembly
pub mod Rereading
pub mod Log
pub mod Durability
pub mod Crash
pub mod Errors
pub mod Streaming
pub mod Drain
pub mod Agreement
pub mod Stream
mod Tests
use kvdb.Base.{ℕ, ◌+◌, ◌%◌, ◌^◌, Bool, true, false, List, [], length, ◌==◌, if◌then◌else◌}
use kvdb.Record.{RecordType, put, tombstone, undefined}
use kvdb.Status.{
  StatusCode, unexpected_eof, checksum_mismatch, corruption, bad_magic, unsupported_version,
  unsupported_block_size, invalid_header, invalid_payload_size, invalid_block_type,
  invalid_alignment, offset_overlap, Result, ok, fail, is_ok,
}
use kvdb.Bytes.{le_bytes}
use kvdb.BlockIo.{Output, check_writer_offset}

abbrev pub wal_file_magic : ℕ
wal_file_magic = 0x4b565741

abbrev pub wal_version : ℕ
wal_version = 1

abbrev pub wal_file_block_size : ℕ
wal_file_block_size = 4096

-- `WALFileHeader::disk_size` and `Fragment::Header::disk_size`
abbrev pub file_header_size : ℕ
file_header_size = 40

abbrev pub fragment_header_size : ℕ
fragment_header_size = 22

-- `Fragment::Type`. The enum has a byte below it, and `unknown` is any other value of that byte.
pub data FragmentType : Type 0 where
  full : FragmentType
  first : FragmentType
  middle : FragmentType
  last : FragmentType
  unknown : FragmentType

-- The two casts between the enum and its byte.
abbrev pub byte_of_fragment : FragmentType → ℕ
byte_of_fragment full = 0
byte_of_fragment first = 1
byte_of_fragment middle = 2
byte_of_fragment last = 3
byte_of_fragment unknown = 4

unfoldable pub fragment_of_byte : ℕ → FragmentType
fragment_of_byte b =
    if b == 0
    then full
    else if b == 1
    then first
    else if b == 2
    then middle
    else if b == 3
    then last
    else unknown

abbrev pub is_valid_fragment_type : FragmentType → Bool
is_valid_fragment_type unknown = false
is_valid_fragment_type _ = true

abbrev pub byte_of_type : RecordType → ℕ
byte_of_type put = 0
byte_of_type tombstone = 1
byte_of_type undefined = 2

unfoldable pub type_of_byte : ℕ → RecordType
type_of_byte b = if b == 0 then put else if b == 1 then tombstone else undefined

abbrev pub is_valid_record_type : RecordType → Bool
is_valid_record_type undefined = false
is_valid_record_type _ = true

-- `check_writer_offset`, and the file goes on to the next step.
unfoldable pub in_step : Output → Result Output
in_step w = elim (check_writer_offset w) [ StatusCode.ok_code ↦ ok w | code ↦ fail code ]

unfoldable pub is_recoverable_tail_error : StatusCode → Bool
is_recoverable_tail_error unexpected_eof = true
is_recoverable_tail_error _ = false

unfoldable pub is_corruption_error : StatusCode → Bool
is_corruption_error checksum_mismatch = true
is_corruption_error corruption = true
is_corruption_error bad_magic = true
is_corruption_error unsupported_version = true
is_corruption_error unsupported_block_size = true
is_corruption_error invalid_header = true
is_corruption_error invalid_payload_size = true
is_corruption_error invalid_block_type = true
is_corruption_error invalid_alignment = true
is_corruption_error offset_overlap = true
is_corruption_error _ = false

module _ (crc32 : ℕ → List ℕ → ℕ) where
  -- `::crc32(0, Z_NULL, 0)`
  unfoldable pub crc32_init : ℕ
  crc32_init = crc32 0 [] % 2 ^ 32

  -- `crc32_add_pod<T>` for a type of `size` bytes.
  unfoldable pub crc32_add_pod : ℕ → ℕ → ℕ → ℕ
  crc32_add_pod size crc value = crc32 crc (le_bytes size value) % 2 ^ 32

  -- `compute_crc32` for a buffer below 4 GiB, which is one round of its loop.
  unfoldable pub compute_crc32 : ℕ → List ℕ → ℕ
  compute_crc32 crc bytes = if length bytes == 0 then crc else crc32 crc bytes % 2 ^ 32
