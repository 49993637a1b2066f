-- ===== src/Wal/Fragment.antt =====
-- `Fragment` of src/core/engine/wal.cpp: a piece of a record's payload with its header, its checksum,
-- its write and its load.
use kvdb.Base.{
  ℕ, ◌+◌, ◌-◌, ◌%◌, not, List, [], length, Option, none, some, ltb, leb, ◌==◌, if◌then◌else◌,
}
use kvdb.Record.{RecordType}
use kvdb.Status.{
  Result, ok, fail, ◌>>=◌, is_ok, invalid_header, invalid_argument, invalid_block_type,
  invalid_payload_size, invalid_offset, size_exceeds_block_size, unexpected_eof, corruption,
  checksum_mismatch,
}
use kvdb.BlockIo.{
  Output, fits_in_block, fit_output, write_bytes, write_u8_t, write_u32_t_le, write_u64_t_le,
  fit_input, read_bytes, read_u8_t, read_u32_t_le, read_u64_t_le,
}
use kvdb.Wal.{
  FragmentType, byte_of_fragment, fragment_of_byte, is_valid_fragment_type, byte_of_type,
  type_of_byte, is_valid_record_type, wal_file_block_size, fragment_header_size, in_step,
  crc32_init, crc32_add_pod, compute_crc32,
}

pub record FragmentHeader : Type 0 where
  pub fragment_crc32 : ℕ
  pub header_size : ℕ
  pub fragment_type : FragmentType
  pub kind : RecordType
  pub seq_num : ℕ
  pub fragment_size : ℕ

pub record Fragment : Type 0 where
  pub header : FragmentHeader
  pub payload : List ℕ

unfoldable pub fragment_disk_size : Fragment → ℕ
fragment_disk_size f = fragment_header_size + length f.payload

-- `Fragment::Header::write`
unfoldable pub write_header : FragmentHeader → Output → Result Output
write_header h w =
    if not (h.header_size == fragment_header_size)
    then fail invalid_header
    else if not (is_valid_fragment_type h.fragment_type)
    then fail invalid_block_type
    else if not (is_valid_record_type h.kind)
    then fail invalid_argument
    else in_step w
      >>= fit_output fragment_header_size wal_file_block_size
      >>= write_u32_t_le h.fragment_crc32 wal_file_block_size
      >>= write_u32_t_le h.header_size wal_file_block_size
      >>= write_u8_t (byte_of_fragment h.fragment_type) wal_file_block_size
      >>= write_u8_t (byte_of_type h.kind) wal_file_block_size
      >>= write_u64_t_le h.seq_num wal_file_block_size
      >>= write_u32_t_le h.fragment_size wal_file_block_size

-- The reads of `Fragment::Header::load`.
unfoldable pub read_header : List ℕ → ℕ → Result (FragmentHeader × ℕ)
read_header file offset = read_u32_t_le file offset wal_file_block_size >>= λ (crc, o₁).
    read_u32_t_le file o₁ wal_file_block_size >>= λ (header_size, o₂).
    read_u8_t file o₂ wal_file_block_size >>= λ (fragment_type, o₃).
    read_u8_t file o₃ wal_file_block_size >>= λ (record_type, o₄).
    read_u64_t_le file o₄ wal_file_block_size >>= λ (seq_num, o₅).
    read_u32_t_le file o₅ wal_file_block_size >>= λ (fragment_size, o₆). ok (
      record {
        fragment_crc32 = crc;
        header_size = header_size;
        fragment_type = fragment_of_byte fragment_type;
        kind = type_of_byte record_type;
        seq_num = seq_num;
        fragment_size = fragment_size;
      },
      o₆,
    )

-- The checks that follow them.
unfoldable pub check_header : FragmentHeader × ℕ → Result (FragmentHeader × ℕ)
check_header (h, offset) =
    if not (h.header_size == fragment_header_size)
    then fail invalid_header
    else if not (is_valid_fragment_type h.fragment_type)
    then fail invalid_block_type
    else if not (is_valid_record_type h.kind)
    then fail corruption
    else ok (h, offset)

-- `Fragment::Header::load`
unfoldable pub load_header : List ℕ → ℕ → Result (FragmentHeader × ℕ)
load_header file offset =
    fit_input fragment_header_size offset wal_file_block_size >>= read_header file >>= check_header

-- `Fragment::Payload::write`
unfoldable pub write_fragment_payload : List ℕ → Output → Result Output
write_fragment_payload bytes w =
    in_step w >>= fit_output (length bytes) wal_file_block_size >>= λ w'.
    if length bytes == 0 then ok w' else write_bytes bytes wal_file_block_size w'

-- `Fragment::Payload::load`
unfoldable pub load_payload : List ℕ → ℕ → ℕ → Result (List ℕ × ℕ)
load_payload file size offset =
    if not (is_ok (fits_in_block offset size wal_file_block_size))
    then fail invalid_payload_size
    else if size == 0
    then ok ([], offset)
    else read_bytes size file offset wal_file_block_size

-- `Fragment::write`
unfoldable pub write_fragment : Fragment → Output → Result Output
write_fragment f w =
    if not (f.header.fragment_size == length f.payload)
    then fail invalid_payload_size
    else if ltb wal_file_block_size (fragment_disk_size f)
    then fail size_exceeds_block_size
    else in_step w
      >>= fit_output (fragment_disk_size f) wal_file_block_size
      >>= write_header f.header
      >>= write_fragment_payload f.payload
      >>= in_step

module _ (crc32 : ℕ → List ℕ → ℕ) where
  unfoldable pub checksum_fields : FragmentHeader → List ℕ → ℕ
  checksum_fields h payload =
      let start = crc32_init crc32 in
      let with_size = crc32_add_pod crc32 4 start h.header_size in
      let with_fragment = crc32_add_pod crc32 1 with_size (byte_of_fragment h.fragment_type) in
      let with_type = crc32_add_pod crc32 1 with_fragment (byte_of_type h.kind) in
      let with_seq = crc32_add_pod crc32 8 with_type h.seq_num in
      let with_length = crc32_add_pod crc32 4 with_seq h.fragment_size in
      compute_crc32 crc32 with_length payload

  -- `Fragment::compute_crc32`
  unfoldable pub fragment_checksum : Fragment → Result ℕ
  fragment_checksum f =
      if not (f.header.header_size == fragment_header_size)
      then fail invalid_header
      else if not (is_valid_fragment_type f.header.fragment_type)
      then fail invalid_block_type
      else if not (is_valid_record_type f.header.kind)
      then fail invalid_argument
      else if not (f.header.fragment_size == length f.payload)
      then fail invalid_payload_size
      else ok (checksum_fields f.header f.payload)

  -- The end of `Fragment::load`, with the header and the payload read.
  unfoldable pub check_fragment : Fragment → ℕ → Result (Option Fragment × ℕ)
  check_fragment f offset = fragment_checksum f >>= λ expected_crc.
      if not (expected_crc == f.header.fragment_crc32)
      then fail checksum_mismatch
      else ok (some f, offset)

  -- The part of `Fragment::load` between the load of the header and the check.
  unfoldable pub load_rest : List ℕ → FragmentHeader → ℕ → Result (Option Fragment × ℕ)
  load_rest file h offset =
      if ltb (wal_file_block_size - offset % wal_file_block_size) h.fragment_size
      then fail invalid_payload_size
      else if ltb (wal_file_block_size - fragment_header_size) h.fragment_size
      then fail invalid_payload_size
      else if ltb (length file - offset) h.fragment_size
      then fail unexpected_eof
      else load_payload file h.fragment_size offset >>= λ (payload, end).
          check_fragment (record { header = h; payload = payload }) end

  -- `Fragment::load`: the fragment, or none at the end of the file, and the offset. A load that fails
  -- leaves the caller's offset as it was.
  unfoldable pub load_fragment : List ℕ → ℕ → Result (Option Fragment × ℕ)
  load_fragment file offset =
      if offset == length file
      then ok (none, offset)
      else if ltb (length file) offset
      then fail invalid_offset
      else fit_input (fragment_header_size + 1) offset wal_file_block_size >>= λ start.
          if leb (length file) start
          then ok (none, length file)
          else if ltb (length file - start) fragment_header_size
          then fail unexpected_eof
          else load_header file start >>= λ (h, at). load_rest file h at
