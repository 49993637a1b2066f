-- ===== src/Wal/Header.antt =====
-- `WALFileHeader` of src/core/engine/wal.cpp: the constructor, the check, the write and the load.
use kvdb.Base.{ℕ, ◌+◌, Bool, not, ◌&&◌, List, length, Option, none, some, ltb, ◌==◌, if◌then◌else◌}
use kvdb.Status.{
  Result, ok, fail, ◌>>=◌, invalid_header, invalid_offset, unexpected_eof, bad_magic,
  unsupported_version, unsupported_block_size, checksum_mismatch,
}
use kvdb.BlockIo.{
  Output, fit_output, write_u32_t_le, write_u64_t_le, fit_input, read_u32_t_le, read_u64_t_le,
}
use kvdb.Wal.{
  wal_file_magic, wal_version, wal_file_block_size, file_header_size, in_step, crc32_init,
  crc32_add_pod,
}

pub record WalFileHeader : Type 0 where
  pub magic : ℕ
  pub version : ℕ
  pub header_size : ℕ
  pub wal_id : ℕ
  pub start_seq : ℕ
  pub block_size : ℕ
  pub reserved : ℕ
  pub header_crc32 : ℕ

-- The reads of `WALFileHeader::load`: the header and the offset after it.
unfoldable pub read_file_header : List ℕ → ℕ → Result (WalFileHeader × ℕ)
read_file_header file offset = read_u32_t_le file offset wal_file_block_size >>= λ (magic, o₁).
    read_u32_t_le file o₁ wal_file_block_size >>= λ (version, o₂).
    read_u32_t_le file o₂ wal_file_block_size >>= λ (header_size, o₃).
    read_u64_t_le file o₃ wal_file_block_size >>= λ (wal_id, o₄).
    read_u64_t_le file o₄ wal_file_block_size >>= λ (start_seq, o₅).
    read_u32_t_le file o₅ wal_file_block_size >>= λ (block_size, o₆).
    read_u32_t_le file o₆ wal_file_block_size >>= λ (reserved, o₇).
    read_u32_t_le file o₇ wal_file_block_size >>= λ (header_crc32, o₈). ok (
      record {
        magic = magic;
        version = version;
        header_size = header_size;
        wal_id = wal_id;
        start_seq = start_seq;
        block_size = block_size;
        reserved = reserved;
        header_crc32 = header_crc32;
      },
      o₈,
    )

module _ (crc32 : ℕ → List ℕ → ℕ) where
  -- `WALFileHeader::compute_crc32`
  unfoldable pub header_checksum : WalFileHeader → ℕ
  header_checksum h =
      let start = crc32_init crc32 in
      let with_magic = crc32_add_pod crc32 4 start h.magic in
      let with_version = crc32_add_pod crc32 4 with_magic h.version in
      let with_size = crc32_add_pod crc32 4 with_version h.header_size in
      let with_id = crc32_add_pod crc32 8 with_size h.wal_id in
      let with_seq = crc32_add_pod crc32 8 with_id h.start_seq in
      let with_block = crc32_add_pod crc32 4 with_seq h.block_size in
      crc32_add_pod crc32 4 with_block h.reserved

  unfoldable pub with_header_checksum : WalFileHeader → WalFileHeader
  with_header_checksum h = record {
    magic = h.magic;
    version = h.version;
    header_size = h.header_size;
    wal_id = h.wal_id;
    start_seq = h.start_seq;
    block_size = h.block_size;
    reserved = h.reserved;
    header_crc32 = header_checksum h;
  }

  -- The constructor.
  unfoldable pub new_header : ℕ → ℕ → WalFileHeader
  new_header new_wal_id new_start_seq = with_header_checksum record {
    magic = wal_file_magic;
    version = wal_version;
    header_size = file_header_size;
    wal_id = new_wal_id;
    start_seq = new_start_seq;
    block_size = wal_file_block_size;
    reserved = 0;
    header_crc32 = 0;
  }

  unfoldable pub self_check : WalFileHeader → Bool
  self_check h =
      h.magic == wal_file_magic
      && h.version == wal_version
      && h.header_size == file_header_size
      && h.block_size == wal_file_block_size
      && h.reserved == 0
      && h.header_crc32 == header_checksum h

  -- `WALFileHeader::write`
  unfoldable pub write_file_header : WalFileHeader → Output → Result Output
  write_file_header h w =
      if not (self_check h)
      then fail invalid_header
      else in_step w
        >>= fit_output file_header_size wal_file_block_size
        >>= write_u32_t_le h.magic wal_file_block_size
        >>= write_u32_t_le h.version wal_file_block_size
        >>= write_u32_t_le h.header_size wal_file_block_size
        >>= write_u64_t_le h.wal_id wal_file_block_size
        >>= write_u64_t_le h.start_seq wal_file_block_size
        >>= write_u32_t_le h.block_size wal_file_block_size
        >>= write_u32_t_le h.reserved wal_file_block_size
        >>= write_u32_t_le h.header_crc32 wal_file_block_size
        >>= in_step

  -- The checks that follow the reads of `WALFileHeader::load`.
  unfoldable pub check_file_header : ℕ → WalFileHeader → Result WalFileHeader
  check_file_header expected_wal_id h =
      if not (h.magic == wal_file_magic)
      then fail bad_magic
      else if not (h.version == wal_version)
      then fail unsupported_version
      else if not (h.header_size == file_header_size)
      then fail invalid_header
      else if not (h.wal_id == expected_wal_id)
      then fail invalid_header
      else if not (h.block_size == wal_file_block_size)
      then fail unsupported_block_size
      else if not (h.reserved == 0)
      then fail invalid_header
      else if not (h.header_crc32 == header_checksum h)
      then fail checksum_mismatch
      else ok h

  -- `WALFileHeader::load`: the header, or none at the end of the file, and the offset. A load that
  -- fails leaves the caller's offset as it was.
  unfoldable pub load_file_header : List ℕ → ℕ → ℕ → Result (Option WalFileHeader × ℕ)
  load_file_header file expected_wal_id offset =
      if offset == length file
      then ok (none, offset)
      else if ltb (length file) offset
      then fail invalid_offset
      else fit_input file_header_size offset wal_file_block_size >>= λ start.
          if ltb (length file) (start + file_header_size)
          then fail unexpected_eof
          else read_file_header file start >>= λ (h, end).
              check_file_header expected_wal_id h >>= λ checked. ok (some checked, end)
