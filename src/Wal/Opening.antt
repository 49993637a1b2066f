-- ===== src/Wal/Opening.antt =====
-- The bytes of `WALFileHeader` of src/core/engine/wal.cpp, and the load of a file that begins with them.
use kvdb.Base.{
  ℕ, ◌^◌, ◌≤◌, ◌<◌, ◌≡◌, refl, sym, ap, ◌∙◌, true, false, ltb, ◌==◌, List, [], ◌++◌, length, take,
  length-take, slice, slice-slice, slice-take, some, arith,
}
use kvdb.Status.{ok, ◌>>=◌}
use kvdb.Bytes.{le_bytes, of_le_bytes, of_le_bytes-4, of_le_bytes-8}
use kvdb.BlockIo.Writes.{
  at_end, wraps_4096, fit_output-room, write_u32_t_le-room, write_u64_t_le-room,
}
use kvdb.BlockIo.Reads.{fit_input-room, read_u32_t_le-room, read_u64_t_le-room}
use kvdb.Wal.{crc32_add_pod}
use kvdb.Wal.Header.{
  WalFileHeader, header_checksum, with_header_checksum, new_header, self_check, write_file_header,
  check_file_header, read_file_header, load_file_header,
}
use kvdb.Wal.Layout.{in_step-at_end}

unfoldable pub parse_file_header : List ℕ → WalFileHeader
parse_file_header bytes = record {
  magic = of_le_bytes (slice bytes 0 4);
  version = of_le_bytes (slice bytes 4 4);
  header_size = of_le_bytes (slice bytes 8 4);
  wal_id = of_le_bytes (slice bytes 12 8);
  start_seq = of_le_bytes (slice bytes 20 8);
  block_size = of_le_bytes (slice bytes 28 4);
  reserved = of_le_bytes (slice bytes 32 4);
  header_crc32 = of_le_bytes (slice bytes 36 4);
}

unfoldable pub file_header_bytes : WalFileHeader → List ℕ
file_header_bytes h =
    le_bytes 4 h.magic
    ++ (le_bytes 4 h.version
        ++ (le_bytes 4 h.header_size
            ++ (le_bytes 8 h.wal_id
                ++ (le_bytes 8 h.start_seq
                    ++ (le_bytes 4 h.block_size
                        ++ (le_bytes 4 h.reserved ++ le_bytes 4 h.header_crc32))))))

pub length-file_header_bytes : (h : WalFileHeader) → length (file_header_bytes h) ≡ 40
unfolding file_header_bytes
length-file_header_bytes h = refl

-- The fields are numbers of the types that they have.
pub record IsSized (h : WalFileHeader) : Type 0 where
  pub magic_small : h.magic < 2 ^ 32
  pub version_small : h.version < 2 ^ 32
  pub size_small : h.header_size < 2 ^ 32
  pub id_small : h.wal_id < 2 ^ 64
  pub seq_small : h.start_seq < 2 ^ 64
  pub block_small : h.block_size < 2 ^ 32
  pub reserved_small : h.reserved < 2 ^ 32
  pub crc_small : h.header_crc32 < 2 ^ 32

pub parse-file_header_bytes :
    (h : WalFileHeader) → IsSized h → parse_file_header (file_header_bytes h) ≡ h
unfolding parse_file_header file_header_bytes
parse-file_header_bytes h s =
    rw
      (
        of_le_bytes-4 h.magic s.magic_small,
        of_le_bytes-4 h.version s.version_small,
        of_le_bytes-4 h.header_size s.size_small,
        of_le_bytes-8 h.wal_id s.id_small,
        of_le_bytes-8 h.start_seq s.seq_small,
        of_le_bytes-4 h.block_size s.block_small,
        of_le_bytes-4 h.reserved s.reserved_small,
        of_le_bytes-4 h.header_crc32 s.crc_small,
      )
      refl

pub read_file_header-room :
    (file : List ℕ)
    → 40 ≤ length file
    → read_file_header file 0 ≡ ok (parse_file_header (slice file 0 40), 40)
unfolding read_file_header parse_file_header
read_file_header-room file h =
    let pos : 0 < 4096 = omega arith in
    rw
      (
        slice-slice file 0 40 0 4 (omega arith),
        slice-slice file 0 40 4 4 (omega arith),
        slice-slice file 0 40 8 4 (omega arith),
        slice-slice file 0 40 12 8 (omega arith),
        slice-slice file 0 40 20 8 (omega arith),
        slice-slice file 0 40 28 4 (omega arith),
        slice-slice file 0 40 32 4 (omega arith),
        slice-slice file 0 40 36 4 (omega arith),
        read_file_header,
        read_u32_t_le-room 4096 file 0 pos (omega arith) (omega arith),
        read_u32_t_le-room 4096 file 4 pos (omega arith) (omega arith),
        read_u32_t_le-room 4096 file 8 pos (omega arith) (omega arith),
        read_u64_t_le-room 4096 file 12 pos (omega arith) (omega arith),
        read_u64_t_le-room 4096 file 20 pos (omega arith) (omega arith),
        read_u32_t_le-room 4096 file 28 pos (omega arith) (omega arith),
        read_u32_t_le-room 4096 file 32 pos (omega arith) (omega arith),
        read_u32_t_le-room 4096 file 36 pos (omega arith) (omega arith),
      )
      refl

module _ (crc32 : ℕ → List ℕ → ℕ) where
  pub load_file_header-room :
      (file : List ℕ) (expected_wal_id : ℕ)
      → 40 ≤ length file
      → load_file_header crc32 file expected_wal_id 0 ≡ (
          check_file_header crc32 expected_wal_id (parse_file_header (slice file 0 40)) >>= λ h.
          ok (some h, 40))
  unfolding load_file_header
  load_file_header-room file expected_wal_id h =
      let pos : 0 < 4096 = omega arith in
      let t₁ : (0 == length file) ≡ false = ground arith in
      let t₂ : ltb (length file) 0 ≡ false = ground arith in
      let t₃ : ltb (length file) 40 ≡ false = ground arith in
      rw
        (
          load_file_header,
          t₁,
          t₂,
          fit_input-room 4096 file 0 pos 40 (omega arith),
          t₃,
          read_file_header-room file h,
        )
        refl

  -- A header that is whole is read alike from a cut file.
  pub load_file_header-take :
      (file : List ℕ) (n expected_wal_id : ℕ)
      → 40 ≤ n
      → n ≤ length file
      → load_file_header crc32 (take n file) expected_wal_id 0
        ≡ load_file_header crc32 file expected_wal_id 0
  load_file_header-take file n expected_wal_id h k =
      let size : 40 ≤ length (take n file) = omega (arith, length-take n file) in
      load_file_header-room (take n file) expected_wal_id size
      ∙ ap
          (λ bytes. check_file_header crc32 expected_wal_id (parse_file_header bytes) >>= λ h'.
            ok (some h', 40))
          (slice-take n 0 40 file (omega arith))
      ∙ sym (load_file_header-room file expected_wal_id (omega arith))

  pub new_header-IsSized :
      (wal_id start_seq : ℕ)
      → wal_id < 2 ^ 32
      → start_seq < 2 ^ 64
      → IsSized (new_header crc32 wal_id start_seq)
  unfolding new_header with_header_checksum header_checksum crc32_add_pod
  new_header-IsSized wal_id start_seq h k = record {
    magic_small = omega arith;
    version_small = omega arith;
    size_small = omega arith;
    id_small = omega arith;
    seq_small = omega arith;
    block_small = omega arith;
    reserved_small = omega arith;
    crc_small = omega arith;
  }

  pub self_check-new_header :
      (wal_id start_seq : ℕ) → self_check crc32 (new_header crc32 wal_id start_seq) ≡ true
  unfolding self_check new_header with_header_checksum header_checksum
  self_check-new_header wal_id start_seq = ground arith

  pub check-new_header :
      (wal_id start_seq : ℕ)
      → check_file_header crc32 wal_id (new_header crc32 wal_id start_seq)
        ≡ ok (new_header crc32 wal_id start_seq)
  unfolding check_file_header new_header with_header_checksum header_checksum
  check-new_header wal_id start_seq = ground arith

  pub write_file_header-lem :
      (h : WalFileHeader)
      → self_check crc32 h ≡ true
      → write_file_header crc32 h (at_end []) ≡ ok (at_end (file_header_bytes h))
  unfolding write_file_header file_header_bytes
  write_file_header-lem h checked =
      let pos : 0 < 4096 = omega arith in
      let f₁ = le_bytes 4 h.magic in
      let f₂ = f₁ ++ le_bytes 4 h.version in
      let f₃ = f₂ ++ le_bytes 4 h.header_size in
      let f₄ = f₃ ++ le_bytes 8 h.wal_id in
      let f₅ = f₄ ++ le_bytes 8 h.start_seq in
      let f₆ = f₅ ++ le_bytes 4 h.block_size in
      let f₇ = f₆ ++ le_bytes 4 h.reserved in
      rw
        (
          write_file_header,
          checked,
          in_step-at_end [],
          fit_output-room 40 4096 [] pos wraps_4096 (omega arith),
          write_u32_t_le-room 4096 [] pos wraps_4096 h.magic (omega arith),
          write_u32_t_le-room 4096 f₁ pos wraps_4096 h.version (omega arith),
          write_u32_t_le-room 4096 f₂ pos wraps_4096 h.header_size (omega arith),
          write_u64_t_le-room 4096 f₃ pos wraps_4096 h.wal_id (omega arith),
          write_u64_t_le-room 4096 f₄ pos wraps_4096 h.start_seq (omega arith),
          write_u32_t_le-room 4096 f₅ pos wraps_4096 h.block_size (omega arith),
          write_u32_t_le-room 4096 f₆ pos wraps_4096 h.reserved (omega arith),
          write_u32_t_le-room 4096 f₇ pos wraps_4096 h.header_crc32 (omega arith),
          in_step-at_end (file_header_bytes h),
        )
        refl
