-- ===== src/Wal/Parse.antt =====
-- The reads of src/core/engine/wal.cpp on a file that holds a whole header where they start, as
-- functions of the bytes there.
use kvdb.Base.{ℕ, ◌+◌, ◌%◌, ◌≤◌, ◌<◌, ◌≡◌, refl, List, length, slice, slice-slice, arith}
use kvdb.Status.{ok}
use kvdb.Bytes.{of_le_bytes}
use kvdb.BlockIo.Reads.{fit_input-room, read_u8_t-room, read_u32_t_le-room, read_u64_t_le-room}
use kvdb.Wal.{fragment_of_byte, type_of_byte}
use kvdb.Wal.Fragment.{FragmentHeader, read_header, check_header, load_header}

-- The header in 22 bytes.
unfoldable pub parse_header : List ℕ → FragmentHeader
parse_header bytes = record {
  fragment_crc32 = of_le_bytes (slice bytes 0 4);
  header_size = of_le_bytes (slice bytes 4 4);
  fragment_type = fragment_of_byte (of_le_bytes (slice bytes 8 1));
  kind = type_of_byte (of_le_bytes (slice bytes 9 1));
  seq_num = of_le_bytes (slice bytes 10 8);
  fragment_size = of_le_bytes (slice bytes 18 4);
}

module _ (file : List ℕ) (o : ℕ) where
  pub read_header-room :
      o % 4096 + 22 ≤ 4096
      → o + 22 ≤ length file
      → read_header file o ≡ ok (parse_header (slice file o 22), o + 22)
  unfolding read_header parse_header
  read_header-room h k =
      let pos : 0 < 4096 = omega arith in
      let s₀ : o + 0 ≡ o = omega arith in
      let s₈ : o + 4 + 4 ≡ o + 8 = omega arith in
      let s₉ : o + 8 + 1 ≡ o + 9 = omega arith in
      let s₁₀ : o + 9 + 1 ≡ o + 10 = omega arith in
      let s₁₈ : o + 10 + 8 ≡ o + 18 = omega arith in
      let s₂₂ : o + 18 + 4 ≡ o + 22 = omega arith in
      rw
        (
          slice-slice file o 22 0 4 (omega arith),
          slice-slice file o 22 4 4 (omega arith),
          slice-slice file o 22 8 1 (omega arith),
          slice-slice file o 22 9 1 (omega arith),
          slice-slice file o 22 10 8 (omega arith),
          slice-slice file o 22 18 4 (omega arith),
          read_header,
          read_u32_t_le-room 4096 file o pos (omega arith) (omega arith),
          read_u32_t_le-room 4096 file (o + 4) pos (omega arith) (omega arith),
          s₀,
          s₈,
          read_u8_t-room 4096 file (o + 8) pos (omega arith) (omega arith),
          s₉,
          read_u8_t-room 4096 file (o + 9) pos (omega arith) (omega arith),
          s₁₀,
          read_u64_t_le-room 4096 file (o + 10) pos (omega arith) (omega arith),
          s₁₈,
          read_u32_t_le-room 4096 file (o + 18) pos (omega arith) (omega arith),
          s₂₂,
        )
        refl

  pub load_header-room :
      o % 4096 + 22 ≤ 4096
      → o + 22 ≤ length file
      → load_header file o ≡ check_header (parse_header (slice file o 22), o + 22)
  unfolding load_header
  load_header-room h k =
      let pos : 0 < 4096 = omega arith in
      rw (load_header, fit_input-room 4096 file o pos 22 h, read_header-room h k) refl
