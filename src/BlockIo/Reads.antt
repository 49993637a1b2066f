-- ===== src/BlockIo/Reads.antt =====
-- What the reads of src/utils/endian_io.cpp answer for a part that lies in one block of the file.
use kvdb.Base.{ℕ, ◌+◌, ◌%◌, ◌≤◌, ◌<◌, ◌≡◌, refl, List, length, slice, arith}
use kvdb.Status.{ok}
use kvdb.Bytes.{of_le_bytes}
use kvdb.BlockIo.{
  fits_in_block, fit_input, read_exact_at, read_fitting, validate_block_size, read_u8_t,
  read_u32_t_le, read_u64_t_le, read_bytes,
}

module _ (block_size : ℕ) (file : List ℕ) (offset : ℕ) (positive : 0 < block_size) where
  pub fit_input-room :
      (size : ℕ)
      → offset % block_size + size ≤ block_size
      → fit_input size offset block_size ≡ ok offset
  unfolding fit_input fits_in_block
  fit_input-room size h = ground arith

  pub read_fitting-room :
      (size : ℕ)
      → offset % block_size + size ≤ block_size
      → offset + size ≤ length file
      → read_fitting size file offset block_size ≡ ok (slice file offset size, offset + size)
  unfolding read_fitting validate_block_size read_exact_at
  read_fitting-room size h k = ground (arith, fit_input-room size h)

  pub read_bytes-room :
      (size : ℕ)
      → offset % block_size + size ≤ block_size
      → offset + size ≤ length file
      → read_bytes size file offset block_size ≡ ok (slice file offset size, offset + size)
  unfolding read_bytes validate_block_size
  read_bytes-room size h k = ground (arith, read_fitting-room size h k)

  pub read_u8_t-room :
      offset % block_size + 1 ≤ block_size
      → offset + 1 ≤ length file
      → read_u8_t file offset block_size ≡ ok (of_le_bytes (slice file offset 1), offset + 1)
  unfolding read_u8_t
  read_u8_t-room h k = rw (read_u8_t, read_fitting-room 1 h k) refl

  pub read_u32_t_le-room :
      offset % block_size + 4 ≤ block_size
      → offset + 4 ≤ length file
      → read_u32_t_le file offset block_size ≡ ok (of_le_bytes (slice file offset 4), offset + 4)
  unfolding read_u32_t_le
  read_u32_t_le-room h k = rw (read_u32_t_le, read_fitting-room 4 h k) refl

  pub read_u64_t_le-room :
      offset % block_size + 8 ≤ block_size
      → offset + 8 ≤ length file
      → read_u64_t_le file offset block_size ≡ ok (of_le_bytes (slice file offset 8), offset + 8)
  unfolding read_u64_t_le
  read_u64_t_le-room h k = rw (read_u64_t_le, read_fitting-room 8 h k) refl
