-- ===== src/BlockIo.antt =====
-- Block files: src/utils/file_helpers.cpp and `kvdb::blockio` of src/utils/endian_io.cpp. A file is
-- the list of its bytes. A file open for writing is appended to only, so its cursor is its length; the
-- caller's own offset is tracked beside it and compared before each write. Failures of the system
-- calls are not modelled.
pub mod Reads
pub mod Writes
pub mod ShortReads
mod Tests
use kvdb.Base.{
  ℕ, zero, suc, ◌+◌, ◌-◌, ◌%◌, ◌^◌, Bool, not, ◌&&◌, List, [], ◌∷◌, ◌++◌, length, slice, replicate,
  min, ltb, leb, ◌==◌, if◌then◌else◌,
}
use kvdb.Status.{
  StatusCode, ok_code, invalid_argument, invalid_offset, invalid_read_size, size_exceeds_block_size,
  size_exceeds_block_boundary, data_type_overflow, unexpected_eof, buffer_too_small, is_ok, Result,
  ok, fail, ◌>>=◌,
}
use kvdb.Bytes.{le_bytes, of_le_bytes}

unfoldable pub fits_in_block : ℕ → ℕ → ℕ → StatusCode
fits_in_block offset size block_size =
    if block_size == 0
    then invalid_argument
    else if size == 0
    then ok_code
    else if leb size (block_size - offset % block_size)
    then ok_code
    else size_exceeds_block_boundary

-- A file open for writing, and the caller's offset.
pub record Output : Type 0 where
  pub bytes : List ℕ
  pub offset : ℕ

-- `append`. The tracked offset is a `uint64_t`.
unfoldable pub append : List ℕ → Output → Output
append new w = record { bytes = w.bytes ++ new; offset = (w.offset + length new) % 2 ^ 64 }

-- `current_position` gives the cursor as a `uint64_t`.
unfoldable pub check_writer_offset : Output → StatusCode
check_writer_offset w = if length w.bytes % 2 ^ 64 == w.offset then ok_code else invalid_offset

-- The loop that writes the padding, at most 4096 bytes a round; every round makes `pad` smaller.
unfoldable pub pad_loop : ℕ → ℕ → Output → Output
pad_loop zero pad w = w
pad_loop (suc fuel) pad w =
    let size = min pad 4096 in
    let rest = pad_loop fuel (pad - size) (append (replicate size 0xcd) w) in
    if pad == 0 then w else rest

unfoldable pub align_output : ℕ → Output → Result Output
unfolding pad_loop
align_output block_size w =
    if block_size == 0
    then fail invalid_argument
    else if not (is_ok (check_writer_offset w))
    then fail invalid_offset
    else let in_block = w.offset % block_size in
      if in_block == 0
      then ok w
      else ok (pad_loop (block_size - in_block) (block_size - in_block) w)

-- `ensure_fits_in_block` for a file open for writing.
unfoldable pub fit_output : ℕ → ℕ → Output → Result Output
fit_output size block_size w =
    if block_size == 0
    then fail invalid_argument
    else if not (is_ok (check_writer_offset w))
    then fail invalid_offset
    else if ltb block_size size
    then fail size_exceeds_block_size
    else if is_ok (fits_in_block w.offset size block_size)
    then ok w
    else align_output block_size w

unfoldable pub validate_block_size : ℕ → StatusCode
validate_block_size block_size = if block_size == 0 then invalid_argument else ok_code

unfoldable pub prepare_write : ℕ → ℕ → Output → Result Output
prepare_write size block_size w =
    if not (is_ok (validate_block_size block_size))
    then fail invalid_argument
    else if not (is_ok (check_writer_offset w))
    then fail invalid_offset
    else fit_output size block_size w

unfoldable pub write_bytes : List ℕ → ℕ → Output → Result Output
write_bytes new block_size w = prepare_write (length new) block_size w >>= λ w'.
    if length new == 0 then ok w' else ok (append new w')

unfoldable pub write_u8_t : ℕ → ℕ → Output → Result Output
write_u8_t value block_size w =
    prepare_write 1 block_size w >>= λ w'. ok (append (le_bytes 1 value) w')

unfoldable pub write_u16_t_le : ℕ → ℕ → Output → Result Output
write_u16_t_le value block_size w =
    prepare_write 2 block_size w >>= λ w'. ok (append (le_bytes 2 value) w')

unfoldable pub write_u32_t_le : ℕ → ℕ → Output → Result Output
write_u32_t_le value block_size w =
    prepare_write 4 block_size w >>= λ w'. ok (append (le_bytes 4 value) w')

unfoldable pub write_u64_t_le : ℕ → ℕ → Output → Result Output
write_u64_t_le value block_size w =
    prepare_write 8 block_size w >>= λ w'. ok (append (le_bytes 8 value) w')

unfoldable pub write_bytes_with_u32_size : List ℕ → ℕ → Output → Result Output
write_bytes_with_u32_size new block_size w =
    if not (is_ok (validate_block_size block_size))
    then fail invalid_argument
    else if ltb (2 ^ 32 - 1) (length new)
    then fail invalid_argument
    else if ltb block_size (length new)
    then fail size_exceeds_block_size
    else if not (is_ok (check_writer_offset w))
    then fail invalid_offset
    else write_u32_t_le (length new) block_size w >>= write_bytes new block_size

-- `align_to_block_boundary` for a file open for reading: the new offset.
unfoldable pub align_input : ℕ → ℕ → Result ℕ
align_input offset block_size =
    if block_size == 0
    then fail invalid_argument
    else let in_block = offset % block_size in
      if in_block == 0
      then ok offset
      else if ltb (2 ^ 64 - 1 - (block_size - in_block)) offset
      then fail data_type_overflow
      else ok (offset + (block_size - in_block))

unfoldable pub fit_input : ℕ → ℕ → ℕ → Result ℕ
fit_input size offset block_size =
    if block_size == 0
    then fail invalid_argument
    else if ltb block_size size
    then fail size_exceeds_block_size
    else if is_ok (fits_in_block offset size block_size)
    then ok offset
    else align_input offset block_size

-- `ReadableFile::read_exact_at`: the bytes and the offset after them.
unfoldable pub read_exact_at : List ℕ → ℕ → ℕ → Result (List ℕ × ℕ)
read_exact_at file offset size =
    if not (size == 0) && ltb (length file) (offset + size)
    then fail unexpected_eof
    else ok (slice file offset size, offset + size)

-- The reads. One that fails leaves the caller's offset as it was.
unfoldable pub read_fitting : ℕ → List ℕ → ℕ → ℕ → Result (List ℕ × ℕ)
read_fitting size file offset block_size =
    if not (is_ok (validate_block_size block_size))
    then fail invalid_argument
    else fit_input size offset block_size >>= λ at. read_exact_at file at size

abbrev pub number_of : List ℕ × ℕ → ℕ × ℕ
number_of (bytes, offset) = (of_le_bytes bytes, offset)

unfoldable pub read_u8_t : List ℕ → ℕ → ℕ → Result (ℕ × ℕ)
read_u8_t file offset block_size = read_fitting 1 file offset block_size >>= λ r. ok (number_of r)

unfoldable pub read_u16_t_le : List ℕ → ℕ → ℕ → Result (ℕ × ℕ)
read_u16_t_le file offset block_size =
    read_fitting 2 file offset block_size >>= λ r. ok (number_of r)

unfoldable pub read_u32_t_le : List ℕ → ℕ → ℕ → Result (ℕ × ℕ)
read_u32_t_le file offset block_size =
    read_fitting 4 file offset block_size >>= λ r. ok (number_of r)

unfoldable pub read_u64_t_le : List ℕ → ℕ → ℕ → Result (ℕ × ℕ)
read_u64_t_le file offset block_size =
    read_fitting 8 file offset block_size >>= λ r. ok (number_of r)

unfoldable pub read_bytes : ℕ → List ℕ → ℕ → ℕ → Result (List ℕ × ℕ)
read_bytes size file offset block_size =
    if not (is_ok (validate_block_size block_size))
    then fail invalid_argument
    else if size == 0
    then ok ([], offset)
    else read_fitting size file offset block_size

-- With a buffer of `capacity` bytes.
unfoldable pub read_bytes_with_u32_size : ℕ → List ℕ → ℕ → ℕ → Result (List ℕ × ℕ)
read_bytes_with_u32_size capacity file offset block_size =
    read_u32_t_le file offset block_size >>= λ (size, at).
    if ltb capacity size then fail buffer_too_small else read_bytes size file at block_size

unfoldable pub move_g_to_next_block : ℕ → ℕ → Result ℕ
move_g_to_next_block offset block_size =
    if block_size == 0
    then fail invalid_argument
    else let in_block = offset % block_size in
      let jump = if in_block == 0 then block_size else block_size - in_block in
      if ltb (2 ^ 64 - 1 - jump) offset then fail data_type_overflow else ok (offset + jump)

unfoldable pub can_read_range : ℕ → ℕ → ℕ → StatusCode
can_read_range offset read_size file_size =
    if ltb file_size offset
    then invalid_offset
    else if ltb (file_size - offset) read_size
    then invalid_read_size
    else ok_code

unfoldable pub offset_boundary_check : ℕ → ℕ → StatusCode
offset_boundary_check offset file_size = if ltb file_size offset then invalid_offset else ok_code
