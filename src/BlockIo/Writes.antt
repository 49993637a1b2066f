-- ===== src/BlockIo/Writes.antt =====
-- What the writes of src/utils/file_helpers.cpp and src/utils/endian_io.cpp append to a file whose
-- offset is in step.
use kvdb.Base.{
  ℕ, zero, suc, ◌+◌, ◌-◌, ◌%◌, ◌^◌, ◌≤◌, ◌<◌, ◌≡◌, sym, refl, ap, ◌∙◌, min, List, [], ◌∷◌, ◌++◌,
  length, length-append, append_assoc, append-nil, replicate, replicate-append, leb, if◌then◌else◌,
  arith,
}
use kvdb.Status.{ok}
use kvdb.Bytes.{le_bytes}
use kvdb.BlockIo.{
  Output, append, fits_in_block, check_writer_offset, pad_loop, align_output, fit_output,
  validate_block_size, prepare_write, write_bytes, write_u8_t, write_u32_t_le, write_u64_t_le,
}

-- A file whose caller tracks the offset right.
abbrev pub at_end : List ℕ → Output
at_end b = record { bytes = b; offset = length b % 2 ^ 64 }

-- A block of the log is a part of 2⁶⁴ bytes, so that a wrap keeps the place in the block.
pub wraps_4096 : (n : ℕ) → n % 2 ^ 64 % 4096 ≡ n % 4096
wraps_4096 n = omega arith

-- The padding before a part of `size` bytes that is to lie in one block.
unfoldable pub padding : ℕ → ℕ → ℕ → List ℕ
padding size block_size offset =
    if leb (offset % block_size + size) block_size
    then []
    else replicate (block_size - offset % block_size) 0xcd

pub append-at_end : (new b : List ℕ) → append new (at_end b) ≡ at_end (b ++ new)
unfolding append
append-at_end new b =
    ap (λ n. record { bytes = b ++ new; offset = n }) (omega (arith, length-append b new))

pub pad_loop-at_end :
    (fuel pad : ℕ) (b : List ℕ)
    → pad ≤ fuel
    → pad_loop fuel pad (at_end b) ≡ at_end (b ++ replicate pad 0xcd)
unfolding pad_loop
pad_loop-at_end zero zero b h = ap at_end (sym (append-nil b))
pad_loop-at_end zero (suc pad) b h = absurd (omega arith)
pad_loop-at_end (suc fuel) zero b h = ap at_end (sym (append-nil b))
pad_loop-at_end (suc fuel) (suc n) b h =
    let pad = suc n in
    let size = min pad 4096 in
    let le : pad - size ≤ fuel = omega arith in
    let whole : size + (pad - size) ≡ pad = omega arith in
    let joined : (b ++ replicate size 0xcd) ++ replicate (pad - size) 0xcd
        ≡ b ++ replicate pad 0xcd =
      append_assoc b (replicate size 0xcd) (replicate (pad - size) 0xcd)
      ∙ ap (λ c. b ++ c)
          (replicate-append size (pad - size) 0xcd ∙ ap (λ k. replicate k 0xcd) whole) in
    let opened : pad_loop (suc fuel) pad (at_end b)
        ≡ pad_loop fuel (pad - size) (append (replicate size 0xcd) (at_end b)) =
      ground arith in
    opened
    ∙ ap (pad_loop fuel (pad - size)) (append-at_end (replicate size 0xcd) b)
    ∙ pad_loop-at_end fuel (pad - size) (b ++ replicate size 0xcd) le
    ∙ ap at_end joined

module _ (size block_size : ℕ) (b : List ℕ) (positive : 0 < block_size)
    (wraps : (n : ℕ) → n % 2 ^ 64 % block_size ≡ n % block_size) where
  -- A part that fits in the block is written where the file ends.
  pub fit_output-room :
      length b % block_size + size ≤ block_size
      → fit_output size block_size (at_end b) ≡ ok (at_end b)
  unfolding fit_output check_writer_offset fits_in_block
  fit_output-room h = ground (arith, wraps (length b))

  pub fit_output-padded :
      0 < size
      → size ≤ block_size
      → fit_output size block_size (at_end b)
        ≡ ok (at_end (b ++ padding size block_size (length b)))
  unfolding fit_output check_writer_offset fits_in_block align_output padding
  fit_output-padded h k = ground (
    arith,
    wraps (length b),
    append-nil b,
    pad_loop-at_end (block_size - length b % block_size) (block_size - length b % block_size) b,
  )

  pub prepare_write-room :
      length b % block_size + size ≤ block_size
      → prepare_write size block_size (at_end b) ≡ ok (at_end b)
  unfolding prepare_write check_writer_offset validate_block_size
  prepare_write-room h = ground (arith, fit_output-room h)

module _ (block_size : ℕ) (b : List ℕ) (positive : 0 < block_size)
    (wraps : (n : ℕ) → n % 2 ^ 64 % block_size ≡ n % block_size) where
  pub write_bytes-room :
      (new : List ℕ)
      → length b % block_size + length new ≤ block_size
      → write_bytes new block_size (at_end b) ≡ ok (at_end (b ++ new))
  unfolding write_bytes
  write_bytes-room [] h =
      rw (write_bytes, prepare_write-room 0 block_size b positive wraps h, append-nil b) refl
  write_bytes-room (x ∷ xs) h =
      rw
        (
          write_bytes,
          prepare_write-room (length (x ∷ xs)) block_size b positive wraps h,
          append-at_end (x ∷ xs) b,
        )
        (ground arith)

  pub write_u8_t-room :
      (value : ℕ)
      → length b % block_size + 1 ≤ block_size
      → write_u8_t value block_size (at_end b) ≡ ok (at_end (b ++ le_bytes 1 value))
  unfolding write_u8_t
  write_u8_t-room value h =
      rw
        (
          write_u8_t,
          prepare_write-room 1 block_size b positive wraps h,
          append-at_end (le_bytes 1 value) b,
        )
        refl

  pub write_u32_t_le-room :
      (value : ℕ)
      → length b % block_size + 4 ≤ block_size
      → write_u32_t_le value block_size (at_end b) ≡ ok (at_end (b ++ le_bytes 4 value))
  unfolding write_u32_t_le
  write_u32_t_le-room value h =
      rw
        (
          write_u32_t_le,
          prepare_write-room 4 block_size b positive wraps h,
          append-at_end (le_bytes 4 value) b,
        )
        refl

  pub write_u64_t_le-room :
      (value : ℕ)
      → length b % block_size + 8 ≤ block_size
      → write_u64_t_le value block_size (at_end b) ≡ ok (at_end (b ++ le_bytes 8 value))
  unfolding write_u64_t_le
  write_u64_t_le-room value h =
      rw
        (
          write_u64_t_le,
          prepare_write-room 8 block_size b positive wraps h,
          append-at_end (le_bytes 8 value) b,
        )
        refl
