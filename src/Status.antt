-- ===== src/Status.antt =====
-- include/utils/status.h and src/utils/status.cpp: the codes that the modelled operations answer
-- with, `Status` and `Result<T>`. A status is its code; the message text is not modelled. A failed
-- `Result` carries no value that a caller reads.
use kvdb.Base.{Bool, true, false}

pub data StatusCode : Type 0 where
  ok_code : StatusCode
  use_after_close : StatusCode
  invalid_state : StatusCode
  data_type_overflow : StatusCode
  overlapping_keys : StatusCode
  bad_access : StatusCode
  underflow : StatusCode
  invalid_argument : StatusCode
  failed_precondition : StatusCode
  not_found : StatusCode
  already_exists : StatusCode
  not_supported : StatusCode
  internal_error : StatusCode
  invariant_violation : StatusCode
  duplicate : StatusCode
  out_of_memory : StatusCode
  allocation_failed : StatusCode
  invalid_alignment : StatusCode
  allocation_too_large : StatusCode
  buffer_too_small : StatusCode
  null_pointer : StatusCode
  bad_alloc : StatusCode
  invalid_offset : StatusCode
  invalid_read_size : StatusCode
  size_exceeds_block_size : StatusCode
  size_exceeds_block_boundary : StatusCode
  io_error : StatusCode
  open_failed : StatusCode
  read_failed : StatusCode
  write_failed : StatusCode
  sync_failed : StatusCode
  close_failed : StatusCode
  rename_failed : StatusCode
  directory_sync_failed : StatusCode
  get_position_failed : StatusCode
  get_size_failed : StatusCode
  permission_denied : StatusCode
  seek_failed : StatusCode
  corruption : StatusCode
  bad_magic : StatusCode
  unsupported_version : StatusCode
  unsupported_block_size : StatusCode
  checksum_mismatch : StatusCode
  invalid_header : StatusCode
  invalid_footer : StatusCode
  invalid_block_type : StatusCode
  invalid_block_alignment : StatusCode
  invalid_section_offset : StatusCode
  invalid_section_size : StatusCode
  invalid_payload_size : StatusCode
  offset_out_of_range : StatusCode
  offset_overlap : StatusCode
  unexpected_eof : StatusCode
  bad_file_descriptor : StatusCode
  insertion_failed : StatusCode
  socket_creation_failed : StatusCode
  socket_failure : StatusCode
  socket_option_failed : StatusCode
  socket_bind_failed : StatusCode

-- `Status::is_ok`.
abbrev pub is_ok : StatusCode → Bool
is_ok ok_code = true
is_ok _ = false

pub data Result {ℓ} (A : Type ℓ) : Type ℓ where
  ok : A → Result A
  fail : StatusCode → Result A

-- A step, and the rest if it succeeds: `if (!result.is_ok()) return fail(result.status)`.
infixl 5 ◌>>=◌
abbrev pub ◌>>=◌ {ℓ κ} : {A : Type ℓ} {B : Type κ} → Result A → (A → Result B) → Result B
ok a >>= f = f a
fail c >>= f = fail c
