-- ===== src/Wal/Writer.antt =====
-- `WALWriter` of src/core/engine/wal.cpp. The answers of the operating system are arguments: whether
-- the old file could be removed, and the codes of the open, the sync and the close.
use kvdb.Base.{
  ℕ, zero, suc, ◌-◌, ◌%◌, min, Bool, true, false, not, List, [], length, take, drop, Option, none,
  some, ltb, ◌==◌, if◌then◌else◌,
}
use kvdb.Record.{RecordType, InternalRecord}
use kvdb.Status.{
  StatusCode, ok_code, Result, ok, fail, ◌>>=◌, is_ok, invariant_violation, invalid_argument,
  failed_precondition, io_error,
}
use kvdb.BlockIo.{Output, fit_output, check_writer_offset}
use kvdb.Wal.{
  FragmentType, full, first, middle, last, wal_file_block_size, fragment_header_size, in_step,
}
use kvdb.Wal.Payload.{encode_record_payload}
use kvdb.Wal.Fragment.{Fragment, fragment_checksum, write_fragment}
use kvdb.Wal.Header.{new_header, write_file_header}

-- The answers of the operating system to one call of `create` or `close`.
pub record SystemAnswers : Type 0 where
  pub removed : Bool
  pub opened : StatusCode
  pub synced : StatusCode
  pub closed : StatusCode

-- The writer; `file` holds the file's bytes and `offset_`.
pub record WalWriter : Type 0 where
  pub file : Option Output
  pub path : List ℕ
  pub wal_id : ℕ

-- The state without a file.
abbrev pub closed_writer : WalWriter
closed_writer = record { file = none; path = []; wal_id = 0 }

-- The type of a fragment: whether it is the first of its record, and whether the last.
abbrev pub piece_type : Bool → Bool → FragmentType
piece_type true true = full
piece_type true false = first
piece_type false true = last
piece_type false false = middle

-- `sync`
unfoldable pub sync : SystemAnswers → WalWriter → StatusCode
sync answers w = elim w.file [
  | none ↦ failed_precondition
  | some out ↦ elim (check_writer_offset out) [ ok_code ↦ answers.synced | code ↦ code ]
]

-- `close`
unfoldable pub close : SystemAnswers → WalWriter → WalWriter × StatusCode
close answers w = elim w.file [
  | none ↦ (w, ok_code)
  | some _ ↦ (closed_writer, if not (is_ok answers.synced) then answers.synced else answers.closed)
]

-- A fragment that holds `payload`, with a checksum.
abbrev pub piece_with : FragmentType → RecordType → ℕ → List ℕ → ℕ → Fragment
piece_with fragment_type kind seq_num payload crc = record {
  header = record {
    fragment_crc32 = crc;
    header_size = fragment_header_size;
    fragment_type = fragment_type;
    kind = kind;
    seq_num = seq_num;
    fragment_size = length payload;
  };
  payload = payload;
}

module _ (crc32 : ℕ → List ℕ → ℕ) where
  -- A fragment with its checksum, as the loop of `write_payload` makes it.
  unfoldable pub make_piece : FragmentType → RecordType → ℕ → List ℕ → Result Fragment
  make_piece fragment_type kind seq_num payload =
      let piece = piece_with fragment_type kind seq_num payload in
      fragment_checksum crc32 (piece 0) >>= λ crc. ok (piece crc)

  -- One round: the bytes of the payload that this fragment takes, and the file after it.
  unfoldable pub write_piece : Bool → List ℕ → InternalRecord → Output → Result (ℕ × Output)
  write_piece is_first left r w =
      let remaining = wal_file_block_size - w.offset % wal_file_block_size in
      if ltb remaining fragment_header_size
      then fail invariant_violation
      else if remaining - fragment_header_size == 0
      then fail invariant_violation
      else let size = min (length left) (remaining - fragment_header_size) in
        let is_last = size == length left in
        make_piece (piece_type is_first is_last) r.kind r.seq_num (take size left) >>= λ f.
        write_fragment f w >>= in_step >>= λ w'. ok (size, w')

  -- The loop. `left` is the payload from `payload_position` on; every round takes a byte of it at least.
  unfoldable pub write_loop : ℕ → Bool → List ℕ → InternalRecord → Output → Result Output
  write_loop zero is_first left r w = ok w
  write_loop (suc fuel) is_first left r w =
      if length left == 0
      then ok w
      else in_step w
        >>= fit_output (suc fragment_header_size) wal_file_block_size
        >>= write_piece is_first left r
        >>= λ (size, w'). write_loop fuel false (drop size left) r w'

  -- `write_payload`
  unfoldable pub write_payload : List ℕ → InternalRecord → Output → Result Output
  write_payload byte_sequence r w =
      if length byte_sequence == 0
      then fail invalid_argument
      else write_loop (length byte_sequence) true byte_sequence r w

  -- `WALWriter::write`, on the file.
  unfoldable pub write_record : InternalRecord → Output → Result Output
  write_record r w =
      in_step w >>= λ w'. encode_record_payload r >>= λ payload. write_payload payload r w'

  -- `WALWriter::write`
  unfoldable pub write : InternalRecord → WalWriter → Result WalWriter
  write r w = elim w.file [
    | none ↦ fail failed_precondition
    | some out ↦ write_record r out >>= λ out'.
        ok record { file = some out'; path = w.path; wal_id = w.wal_id }
  ]

  -- The part of `create` after the old file is closed and removed and the new one is open.
  unfoldable pub start_file : SystemAnswers → List ℕ → ℕ → ℕ → WalWriter × StatusCode
  start_file answers path new_wal_id start_seq =
      elim (write_file_header crc32 (new_header crc32 new_wal_id start_seq)
        (record { bytes = []; offset = 0 })) [
          | fail code ↦ (closed_writer, code)
          | ok out ↦
              if not (is_ok answers.synced)
              then (closed_writer, answers.synced)
              else (record { file = some out; path = path; wal_id = new_wal_id }, ok_code)
        ]

  -- `create`
  unfoldable pub create : SystemAnswers → List ℕ → ℕ → ℕ → WalWriter → WalWriter × StatusCode
  create answers path new_wal_id start_seq w =
      if length path == 0
      then (w, invalid_argument)
      else let (w', code) = close answers w in
        if not (is_ok code)
        then (w', code)
        else if not answers.removed
        then (w', io_error)
        else if not (is_ok answers.opened)
        then (w', answers.opened)
        else start_file answers path new_wal_id start_seq

  -- `rotate`
  unfoldable pub rotate : SystemAnswers → List ℕ → ℕ → ℕ → WalWriter → WalWriter × StatusCode
  rotate answers new_path new_wal_id start_seq w =
      let (w', code) = close answers w in
      if not (is_ok code) then (w', code) else create answers new_path new_wal_id start_seq w'
