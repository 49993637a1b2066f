-- ===== src/Wal/Streaming.antt =====
-- `WALStreamingLoader` of src/core/engine/wal.cpp: the recovery of a log one record at a time. An
-- operation answers with its status, the loader after it and the offset that it leaves. The loop runs
-- on fuel, one more than the bytes of the file, and answers none when it has none left.
use kvdb.Base.{
  ℕ, zero, suc, Bool, true, false, not, List, length, Option, none, some, ltb, ◌==◌, if◌then◌else◌,
}
use kvdb.Record.{InternalRecord}
use kvdb.Status.{StatusCode, ok_code, Result, ok, fail, is_ok, invariant_violation, invalid_offset}
use kvdb.Wal.{is_recoverable_tail_error, is_corruption_error}
use kvdb.Wal.Header.{WalFileHeader, load_file_header}
use kvdb.Wal.Fragment.{load_fragment}
use kvdb.Wal.Assembler.{LogicalRecordAssembler, idle, consume}

-- `WALStreamingLoader::State`
pub data LoaderState : Type 0 where
  closed : LoaderState
  ready : LoaderState
  end_of_file : LoaderState
  at_torn_tail : LoaderState
  at_corruption : LoaderState

-- `WALStreamingLoader::LoadResult`; `good` is its field `ok`.
pub record StreamResult : Type 0 where
  pub logical_record : Option InternalRecord
  pub header : Option WalFileHeader
  pub reached_eof : Bool
  pub good : Bool
  pub had_torn_tail : Bool
  pub had_corruption : Bool
  pub last_good_offset : ℕ

-- The bytes of the open file, the result of the latest call, and the state.
pub record WalStreamingLoader : Type 0 where
  pub file : Option (List ℕ)
  pub result : StreamResult
  pub state : LoaderState

abbrev pub Step : Type 0
Step = StatusCode × WalStreamingLoader × ℕ

abbrev pub new_result : StreamResult
new_result = record {
  logical_record = none;
  header = none;
  reached_eof = false;
  good = true;
  had_torn_tail = false;
  had_corruption = false;
  last_good_offset = 0;
}

-- The constructor.
abbrev pub new_loader : WalStreamingLoader
new_loader = record { file = none; result = new_result; state = closed }

-- `open`; the argument is what opening the file gave.
unfoldable pub open_loader : Result (List ℕ) → WalStreamingLoader → WalStreamingLoader × StatusCode
open_loader opened l = elim l.file [
  | some _ ↦ (l, invariant_violation)
  | none ↦ elim opened [
    | fail code ↦ (l, code)
    | ok bytes ↦ (record { file = some bytes; result = new_result; state = ready }, ok_code)
  ]
]

unfoldable pub validate_header : StreamResult → ℕ → ℕ → StatusCode
validate_header result offset expected_wal_id = elim result.header [
  | none ↦ if not (offset == 0) then invariant_violation else ok_code
  | some h ↦
      if offset == 0
      then invariant_violation
      else if not (h.wal_id == expected_wal_id)
      then invariant_violation
      else ok_code
]

unfoldable pub validate_state : WalStreamingLoader → ℕ → ℕ → StatusCode
validate_state l offset expected_wal_id = elim l.file [
  | none ↦ invariant_violation
  | some bytes ↦ elim l.state [
    | ready ↦
        if ltb (length bytes) offset
        then invalid_offset
        else validate_header l.result offset expected_wal_id
    | _ ↦ invariant_violation
  ]
]

abbrev pub reset_call_result : WalStreamingLoader → WalStreamingLoader
reset_call_result l = record {
  file = l.file;
  result = record {
    logical_record = none;
    header = l.result.header;
    reached_eof = false;
    good = true;
    had_torn_tail = false;
    had_corruption = false;
    last_good_offset = l.result.last_good_offset;
  };
  state = l.state;
}

abbrev pub mark_torn_tail : WalStreamingLoader → WalStreamingLoader
mark_torn_tail l = record {
  file = l.file;
  result = record {
    logical_record = l.result.logical_record;
    header = l.result.header;
    reached_eof = false;
    good = true;
    had_torn_tail = true;
    had_corruption = false;
    last_good_offset = l.result.last_good_offset;
  };
  state = at_torn_tail;
}

abbrev pub mark_corruption : WalStreamingLoader → WalStreamingLoader
mark_corruption l = record {
  file = l.file;
  result = record {
    logical_record = l.result.logical_record;
    header = l.result.header;
    reached_eof = false;
    good = false;
    had_torn_tail = false;
    had_corruption = true;
    last_good_offset = l.result.last_good_offset;
  };
  state = at_corruption;
}

-- What a load that failed makes of the loader; the offset is left at `at`.
unfoldable pub stop_stream : StatusCode → ℕ → WalStreamingLoader → Step
stop_stream code at l =
    if is_recoverable_tail_error code
    then (ok_code, mark_torn_tail l, at)
    else if is_corruption_error code
    then (ok_code, mark_corruption l, at)
    else (code, l, at)

unfoldable pub stop_stream_at_end : LogicalRecordAssembler → ℕ → WalStreamingLoader → Step
stop_stream_at_end a offset l =
    if a.active then (ok_code, mark_torn_tail l, l.result.last_good_offset) else (
      ok_code,
      record l { result = record (l.result) { reached_eof = true }; state = end_of_file },
      offset,
    )

-- A complete record.
abbrev pub give_record : InternalRecord → ℕ → WalStreamingLoader → Step
give_record r offset l = (
  ok_code,
  record l { result = record (l.result) { logical_record = some r; last_good_offset = offset } },
  offset,
)

module _ (crc32 : ℕ → List ℕ → ℕ) where
  -- `while (true)`
  unfoldable pub stream_loop :
      List ℕ → ℕ → ℕ → LogicalRecordAssembler → WalStreamingLoader → Option Step
  stream_loop file zero offset a l = none
  stream_loop file (suc fuel) offset a l = elim (load_fragment crc32 file offset) [
    | fail code ↦ some (stop_stream code l.result.last_good_offset l)
    | ok (found, offset') ↦ elim found [
      | none ↦ some (stop_stream_at_end a offset' l)
      | some f ↦
          let (a', answer) = consume f a in
          elim answer [
            | fail _ ↦ some (ok_code, mark_corruption l, l.result.last_good_offset)
            | ok assembled ↦ elim assembled [
              | none ↦ stream_loop file fuel offset' a' l
              | some r ↦ some (give_record r offset' l)
            ]
          ]
    ]
  ]

  -- The part of `load_next` with the header at hand.
  unfoldable pub next_record : List ℕ → ℕ → WalStreamingLoader → Option Step
  next_record file offset l = stream_loop file (suc (length file)) offset idle l

  -- The part that loads the header.
  unfoldable pub load_header_once : List ℕ → ℕ → ℕ → WalStreamingLoader → Option Step
  load_header_once file offset expected_wal_id l =
      elim (load_file_header crc32 file expected_wal_id offset) [
        | fail code ↦ some (stop_stream code offset l)
        | ok (found, offset') ↦ elim found [
          | none ↦ some (ok_code, mark_torn_tail l, offset')
          | some h ↦
              let with_header : WalStreamingLoader = record l {
                result = record (l.result) { header = some h };
              } in
              if not (h.wal_id == expected_wal_id)
              then some (ok_code, mark_corruption with_header, offset')
              else next_record file offset' (record l {
                result = record (l.result) { header = some h; last_good_offset = offset' };
              })
        ]
      ]

  unfoldable pub load_ready : List ℕ → ℕ → ℕ → WalStreamingLoader → Option Step
  load_ready file offset expected_wal_id l =
      let code = validate_state l offset expected_wal_id in
      if not (is_ok code) then some (code, l, offset) else elim l.result.header [
        | none ↦ load_header_once file offset expected_wal_id l
        | some _ ↦ next_record file offset l
      ]

  -- `load_next`
  unfoldable pub load_next : WalStreamingLoader → ℕ → ℕ → Option Step
  load_next l₀ offset expected_wal_id =
      let l = reset_call_result l₀ in
      elim l.state [
        | closed ↦ some (invariant_violation, l, offset)
        | end_of_file ↦
            some (ok_code, record l { result = record (l.result) { reached_eof = true } }, offset)
        | at_torn_tail ↦
            some (ok_code, record l { result = record (l.result) { had_torn_tail = true } }, offset)
        | at_corruption ↦ some (
          ok_code,
          record l { result = record (l.result) { good = false; had_corruption = true } },
          offset,
        )
        | ready ↦ elim l.file [
          | none ↦ some (invariant_violation, l, offset)
          | some file ↦ load_ready file offset expected_wal_id l
        ]
      ]
