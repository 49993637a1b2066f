-- ===== src/Wal/Assembler.antt =====
-- `LogicalRecordAssembler` of src/core/engine/wal.cpp: it joins the fragments of one record. Each call
-- answers with its state after it and its result.
use kvdb.Base.{
  ℕ, ◌-◌, ◌^◌, Bool, true, false, not, ◌||◌, List, [], ◌++◌, length, Option, none, some, ltb, ◌==◌,
  if◌then◌else◌,
}
use kvdb.Record.{RecordType, put, type_eq, InternalRecord}
use kvdb.Status.{StatusCode, Result, ok, fail, ◌>>=◌, corruption, allocation_too_large}
use kvdb.Wal.{FragmentType, full, first, middle, last}
use kvdb.Wal.Payload.{decode_record_payload}
use kvdb.Wal.Fragment.{Fragment}

pub record LogicalRecordAssembler : Type 0 where
  pub active : Bool
  pub seq_num : ℕ
  pub kind : RecordType
  pub bytes : List ℕ

abbrev pub Answer : Type 0
Answer = LogicalRecordAssembler × Result (Option InternalRecord)

-- The initial state, and the one that `reset` leaves.
abbrev pub idle : LogicalRecordAssembler
idle = record { active = false; seq_num = 0; kind = put; bytes = [] }

abbrev pub fail_with : StatusCode → Answer
fail_with code = (idle, fail code)

unfoldable pub append_bytes : List ℕ → LogicalRecordAssembler → Result LogicalRecordAssembler
append_bytes new a =
    if ltb (2 ^ 64 - 1 - length a.bytes) (length new)
    then fail allocation_too_large
    else ok record { active = a.active; seq_num = a.seq_num; kind = a.kind; bytes = a.bytes ++ new }

-- A decoded record, when the state after it is `a`.
abbrev pub decoded : LogicalRecordAssembler → Result InternalRecord → Answer
decoded a result = (a, result >>= λ r. ok (some r))

unfoldable pub consume_full : Fragment → LogicalRecordAssembler → Answer
consume_full f a =
    if a.active
    then fail_with corruption
    else decoded a (decode_record_payload f.payload f.header.seq_num f.header.kind)

unfoldable pub consume_first : Fragment → LogicalRecordAssembler → Answer
consume_first f a =
    if a.active
    then fail_with corruption
    else let started : LogicalRecordAssembler = record {
      active = true;
      seq_num = f.header.seq_num;
      kind = f.header.kind;
      bytes = [];
    } in
      elim (append_bytes f.payload started) [ ok a' ↦ (a', ok none) | fail code ↦ fail_with code ]

-- What follows the append of a later fragment.
unfoldable pub finish : FragmentType → LogicalRecordAssembler → Answer
finish middle a = (a, ok none)
finish last a = decoded idle (decode_record_payload a.bytes a.seq_num a.kind)
finish _ a = fail_with corruption

unfoldable pub consume_later : Fragment → LogicalRecordAssembler → Answer
consume_later f a =
    if not a.active
    then fail_with corruption
    else if not (a.seq_num == f.header.seq_num) || not (type_eq a.kind f.header.kind)
    then fail_with corruption
    else elim (append_bytes f.payload a) [
      | ok a' ↦ finish f.header.fragment_type a'
      | fail code ↦ fail_with code
    ]

unfoldable pub consume : Fragment → LogicalRecordAssembler → Answer
consume f a = elim f.header.fragment_type [
  | full ↦ consume_full f a
  | first ↦ consume_first f a
  | _ ↦ consume_later f a
]
