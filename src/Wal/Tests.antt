-- ===== src/Wal/Tests.antt =====
-- Runs of the log, and the theorems about it at concrete inputs. `weak_sum` stands for `crc32`.
use kvdb.Base.{
  ℕ, ◌+◌, ◌*◌, ◌≤◌, ◌≡◌, refl, true, false, List, [], ◌∷◌, ◌++◌, length, length-take, suc, take,
  some, arith,
}
use kvdb.Record.{InternalRecord, put, tombstone, type_eq}
use kvdb.Status.{ok_code, sync_failed, ok, ◌>>=◌}
use kvdb.BlockIo.Writes.{padding}
use kvdb.BlockIo.{
  fit_input, fits_in_block, read_u32_t_le, read_fitting, validate_block_size, read_exact_at,
  read_u64_t_le, align_input, read_bytes, read_u8_t,
}
use kvdb.Wal.{
  crc32_init, crc32_add_pod, compute_crc32, fragment_of_byte, is_corruption_error,
  is_recoverable_tail_error, type_of_byte,
}
use kvdb.Wal.Payload.{encode_record_payload, decode_record_payload, read_u32_le}
use kvdb.Wal.Header.{
  new_header, with_header_checksum, header_checksum, load_file_header, read_file_header,
  check_file_header,
}
use kvdb.Wal.Fragment.{
  checksum_fields, load_fragment, check_fragment, check_header, fragment_checksum, load_header,
  load_payload, load_rest, read_header,
}
use kvdb.Wal.Assembler.{append_bytes, consume, consume_first, consume_full, consume_later, finish}
use kvdb.Wal.Writer.{SystemAnswers, WalWriter, closed_writer, close, sync, start_file, create}
use kvdb.Wal.Loader.{LoadResult, Loaded, load, load_loop, stop_at, stop_at_end}
use kvdb.Wal.Layout.{fragment_bytes, header_bytes}
use kvdb.Wal.Rounds.{round_bytes}
use kvdb.Wal.Whole.{IsShort}
use kvdb.Wal.Opening.{file_header_bytes, self_check-new_header, write_file_header-lem}
use kvdb.Wal.Codec.{IsLoggable, payload_of}
use kvdb.Wal.Log.{bytes_of, writer_with, write_all, records_bytes, write_all-at_end}
use kvdb.Wal.Progress.{load-total}
use kvdb.Wal.Recovery.{IsPrefix, IsClean}
use kvdb.Wal.Durability.{load_file_header-new, log_bytes}
use kvdb.Wal.Crash.{
  complete, decode-encode_record_payload, write_all-total, load-write_all, load-crash,
}
use kvdb.Wal.Streaming.{load_next}
use kvdb.Wal.Drain.{drain_from, Agrees}
use kvdb.Wal.Stream.{opened_with, drain-load}
use kvdb.Wal.Errors.{load-ok}

abbrev sum : List ℕ → ℕ
sum [] = 0
sum (b ∷ bs) = b + sum bs

abbrev weak_sum : ℕ → List ℕ → ℕ
weak_sum crc bytes = 3 * crc + sum bytes

abbrev all_well : SystemAnswers
all_well = record { removed = true; opened = ok_code; synced = ok_code; closed = ok_code }

abbrev a_put : InternalRecord
a_put = record { key_entry = 1 ∷ []; value_entry = 2 ∷ 3 ∷ []; kind = put; seq_num = 5 }

abbrev a_tombstone : InternalRecord
a_tombstone = record { key_entry = 1 ∷ []; value_entry = []; kind = tombstone; seq_num = 6 }

a_put-IsLoggable : IsLoggable a_put
a_put-IsLoggable = record {
  typed = refl;
  key_small = omega arith;
  value_small = omega arith;
  seq_small = omega arith;
}

a_tombstone-IsLoggable : IsLoggable a_tombstone
a_tombstone-IsLoggable = record {
  typed = refl;
  key_small = omega arith;
  value_small = omega arith;
  seq_small = omega arith;
}

abbrev a_path : List ℕ
a_path = 119 ∷ 97 ∷ 108 ∷ []

abbrev opened_bytes : List ℕ
opened_bytes = file_header_bytes (new_header weak_sum 7 5)

abbrev put_bytes : List ℕ
put_bytes = opened_bytes ++ records_bytes weak_sum (a_put ∷ []) (length opened_bytes)

abbrev both_bytes : List ℕ
both_bytes = put_bytes ++ records_bytes weak_sum (a_tombstone ∷ []) (length put_bytes)

file_started :
    start_file weak_sum all_well a_path 7 5 ≡ (writer_with opened_bytes a_path 7, ok_code)
unfolding start_file
file_started =
    rw
      (
        start_file,
        write_file_header-lem weak_sum (new_header weak_sum 7 5)
            (self_check-new_header weak_sum 7 5),
      )
      refl

created :
    create weak_sum all_well a_path 7 5 closed_writer ≡ (writer_with opened_bytes a_path 7, ok_code)
unfolding create close
created = file_started

put_written :
    write_all weak_sum (a_put ∷ []) (writer_with opened_bytes a_path 7)
    ≡ ok (writer_with put_bytes a_path 7)
put_written = write_all-at_end weak_sum (a_put ∷ []) opened_bytes a_path 7 (a_put-IsLoggable, tt)

tombstone_written :
    write_all weak_sum (a_tombstone ∷ []) (writer_with put_bytes a_path 7)
    ≡ ok (writer_with both_bytes a_path 7)
tombstone_written =
    write_all-at_end weak_sum (a_tombstone ∷ []) put_bytes a_path 7 (a_tombstone-IsLoggable, tt)

put_size : length (bytes_of (writer_with put_bytes a_path 7)) ≡ 73
unfolding bytes_of file_header_bytes round_bytes fragment_bytes header_bytes payload_of padding
put_size = refl

both_size : length (bytes_of (writer_with both_bytes a_path 7)) ≡ 104
unfolding bytes_of file_header_bytes round_bytes fragment_bytes header_bytes payload_of padding
both_size = refl

decode-encode_record_payload_example :
    (encode_record_payload a_put >>= λ payload. decode_record_payload payload 5 put) ≡ ok a_put
decode-encode_record_payload_example = decode-encode_record_payload a_put a_put-IsLoggable

-- The system refuses the sync.
abbrev sync_refused : SystemAnswers
sync_refused = record { removed = true; opened = ok_code; synced = sync_failed; closed = ok_code }

abbrev put_log : List ℕ
put_log = log_bytes weak_sum 7 5 (omega arith) (omega arith) (a_put ∷ [])

put_log-IsShort : IsShort put_log
unfolding file_header_bytes round_bytes fragment_bytes header_bytes payload_of padding
put_log-IsShort = omega arith

write_all-total_example :
    (w₂ : WalWriter) × (write_all weak_sum (a_put ∷ []) (writer_with opened_bytes a_path 7) ≡ ok w₂)
    × (bytes_of w₂ ≡ put_log)
    × (sync sync_refused w₂ ≡ sync_failed)
write_all-total_example =
    write_all-total weak_sum all_well a_path 7 5 (omega arith) (omega arith) closed_writer
      (writer_with opened_bytes a_path 7) created (a_put ∷ []) sync_refused (a_put-IsLoggable, tt)
      put_log-IsShort

load-write_all_example :
    load weak_sum (bytes_of (writer_with put_bytes a_path 7)) 7 0
    ≡ some (
      ok (complete weak_sum 7 5 (a_put ∷ [])),
      length (bytes_of (writer_with put_bytes a_path 7)),
    )
load-write_all_example =
    load-write_all weak_sum all_well a_path 7 5 (omega arith) (omega arith) closed_writer
      (writer_with opened_bytes a_path 7) created (a_put ∷ []) (writer_with put_bytes a_path 7)
      (a_put-IsLoggable, tt) put_written (omega (arith, put_size))

load-crash_example :
    (r : LoadResult) × (end : ℕ) × (load weak_sum
        (take 100 (bytes_of (writer_with both_bytes a_path 7)))
        7
        0
      ≡ some (ok r, end))
    × IsPrefix (a_put ∷ []) r.records
    × IsPrefix r.records (a_put ∷ a_tombstone ∷ [])
    × IsClean r
load-crash_example =
    load-crash weak_sum all_well a_path 7 5 (omega arith) (omega arith) closed_writer
      (writer_with opened_bytes a_path 7) created (a_put ∷ []) (a_tombstone ∷ [])
      (writer_with put_bytes a_path 7) (writer_with both_bytes a_path 7) 100 (a_put-IsLoggable, tt)
      (a_tombstone-IsLoggable, tt) put_written tombstone_written (omega (arith, both_size))
      (omega (arith, put_size)) (omega (arith, both_size))

abbrev cut_bytes : List ℕ
cut_bytes = take 100 both_bytes

abbrev cut_result : LoadResult
cut_result = record {
  records = a_put ∷ [];
  header = some (new_header weak_sum 7 5);
  good = true;
  had_torn_tail = true;
  had_corruption = false;
}

-- The cut in the second record is a torn tail, and the first is there.
cut_read : load weak_sum cut_bytes 7 0 ≡ some (ok cut_result, 73)
unfolding file_header_bytes round_bytes fragment_bytes header_bytes payload_of padding load
    load_file_header fit_input fits_in_block read_file_header read_u32_t_le read_fitting
    validate_block_size read_exact_at read_u64_t_le check_file_header new_header
    with_header_checksum header_checksum crc32_add_pod crc32_init load_loop load_fragment
    align_input read_bytes read_u8_t type_eq append_bytes consume consume_first consume_full
    consume_later finish check_fragment check_header checksum_fields fragment_checksum load_header
    load_payload load_rest read_header stop_at stop_at_end decode_record_payload read_u32_le
    compute_crc32 fragment_of_byte is_corruption_error is_recoverable_tail_error type_of_byte
cut_read = refl

load-total_example : (l : Loaded) × (load weak_sum (1 ∷ 2 ∷ []) 7 0 ≡ some l)
load-total_example = load-total weak_sum (1 ∷ 2 ∷ []) (omega arith) 7 0

opened_bytes-IsShort : IsShort (opened_bytes ++ (1 ∷ []))
unfolding file_header_bytes
opened_bytes-IsShort = omega arith

opened_long : 40 ≤ length (opened_bytes ++ (1 ∷ []))
unfolding file_header_bytes
opened_long = omega arith

load-ok_example :
    (r : LoadResult) × (end : ℕ) × (load weak_sum (opened_bytes ++ (1 ∷ [])) 7 0 ≡ some (ok r, end))
    × (end ≤ length (opened_bytes ++ (1 ∷ [])))
load-ok_example =
    load-ok weak_sum (opened_bytes ++ (1 ∷ [])) opened_bytes-IsShort 7 0 40
      (new_header weak_sum 7 5)
      (load_file_header-new weak_sum 7 5 (1 ∷ []) (omega arith) (omega arith)) opened_long

cut_bytes-IsShort : IsShort cut_bytes
cut_bytes-IsShort = omega (arith, length-take 100 both_bytes)

drain-load_example :
    Agrees
      (drain_from weak_sum 7
        (suc (length cut_bytes))
        (load_next weak_sum (opened_with cut_bytes) 0 7)
        [])
      cut_result
drain-load_example = drain-load weak_sum cut_bytes 7 cut_bytes-IsShort cut_result 73 cut_read
