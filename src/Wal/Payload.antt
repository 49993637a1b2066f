-- ===== src/Wal/Payload.antt =====
-- The payload of a record: `encode_record_payload` and `decode_record_payload` of
-- src/core/engine/wal.cpp. The sizes are 32-bit fields of the entries; a null pointer with a size above
-- 0 is no value of the model.
use kvdb.Base.{ℕ, ◌+◌, ◌-◌, ◌^◌, not, List, [], ◌++◌, length, slice, ltb, ◌==◌, if◌then◌else◌}
use kvdb.Record.{RecordType, InternalRecord}
use kvdb.Status.{
  Result, ok, fail, ◌>>=◌, invalid_argument, allocation_too_large, corruption, unexpected_eof,
  invalid_payload_size,
}
use kvdb.Bytes.{le_bytes, of_le_bytes}
use kvdb.Wal.{is_valid_record_type}

unfoldable pub append_u32_le : List ℕ → ℕ → List ℕ
append_u32_le out value = out ++ le_bytes 4 value

-- The number and the position after it.
unfoldable pub read_u32_le : List ℕ → ℕ → Result (ℕ × ℕ)
read_u32_le bytes position =
    if ltb (length bytes) (position + 4)
    then fail unexpected_eof
    else ok (of_le_bytes (slice bytes position 4), position + 4)

unfoldable pub encode_record_payload : InternalRecord → Result (List ℕ)
encode_record_payload r =
    let key_size = length r.key_entry in
    let value_size = length r.value_entry in
    if not (is_valid_record_type r.kind)
    then fail invalid_argument
    else if ltb (2 ^ 64 - 1 - 8) key_size
    then fail allocation_too_large
    else if ltb (2 ^ 64 - 1 - (8 + key_size)) value_size
    then fail allocation_too_large
    else ok (append_u32_le (append_u32_le [] key_size) value_size ++ r.key_entry ++ r.value_entry)

unfoldable pub decode_record_payload : List ℕ → ℕ → RecordType → Result InternalRecord
decode_record_payload payload seq_num kind =
    if not (is_valid_record_type kind)
    then fail corruption
    else read_u32_le payload 0 >>= λ (key_size, at).
        read_u32_le payload at >>= λ (value_size, start).
        if not (8 + key_size + value_size == length payload)
        then fail invalid_payload_size
        else ok record {
          key_entry = slice payload start key_size;
          value_entry = slice payload (start + key_size) value_size;
          kind = kind;
          seq_num = seq_num;
        }
