-- ===== src/Wal/Codec.antt =====
-- The payload of a record and the header of a fragment, written and read again.
use kvdb.Base.{
  ℕ, ◌+◌, ◌-◌, ◌^◌, ◌<◌, ◌≡◌, refl, sym, ap, ◌∙◌, true, false, ltb, ◌==◌, List, ◌++◌, length,
  length-append, take, slice, take-append, take_all, drop-drop, drop-append, arith,
}
use kvdb.Record.{RecordType, put, tombstone, undefined, InternalRecord}
use kvdb.Status.{ok}
use kvdb.Bytes.{le_bytes, of_le_bytes, of_le_bytes-4, of_le_bytes-8}
use kvdb.Wal.{
  FragmentType, full, first, middle, last, unknown, byte_of_fragment, fragment_of_byte,
  is_valid_fragment_type, byte_of_type, type_of_byte, is_valid_record_type,
}
use kvdb.Wal.Payload.{append_u32_le, read_u32_le, encode_record_payload, decode_record_payload}
use kvdb.Wal.Fragment.{FragmentHeader}
use kvdb.Wal.Layout.{header_bytes}
use kvdb.Wal.Parse.{parse_header}

-- A record that the log can hold: a put or a tombstone whose fields fit their types.
pub record IsLoggable (r : InternalRecord) : Type 0 where
  pub typed : is_valid_record_type r.kind ≡ true
  pub key_small : length r.key_entry < 2 ^ 32
  pub value_small : length r.value_entry < 2 ^ 32
  pub seq_small : r.seq_num < 2 ^ 64

-- The payload: the two sizes, the key and the value.
unfoldable pub payload_of : InternalRecord → List ℕ
payload_of r =
    le_bytes 4 (length r.key_entry)
    ++ (le_bytes 4 (length r.value_entry) ++ (r.key_entry ++ r.value_entry))

pub length-payload_of :
    (r : InternalRecord) → length (payload_of r) ≡ 8 + length r.key_entry + length r.value_entry
unfolding payload_of
length-payload_of r = omega (arith, length-append r.key_entry r.value_entry)

payload_of-key_size :
    (r : InternalRecord)
    → IsLoggable r
    → of_le_bytes (slice (payload_of r) 0 4) ≡ length r.key_entry
unfolding payload_of
payload_of-key_size r w = of_le_bytes-4 (length r.key_entry) w.key_small

payload_of-value_size :
    (r : InternalRecord)
    → IsLoggable r
    → of_le_bytes (slice (payload_of r) 4 4) ≡ length r.value_entry
unfolding payload_of
payload_of-value_size r w = of_le_bytes-4 (length r.value_entry) w.value_small

payload_of-key : (r : InternalRecord) → slice (payload_of r) 8 (length r.key_entry) ≡ r.key_entry
unfolding payload_of
payload_of-key r = take-append r.key_entry r.value_entry (length r.key_entry) refl

payload_of-value :
    (r : InternalRecord)
    → slice (payload_of r) (8 + length r.key_entry) (length r.value_entry) ≡ r.value_entry
unfolding payload_of
payload_of-value r =
    let n = length r.value_entry in
    let k = length r.key_entry in
    ap (take n) (sym (drop-drop k 8 (payload_of r)))
    ∙ ap (take n) (drop-append r.key_entry r.value_entry k refl)
    ∙ take_all n r.value_entry (omega arith)

pub encode_record_payload-lem :
    (r : InternalRecord) → IsLoggable r → encode_record_payload r ≡ ok (payload_of r)
unfolding encode_record_payload append_u32_le payload_of
encode_record_payload-lem r w =
    let t₁ : ltb (2 ^ 64 - 1 - 8) (length r.key_entry) ≡ false = ground (arith, w.key_small) in
    let t₂ : ltb (2 ^ 64 - 1 - (8 + length r.key_entry)) (length r.value_entry) ≡ false =
      ground (arith, w.key_small, w.value_small) in
    rw (encode_record_payload, w.typed, t₁, t₂) refl

pub decode_record_payload-payload_of :
    (r : InternalRecord)
    → IsLoggable r
    → decode_record_payload (payload_of r) r.seq_num r.kind ≡ ok r
unfolding decode_record_payload read_u32_le
decode_record_payload-payload_of r w =
    let size = length-payload_of r in
    let key_size = length r.key_entry in
    let value_size = length r.value_entry in
    let t₁ : ltb (length (payload_of r)) 4 ≡ false = ground arith in
    let t₂ : ltb (length (payload_of r)) 8 ≡ false = ground arith in
    let t₃ : (8 + key_size + value_size == length (payload_of r)) ≡ true = ground arith in
    let keys : of_le_bytes (slice (payload_of r) 0 4) ≡ key_size = payload_of-key_size r w in
    let values : of_le_bytes (slice (payload_of r) 4 4) ≡ value_size = payload_of-value_size r w in
    let key : slice (payload_of r) 8 key_size ≡ r.key_entry = payload_of-key r in
    let value : slice (payload_of r) (8 + key_size) value_size ≡ r.value_entry =
      payload_of-value r in
    rw (decode_record_payload, w.typed, t₁, keys, t₂, values, t₃, key, value) refl

pub fragment_of_byte-byte_of_fragment :
    (t : FragmentType)
    → is_valid_fragment_type t ≡ true
    → fragment_of_byte (of_le_bytes (le_bytes 1 (byte_of_fragment t))) ≡ t
unfolding fragment_of_byte
fragment_of_byte-byte_of_fragment full e = refl
fragment_of_byte-byte_of_fragment first e = refl
fragment_of_byte-byte_of_fragment middle e = refl
fragment_of_byte-byte_of_fragment last e = refl
fragment_of_byte-byte_of_fragment unknown e = absurd (ground arith)

pub type_of_byte-byte_of_type :
    (t : RecordType)
    → is_valid_record_type t ≡ true
    → type_of_byte (of_le_bytes (le_bytes 1 (byte_of_type t))) ≡ t
unfolding type_of_byte
type_of_byte-byte_of_type put e = refl
type_of_byte-byte_of_type tombstone e = refl
type_of_byte-byte_of_type undefined e = absurd (ground arith)

pub parse-header_bytes :
    (h : FragmentHeader)
    → is_valid_fragment_type h.fragment_type ≡ true
    → is_valid_record_type h.kind ≡ true
    → h.fragment_crc32 < 2 ^ 32
    → h.header_size < 2 ^ 32
    → h.seq_num < 2 ^ 64
    → h.fragment_size < 2 ^ 32
    → parse_header (header_bytes h) ≡ h
unfolding parse_header header_bytes
parse-header_bytes h known typed crc size seq count =
    rw
      (
        of_le_bytes-4 h.fragment_crc32 crc,
        of_le_bytes-4 h.header_size size,
        fragment_of_byte-byte_of_fragment h.fragment_type known,
        type_of_byte-byte_of_type h.kind typed,
        of_le_bytes-8 h.seq_num seq,
        of_le_bytes-4 h.fragment_size count,
      )
      refl
