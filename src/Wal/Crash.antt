-- ===== src/Wal/Crash.antt =====
-- The promise of the log in src/core/engine/wal.cpp: what a writer wrote is recovered, also after a
-- crash that cut the file short, and a recovery always ends.
use kvdb.Base.{
  ℕ, ◌^◌, ◌≤◌, ◌<◌, ◌≡◌, ap, ◌∙◌, true, false, List, ◌++◌, length, take, All, All-append, some,
  arith,
}
use kvdb.Record.{InternalRecord}
use kvdb.Status.{ok_code, ok, ◌>>=◌}
use kvdb.BlockIo.{check_writer_offset}
use kvdb.Wal.Payload.{encode_record_payload, decode_record_payload}
use kvdb.Wal.Header.{new_header}
use kvdb.Wal.Writer.{SystemAnswers, WalWriter, create, sync}
use kvdb.Wal.Loader.{LoadResult, started, load}
use kvdb.Wal.Whole.{IsShort}
use kvdb.Wal.Recovery.{IsPrefix, IsClean}
use kvdb.Wal.Opening.{file_header_bytes}
use kvdb.Wal.Codec.{IsLoggable, encode_record_payload-lem, decode_record_payload-payload_of}
use kvdb.Wal.Log.{
  bytes_of, writer_with, with_records-lem, write_all, records_bytes, write_all-at_end, create-lem,
}
use kvdb.Wal.Durability.{
  load-cut_log, log_bytes, write_all-append, load-log_bytes, bytes_of-write_all,
}

-- The payload of a record that the log can hold decodes to that record.
pub decode-encode_record_payload :
    (r : InternalRecord)
    → IsLoggable r
    → (encode_record_payload r >>= λ payload. decode_record_payload payload r.seq_num r.kind) ≡ ok r
decode-encode_record_payload r w =
    rw (encode_record_payload-lem r w) (decode_record_payload-payload_of r w)

-- The records that a load of the whole log gives.
abbrev pub complete : (ℕ → List ℕ → ℕ) → ℕ → ℕ → List InternalRecord → LoadResult
complete crc32 wal_id start_seq rs = record {
  records = rs;
  header = some (new_header crc32 wal_id start_seq);
  good = true;
  had_torn_tail = false;
  had_corruption = false;
}

module _ (crc32 : ℕ → List ℕ → ℕ) (answers : SystemAnswers) (path : List ℕ) (wal_id start_seq : ℕ)
    (id_small : wal_id < 2 ^ 32) (seq_small : start_seq < 2 ^ 64) (w₀ w₁ : WalWriter)
    (opened : create crc32 answers path wal_id start_seq w₀ ≡ (w₁, ok_code)) where
  -- After a `create` that succeeds, every list of records that the log can hold is written, if header
  -- and records together are shorter than 2⁶³ bytes. The file then holds the header and the records, one
  -- after another, and a later `sync` answers what the system answers to it, success or failure.
  pub write_all-total :
      (rs : List InternalRecord) (later : SystemAnswers)
      → All IsLoggable rs
      → IsShort (log_bytes crc32 wal_id start_seq id_small seq_small rs)
      → (w₂ : WalWriter) × (write_all crc32 rs w₁ ≡ ok w₂)
        × (bytes_of w₂ ≡ log_bytes crc32 wal_id start_seq id_small seq_small rs)
        × (sync later w₂ ≡ later.synced)
  unfolding sync check_writer_offset
  write_all-total rs later h short =
      let hb = file_header_bytes (new_header crc32 wal_id start_seq) in
      let e = create-lem crc32 answers path wal_id start_seq w₀ w₁ opened in
      let w₂ = writer_with (hb ++ records_bytes crc32 rs (length hb)) path wal_id in
      let written : write_all crc32 rs w₁ ≡ ok w₂ =
        ap (write_all crc32 rs) e ∙ write_all-at_end crc32 rs hb path wal_id h in
      (
        w₂,
        written,
        bytes_of-write_all crc32 wal_id start_seq id_small seq_small answers path w₀ w₁ w₂ rs h
            opened written,
        ground arith,
      )

  -- Loading the file of a writer gives its header and the records that were written to it, in their
  -- order, and no torn tail and no corruption, if the file is shorter than 2⁶³ bytes.
  pub load-write_all :
      (rs : List InternalRecord) (w₂ : WalWriter)
      → All IsLoggable rs
      → write_all crc32 rs w₁ ≡ ok w₂
      → IsShort (bytes_of w₂)
      → load crc32 (bytes_of w₂) wal_id 0
        ≡ some (ok (complete crc32 wal_id start_seq rs), length (bytes_of w₂))
  load-write_all rs w₂ h e short =
      let same =
        bytes_of-write_all crc32 wal_id start_seq id_small seq_small answers path w₀ w₁ w₂ rs h
          opened e in
      let file = log_bytes crc32 wal_id start_seq id_small seq_small rs in
      let sizes = ap (λ x. length x) same in
      rw (same) (
        load-log_bytes crc32 wal_id start_seq id_small seq_small rs h (omega arith)
        ∙ ap (λ x. some (ok x, length file))
            (with_records-lem rs (started (new_header crc32 wal_id start_seq))))

  -- A crash that cuts the file anywhere behind the records `rs₁` loses none of them: the load of what is
  -- left succeeds without corruption, and gives `rs₁` and a beginning of the records written later, if
  -- the file is shorter than 2⁶³ bytes.
  pub load-crash :
      (rs₁ rs₂ : List InternalRecord) (w₂ w₃ : WalWriter) (n : ℕ)
      → All IsLoggable rs₁
      → All IsLoggable rs₂
      → write_all crc32 rs₁ w₁ ≡ ok w₂
      → write_all crc32 rs₂ w₂ ≡ ok w₃
      → IsShort (bytes_of w₃)
      → length (bytes_of w₂) ≤ n
      → n ≤ length (bytes_of w₃)
      → (r : LoadResult) × (end : ℕ) × (load crc32 (take n (bytes_of w₃)) wal_id 0
          ≡ some (ok r, end))
        × IsPrefix rs₁ r.records
        × IsPrefix r.records (rs₁ ++ rs₂)
        × IsClean r
  load-crash rs₁ rs₂ w₂ w₃ n h₁ h₂ e₁ e₂ short k l =
      let all = rs₁ ++ rs₂ in
      let h = All-append IsLoggable rs₁ rs₂ h₁ h₂ in
      let e₃ : write_all crc32 all w₁ ≡ ok w₃ =
        write_all-append crc32 rs₁ rs₂ w₁ ∙ ap (λ x. x >>= write_all crc32 rs₂) e₁ ∙ e₂ in
      let same₂ =
        bytes_of-write_all crc32 wal_id start_seq id_small seq_small answers path w₀ w₁ w₂ rs₁ h₁
          opened e₁ in
      let same₃ =
        bytes_of-write_all crc32 wal_id start_seq id_small seq_small answers path w₀ w₁ w₃ all h
          opened e₃ in
      let sizes₂ = ap (λ x. length x) same₂ in
      let sizes₃ = ap (λ x. length x) same₃ in
      let (r, end, e, pre, kept, clean) =
        load-cut_log crc32 wal_id start_seq id_small seq_small rs₁ rs₂ n h₁ h₂ (omega arith)
          (omega arith) (omega arith) in
      (r, end, ap (λ x. load crc32 (take n x) wal_id 0) same₃ ∙ e, pre, kept, clean)
