-- ===== src/Wal/Log.antt =====
-- The bytes of a log: what `WALWriter::create` and the calls of `WALWriter::write` after it (both in
-- src/core/engine/wal.cpp) put into the file, and what the loop of `WALLoader::load` makes of them.
use kvdb.Base.{
  ℕ, ◌+◌, ◌<◌, ◌≡◌, refl, sym, ap, ◌∙◌, true, false, ◌==◌, List, [], ◌∷◌, ◌++◌, append_assoc,
  append-nil, length, length-append, All, Option, none, some, arith,
}
use kvdb.Record.{InternalRecord}
use kvdb.Status.{ok_code, Result, ok, ◌>>=◌}
use kvdb.BlockIo.Writes.{at_end}
use kvdb.Wal.Header.{new_header}
use kvdb.Wal.Assembler.{idle}
use kvdb.Wal.Writer.{
  SystemAnswers, WalWriter, close, write_payload, write_record, write, start_file, create,
}
use kvdb.Wal.Loader.{LoadResult, Loaded, with_record, load_loop}
use kvdb.Wal.Layout.{in_step-at_end}
use kvdb.Wal.Rounds.{round_bytes, write_loop-at_end}
use kvdb.Wal.Whole.{IsShort}
use kvdb.Wal.Opening.{file_header_bytes, self_check-new_header, write_file_header-lem}
use kvdb.Wal.Codec.{IsLoggable, payload_of, length-payload_of, encode_record_payload-lem}
use kvdb.Wal.Rereading.{load_loop-rounds}

-- A writer with the bytes of its file.
abbrev pub writer_with : List ℕ → List ℕ → ℕ → WalWriter
writer_with b path wal_id = record { file = some (at_end b); path = path; wal_id = wal_id }

-- The bytes of the writer's file.
unfoldable pub bytes_of : WalWriter → List ℕ
bytes_of w = elim w.file [ none ↦ [] | some out ↦ out.bytes ]

abbrev pub with_records : List InternalRecord → LoadResult → LoadResult
with_records [] result = result
with_records (r ∷ rs) result = with_records rs (with_record r result)

pub with_records-lem :
    (rs : List InternalRecord) (result : LoadResult)
    → with_records rs result ≡ record result { records = result.records ++ rs }
with_records-lem [] result =
    ap (λ xs. record result { records = xs }) (sym (append-nil result.records))
with_records-lem (r ∷ rs) result =
    with_records-lem rs (with_record r result)
    ∙ ap (λ xs. record result { records = xs }) (append_assoc result.records (r ∷ []) rs)

module _ (crc32 : ℕ → List ℕ → ℕ) where
  -- A record after another.
  unfoldable pub write_all : List InternalRecord → WalWriter → Result WalWriter
  write_all [] w = ok w
  write_all (r ∷ rs) w = write crc32 r w >>= write_all rs

  abbrev pub record_bytes : InternalRecord → ℕ → List ℕ
  record_bytes r o = round_bytes crc32 (length (payload_of r)) true (payload_of r) r o

  abbrev pub records_bytes : List InternalRecord → ℕ → List ℕ
  records_bytes [] o = []
  records_bytes (r ∷ rs) o = record_bytes r o ++ records_bytes rs (o + length (record_bytes r o))

  pub write-at_end :
      (r : InternalRecord) (b path : List ℕ) (wal_id : ℕ)
      → IsLoggable r
      → write crc32 r (writer_with b path wal_id)
        ≡ ok (writer_with (b ++ record_bytes r (length b)) path wal_id)
  unfolding write write_record write_payload
  write-at_end r b path wal_id w =
      let payload = payload_of r in
      let t : (length payload == 0) ≡ false = ground (arith, length-payload_of r) in
      rw
        (
          write,
          in_step-at_end b,
          encode_record_payload-lem r w,
          t,
          write_loop-at_end crc32 (length payload) true payload r b w.typed,
        )
        refl

  pub write_all-at_end :
      (rs : List InternalRecord) (b path : List ℕ) (wal_id : ℕ)
      → All IsLoggable rs
      → write_all rs (writer_with b path wal_id)
        ≡ ok (writer_with (b ++ records_bytes rs (length b)) path wal_id)
  unfolding write_all
  write_all-at_end [] b path wal_id h =
      ap (λ x. ok (writer_with x path wal_id)) (sym (append-nil b))
  write_all-at_end (r ∷ rs) b path wal_id (w, h) =
      let x = record_bytes r (length b) in
      let joined : (b ++ x) ++ records_bytes rs (length (b ++ x))
          ≡ b ++ (x ++ records_bytes rs (length b + length x)) =
        append_assoc b x (records_bytes rs (length (b ++ x)))
        ∙ ap (λ n. b ++ (x ++ records_bytes rs n)) (length-append b x) in
      rw (write-at_end r b path wal_id w, write_all-at_end rs (b ++ x) path wal_id h)
        (ap (λ y. ok (writer_with y path wal_id)) joined)

  pub start_file-lem :
      (answers : SystemAnswers) (path : List ℕ) (wal_id start_seq : ℕ) (w₁ : WalWriter)
      → start_file crc32 answers path wal_id start_seq ≡ (w₁, ok_code)
      → w₁ ≡ writer_with (file_header_bytes (new_header crc32 wal_id start_seq)) path wal_id
  unfolding start_file
  start_file-lem answers path wal_id start_seq w₁ e = ground (
    arith,
    write_file_header-lem crc32 (new_header crc32 wal_id start_seq)
        (self_check-new_header crc32 wal_id start_seq),
  )

  -- A `create` that succeeds leaves a file with the header.
  pub create-lem :
      (answers : SystemAnswers) (path : List ℕ) (wal_id start_seq : ℕ) (w w₁ : WalWriter)
      → create crc32 answers path wal_id start_seq w ≡ (w₁, ok_code)
      → w₁ ≡ writer_with (file_header_bytes (new_header crc32 wal_id start_seq)) path wal_id
  unfolding create close
  create-lem answers path wal_id start_seq w w₁ e =
      ground (arith, start_file-lem answers path wal_id start_seq w₁)

  module _ (file : List ℕ) (short : IsShort file) (Q : Option Loaded → Type 0) where
    pub load_loop-records :
        (rs : List InternalRecord) (b rest : List ℕ) (o : ℕ) (result : LoadResult) (fuel : ℕ)
        → All IsLoggable rs
        → o ≡ length b
        → file ≡ b ++ (records_bytes rs (length b) ++ rest)
        → length file < fuel + length b
        → ((fuel' end : ℕ)
            → end ≡ length b + length (records_bytes rs (length b))
            → length file < fuel' + end
            → Q (load_loop crc32 file fuel' end idle end (with_records rs result)))
        → Q (load_loop crc32 file fuel o idle o result)
    load_loop-records [] b rest o result fuel h m e l next = next fuel o (omega arith) (omega arith)
    load_loop-records (r ∷ rs) b rest o result fuel (w, h) m e l next =
        let payload = payload_of r in
        let x = record_bytes r (length b) in
        let b' = b ++ x in
        let later = records_bytes rs (length b + length x) in
        let reached : length b' ≡ length b + length x = length-append b x in
        let same_later : later ≡ records_bytes rs (length b') =
          ap (records_bytes rs) (sym reached) in
        let split : file ≡ b ++ (x ++ (later ++ rest)) =
          e ∙ ap (λ y. b ++ y) (append_assoc x later rest) in
        let split' : file ≡ b' ++ (records_bytes rs (length b') ++ rest) =
          split ∙ sym (append_assoc b x (later ++ rest)) ∙ ap (λ y. b' ++ (y ++ rest)) same_later in
        let sizes : length (x ++ later) ≡ length x + length later = length-append x later in
        let lengths = ap (λ y. length y) same_later in
        rw (m) (
          load_loop-rounds crc32 r w file short Q (length payload) true payload [] b (later ++ rest)
            (length b) result fuel split (omega (arith, length-payload_of r)) (omega arith) refl l
            (λ fuel' end p q.
              load_loop-records rs b' rest end (with_record r result) fuel' h (p ∙ sym reached)
                split' (omega arith) (λ fuel'' end' p' q'. next fuel'' end' (omega arith) q')))
