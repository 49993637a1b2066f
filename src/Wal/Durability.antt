-- ===== src/Wal/Durability.antt =====
-- What `WALLoader::load` recovers of the log that a `WALWriter` wrote, whole or cut short by a crash
-- (src/core/engine/wal.cpp).
use kvdb.Base.{
  ℕ, zero, suc, ◌+◌, ◌-◌, ◌^◌, ◌≤◌, ◌<◌, ◌≡◌, refl, sym, ap, ◌∙◌, List, [], ◌∷◌, ◌++◌, append_assoc,
  append-nil, length, length-append, take, length-take, take-append, take-append_more, All,
  All-append, Option, some, arith,
}
use kvdb.Record.{InternalRecord}
use kvdb.Status.{ok_code, Result, ok, fail, ◌>>=◌}
use kvdb.Wal.Header.{WalFileHeader, new_header, load_file_header, check_file_header}
use kvdb.Wal.Assembler.{idle}
use kvdb.Wal.Writer.{SystemAnswers, WalWriter, create, write}
use kvdb.Wal.Loader.{LoadResult, Loaded, started, stop_at_end, load_loop, load}
use kvdb.Wal.Whole.{IsShort, load_fragment-end}
use kvdb.Wal.Rounds.{start_of}
use kvdb.Wal.Steps.{load-header, load_loop-end}
use kvdb.Wal.Recovery.{IsPrefix, IsClean, load_loop-IsPrefix, load_loop-take}
use kvdb.Wal.Opening.{
  parse_file_header, file_header_bytes, length-file_header_bytes, parse-file_header_bytes,
  load_file_header-room, load_file_header-take, new_header-IsSized, check-new_header,
}
use kvdb.Wal.Codec.{IsLoggable}
use kvdb.Wal.Log.{
  bytes_of, writer_with, with_records, with_records-lem, write_all, record_bytes, records_bytes,
  write_all-at_end, create-lem, load_loop-records,
}

module _ (crc32 : ℕ → List ℕ → ℕ) where
  pub load_file_header-new :
      (wal_id start_seq : ℕ) (rest : List ℕ)
      → wal_id < 2 ^ 32
      → start_seq < 2 ^ 64
      → load_file_header crc32
          (file_header_bytes (new_header crc32 wal_id start_seq) ++ rest)
          wal_id
          0
        ≡ ok (some (new_header crc32 wal_id start_seq), 40)
  load_file_header-new wal_id start_seq rest h k =
      let header = new_header crc32 wal_id start_seq in
      let hb = file_header_bytes header in
      let size : length hb ≡ 40 = length-file_header_bytes header in
      let long : 40 ≤ length (hb ++ rest) = omega (arith, length-append hb rest) in
      load_file_header-room crc32 (hb ++ rest) wal_id long
      ∙ ap
          (λ bytes.
            check_file_header crc32 wal_id (parse_file_header bytes) >>= λ h'. ok (some h', 40))
          (take-append hb rest 40 (sym size))
      ∙ ap (λ x. check_file_header crc32 wal_id x >>= λ h'. ok (some h', 40))
          (parse-file_header_bytes header (new_header-IsSized crc32 wal_id start_seq h k))
      ∙ ap (λ c. c >>= λ h'. ok (some h', 40)) (check-new_header crc32 wal_id start_seq)

  pub load_loop-at_end :
      (file : List ℕ) (fuel end : ℕ) (result : LoadResult)
      → IsShort file
      → end ≡ length file
      → length file < fuel + end
      → load_loop crc32 file fuel end idle end result ≡ some (ok result, end)
  unfolding stop_at_end
  load_loop-at_end file zero end result short e h = absurd (omega arith)
  load_loop-at_end file (suc fuel) end result short e h =
      let later : end ≤ start_of end = ground arith in
      load_loop-end crc32 file fuel end idle end result (length file)
        (load_fragment-end crc32 file end short (omega arith) (omega arith))
      ∙ ap (λ n. some (ok result, n)) (sym e)

  pub write_all-append :
      (rs₁ rs₂ : List InternalRecord) (w : WalWriter)
      → write_all crc32 (rs₁ ++ rs₂) w ≡ (write_all crc32 rs₁ w >>= write_all crc32 rs₂)
  unfolding write_all
  write_all-append [] rs₂ w = refl
  write_all-append (r ∷ rs₁) rs₂ w =
      elim (write crc32 r w)
        as (λ x.
          (x >>= write_all crc32 (rs₁ ++ rs₂))
          ≡ (x >>= write_all crc32 rs₁ >>= write_all crc32 rs₂)) [
            | ok w' ↦ write_all-append rs₁ rs₂ w'
            | fail code ↦ refl
          ]

  pub records_bytes-append :
      (rs₁ rs₂ : List InternalRecord) (o : ℕ)
      → records_bytes crc32 (rs₁ ++ rs₂) o
        ≡ records_bytes crc32 rs₁ o
          ++ records_bytes crc32 rs₂ (o + length (records_bytes crc32 rs₁ o))
  records_bytes-append [] rs₂ o = let e : o ≡ o + 0 = omega arith in ap (records_bytes crc32 rs₂) e
  records_bytes-append (r ∷ rs₁) rs₂ o =
      let x = record_bytes crc32 r o in
      let y = records_bytes crc32 rs₁ (o + length x) in
      let e : o + length x + length y ≡ o + length (x ++ y) = omega (arith, length-append x y) in
      ap (λ z. x ++ z) (records_bytes-append rs₁ rs₂ (o + length x))
      ∙ sym (append_assoc x y (records_bytes crc32 rs₂ (o + length x + length y)))
      ∙ ap (λ n. (x ++ y) ++ records_bytes crc32 rs₂ n) e

  module _ (wal_id start_seq : ℕ) (id_small : wal_id < 2 ^ 32)
      (seq_small : start_seq < 2 ^ 64) where
    abbrev pub header_of : WalFileHeader
    header_of = new_header crc32 wal_id start_seq

    -- The bytes of a log with these records.
    abbrev pub log_bytes : List InternalRecord → List ℕ
    log_bytes rs = file_header_bytes header_of ++ records_bytes crc32 rs 40

    -- What the load gives after the records, it gives.
    pub load-log :
        (rs : List InternalRecord) (rest : List ℕ) (Q : Option Loaded → Type 0)
        → All IsLoggable rs
        → IsShort (log_bytes rs ++ rest)
        → ((fuel end : ℕ)
            → end ≡ length (log_bytes rs)
            → length (log_bytes rs ++ rest) < fuel + end
            → Q (
                load_loop crc32
                  (log_bytes rs ++ rest)
                  fuel
                  end
                  idle
                  end
                  (with_records rs (started header_of))))
        → Q (load crc32 (log_bytes rs ++ rest) wal_id 0)
    load-log rs rest Q h short next =
        let hb = file_header_bytes header_of in
        let file = log_bytes rs ++ rest in
        let size : length hb ≡ 40 = length-file_header_bytes header_of in
        let split : file ≡ hb ++ (records_bytes crc32 rs 40 ++ rest) =
          append_assoc hb (records_bytes crc32 rs 40) rest in
        let e : load_file_header crc32 file wal_id 0 ≡ ok (some header_of, 40) =
          ap (λ x. load_file_header crc32 x wal_id 0) split
          ∙ load_file_header-new wal_id start_seq (records_bytes crc32 rs 40 ++ rest) id_small
              seq_small in
        let split' : file ≡ hb ++ (records_bytes crc32 rs (length hb) ++ rest) =
          split ∙ ap (λ n. hb ++ (records_bytes crc32 rs n ++ rest)) (sym size) in
        let lengths : length (log_bytes rs)
            ≡ length hb + length (records_bytes crc32 rs (length hb)) =
          length-append hb (records_bytes crc32 rs 40)
          ∙ ap (λ n. length hb + length (records_bytes crc32 rs n)) (sym size) in
        rw (load-header crc32 file wal_id 0 40 header_of e) (
          load_loop-records crc32 file short Q rs hb rest 40 (started header_of) (suc (length file))
            h (sym size) split' (omega arith) (λ fuel' end p q. next fuel' end (p ∙ sym lengths) q))

    pub load-log_bytes :
        (rs : List InternalRecord)
        → All IsLoggable rs
        → IsShort (log_bytes rs)
        → load crc32 (log_bytes rs) wal_id 0
          ≡ some (ok (with_records rs (started header_of)), length (log_bytes rs))
    load-log_bytes rs h short =
        let result = with_records rs (started header_of) in
        let file = log_bytes rs ++ [] in
        let same : file ≡ log_bytes rs = append-nil (log_bytes rs) in
        let sizes = ap (λ x. length x) same in
        let short' : IsShort file = omega arith in
        ap (λ x. load crc32 x wal_id 0) (sym same)
        ∙ load-log rs [] (λ l. l ≡ some (ok result, length (log_bytes rs))) h short'
            (λ fuel end p q.
              load_loop-at_end file fuel end result short' (p ∙ sym sizes) q
              ∙ ap (λ n. some (ok result, n)) p)

    -- The writer's file holds the log.
    pub bytes_of-write_all :
        (answers : SystemAnswers) (path : List ℕ) (w₀ w₁ w₂ : WalWriter) (rs : List InternalRecord)
        → All IsLoggable rs
        → create crc32 answers path wal_id start_seq w₀ ≡ (w₁, ok_code)
        → write_all crc32 rs w₁ ≡ ok w₂
        → bytes_of w₂ ≡ log_bytes rs
    unfolding bytes_of
    bytes_of-write_all answers path w₀ w₁ w₂ rs h e₁ e₂ =
        let hb = file_header_bytes header_of in
        let e₃ = create-lem crc32 answers path wal_id start_seq w₀ w₁ e₁ in
        let e₄ : Path (Result WalWriter)
            (ok (writer_with (hb ++ records_bytes crc32 rs (length hb)) path wal_id)) (ok w₂) =
          sym (write_all-at_end crc32 rs hb path wal_id h)
          ∙ ap (write_all crc32 rs) (sym e₃)
          ∙ e₂ in
        let e₅ : writer_with (hb ++ records_bytes crc32 rs (length hb)) path wal_id ≡ w₂ = cc in
        ap bytes_of (sym e₅)
        ∙ ap (λ n. hb ++ records_bytes crc32 rs n) (length-file_header_bytes header_of)

    pub IsPrefix-load :
        (rs : List InternalRecord) (rest : List ℕ) (r : LoadResult) (end : ℕ)
        → All IsLoggable rs
        → IsShort (log_bytes rs ++ rest)
        → load crc32 (log_bytes rs ++ rest) wal_id 0 ≡ some (ok r, end)
        → IsPrefix rs r.records
    IsPrefix-load rs rest r end h short e =
        let named = with_records-lem rs (started header_of) in
        load-log rs rest (λ l. l ≡ some (ok r, end) → IsPrefix rs r.records) h short
          (λ fuel end' p q e'. rw (sym (ap (λ x. x.records) named)) (
            load_loop-IsPrefix crc32 (log_bytes rs ++ rest) fuel end' idle end'
              (with_records rs (started header_of)) r end e'))
          e

    pub log_bytes-append :
        (rs₁ rs₂ : List InternalRecord)
        → log_bytes (rs₁ ++ rs₂)
          ≡ log_bytes rs₁ ++ records_bytes crc32 rs₂ (40 + length (records_bytes crc32 rs₁ 40))
    log_bytes-append rs₁ rs₂ =
        let hb = file_header_bytes header_of in
        ap (λ x. hb ++ x) (records_bytes-append rs₁ rs₂ 40)
        ∙ sym (
            append_assoc hb (records_bytes crc32 rs₁ 40)
              (records_bytes crc32 rs₂ (40 + length (records_bytes crc32 rs₁ 40))))

    -- A log cut behind the records `rs₁`.
    pub load-cut_log :
        (rs₁ rs₂ : List InternalRecord) (n : ℕ)
        → All IsLoggable rs₁
        → All IsLoggable rs₂
        → IsShort (log_bytes (rs₁ ++ rs₂))
        → length (log_bytes rs₁) ≤ n
        → n ≤ length (log_bytes (rs₁ ++ rs₂))
        → (r : LoadResult) × (end : ℕ) × (load crc32 (take n (log_bytes (rs₁ ++ rs₂))) wal_id 0
            ≡ some (ok r, end))
          × IsPrefix rs₁ r.records
          × IsPrefix r.records (rs₁ ++ rs₂)
          × IsClean r
    load-cut_log rs₁ rs₂ n h₁ h₂ short k l =
        let all = rs₁ ++ rs₂ in
        let file = log_bytes all in
        let cut = take n file in
        let hb = file_header_bytes header_of in
        let first_size : 40 ≤ length (log_bytes rs₁) = omega (
          arith,
          length-append hb (records_bytes crc32 rs₁ 40),
          length-file_header_bytes header_of,
        ) in
        let result = with_records all (started header_of) in
        let named = with_records-lem all (started header_of) in
        let header =
          load_file_header-new wal_id start_seq (records_bytes crc32 all 40) id_small seq_small in
        let header' = load_file_header-take crc32 file n wal_id (omega arith) l ∙ header in
        let whole =
          sym (load-header crc32 file wal_id 0 40 header_of header)
          ∙ load-log_bytes all (All-append IsLoggable rs₁ rs₂ h₁ h₂) short in
        let is_clean : IsClean result =
          (ap (λ x. x.good) named, ap (λ x. x.had_corruption) named) in
        let (r, end, e, (rest, p), clean) =
          load_loop-take crc32 file n (suc (length file)) (suc (length cut)) 40 idle 40
            (started header_of) result (length file) short l (omega arith) (omega arith)
            (omega (arith, length-take n file)) (refl, refl) whole is_clean in
        let loaded = load-header crc32 cut wal_id 0 40 header_of header' ∙ e in
        let more = records_bytes crc32 rs₂ (40 + length (records_bytes crc32 rs₁ 40)) in
        let split : cut ≡ log_bytes rs₁ ++ take (n - length (log_bytes rs₁)) more =
          ap (take n) (log_bytes-append rs₁ rs₂) ∙ take-append_more (log_bytes rs₁) more n k in
        let sizes = ap (λ x. length x) split in
        let kept =
          IsPrefix-load rs₁ (take (n - length (log_bytes rs₁)) more) r end h₁
            (omega (arith, length-take n file))
            (ap (λ x. load crc32 x wal_id 0) (sym split) ∙ loaded) in
        (r, end, loaded, kept, (rest, p ∙ ap (λ x. x.records) named), clean)
