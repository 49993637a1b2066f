-- ===== src/Wal/Drain.antt =====
-- `WALStreamingLoader` and `WALLoader` of src/core/engine/wal.cpp recover the same.
use kvdb.Base.{
  ℕ, zero, suc, ◌≤◌, ◌<◌, ◌≡◌, ◌⊎◌, inl, inr, refl, sym, ap, true, false, Bool-cases, ltb, ◌==◌,
  List, [], ◌∷◌, ◌++◌, length, Option, none, some, arith,
}
use kvdb.Record.{InternalRecord}
use kvdb.Status.{StatusCode, ok_code, ok}
use kvdb.Wal.{is_recoverable_tail_error, is_corruption_error}
use kvdb.Wal.Header.{WalFileHeader}
use kvdb.Wal.Fragment.{Fragment}
use kvdb.Wal.Assembler.{
  LogicalRecordAssembler, idle, append_bytes, consume_full, consume_first, finish, consume_later,
  consume,
}
use kvdb.Wal.Loader.{LoadResult, torn_tail, corrupted, stop_at, stop_at_end}
use kvdb.Wal.Streaming.{
  ready, end_of_file, mark_torn_tail, WalStreamingLoader, Step, stop_stream, stop_stream_at_end,
  give_record, mark_corruption, validate_header, validate_state, stream_loop, next_record,
  load_ready, load_next,
}

-- Idle, or in the middle of a record.
abbrev pub IsProper : LogicalRecordAssembler → Type 0
IsProper a = (a ≡ idle) ⊎ (a.active ≡ true)

-- A loader between two calls that has given no record in this call.
abbrev pub loader_at : List ℕ → WalFileHeader → ℕ → WalStreamingLoader
loader_at file h good = record {
  file = some file;
  result = record {
    logical_record = none;
    header = some h;
    reached_eof = false;
    good = true;
    had_torn_tail = false;
    had_corruption = false;
    last_good_offset = good;
  };
  state = ready;
}

-- The loader at the end of its file.
abbrev pub ended : WalStreamingLoader → WalStreamingLoader
ended l = record l { result = record (l.result) { reached_eof = true }; state = end_of_file }

pub consume-given :
    (f : Fragment) (a a' : LogicalRecordAssembler) (r : InternalRecord)
    → IsProper a
    → consume f a ≡ (a', ok (some r))
    → a' ≡ idle
unfolding consume consume_full consume_first consume_later append_bytes finish
consume-given f a a' r p e = elim p [
  | inl q ↦ let inactive : a.active ≡ false = ap (λ x. x.active) q in ground arith
  | inr q ↦ ground arith
]

pub consume-kept :
    (f : Fragment) (a a' : LogicalRecordAssembler) → consume f a ≡ (a', ok none) → a'.active ≡ true
unfolding consume consume_full consume_first consume_later append_bytes finish
consume-kept f a a' e = ground arith

-- The drained records are those of the batch load, and so is what is reported.
abbrev pub Agrees :
    Option (List InternalRecord × WalStreamingLoader × StatusCode) → LoadResult → Type 0
Agrees drained r =
    (l : WalStreamingLoader) × (drained ≡ some (r.records, l, ok_code))
    × (l.result.had_torn_tail ≡ r.had_torn_tail)
    × (l.result.had_corruption ≡ r.had_corruption)
    × (l.result.good ≡ r.good)

module _ (crc32 : ℕ → List ℕ → ℕ) (wal_id : ℕ) where
  -- A client that calls `load_next` until it gives no record: the records, the loader and the status of
  -- the last call.
  unfoldable pub drain_from :
      ℕ
      → Option Step
      → List InternalRecord
      → Option (List InternalRecord × WalStreamingLoader × StatusCode)
  drain_from zero step records = none
  drain_from (suc n) step records = elim step [
    | none ↦ none
    | some (code, l, offset) ↦ elim l.result.logical_record [
      | none ↦ some (records, l, code)
      | some r ↦ drain_from n (load_next crc32 l offset wal_id) (records ++ (r ∷ []))
    ]
  ]

module _ (crc32 : ℕ → List ℕ → ℕ) (file : List ℕ) (wal_id : ℕ) where
  -- A call between two records goes on reading.
  pub load_next-again :
      (h : WalFileHeader) (r : InternalRecord) (o good : ℕ)
      → h.wal_id ≡ wal_id
      → 0 < o
      → o ≤ length file
      → load_next crc32 (give_record r o (loader_at file h good)).1 o wal_id
        ≡ stream_loop crc32 file (suc (length file)) o idle (loader_at file h o)
  unfolding load_next load_ready next_record validate_state validate_header
  load_next-again h r o good e k i =
      let t₁ : ltb (length file) o ≡ false = ground arith in
      let t₂ : (o == 0) ≡ false = ground arith in
      let t₃ : (h.wal_id == wal_id) ≡ true = ground arith in rw (load_next, t₁, t₂, t₃) refl

  -- What stops the batch load stops the streaming load.
  pub drain-stop :
      (code : StatusCode) (n good : ℕ) (h : WalFileHeader) (r₀ r : LoadResult) (end : ℕ)
      → r₀.good ≡ true
      → r₀.had_torn_tail ≡ false
      → r₀.had_corruption ≡ false
      → some (stop_at code good r₀) ≡ some (ok r, end)
      → Agrees
          (drain_from crc32 wal_id
            (suc n)
            (some (stop_stream code good (loader_at file h good)))
            r₀.records)
          r
  unfolding drain_from stop_at stop_stream
  drain-stop code n good h r₀ r end g t c e = elim (Bool-cases (is_recoverable_tail_error code)) [
    | inl x ↦
        let same : record (torn_tail r₀) { good = true } ≡ r = ground arith in
        let step : Path Step (stop_stream code good (loader_at file h good))
            (ok_code, mark_torn_tail (loader_at file h good), good) =
          rw (stop_stream, x) refl in
        rw (sym same) (
          mark_torn_tail (loader_at file h good),
          ap (λ s. drain_from crc32 wal_id (suc n) (some s) r₀.records) step,
          refl,
          sym c,
          refl,
        )
    | inr x ↦ elim (Bool-cases (is_corruption_error code)) [
      | inl y ↦
          let same : corrupted r₀ ≡ r = ground arith in
          let step : Path Step (stop_stream code good (loader_at file h good))
              (ok_code, mark_corruption (loader_at file h good), good) =
            rw (stop_stream, x, y) refl in
          rw (sym same) (
            mark_corruption (loader_at file h good),
            ap (λ s. drain_from crc32 wal_id (suc n) (some s) r₀.records) step,
            sym t,
            refl,
            refl,
          )
      | inr y ↦ absurd (ground arith)
    ]
  ]

  pub drain-end :
      (a : LogicalRecordAssembler) (n o good : ℕ) (h : WalFileHeader) (r₀ r : LoadResult) (end : ℕ)
      → r₀.good ≡ true
      → r₀.had_torn_tail ≡ false
      → r₀.had_corruption ≡ false
      → some (stop_at_end a o good r₀) ≡ some (ok r, end)
      → Agrees
          (drain_from crc32 wal_id
            (suc n)
            (some (stop_stream_at_end a o (loader_at file h good)))
            r₀.records)
          r
  unfolding drain_from stop_at_end stop_stream_at_end
  drain-end a n o good h r₀ r end g t c e = elim (Bool-cases a.active) [
    | inl x ↦
        let same : torn_tail r₀ ≡ r = ground arith in
        let step : Path Step (stop_stream_at_end a o (loader_at file h good))
            (ok_code, mark_torn_tail (loader_at file h good), good) =
          rw (stop_stream_at_end, x) refl in
        rw (sym same) (
          mark_torn_tail (loader_at file h good),
          ap (λ s. drain_from crc32 wal_id (suc n) (some s) r₀.records) step,
          refl,
          sym c,
          sym g,
        )
    | inr x ↦
        let same : r₀ ≡ r = ground arith in
        let step : Path Step (stop_stream_at_end a o (loader_at file h good))
            (ok_code, ended (loader_at file h good), o) =
          rw (stop_stream_at_end, x) refl in
        rw (sym same) (
          ended (loader_at file h good),
          ap (λ s. drain_from crc32 wal_id (suc n) (some s) r₀.records) step,
          sym t,
          sym c,
          sym g,
        )
  ]
