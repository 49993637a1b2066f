-- ===== src/Wal/Stream.antt =====
-- A whole recovery by `WALStreamingLoader` of src/core/engine/wal.cpp, beside one by `WALLoader`.
use kvdb.Base.{
  ℕ, suc, ◌≤◌, ◌<◌, ◌≡◌, inl, inr, refl, sym, ◌∙◌, true, false, Bool-cases, leb, ltb, ◌==◌, List,
  [], length, slice, Option, some, arith,
}
use kvdb.Status.{ok_code, Result, ok, ◌>>=◌}
use kvdb.Wal.Header.{WalFileHeader, check_file_header, load_file_header}
use kvdb.BlockIo.Reads.{fit_input-room}
use kvdb.Wal.Assembler.{idle}
use kvdb.Wal.Loader.{LoadResult, started, load}
use kvdb.Wal.Whole.{IsShort}
use kvdb.Wal.Steps.{load-header, found-cases}
use kvdb.Wal.Opening.{parse_file_header, load_file_header-room}
use kvdb.Wal.Streaming.{
  WalStreamingLoader, new_result, new_loader, ready, open_loader, validate_header, validate_state,
  stream_loop, next_record, load_header_once, load_ready, load_next,
}
use kvdb.Wal.Drain.{loader_at, drain_from, Agrees}
use kvdb.Wal.Agreement.{stream_loop-Agrees}

-- The loader that `open` leaves.
abbrev pub opened_with : List ℕ → WalStreamingLoader
opened_with file = record { file = some file; result = new_result; state = ready }

pub open_loader-new :
    (file : List ℕ) → open_loader (ok file) new_loader ≡ (opened_with file, ok_code)
unfolding open_loader
open_loader-new file = refl

module _ (crc32 : ℕ → List ℕ → ℕ) (file : List ℕ) (wal_id : ℕ) where
  pub check_file_header-inv :
      (h h' : WalFileHeader) (o : ℕ)
      → Path
          (Result (Option WalFileHeader × ℕ))
          (check_file_header crc32 wal_id h >>= λ checked. ok (some checked, 40))
          (ok (some h', o))
      → (h'.wal_id ≡ wal_id) × (o ≡ 40)
  unfolding check_file_header
  check_file_header-inv h h' o e = ground arith

  pub load_file_header-inv :
      (h : WalFileHeader) (o : ℕ)
      → load_file_header crc32 file wal_id 0 ≡ ok (some h, o)
      → (h.wal_id ≡ wal_id) × (0 < o) × (o ≤ length file)
  unfolding load_file_header
  load_file_header-inv h o e = elim (Bool-cases (leb 40 (length file))) [
    | inl t ↦
        let long : 40 ≤ length file = ground arith in
        let (named, size) =
          check_file_header-inv (parse_file_header (slice file 0 40)) h o
            (sym (load_file_header-room crc32 file wal_id long) ∙ e) in
        (named, omega arith, omega arith)
    | inr t ↦
        let fit = fit_input-room 4096 file 0 (omega arith) 40 (omega arith) in
        absurd (ground (arith, fit))
  ]

  pub load_header_once-lem :
      (h : WalFileHeader) (o : ℕ)
      → h.wal_id ≡ wal_id
      → load_file_header crc32 file wal_id 0 ≡ ok (some h, o)
      → load_header_once crc32 file 0 wal_id (opened_with file)
        ≡ stream_loop crc32 file (suc (length file)) o idle (loader_at file h o)
  unfolding load_header_once next_record
  load_header_once-lem h o named e =
      let t₂ : (h.wal_id == wal_id) ≡ true = ground arith in rw (load_header_once, e, t₂) refl

  -- The first call loads the header and goes on reading.
  pub load_next-first :
      (h : WalFileHeader) (o : ℕ)
      → h.wal_id ≡ wal_id
      → load_file_header crc32 file wal_id 0 ≡ ok (some h, o)
      → load_next crc32 (opened_with file) 0 wal_id
        ≡ stream_loop crc32 file (suc (length file)) o idle (loader_at file h o)
  unfolding load_next load_ready validate_state validate_header
  load_next-first h o named e =
      let t₁ : ltb (length file) 0 ≡ false = ground arith in
      rw (load_next, t₁) (load_header_once-lem h o named e)

  -- Calling `load_next` on a freshly opened loader until it gives no record gives the records of the
  -- batch load and reports the same, if the batch load succeeds and the file is shorter than 2⁶³ bytes.
  pub drain-load :
      (short : IsShort file) (r : LoadResult) (end : ℕ)
      → load crc32 file wal_id 0 ≡ some (ok r, end)
      → Agrees
          (drain_from crc32 wal_id
            (suc (length file))
            (load_next crc32 (opened_with file) 0 wal_id)
            [])
          r
  unfolding load
  drain-load short r end e = elim (found-cases (load_file_header crc32 file wal_id 0)) [
    | inl (code, x) ↦ absurd (ground arith)
    | inr (inl (o, x)) ↦ absurd (ground arith)
    | inr (inr (h, o, x)) ↦
        let (named, positive, inside) = load_file_header-inv h o x in
        rw (load_next-first h o named x) (
          stream_loop-Agrees crc32 file short wal_id h named (suc (length file)) (suc (length file))
            (suc (length file)) o idle o (started h) r end (inl refl) positive inside (omega arith)
            (omega arith) refl refl refl (sym (load-header crc32 file wal_id 0 o h x) ∙ e))
  ]
