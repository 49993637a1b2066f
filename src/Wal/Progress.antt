-- ===== src/Wal/Progress.antt =====
-- The loop of `WALLoader::load` of src/core/engine/wal.cpp ends on every file.
use kvdb.Base.{
  ℕ, zero, suc, ◌+◌, ◌≤◌, ◌<◌, ◌≡◌, inl, inr, refl, sym, ◌∙◌, List, length, some, arith,
}
use kvdb.Status.{unexpected_eof, ok, fail}
use kvdb.Wal.Header.{load_file_header}
use kvdb.Wal.Fragment.{Fragment, check_fragment, load_fragment}
use kvdb.Wal.Assembler.{LogicalRecordAssembler, idle, consume}
use kvdb.Wal.Loader.{
  LoadResult, Loaded, started, corrupted, with_record, stop_at, stop_at_end, load_loop, load,
}
use kvdb.Wal.Rounds.{start_of}
use kvdb.Wal.Whole.{IsShort, fragment_at, end_at, load_fragment-inv, load_fragment-whole}
use kvdb.Wal.Steps.{
  load-header, found-cases, answer-cases, load_loop-fail, load_loop-end, load_loop-rejected,
  load_loop-more, load_loop-record,
}

module _ (crc32 : ℕ → List ℕ → ℕ) where
  pub check_fragment-inv :
      (f₁ f : Fragment) (o o' : ℕ)
      → check_fragment crc32 f₁ o ≡ ok (some f, o')
      → (f ≡ f₁) × (o' ≡ o)
  unfolding check_fragment
  check_fragment-inv f₁ f o o' e = ground arith

  module _ (file : List ℕ) (short : IsShort file) where
    -- A fragment is found where it stands, and the offset moves past it.
    pub load_fragment-found :
        (o : ℕ) (f : Fragment) (o' : ℕ)
        → load_fragment crc32 file o ≡ ok (some f, o')
        → (f ≡ fragment_at file o) × (o' ≡ end_at file o) × (o < o') × (o' ≤ length file)
    load_fragment-found o f o' e =
        let (good, whole) = load_fragment-inv crc32 file o short f o' e in
        let (same, end) =
          check_fragment-inv (fragment_at file o) f (end_at file o) o'
            (sym (load_fragment-whole crc32 file o short good whole) ∙ e) in
        let later : o ≤ start_of o = ground arith in (same, end, omega arith, omega arith)

    pub load_loop-total :
        (fuel o : ℕ) (a : LogicalRecordAssembler) (good : ℕ) (result : LoadResult)
        → 0 < fuel
        → length file < fuel + o
        → (l : Loaded) × (load_loop crc32 file fuel o a good result ≡ some l)
    load_loop-total zero o a good result h k = absurd (omega arith)
    load_loop-total (suc fuel) o a good result h k =
        elim (found-cases (load_fragment crc32 file o)) [
          | inl (code, e) ↦
              (stop_at code good result, load_loop-fail crc32 file fuel o a good result code e)
          | inr (inl (o', e)) ↦
              (stop_at_end a o' good result, load_loop-end crc32 file fuel o a good result o' e)
          | inr (inr (f, o', e)) ↦
              let (_, _, later, inside) = load_fragment-found o f o' e in
              elim (answer-cases (consume f a)) [
                | inl (a', code, c) ↦ (
                  (ok (corrupted result), good),
                  load_loop-rejected crc32 file fuel o a good result f o' e a' code c,
                )
                | inr (inl (a', c)) ↦
                    let (l, t) =
                      load_loop-total fuel o' a' good result (omega arith) (omega arith) in
                    (l, load_loop-more crc32 file fuel o a good result f o' e a' c ∙ t)
                | inr (inr (a', r, c)) ↦
                    let (l, t) =
                      load_loop-total fuel o' a' o' (with_record r result) (omega arith)
                        (omega arith) in
                    (l, load_loop-record crc32 file fuel o a good result f o' e a' r c ∙ t)
              ]
        ]

    -- The recovery of a file of less than 2⁶³ bytes, whatever they are, ends with an answer.
    pub load-total :
        (expected_wal_id offset : ℕ)
        → (l : Loaded) × (load crc32 file expected_wal_id offset ≡ some l)
    unfolding load
    load-total expected_wal_id offset =
        elim (found-cases (load_file_header crc32 file expected_wal_id offset)) [
          | inl (code, e) ↦ ((fail code, offset), rw (load, e) refl)
          | inr (inl (o, e)) ↦ ((fail unexpected_eof, o), rw (load, e) refl)
          | inr (inr (h, o, e)) ↦
              let (l, t) =
                load_loop-total (suc (length file)) o idle o (started h) (omega arith)
                  (omega arith) in
              (l, load-header crc32 file expected_wal_id offset o h e ∙ t)
        ]
