-- ===== src/Wal/Errors.antt =====
-- How `WALLoader::load` of src/core/engine/wal.cpp classifies what it cannot read.
use kvdb.Base.{
  ℕ, zero, suc, ◌+◌, ◌-◌, ◌%◌, ◌≤◌, ◌<◌, ◌≡◌, ◌≢◌, inl, inr, refl, sym, ap, ◌∙◌, Bool, true, ◌||◌,
  Bool-cases, leb, ltb, List, length, length-slice, Option, none, some, arith,
}
use kvdb.Status.{StatusCode, Result, ok, fail, unexpected_eof, invalid_payload_size}
use kvdb.Wal.{is_recoverable_tail_error, is_corruption_error}
use kvdb.Wal.Header.{WalFileHeader, load_file_header}
use kvdb.Wal.Fragment.{
  FragmentHeader, Fragment, check_header, fragment_checksum, check_fragment, load_rest,
  load_fragment,
}
use kvdb.Wal.Assembler.{LogicalRecordAssembler, idle, consume}
use kvdb.Wal.Loader.{
  LoadResult, started, torn_tail, corrupted, with_record, stop_at, stop_at_end, load_loop, load,
}
use kvdb.Wal.Rounds.{start_of}
use kvdb.Wal.Whole.{
  IsShort, IsGoodHeader, header_at, end_at, fragment_at, check_header-cases, load_fragment-whole,
  load_fragment-end, load_fragment-no_header, load_fragment-no_payload,
}
use kvdb.Wal.Cut.{load_rest-no_room, load_fragment-good_header, load_fragment-bad_header}
use kvdb.Wal.Progress.{load_fragment-found}
use kvdb.Wal.Steps.{
  load-header, found-cases, answer-cases, load_loop-fail, load_loop-end, load_loop-rejected,
  load_loop-more, load_loop-record,
}

-- A torn tail or a corruption.
unfoldable pub is_classified : StatusCode → Bool
is_classified code = is_recoverable_tail_error code || is_corruption_error code

pub check_header-is_classified :
    (x : FragmentHeader × ℕ) (code : StatusCode)
    → check_header x ≡ fail code
    → is_classified code ≡ true
unfolding check_header is_classified is_recoverable_tail_error is_corruption_error
check_header-is_classified (h, o) code e = ground arith

module _ (crc32 : ℕ → List ℕ → ℕ) where
  -- The checksum of a fragment with a good header and its whole payload is computed.
  pub check_fragment-is_classified :
      (f : Fragment) (o o' : ℕ) (code : StatusCode)
      → check_header (f.header, o) ≡ ok (f.header, o)
      → f.header.fragment_size ≡ length f.payload
      → check_fragment crc32 f o' ≡ fail code
      → is_classified code ≡ true
  unfolding check_fragment fragment_checksum check_header is_classified is_recoverable_tail_error
      is_corruption_error
  check_fragment-is_classified f o o' code good counted e = ground arith

  module _ (file : List ℕ) (short : IsShort file) where
    code-of :
        (x : Result (Option Fragment × ℕ)) (c code : StatusCode)
        → x ≡ fail c
        → x ≡ fail code
        → is_classified c ≡ true
        → is_classified code ≡ true
    code-of x c code e e' h =
        let same : Path (Result (Option Fragment × ℕ)) (fail c) (fail code) = sym e ∙ e' in
        let codes : c ≡ code = ground arith in ap is_classified (sym codes) ∙ h

    load_rest-is_classified :
        (o : ℕ) (code : StatusCode)
        → start_of o + 22 ≤ length file
        → check_header (header_at file o, start_of o + 22) ≡ ok (header_at file o, start_of o + 22)
        → load_fragment crc32 file o ≡ fail code
        → is_classified code ≡ true
    unfolding is_classified is_recoverable_tail_error is_corruption_error
    load_rest-is_classified o code inside good e =
        let at = start_of o + 22 in
        let size = (header_at file o).fragment_size in
        elim (Bool-cases (ltb (4096 - at % 4096) size)) [
          | inl t ↦
              code-of (load_fragment crc32 file o) invalid_payload_size code
                (load_fragment-good_header crc32 file o short inside good
                  ∙ load_rest-no_room crc32 file o (ground arith))
                e refl
          | inr t ↦
              let is_good : IsGoodHeader file o = record { checked = good; room = ground arith } in
              elim (Bool-cases (ltb (length file) (end_at file o))) [
                | inl u ↦
                    code-of (load_fragment crc32 file o) unexpected_eof code
                      (load_fragment-no_payload crc32 file o short is_good inside (ground arith)) e
                      refl
                | inr u ↦
                    let whole : end_at file o ≤ length file = ground arith in
                    check_fragment-is_classified (fragment_at file o) at (end_at file o) code good
                      (sym (length-slice file at size whole))
                      (sym (load_fragment-whole crc32 file o short is_good whole) ∙ e)
              ]
        ]

    -- A fragment that does not load is a torn tail or a corruption.
    pub load_fragment-is_classified :
        (o : ℕ) (code : StatusCode)
        → o ≤ length file
        → load_fragment crc32 file o ≡ fail code
        → is_classified code ≡ true
    unfolding is_classified is_recoverable_tail_error is_corruption_error
    load_fragment-is_classified o code h e =
        let start = start_of o in
        elim (Bool-cases (leb (length file) start)) [
          | inl t ↦
              let ended = sym (load_fragment-end crc32 file o short h (ground arith)) ∙ e in
              absurd (ground arith)
          | inr t ↦ elim (Bool-cases (ltb (length file) (start + 22))) [
            | inl u ↦
                code-of (load_fragment crc32 file o) unexpected_eof code
                  (load_fragment-no_header crc32 file o short h (ground arith) (ground arith)) e
                  refl
            | inr u ↦
                let inside : start + 22 ≤ length file = ground arith in
                elim (check_header-cases (header_at file o, start + 22)) [
                  | inl good ↦ load_rest-is_classified o code inside good e
                  | inr (c, bad) ↦
                      code-of (load_fragment crc32 file o) c code
                        (load_fragment-bad_header crc32 file o c short inside bad) e
                        (check_header-is_classified (header_at file o, start + 22) c bad)
                ]
          ]
        ]

    load_rest-found : (h : FragmentHeader) (at o' : ℕ) → load_rest crc32 file h at ≢ ok (none, o')
    unfolding load_rest check_fragment
    load_rest-found h at o' e = ground arith

    -- Only the end of the file gives no fragment.
    pub load_fragment-none :
        (o o' : ℕ) → o ≤ length file → load_fragment crc32 file o ≡ ok (none, o') → o' ≡ length file
    load_fragment-none o o' h e =
        let start = start_of o in
        elim (Bool-cases (leb (length file) start)) [
          | inl t ↦
              let ended = sym (load_fragment-end crc32 file o short h (ground arith)) ∙ e in
              ground arith
          | inr t ↦ elim (Bool-cases (ltb (length file) (start + 22))) [
            | inl u ↦
                let short_file =
                  sym (load_fragment-no_header crc32 file o short h (ground arith) (ground arith))
                  ∙ e in
                absurd (ground arith)
            | inr u ↦
                let inside : start + 22 ≤ length file = ground arith in
                elim (check_header-cases (header_at file o, start + 22)) [
                  | inl good ↦ absurd (
                      load_rest-found (header_at file o) (start + 22) o'
                        (sym (load_fragment-good_header crc32 file o short inside good) ∙ e))
                  | inr (c, bad) ↦
                      let stopped =
                        sym (load_fragment-bad_header crc32 file o c short inside bad) ∙ e in
                      absurd (ground arith)
                ]
          ]
        ]

    pub stop_at-is_classified :
        (code : StatusCode) (good : ℕ) (result : LoadResult)
        → is_classified code ≡ true
        → (r : LoadResult) × (stop_at code good result ≡ (ok r, good))
    unfolding stop_at is_classified
    stop_at-is_classified code good result h = elim (Bool-cases (is_recoverable_tail_error code)) [
      | inl e ↦ (record (torn_tail result) { good = true }, rw (e) refl)
      | inr e ↦
          let c : is_corruption_error code ≡ true = ground arith in
          (corrupted result, rw (e, c) refl)
    ]

    pub load_loop-ok :
        (fuel o : ℕ) (a : LogicalRecordAssembler) (good : ℕ) (result : LoadResult)
        → o ≤ length file
        → good ≤ o
        → length file < fuel + o
        → (r : LoadResult) × (end : ℕ) × (load_loop crc32 file fuel o a good result
            ≡ some (ok r, end))
          × (end ≤ length file)
    unfolding stop_at_end
    load_loop-ok zero o a good result h g k = absurd (omega arith)
    load_loop-ok (suc fuel) o a good result h g k =
        elim (found-cases (load_fragment crc32 file o)) [
          | inl (code, e) ↦
              let (r, s) =
                stop_at-is_classified code good result (load_fragment-is_classified o code h e) in
              (
                r,
                good,
                load_loop-fail crc32 file fuel o a good result code e ∙ ap some s,
                omega arith,
              )
          | inr (inl (o', e)) ↦
              let ended = load_fragment-none o o' h e in
              let s = load_loop-end crc32 file fuel o a good result o' e in
              elim (Bool-cases a.active) [
                | inl t ↦ (torn_tail result, good, s ∙ rw (t) refl, omega arith)
                | inr t ↦ (result, o', s ∙ rw (t) refl, omega arith)
              ]
          | inr (inr (f, o', e)) ↦
              let (_, _, later, inside) = load_fragment-found crc32 file short o f o' e in
              elim (answer-cases (consume f a)) [
                | inl (a', code, c) ↦ (
                  corrupted result,
                  good,
                  load_loop-rejected crc32 file fuel o a good result f o' e a' code c,
                  omega arith,
                )
                | inr (inl (a', c)) ↦
                    let (r, end, t, i) =
                      load_loop-ok fuel o' a' good result inside (omega arith) (omega arith) in
                    (r, end, load_loop-more crc32 file fuel o a good result f o' e a' c ∙ t, i)
                | inr (inr (a', new, c)) ↦
                    let (r, end, t, i) =
                      load_loop-ok fuel o' a' o' (with_record new result) inside (omega arith)
                        (omega arith) in
                    (
                      r,
                      end,
                      load_loop-record crc32 file fuel o a good result f o' e a' new c ∙ t,
                      i,
                    )
              ]
        ]

    -- The recovery of a file of less than 2⁶³ bytes whose header loads succeeds, whatever bytes follow the
    -- header: what it cannot read is reported in the result. The offset that it leaves is in the file.
    pub load-ok :
        (expected_wal_id offset o : ℕ) (h : WalFileHeader)
        → load_file_header crc32 file expected_wal_id offset ≡ ok (some h, o)
        → o ≤ length file
        → (r : LoadResult) × (end : ℕ) × (load crc32 file expected_wal_id offset ≡ some (ok r, end))
          × (end ≤ length file)
    load-ok expected_wal_id offset o h e k =
        let (r, end, t, i) =
          load_loop-ok (suc (length file)) o idle o (started h) k (omega arith) (omega arith) in
        (r, end, load-header crc32 file expected_wal_id offset o h e ∙ t, i)
