-- ===== src/Wal/Recovery.antt =====
-- The loop of `WALLoader::load` of src/core/engine/wal.cpp on a log that a crash cut short.
use kvdb.Base.{
  ℕ, zero, suc, ◌+◌, ◌≤◌, ◌<◌, ◌≡◌, inl, inr, refl, sym, ◌∙◌, true, false, Bool-cases, List, [],
  ◌∷◌, ◌++◌, append_assoc, append-nil, length, take, length-take, Option, some, arith,
}
use kvdb.Record.{InternalRecord}
use kvdb.Status.{StatusCode, ok, unexpected_eof}
use kvdb.Wal.{is_recoverable_tail_error}
use kvdb.Wal.Fragment.{load_fragment}
use kvdb.Wal.Assembler.{LogicalRecordAssembler, consume}
use kvdb.Wal.Loader.{LoadResult, Loaded, torn_tail, with_record, stop_at, stop_at_end, load_loop}
use kvdb.Wal.Whole.{IsShort}
use kvdb.Wal.Cut.{load_fragment-take}
use kvdb.Wal.Progress.{load_fragment-found}
use kvdb.Wal.Steps.{
  found-cases, answer-cases, load_loop-fail, load_loop-end, load_loop-rejected, load_loop-more,
  load_loop-record,
}

-- The list goes on after `xs`.
abbrev pub IsPrefix {ℓ} : {A : Type ℓ} → List A → List A → Type ℓ
IsPrefix {A = A} xs ys = (rest : List A) × (xs ++ rest ≡ ys)

-- No corruption was met.
abbrev pub IsClean : LoadResult → Type 0
IsClean r = (r.good ≡ true) × (r.had_corruption ≡ false)

-- A load that ends well, with a beginning of the records `all`.
abbrev pub IsRecovered : Option Loaded → List InternalRecord → Type 0
IsRecovered l all =
    (r : LoadResult) × (end : ℕ) × (l ≡ some (ok r, end)) × IsPrefix r.records all × IsClean r

pub IsPrefix-left :
    (xs : List InternalRecord) (x : InternalRecord) (ys : List InternalRecord)
    → IsPrefix (xs ++ (x ∷ [])) ys
    → IsPrefix xs ys
IsPrefix-left xs x ys (rest, e) = (x ∷ rest, sym (append_assoc xs (x ∷ []) rest) ∙ e)

pub stop_at-records :
    (code : StatusCode) (good : ℕ) (r₀ r : LoadResult) (end : ℕ)
    → Path Loaded (stop_at code good r₀) (ok r, end)
    → r.records ≡ r₀.records
unfolding stop_at
stop_at-records code good r₀ r end e = ground arith

pub stop_at_end-records :
    (a : LogicalRecordAssembler) (o good : ℕ) (r₀ r : LoadResult) (end : ℕ)
    → Path Loaded (stop_at_end a o good r₀) (ok r, end)
    → r.records ≡ r₀.records
unfolding stop_at_end
stop_at_end-records a o good r₀ r end e = ground arith

pub stop_at_end-IsRecovered :
    (a : LogicalRecordAssembler) (o good : ℕ) (r : LoadResult) (all : List InternalRecord)
    → IsClean r
    → IsPrefix r.records all
    → IsRecovered (some (stop_at_end a o good r)) all
unfolding stop_at_end
stop_at_end-IsRecovered a o good r all clean p = elim (Bool-cases a.active) [
  | inl e ↦ (torn_tail r, good, rw (e) refl, p, clean)
  | inr e ↦ (r, o, rw (e) refl, p, clean)
]

module _ (crc32 : ℕ → List ℕ → ℕ) where
  -- The loop only adds records.
  pub load_loop-IsPrefix :
      (file : List ℕ) (fuel o : ℕ) (a : LogicalRecordAssembler) (good : ℕ) (r₀ r : LoadResult)
      (end : ℕ)
      → load_loop crc32 file fuel o a good r₀ ≡ some (ok r, end)
      → IsPrefix r₀.records r.records
  unfolding load_loop
  load_loop-IsPrefix file zero o a good r₀ r end e = ground arith
  load_loop-IsPrefix file (suc fuel) o a good r₀ r end e =
      elim (found-cases (load_fragment crc32 file o)) [
        | inl (code, x) ↦
            let stop = sym (load_loop-fail crc32 file fuel o a good r₀ code x) ∙ e in
            let same : r.records ≡ r₀.records = stop_at-records code good r₀ r end (ground arith) in
            ([], append-nil r₀.records ∙ sym same)
        | inr (inl (o', x)) ↦
            let stop = sym (load_loop-end crc32 file fuel o a good r₀ o' x) ∙ e in
            let same : r.records ≡ r₀.records =
              stop_at_end-records a o' good r₀ r end (ground arith) in
            ([], append-nil r₀.records ∙ sym same)
        | inr (inr (f, o', x)) ↦ elim (answer-cases (consume f a)) [
          | inl (a', code, c) ↦
              let stop =
                sym (load_loop-rejected crc32 file fuel o a good r₀ f o' x a' code c) ∙ e in
              let same : r.records ≡ r₀.records = ground arith in
              ([], append-nil r₀.records ∙ sym same)
          | inr (inl (a', c)) ↦
              load_loop-IsPrefix file fuel o' a' good r₀ r end
                (sym (load_loop-more crc32 file fuel o a good r₀ f o' x a' c) ∙ e)
          | inr (inr (a', new, c)) ↦ IsPrefix-left r₀.records new r.records (
              load_loop-IsPrefix file fuel o' a' o' (with_record new r₀) r end
                (sym (load_loop-record crc32 file fuel o a good r₀ f o' x a' new c) ∙ e))
        ]
      ]

  -- A log that loads well loads well when it is cut, up to a point in its records.
  pub load_loop-take :
      (file : List ℕ) (n fuel fuel' o : ℕ) (a : LogicalRecordAssembler) (good : ℕ)
      (r₀ r : LoadResult) (end : ℕ)
      → IsShort file
      → n ≤ length file
      → o ≤ n
      → 0 < fuel'
      → n < fuel' + o
      → IsClean r₀
      → load_loop crc32 file fuel o a good r₀ ≡ some (ok r, end)
      → IsClean r
      → IsRecovered (load_loop crc32 (take n file) fuel' o a good r₀) r.records
  unfolding load_loop stop_at is_recoverable_tail_error
  load_loop-take file n zero fuel' o a good r₀ r end short h k l m c₀ e c = absurd (ground arith)
  load_loop-take file n (suc fuel) zero o a good r₀ r end short h k l m c₀ e c =
      absurd (omega arith)
  load_loop-take file n (suc fuel) (suc fuel') o a good r₀ r end short h k l m c₀ e c =
      let cut = take n file in
      let short' : IsShort cut = omega (arith, length-take n file) in
      let p = load_loop-IsPrefix file (suc fuel) o a good r₀ r end e in
      let as_before : IsPrefix r.records r.records = ([], append-nil r.records) in
      elim (load_fragment-take crc32 file n o short h k) [
        | inr (inl x) ↦
            let s = load_loop-end crc32 cut fuel' o a good r₀ n x in
            rw (s) (stop_at_end-IsRecovered a n good r₀ r.records c₀ p)
        | inr (inr x) ↦
            let s = load_loop-fail crc32 cut fuel' o a good r₀ unexpected_eof x in
            (record (torn_tail r₀) { good = true }, good, s, p, (refl, c₀.1))
        | inl same ↦ elim (found-cases (load_fragment crc32 file o)) [
          | inl (code, x) ↦
              let s = load_loop-fail crc32 cut fuel' o a good r₀ code (same ∙ x) in
              let t = load_loop-fail crc32 file fuel o a good r₀ code x in
              (r, end, s ∙ sym t ∙ e, as_before, c)
          | inr (inl (o', x)) ↦
              let s = load_loop-end crc32 cut fuel' o a good r₀ o' (same ∙ x) in
              let t = load_loop-end crc32 file fuel o a good r₀ o' x in
              (r, end, s ∙ sym t ∙ e, as_before, c)
          | inr (inr (f, o', x)) ↦
              let x' = same ∙ x in
              let (_, _, later, inside) = load_fragment-found crc32 cut short' o f o' x' in
              let k' : o' ≤ n = omega (arith, length-take n file) in
              elim (answer-cases (consume f a)) [
                | inl (a', code, y) ↦
                    let s = load_loop-rejected crc32 cut fuel' o a good r₀ f o' x' a' code y in
                    let t = load_loop-rejected crc32 file fuel o a good r₀ f o' x a' code y in
                    (r, end, s ∙ sym t ∙ e, as_before, c)
                | inr (inl (a', y)) ↦
                    let s = load_loop-more crc32 cut fuel' o a good r₀ f o' x' a' y in
                    let t = load_loop-more crc32 file fuel o a good r₀ f o' x a' y in
                    rw (s) (
                      load_loop-take file n fuel fuel' o' a' good r₀ r end short h k' (omega arith)
                        (omega arith) c₀ (sym t ∙ e) c)
                | inr (inr (a', new, y)) ↦
                    let s = load_loop-record crc32 cut fuel' o a good r₀ f o' x' a' new y in
                    let t = load_loop-record crc32 file fuel o a good r₀ f o' x a' new y in
                    rw (s) (
                      load_loop-take file n fuel fuel' o' a' o' (with_record new r₀) r end short h
                        k' (omega arith) (omega arith) c₀ (sym t ∙ e) c)
              ]
        ]
      ]
