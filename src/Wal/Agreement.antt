-- ===== src/Wal/Agreement.antt =====
-- The loops of `WALStreamingLoader::load_next` and of `WALLoader::load` (src/core/engine/wal.cpp), side
-- by side.
use kvdb.Base.{
  ℕ, zero, suc, ◌+◌, ◌≤◌, ◌<◌, ◌≡◌, inl, inr, refl, sym, ap, ◌∙◌, true, false, List, length, none,
  some, arith,
}
use kvdb.Record.{InternalRecord}
use kvdb.Status.{StatusCode, ok_code, ok, fail}
use kvdb.Wal.Header.{WalFileHeader}
use kvdb.Wal.Fragment.{Fragment, load_fragment}
use kvdb.Wal.Assembler.{LogicalRecordAssembler, idle, consume}
use kvdb.Wal.Loader.{LoadResult, corrupted, with_record, load_loop}
use kvdb.Wal.Whole.{IsShort}
use kvdb.Wal.Progress.{load_fragment-found}
use kvdb.Wal.Steps.{
  found-cases, answer-cases, load_loop-fail, load_loop-end, load_loop-rejected, load_loop-more,
  load_loop-record,
}
use kvdb.Wal.Streaming.{
  WalStreamingLoader, stop_stream, stop_stream_at_end, give_record, mark_corruption, stream_loop,
}
use kvdb.Wal.Drain.{
  IsProper, loader_at, consume-given, consume-kept, drain_from, Agrees, load_next-again, drain-stop,
  drain-end,
}

module _ (crc32 : ℕ → List ℕ → ℕ) (file : List ℕ) where
  module _ (fuel o : ℕ) (a : LogicalRecordAssembler) (l : WalStreamingLoader) where
    pub stream_loop-fail :
        (code : StatusCode)
        → load_fragment crc32 file o ≡ fail code
        → stream_loop crc32 file (suc fuel) o a l
          ≡ some (stop_stream code l.result.last_good_offset l)
    unfolding stream_loop
    stream_loop-fail code e = rw (stream_loop, e) refl

    pub stream_loop-end :
        (o' : ℕ)
        → load_fragment crc32 file o ≡ ok (none, o')
        → stream_loop crc32 file (suc fuel) o a l ≡ some (stop_stream_at_end a o' l)
    unfolding stream_loop
    stream_loop-end o' e = rw (stream_loop, e) refl

    module _ (f : Fragment) (o' : ℕ) (found : load_fragment crc32 file o ≡ ok (some f, o'))
        (a' : LogicalRecordAssembler) where
      pub stream_loop-rejected :
          (code : StatusCode)
          → consume f a ≡ (a', fail code)
          → stream_loop crc32 file (suc fuel) o a l
            ≡ some (ok_code, mark_corruption l, l.result.last_good_offset)
      unfolding stream_loop
      stream_loop-rejected code e = rw (stream_loop, found, e) refl

      pub stream_loop-more :
          consume f a ≡ (a', ok none)
          → stream_loop crc32 file (suc fuel) o a l ≡ stream_loop crc32 file fuel o' a' l
      unfolding stream_loop
      stream_loop-more e =
          rw (stream_loop, found, e) (ap (λ x. stream_loop crc32 file fuel o' x.0 l) e)

      pub stream_loop-record :
          (r : InternalRecord)
          → consume f a ≡ (a', ok (some r))
          → stream_loop crc32 file (suc fuel) o a l ≡ some (give_record r o' l)
      unfolding stream_loop
      stream_loop-record r e = rw (stream_loop, found, e) refl

  module _ (short : IsShort file) (wal_id : ℕ) (h : WalFileHeader) (named : h.wal_id ≡ wal_id) where
    -- From a place between two fragments on, both loads give the same.
    pub stream_loop-Agrees :
        (fuel fuel' n o : ℕ) (a : LogicalRecordAssembler) (good : ℕ) (r₀ r : LoadResult) (end : ℕ)
        → IsProper a
        → 0 < o
        → o ≤ length file
        → length file < fuel' + o
        → length file < n + o
        → r₀.good ≡ true
        → r₀.had_torn_tail ≡ false
        → r₀.had_corruption ≡ false
        → load_loop crc32 file fuel o a good r₀ ≡ some (ok r, end)
        → Agrees
            (drain_from crc32 wal_id n
              (stream_loop crc32 file fuel' o a (loader_at file h good))
              r₀.records)
            r
    unfolding load_loop drain_from
    stream_loop-Agrees zero fuel' n o a good r₀ r end p k i j m g t c e = absurd (ground arith)
    stream_loop-Agrees (suc fuel) zero n o a good r₀ r end p k i j m g t c e = absurd (omega arith)
    stream_loop-Agrees (suc fuel) (suc fuel') zero o a good r₀ r end p k i j m g t c e =
        absurd (omega arith)
    stream_loop-Agrees (suc fuel) (suc fuel') (suc n) o a good r₀ r end p k i j m g t c e =
        let l = loader_at file h good in
        elim (found-cases (load_fragment crc32 file o)) [
          | inl (code, x) ↦ rw (stream_loop-fail fuel' o a l code x) (
              drain-stop crc32 file wal_id code n good h r₀ r end g t c
                (sym (load_loop-fail crc32 file fuel o a good r₀ code x) ∙ e))
          | inr (inl (o', x)) ↦ rw (stream_loop-end fuel' o a l o' x) (
              drain-end crc32 file wal_id a n o' good h r₀ r end g t c
                (sym (load_loop-end crc32 file fuel o a good r₀ o' x) ∙ e))
          | inr (inr (f, o', x)) ↦
              let (_, _, later, inside) = load_fragment-found crc32 file short o f o' x in
              elim (answer-cases (consume f a)) [
                | inl (a', code, y) ↦
                    let stop =
                      sym (load_loop-rejected crc32 file fuel o a good r₀ f o' x a' code y) ∙ e in
                    let same : corrupted r₀ ≡ r = ground arith in
                    rw (stream_loop-rejected fuel' o a l f o' x a' code y, sym same)
                      (mark_corruption l, refl, sym t, refl, refl)
                | inr (inl (a', y)) ↦ rw (stream_loop-more fuel' o a l f o' x a' y) (
                    stream_loop-Agrees fuel fuel' (suc n) o' a' good r₀ r end
                      (inr (consume-kept f a a' y)) (omega arith) inside (omega arith) (omega arith)
                      g t c (sym (load_loop-more crc32 file fuel o a good r₀ f o' x a' y) ∙ e))
                | inr (inr (a', new, y)) ↦
                    let back : a' ≡ idle = consume-given f a a' new p y in
                    let next =
                      load_next-again crc32 file wal_id h new o' good named (omega arith) inside in
                    let rest =
                      ap (λ b. load_loop crc32 file fuel o' b o' (with_record new r₀)) (sym back)
                      ∙ sym (load_loop-record crc32 file fuel o a good r₀ f o' x a' new y)
                      ∙ e in
                    rw (stream_loop-record fuel' o a l f o' x a' new y, next)
                      (stream_loop-Agrees fuel (suc (length file)) n o' idle o' (with_record new r₀)
                        r end (inl refl) (omega arith) inside (omega arith) (omega arith) g t c
                        rest)
              ]
        ]
