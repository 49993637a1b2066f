-- ===== src/Wal/Steps.antt =====
-- One round of the loop of `WALLoader::load` of src/core/engine/wal.cpp.
use kvdb.Base.{ℕ, suc, ◌≡◌, ◌⊎◌, inl, inr, refl, ap, List, length, Option, none, some}
use kvdb.Record.{InternalRecord}
use kvdb.Status.{StatusCode, Result, ok, fail}
use kvdb.Wal.Header.{WalFileHeader, load_file_header}
use kvdb.Wal.Fragment.{Fragment, load_fragment}
use kvdb.Wal.Assembler.{LogicalRecordAssembler, idle, Answer, consume}
use kvdb.Wal.Loader.{
  LoadResult, started, load, corrupted, with_record, stop_at, stop_at_end, load_loop,
}

-- The three kinds of answers.
pub found-cases {ℓ} :
    {A : Type ℓ} (x : Result (Option A × ℕ))
    → ((code : StatusCode) × (x ≡ fail code))
      ⊎ (((o : ℕ) × (x ≡ ok (none, o))) ⊎ ((a : A) × (o : ℕ) × (x ≡ ok (some a, o))))
found-cases (fail code) = inl (code, refl)
found-cases (ok (none, o)) = inr (inl (o, refl))
found-cases (ok (some a, o)) = inr (inr (a, o, refl))

pub answer-cases :
    (x : Answer)
    → ((a : LogicalRecordAssembler) × (code : StatusCode) × (x ≡ (a, fail code)))
      ⊎ (((a : LogicalRecordAssembler) × (x ≡ (a, ok none)))
          ⊎ ((a : LogicalRecordAssembler) × (r : InternalRecord) × (x ≡ (a, ok (some r)))))
answer-cases (a, fail code) = inl (a, code, refl)
answer-cases (a, ok none) = inr (inl (a, refl))
answer-cases (a, ok (some r)) = inr (inr (a, r, refl))

-- The load of a file whose header is right.
pub load-header :
    (crc32 : ℕ → List ℕ → ℕ) (file : List ℕ) (expected_wal_id o o' : ℕ) (h : WalFileHeader)
    → load_file_header crc32 file expected_wal_id o ≡ ok (some h, o')
    → load crc32 file expected_wal_id o
      ≡ load_loop crc32 file (suc (length file)) o' idle o' (started h)
unfolding load
load-header crc32 file expected_wal_id o o' h e = rw (load, e) refl

module _ (crc32 : ℕ → List ℕ → ℕ) (file : List ℕ) (fuel o : ℕ) (a : LogicalRecordAssembler)
    (good : ℕ) (result : LoadResult) where
  pub load_loop-fail :
      (code : StatusCode)
      → load_fragment crc32 file o ≡ fail code
      → load_loop crc32 file (suc fuel) o a good result ≡ some (stop_at code good result)
  unfolding load_loop
  load_loop-fail code e = rw (load_loop, e) refl

  pub load_loop-end :
      (o' : ℕ)
      → load_fragment crc32 file o ≡ ok (none, o')
      → load_loop crc32 file (suc fuel) o a good result ≡ some (stop_at_end a o' good result)
  unfolding load_loop
  load_loop-end o' e = rw (load_loop, e) refl

  module _ (f : Fragment) (o' : ℕ) (found : load_fragment crc32 file o ≡ ok (some f, o'))
      (a' : LogicalRecordAssembler) where
    pub load_loop-rejected :
        (code : StatusCode)
        → consume f a ≡ (a', fail code)
        → load_loop crc32 file (suc fuel) o a good result ≡ some (ok (corrupted result), good)
    unfolding load_loop
    load_loop-rejected code e = rw (load_loop, found, e) refl

    pub load_loop-more :
        consume f a ≡ (a', ok none)
        → load_loop crc32 file (suc fuel) o a good result
          ≡ load_loop crc32 file fuel o' a' good result
    unfolding load_loop
    load_loop-more e =
        rw (load_loop, found, e) (ap (λ x. load_loop crc32 file fuel o' x.0 good result) e)

    pub load_loop-record :
        (r : InternalRecord)
        → consume f a ≡ (a', ok (some r))
        → load_loop crc32 file (suc fuel) o a good result
          ≡ load_loop crc32 file fuel o' a' o' (with_record r result)
    unfolding load_loop
    load_loop-record r e =
        rw (load_loop, found, e)
          (ap (λ x. load_loop crc32 file fuel o' x.0 o' (with_record r result)) e)
