-- ===== src/BlockIo/ShortReads.antt =====
-- `ReadableFile::read_exact_at` of src/abstractions/file.cpp: the loop over calls of `read_at`, each of
-- which may give fewer bytes than it was asked for.
use kvdb.Base.{
  ℕ, zero, suc, ◌+◌, ◌-◌, ◌≤◌, ◌<◌, ◌≡◌, ◌⊎◌, inl, inr, refl, sym, ap, ◌∙◌, true, false, not, ◌&&◌,
  Bool-cases, ltb, ◌==◌, if◌then◌else◌, List, [], ◌∷◌, ◌++◌, length, take, drop, slice, drop-drop,
  arith,
}
use kvdb.Status.{Result, ok, fail, unexpected_eof}
use kvdb.BlockIo.{read_exact_at}

-- The loop. `given offset size` is how many bytes a call of `read_at` gives. Every round reads a byte at
-- least, so `size` rounds are enough.
unfoldable pub read_loop : (ℕ → ℕ → ℕ) → List ℕ → ℕ → ℕ → ℕ → ℕ → List ℕ → Result (List ℕ × ℕ)
read_loop given file zero offset size total_read out = ok (out, offset + total_read)
read_loop given file (suc fuel) offset size total_read out =
    let bytes_read = given (offset + total_read) (size - total_read) in
    let rest =
      read_loop given file fuel offset size (total_read + bytes_read)
        (out ++ slice file (offset + total_read) bytes_read) in
    if not (ltb total_read size)
    then ok (out, offset + total_read)
    else if bytes_read == 0
    then fail unexpected_eof
    else rest

-- `read_at` gives some of the bytes asked for, and none only at the end of the file.
pub record IsReadAt (given : ℕ → ℕ → ℕ) (file : List ℕ) : Type 0 where
  pub within : (offset size : ℕ) → given offset size ≤ size
  pub inside : (offset size : ℕ) → given offset size ≤ length file - offset
  pub some_bytes : (offset size : ℕ) → 0 < size → offset < length file → 0 < given offset size

take_nil : (n : ℕ) → take {A = ℕ} n [] ≡ []
take_nil zero = refl
take_nil (suc n) = refl

take-add : (m n : ℕ) (xs : List ℕ) → take m xs ++ take n (drop m xs) ≡ take (m + n) xs
take-add zero n xs = let e : n ≡ zero + n = omega arith in ap (λ k. take k xs) e
take-add (suc m) n [] = take_nil n ∙ sym (take_nil (suc m + n))
take-add (suc m) n (x ∷ xs) =
    let e : suc (m + n) ≡ suc m + n = omega arith in
    ap (λ ys. x ∷ ys) (take-add m n xs) ∙ ap (λ k. take k (x ∷ xs)) e

module _ (given : ℕ → ℕ → ℕ) (file : List ℕ) (reads : IsReadAt given file) (offset size : ℕ) where
  whole-read :
      (total_read : ℕ)
      → total_read ≡ size
      → (offset + total_read ≤ length file) ⊎ (total_read ≡ 0)
      → ok (slice file offset total_read, offset + total_read) ≡ read_exact_at file offset size
  unfolding read_exact_at
  whole-read total_read e i =
      let there : (not (size == 0) && ltb (length file) (offset + size)) ≡ false = elim i [
        | inl h ↦ ground arith
        | inr h ↦ ground arith
      ] in
      rw (read_exact_at, there) (ap (λ n. ok (slice file offset n, offset + n)) e)

  read_loop-slice :
      (fuel total_read : ℕ)
      → size ≤ fuel + total_read
      → total_read ≤ size
      → (offset + total_read ≤ length file) ⊎ (total_read ≡ 0)
      → read_loop given file fuel offset size total_read (slice file offset total_read)
        ≡ read_exact_at file offset size
  unfolding read_loop read_exact_at
  read_loop-slice zero total_read h k i = whole-read total_read (omega arith) i
  read_loop-slice (suc fuel) total_read h k i =
      let bytes_read = given (offset + total_read) (size - total_read) in
      let w = reads.within (offset + total_read) (size - total_read) in
      let v = reads.inside (offset + total_read) (size - total_read) in
      elim (Bool-cases (ltb total_read size)) [
        | inr t ↦ rw (read_loop, t) (whole-read total_read (ground arith) i)
        | inl t ↦ elim (Bool-cases (bytes_read == 0)) [
          | inl z ↦
              let none_given : bytes_read ≡ 0 = ground arith in
              let past : length file ≤ offset + total_read =
                elim (Bool-cases (ltb (offset + total_read) (length file))) [
                  | inl u ↦
                      let some =
                        reads.some_bytes (offset + total_read) (size - total_read) (ground arith)
                          (ground arith) in
                      absurd (omega arith)
                  | inr u ↦ ground arith
                ] in
              let gone : (not (size == 0) && ltb (length file) (offset + size)) ≡ true =
                ground arith in
              rw (read_loop, t, z, read_exact_at, gone) refl
          | inr z ↦
              let some_given : 0 < bytes_read = ground arith in
              let joined : slice file offset total_read
                    ++ slice file (offset + total_read) bytes_read
                  ≡ slice file offset (total_read + bytes_read) =
                ap (λ ys. take total_read (drop offset file) ++ take bytes_read ys)
                  (sym (drop-drop total_read offset file))
                ∙ take-add total_read bytes_read (drop offset file) in
              rw (read_loop, t, z, joined)
                (read_loop-slice fuel (total_read + bytes_read) (omega arith) (omega arith)
                  (inl (omega arith)))
        ]
      ]

  -- If every call of `read_at` gives some of the bytes asked for, and none only at the end of the file,
  -- then the loop gives what one read of all the bytes gives, short reads or not: the bytes and the
  -- offset after them, or an unexpected end of the file.
  pub read_loop-read_exact_at :
      read_loop given file size offset size 0 [] ≡ read_exact_at file offset size
  read_loop-read_exact_at = read_loop-slice size 0 (omega arith) (omega arith) (inr refl)
