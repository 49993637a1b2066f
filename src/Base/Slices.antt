-- ===== src/Base/Slices.antt =====
-- Prefixes, suffixes and runs of lists over the native numbers, under the library's names.
use Prim.Native.Nat.{ℕ, zero, suc, ◌+◌, ◌-◌, ◌≤◌, min}
use mathlib.Core.Path.{◌≡◌, refl, sym, ap, ◌∙◌}
use mathlib.Core.List.{List, [], ◌∷◌, ◌++◌}
use native.Mathlib.Omega.{arith}
use kvdb.Base.Lists.{length}

module _ {ℓ} {A : Type ℓ} where
  abbrev pub take : ℕ → List A → List A
  take zero xs = []
  take (suc n) [] = []
  take (suc n) (x ∷ xs) = x ∷ take n xs

  abbrev pub drop : ℕ → List A → List A
  drop zero xs = xs
  drop (suc n) [] = []
  drop (suc n) (x ∷ xs) = drop n xs

  abbrev pub replicate : ℕ → A → List A
  replicate zero x = []
  replicate (suc n) x = x ∷ replicate n x

  -- The `n` elements from index `i` on.
  abbrev pub slice : List A → ℕ → ℕ → List A
  slice xs i n = take n (drop i xs)

  pub length-replicate : (n : ℕ) (x : A) → length (replicate n x) ≡ n
  length-replicate zero x = refl
  length-replicate (suc n) x = omega (arith, length-replicate n x)

  pub length-take : (n : ℕ) (xs : List A) → length (take n xs) ≡ min n (length xs)
  length-take zero xs = omega arith
  length-take (suc n) [] = omega arith
  length-take (suc n) (x ∷ xs) = omega (arith, length-take n xs)

  pub length-drop : (n : ℕ) (xs : List A) → length (drop n xs) ≡ length xs - n
  length-drop zero xs = omega arith
  length-drop (suc n) [] = omega arith
  length-drop (suc n) (x ∷ xs) = omega (arith, length-drop n xs)

  pub take-drop : (n : ℕ) (xs : List A) → take n xs ++ drop n xs ≡ xs
  take-drop zero xs = refl
  take-drop (suc n) [] = refl
  take-drop (suc n) (x ∷ xs) = ap (λ ys. x ∷ ys) (take-drop n xs)

  pub drop-append : (xs ys : List A) (n : ℕ) → n ≡ length xs → drop n (xs ++ ys) ≡ ys
  drop-append [] ys zero h = refl
  drop-append [] ys (suc n) h = absurd (omega arith)
  drop-append (x ∷ xs) ys zero h = absurd (omega arith)
  drop-append (x ∷ xs) ys (suc n) h = drop-append xs ys n (omega arith)

  pub take-append : (xs ys : List A) (n : ℕ) → n ≡ length xs → take n (xs ++ ys) ≡ xs
  take-append [] ys zero h = refl
  take-append [] ys (suc n) h = absurd (omega arith)
  take-append (x ∷ xs) ys zero h = absurd (omega arith)
  take-append (x ∷ xs) ys (suc n) h = ap (λ zs. x ∷ zs) (take-append xs ys n (omega arith))

  pub take_all : (n : ℕ) (xs : List A) → length xs ≤ n → take n xs ≡ xs
  take_all zero [] h = refl
  take_all zero (x ∷ xs) h = absurd (omega arith)
  take_all (suc n) [] h = refl
  take_all (suc n) (x ∷ xs) h = ap (λ ys. x ∷ ys) (take_all n xs (omega arith))

  -- A part of a list is found where it stands.
  pub slice-append :
      (before part after : List A) (i n : ℕ)
      → i ≡ length before
      → n ≡ length part
      → slice (before ++ (part ++ after)) i n ≡ part
  slice-append before part after i n h k =
      ap (take n) (drop-append before (part ++ after) i h) ∙ take-append part after n k

  pub replicate-append : (m n : ℕ) (x : A) → replicate m x ++ replicate n x ≡ replicate (m + n) x
  replicate-append zero n x = let e : n ≡ zero + n = omega arith in ap (λ k. replicate k x) e
  replicate-append (suc m) n x =
      let e : suc (m + n) ≡ suc m + n = omega arith in
      ap (λ ys. x ∷ ys) (replicate-append m n x) ∙ ap (λ k. replicate k x) e

  pub drop-nil : (n : ℕ) → drop n [] ≡ []
  drop-nil zero = refl
  drop-nil (suc n) = refl

  pub drop-drop : (i j : ℕ) (xs : List A) → drop i (drop j xs) ≡ drop (j + i) xs
  drop-drop i zero xs = let e : i ≡ zero + i = omega arith in ap (λ n. drop n xs) e
  drop-drop i (suc j) [] = drop-nil i ∙ sym (drop-nil (suc j + i))
  drop-drop i (suc j) (x ∷ xs) =
      let e : suc (j + i) ≡ suc j + i = omega arith in
      drop-drop i j xs ∙ ap (λ n. drop n (x ∷ xs)) e

  pub slice-take : (m i n : ℕ) (xs : List A) → i + n ≤ m → slice (take m xs) i n ≡ slice xs i n
  slice-take m zero zero xs h = refl
  slice-take zero zero (suc n) xs h = absurd (omega arith)
  slice-take (suc m) zero (suc n) [] h = refl
  slice-take (suc m) zero (suc n) (x ∷ xs) h =
      ap (λ ys. x ∷ ys) (slice-take m zero n xs (omega arith))
  slice-take zero (suc i) n xs h = absurd (omega arith)
  slice-take (suc m) (suc i) n [] h = refl
  slice-take (suc m) (suc i) n (x ∷ xs) h = slice-take m i n xs (omega arith)

  -- A part of a part of a list.
  pub slice-slice :
      (xs : List A) (o m i n : ℕ) → i + n ≤ m → slice (slice xs o m) i n ≡ slice xs (o + i) n
  slice-slice xs o m i n h =
      slice-take m i n (drop o xs) h ∙ ap (λ ys. take n ys) (drop-drop i o xs)

  pub length-slice : (xs : List A) (o n : ℕ) → o + n ≤ length xs → length (slice xs o n) ≡ n
  length-slice xs o n h = omega (arith, length-take n (drop o xs), length-drop o xs)

  pub take-append_more :
      (xs ys : List A) (n : ℕ) → length xs ≤ n → take n (xs ++ ys) ≡ xs ++ take (n - length xs) ys
  take-append_more [] ys n h = let e : n ≡ n - 0 = omega arith in ap (λ m. take m ys) e
  take-append_more (x ∷ xs) ys zero h = absurd (omega arith)
  take-append_more (x ∷ xs) ys (suc n) h =
      let e : n - length xs ≡ suc n - length (x ∷ xs) = omega arith in
      ap (λ zs. x ∷ zs) (take-append_more xs ys n (omega arith) ∙ ap (λ m. xs ++ take m ys) e)
