-- ===== src/Search.antt =====
-- `std::lower_bound`: the binary search of the standard library, and what it finds in a range that
-- its test partitions.
use kvdb.Base.{
  ℕ, zero, suc, ◌+◌, ◌-◌, ◌/◌, ◌≤◌, ◌<◌, ◌≡◌, refl, ap, ◌∙◌, Bool, true, false, ◌⊎◌, inl, inr,
  Option, none, some, List, [], ◌∷◌, ◌++◌, arith, length, get_elem?, All, Bool-cases, ◌==◌,
  if◌then◌else◌,
}

compare_le : (a b : ℕ) → (a ≤ b) ⊎ (b < a)
compare_le a b = ground arith

module _ {ℓ} {A : Type ℓ} where
  abbrev pub split_at : ℕ → List A → List A × List A
  split_at zero xs = ([], xs)
  split_at (suc n) [] = ([], [])
  split_at (suc n) (x ∷ xs) = let (before, after) = split_at n xs in (x ∷ before, after)

  abbrev pub holds_at : (A → Bool) → Option A → Bool
  holds_at test none = false
  holds_at test (some x) = test x

  -- The rounds of the search on the `len` elements from `first`; every round makes `len` smaller.
  unfoldable pub bisect : ℕ → (A → Bool) → List A → ℕ → ℕ → ℕ
  bisect zero test xs first len = first
  bisect (suc fuel) test xs first len =
      let half = len / 2 in
      let middle = first + half in
      let goes_right = holds_at test (get_elem? xs middle) in
      let next_first = if goes_right then suc middle else first in
      let next_len = if goes_right then len - half - 1 else half in
      let rest = bisect fuel test xs next_first next_len in if len == 0 then first else rest

  -- The elements before the position found, and those from it on.
  unfoldable pub lower_bound : (A → Bool) → List A → List A × List A
  lower_bound test xs = split_at (bisect (length xs) test xs 0 (length xs)) xs

  -- The same by a scan.
  abbrev pub span : (A → Bool) → List A → List A × List A
  span test [] = ([], [])
  span test (x ∷ xs) =
      let (before, after) = span test xs in if test x then (x ∷ before, after) else ([], x ∷ xs)

  -- Where the test has failed once, it fails to the end.
  abbrev pub IsPartitioned : (A → Bool) → List A → Type 0
  IsPartitioned test [] = Unit
  IsPartitioned test (x ∷ xs) =
      (test x ≡ false → All (λ y. test y ≡ false) xs) × IsPartitioned test xs

  boundary : (A → Bool) → List A → ℕ
  boundary test xs = length (span test xs).0

  before_boundary :
      (test : A → Bool) (xs : List A) (i : ℕ)
      → i < boundary test xs
      → holds_at test (get_elem? xs i) ≡ true
  unfolding boundary
  before_boundary test [] i h = ground arith
  before_boundary test (x ∷ xs) zero h = ground arith
  before_boundary test (x ∷ xs) (suc i) h = ground (arith, before_boundary test xs i)

  none_holds :
      (test : A → Bool) (xs : List A) (i : ℕ)
      → All (λ y. test y ≡ false) xs
      → holds_at test (get_elem? xs i) ≡ false
  none_holds test [] i h = refl
  none_holds test (x ∷ xs) zero h = h.0
  none_holds test (x ∷ xs) (suc i) h = none_holds test xs i h.1

  after_boundary :
      (test : A → Bool) (xs : List A) (i : ℕ)
      → IsPartitioned test xs
      → boundary test xs ≤ i
      → holds_at test (get_elem? xs i) ≡ false
  unfolding boundary
  after_boundary test [] i p h = refl
  after_boundary test (x ∷ xs) zero p h = ground arith
  after_boundary test (x ∷ xs) (suc i) p h = elim (Bool-cases (test x)) [
    | inl e ↦ ground (arith, after_boundary test xs i p.1)
    | inr e ↦ none_holds test xs i (p.0 e)
  ]

  -- With one round for each element of the range the search stops at the boundary.
  bisect-boundary :
      (fuel : ℕ) (test : A → Bool) (xs : List A) (first len : ℕ)
      → IsPartitioned test xs
      → len ≤ fuel
      → first ≤ boundary test xs
      → boundary test xs ≤ first + len
      → bisect fuel test xs first len ≡ boundary test xs
  unfolding bisect
  bisect-boundary zero test xs first len p f h k = omega arith
  bisect-boundary (suc fuel) test xs first len p f h k = elim (Bool-cases (len == 0)) [
    | inl z ↦ ground arith
    | inr z ↦ elim (Bool-cases (holds_at test (get_elem? xs (first + len / 2)))) [
      | inl e ↦
          let right : suc (first + len / 2) ≤ boundary test xs =
            (elim (compare_le (boundary test xs) (first + len / 2)) [
              | inl b ↦ absurd (cc (after_boundary test xs (first + len / 2) p b))
              | inr b ↦ omega (arith, b)
            ]) in
          rw (z, e)
            (bisect-boundary fuel test xs (suc (first + len / 2)) (len - len / 2 - 1) p
              (ground arith) (ground arith) (ground arith))
      | inr e ↦
          let left : boundary test xs ≤ first + len / 2 =
            (elim (compare_le (boundary test xs) (first + len / 2)) [
              | inl b ↦ b
              | inr b ↦ absurd (cc (before_boundary test xs (first + len / 2) b))
            ]) in
          rw (z, e) (bisect-boundary fuel test xs first (len / 2) p (ground arith) h left)
    ]
  ]

  split_at-boundary :
      (test : A → Bool) (xs : List A) → split_at (boundary test xs) xs ≡ span test xs
  unfolding boundary
  split_at-boundary test [] = refl
  split_at-boundary test (x ∷ xs) = ground (arith, split_at-boundary test xs)

  boundary_le_length : (test : A → Bool) (xs : List A) → boundary test xs ≤ length xs
  unfolding boundary
  boundary_le_length test [] = omega arith
  boundary_le_length test (x ∷ xs) = ground (arith, boundary_le_length test xs)

  -- On a range that its test partitions, the binary search finds what a scan finds.
  pub lower_bound-span :
      (test : A → Bool) (xs : List A) → IsPartitioned test xs → lower_bound test xs ≡ span test xs
  unfolding lower_bound
  lower_bound-span test xs p =
      ap (λ n. split_at n xs)
        (bisect-boundary (length xs) test xs 0 (length xs) p (omega arith) (omega arith)
          (omega (arith, boundary_le_length test xs)))
      ∙ split_at-boundary test xs

  pub span-append : (test : A → Bool) (xs : List A) → (span test xs).0 ++ (span test xs).1 ≡ xs
  span-append test [] = refl
  span-append test (x ∷ xs) = ground (arith, span-append test xs)

  pub span_before : (test : A → Bool) (xs : List A) → All (λ x. test x ≡ true) (span test xs).0
  span_before test [] = tt
  span_before test (x ∷ xs) = elim (Bool-cases (test x)) [
    | inl e ↦ rw e (e, span_before test xs)
    | inr e ↦ rw e tt
  ]

  pub span_after :
      (test : A → Bool) (xs : List A)
      → IsPartitioned test xs
      → All (λ x. test x ≡ false) (span test xs).1
  span_after test [] p = tt
  span_after test (x ∷ xs) p = elim (Bool-cases (test x)) [
    | inl e ↦ rw e (span_after test xs p.1)
    | inr e ↦ rw e (e, p.0 e)
  ]

  split_at-append : (n : ℕ) (xs : List A) → (split_at n xs).0 ++ (split_at n xs).1 ≡ xs
  split_at-append zero xs = refl
  split_at-append (suc n) [] = refl
  split_at-append (suc n) (x ∷ xs) = ap (λ ys. x ∷ ys) (split_at-append n xs)

  pub lower_bound-append :
      (test : A → Bool) (xs : List A) → (lower_bound test xs).0 ++ (lower_bound test xs).1 ≡ xs
  unfolding lower_bound
  lower_bound-append test xs = split_at-append (bisect (length xs) test xs 0 (length xs)) xs
