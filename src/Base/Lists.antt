-- ===== src/Base/Lists.antt =====
-- Lists measured and indexed by native numbers, under the library's names, and the predicate that
-- holds of every member.
use Prim.Native.Nat.{ℕ, zero, suc, ◌+◌}
use mathlib.Core.Path.{◌≡◌}
use mathlib.Core.List.{List, [], ◌∷◌, ◌++◌}
use mathlib.Core.Option
use mathlib.Core.Option.{Option, none, some}
use mathlib.Core.Bool.{Bool, true, false, ◌&&◌, ◌||◌}
use kvdb.Base.Tests.{if◌then◌else◌}
use native.Mathlib.Omega.{arith}

module _ {ℓ} {A : Type ℓ} where
  abbrev pub length : List A → ℕ
  length [] = 0
  length (x ∷ xs) = suc (length xs)

  abbrev pub get_elem? : List A → ℕ → Option A
  get_elem? [] i = none
  get_elem? (x ∷ xs) zero = some x
  get_elem? (x ∷ xs) (suc i) = get_elem? xs i

  abbrev pub set : List A → ℕ → A → List A
  set [] i v = []
  set (x ∷ xs) zero v = v ∷ xs
  set (x ∷ xs) (suc i) v = x ∷ set xs i v

  pub length-append : (xs ys : List A) → length (xs ++ ys) ≡ length xs + length ys
  length-append [] ys = omega arith
  length-append (x ∷ xs) ys = omega (arith, length-append xs ys)

  abbrev pub All {κ} : (A → Type κ) → List A → Type κ
  All P [] = Unit {κ}
  All P (x ∷ xs) = P x × All P xs

module _ {ℓ κ} {A : Type ℓ} where
  pub All-append : (P : A → Type κ) (xs ys : List A) → All P xs → All P ys → All P (xs ++ ys)
  All-append P [] ys h k = k
  All-append P (x ∷ xs) ys h k = (h.0, All-append P xs ys h.1 k)

  pub All-append_left : (P : A → Type κ) (xs ys : List A) → All P (xs ++ ys) → All P xs
  All-append_left P [] ys h = tt
  All-append_left P (x ∷ xs) ys h = (h.0, All-append_left P xs ys h.1)

  pub All-append_right : (P : A → Type κ) (xs ys : List A) → All P (xs ++ ys) → All P ys
  All-append_right P [] ys h = h
  All-append_right P (x ∷ xs) ys h = All-append_right P xs ys h.1

  pub All-imp {μ} :
      {P : A → Type κ} {Q : A → Type μ}
      → ((x : A) → P x → Q x)
      → (xs : List A) → All P xs
      → All Q xs
  All-imp f [] h = tt
  All-imp f (x ∷ xs) h = (f x h.0, All-imp f xs h.1)

module _ {ℓ} {A : Type ℓ} where
  abbrev pub filter : (A → Bool) → List A → List A
  filter p [] = []
  filter p (x ∷ xs) = let rest = filter p xs in if p x then x ∷ rest else rest

  -- `std::any_of` and `std::all_of`
  abbrev pub any : (A → Bool) → List A → Bool
  any p [] = false
  any p (x ∷ xs) = p x || any p xs

  abbrev pub all : (A → Bool) → List A → Bool
  all p [] = true
  all p (x ∷ xs) = p x && all p xs

  -- `std::find_if` and what it leaves on both sides.
  abbrev pub find_if : (A → Bool) → List A → Option (List A × A × List A)
  find_if p [] = none
  find_if p (x ∷ xs) =
      let rest = Option.map (λ (before, y, after). (x ∷ before, y, after)) (find_if p xs) in
      if p x then some ([], x, xs) else rest

  abbrev pub last : List A → Option A
  last [] = none
  last (x ∷ xs) = elim xs [ [] ↦ some x | y ∷ ys ↦ last xs ]

  abbrev pub head : List A → Option A
  head [] = none
  head (x ∷ xs) = some x

  abbrev pub erase_index : List A → ℕ → List A
  erase_index [] i = []
  erase_index (x ∷ xs) zero = xs
  erase_index (x ∷ xs) (suc i) = x ∷ erase_index xs i

module _ {ℓ κ} {A : Type ℓ} where
  -- Every element stands in `R` to those after it.
  abbrev pub Pairwise : (A → A → Type κ) → List A → Type κ
  Pairwise R [] = Unit {κ}
  Pairwise R (x ∷ xs) = All (R x) xs × Pairwise R xs

  pub Pairwise-append_left :
      (R : A → A → Type κ) (xs ys : List A) → Pairwise R (xs ++ ys) → Pairwise R xs
  Pairwise-append_left R [] ys h = tt
  Pairwise-append_left R (x ∷ xs) ys h =
      (All-append_left (R x) xs ys h.0, Pairwise-append_left R xs ys h.1)

  pub Pairwise-append_right :
      (R : A → A → Type κ) (xs ys : List A) → Pairwise R (xs ++ ys) → Pairwise R ys
  Pairwise-append_right R [] ys h = h
  Pairwise-append_right R (x ∷ xs) ys h = Pairwise-append_right R xs ys h.1

  pub All-insert :
      (P : A → Type κ) (xs : List A) (y : A) (ys : List A)
      → P y
      → All P (xs ++ ys)
      → All P (xs ++ (y ∷ ys))
  All-insert P [] y ys p h = (p, h)
  All-insert P (x ∷ xs) y ys p h = (h.0, All-insert P xs y ys p h.1)

  pub Pairwise-insert :
      (R : A → A → Type κ) (xs : List A) (y : A) (ys : List A)
      → Pairwise R (xs ++ ys)
      → All (λ x. R x y) xs
      → All (R y) ys
      → Pairwise R (xs ++ (y ∷ ys))
  Pairwise-insert R [] y ys h before after = (after, h)
  Pairwise-insert R (x ∷ xs) y ys h before after =
      (All-insert (R x) xs y ys before.0 h.0, Pairwise-insert R xs y ys h.1 before.1 after)

  pub All-remove :
      (P : A → Type κ) (xs : List A) (y : A) (ys : List A)
      → All P (xs ++ (y ∷ ys))
      → All P (xs ++ ys)
  All-remove P [] y ys h = h.1
  All-remove P (x ∷ xs) y ys h = (h.0, All-remove P xs y ys h.1)

  pub Pairwise-remove :
      (R : A → A → Type κ) (xs : List A) (y : A) (ys : List A)
      → Pairwise R (xs ++ (y ∷ ys))
      → Pairwise R (xs ++ ys)
  Pairwise-remove R [] y ys h = h.1
  Pairwise-remove R (x ∷ xs) y ys h = (All-remove (R x) xs y ys h.0, Pairwise-remove R xs y ys h.1)

  -- Two facts on every element give a third.
  pub All-both_imp {μ} :
      {P : A → Type κ} {Q : A → Type μ} {S : A → Type κ}
      → ((x : A) → P x → Q x → S x)
      → (xs : List A) → All P xs
      → All Q xs
      → All S xs
  All-both_imp f [] h k = tt
  All-both_imp f (x ∷ xs) h k = (f x h.0 k.0, All-both_imp f xs h.1 k.1)
