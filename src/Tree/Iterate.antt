-- ===== src/Tree/Iterate.antt =====
-- The iterator with its stack visits the records in order, and the ordering check that runs on it
-- decides that the tree is sorted.
use kvdb.Base.{
  ℕ, zero, suc, ◌≤◌, ◌≡◌, ◌↔◌, refl, sym, ap, ◌∙◌, Bool, true, false, not, Option, none, some, List,
  [], ◌∷◌, ◌++◌, append_assoc, append-nil, length, length-append, arith, All, All-imp,
  if◌then◌else◌,
}
use kvdb.Record.{InternalRecord, node_lt}
use kvdb.Record.Order.{◌≺◌, node_lt_trans}
use kvdb.Record.Versions.{IsSorted}
use kvdb.Tree.{
  Tree, nil, node, inorder, push_left, next, size, dump_loop, dump_inorder, ordering_loop,
  bst_ordering_correct,
}

-- Each record comes after the one before it.
abbrev adjacent : Option InternalRecord → List InternalRecord → Bool
adjacent prev [] = true
adjacent prev (x ∷ xs) =
    let others = adjacent (some x) xs in
    elim prev [ none ↦ others | some p ↦ if not (node_lt p x) then false else others ]

module _ {E : Type 0} where
  -- What the iterator has still to visit.
  abbrev pending : List (Tree E) → List InternalRecord
  pending [] = []
  pending (nil ∷ st) = []
  pending (node e x l r ∷ st) = x ∷ (inorder r ++ pending st)

  pending-push_left :
      (t : Tree E) (st : List (Tree E)) → pending (push_left t st) ≡ inorder t ++ pending st
  unfolding push_left
  pending-push_left nil st = refl
  pending-push_left (node e x l r) st =
      pending-push_left l (node e x l r ∷ st) ∙ sym (append_assoc (inorder l) _ _)

  size-eq-length : (t : Tree E) → size t ≡ length (inorder t)
  size-eq-length nil = refl
  size-eq-length (node e x l r) =
      omega (arith, size-eq-length l, size-eq-length r, length-append (inorder l) (x ∷ inorder r))

  dump_loop-pending :
      (fuel : ℕ) (st : List (Tree E)) (out : List InternalRecord)
      → length (pending st) ≤ fuel
      → dump_loop fuel st out ≡ out ++ pending st
  unfolding dump_loop next
  dump_loop-pending zero [] out h = sym (append-nil out)
  dump_loop-pending zero (nil ∷ st) out h = sym (append-nil out)
  dump_loop-pending zero (node e x l r ∷ st) out h = absurd (omega arith)
  dump_loop-pending (suc fuel) [] out h = sym (append-nil out)
  dump_loop-pending (suc fuel) (nil ∷ st) out h = sym (append-nil out)
  dump_loop-pending (suc fuel) (node e x l r ∷ st) out h =
      dump_loop-pending fuel (push_left r st) (out ++ (x ∷ [])) (rw pending-push_left (omega arith))
      ∙ ap (λ ys. (out ++ (x ∷ [])) ++ ys) (pending-push_left r st)
      ∙ append_assoc out (x ∷ []) _

  -- The iterator visits every record once, in order, and its fuel is enough.
  pub dump_inorder-inorder : (t : Tree E) → dump_inorder t ≡ inorder t
  unfolding dump_inorder
  dump_inorder-inorder t =
      dump_loop-pending (size t) (push_left t []) []
        (rw pending-push_left (rw append-nil (omega (arith, size-eq-length t))))
      ∙ pending-push_left t []
      ∙ append-nil (inorder t)

  ordering_loop-adjacent :
      (fuel : ℕ) (st : List (Tree E)) (prev : Option InternalRecord)
      → length (pending st) ≤ fuel
      → ordering_loop fuel st prev ≡ adjacent prev (pending st)
  unfolding ordering_loop next
  ordering_loop-adjacent zero [] prev h = refl
  ordering_loop-adjacent zero (nil ∷ st) prev h = refl
  ordering_loop-adjacent zero (node e x l r ∷ st) prev h = absurd (omega arith)
  ordering_loop-adjacent (suc fuel) [] prev h = refl
  ordering_loop-adjacent (suc fuel) (nil ∷ st) prev h = refl
  ordering_loop-adjacent (suc fuel) (node e x l r ∷ st) none h =
      ordering_loop-adjacent fuel (push_left r st) (some x) (rw pending-push_left (omega arith))
      ∙ ap (adjacent (some x)) (pending-push_left r st)
  ordering_loop-adjacent (suc fuel) (node e x l r ∷ st) (some p) h =
      ap (λ b. if not (node_lt p x) then false else b)
        (ordering_loop-adjacent fuel (push_left r st) (some x) (rw pending-push_left (omega arith))
          ∙ ap (adjacent (some x)) (pending-push_left r st))

  bst_ordering_correct-adjacent : (t : Tree E) → bst_ordering_correct t ≡ adjacent none (inorder t)
  unfolding bst_ordering_correct
  bst_ordering_correct-adjacent t =
      ordering_loop-adjacent (size t) (push_left t []) none
        (rw pending-push_left (rw append-nil (omega (arith, size-eq-length t))))
      ∙ ap (adjacent none) (pending-push_left t [] ∙ append-nil (inorder t))

adjacent-IsSorted :
    (p : InternalRecord) (xs : List InternalRecord)
    → adjacent (some p) xs ≡ true
    → All (λ y. p ≺ y) xs × IsSorted xs
adjacent-IsSorted p [] h = (tt, tt)
adjacent-IsSorted p (x ∷ xs) h =
    let below : p ≺ x = ground arith in
    let (after, sorted) = adjacent-IsSorted x xs (ground arith) in
    ((below, All-imp (λ y. node_lt_trans p x y below) xs after), (after, sorted))

IsSorted-adjacent :
    (p : InternalRecord) (xs : List InternalRecord)
    → All (λ y. p ≺ y) xs
    → IsSorted xs
    → adjacent (some p) xs ≡ true
IsSorted-adjacent p [] a h = refl
IsSorted-adjacent p (x ∷ xs) a h = rw a.0 (IsSorted-adjacent x xs h.0 h.1)

adjacent_iff : (xs : List InternalRecord) → (adjacent none xs ≡ true) ↔ IsSorted xs
adjacent_iff [] = (λ _. tt, λ _. refl)
adjacent_iff (x ∷ xs) = (adjacent-IsSorted x xs, λ h. IsSorted-adjacent x xs h.0 h.1)

-- The ordering check answers true exactly if the records are sorted.
pub bst_ordering_correct_iff :
    {E : Type 0} (t : Tree E) → (bst_ordering_correct t ≡ true) ↔ IsSorted (inorder t)
bst_ordering_correct_iff t = rw bst_ordering_correct-adjacent (adjacent_iff (inorder t))
