-- ===== src/Treap/Heap.antt =====
-- The heap order of the priorities through the loop that bubbles a new node up.
use kvdb.Base.{
  ℕ, ◌≤◌, ◌≡◌, ◌↔◌, refl, true, Option, none, some, List, [], ◌∷◌, Bool-cases, inl, inr, arith,
}
use kvdb.Record.{InternalRecord, node_lt}
use kvdb.Record.Versions.{Whenever}
use kvdb.Tree.{
  nil, node, Frame, from_left, from_right, plug, left_rotate, right_rotate, descend,
  bst_ordering_correct,
}
use kvdb.Treap.{
  Treap, frame_priority, root_above, rotate_above, bubble_up, hang, insert, heap_ordering_correct,
  validate,
}
use kvdb.Tree.Iterate.{bst_ordering_correct_iff}
use kvdb.Treap.Order.{insert-IsSorted}

-- The priority at the root is at most the bound.
abbrev RootLe : Treap → ℕ → Type 0
RootLe nil bound = Unit
RootLe (node e x l r) bound = e ≤ bound

abbrev pub IsHeap : Treap → Type 0
IsHeap nil = Unit
IsHeap (node e x l r) = RootLe l e × RootLe r e × IsHeap l × IsHeap r

abbrev sibling : Frame ℕ → Treap
sibling (from_left e x r) = r
sibling (from_right e x l) = l

-- The ancestors with their other subtrees, when the focus has a priority of at most `bound`.
abbrev HeapAbove : ℕ → List (Frame ℕ) → Type 0
HeapAbove bound [] = Unit
HeapAbove bound (p ∷ above) =
    (bound ≤ frame_priority p)
    × RootLe (sibling p) (frame_priority p)
    × IsHeap (sibling p)
    × HeapAbove (frame_priority p) above

-- The same while the focus may be above its parent: only its children are bounded.
abbrev Bubbling : Treap → List (Frame ℕ) → Type 0
Bubbling v [] = IsHeap v
Bubbling nil (p ∷ above) = Unit
Bubbling (node e x a b) (p ∷ above) =
    IsHeap (node e x a b)
    × RootLe a (frame_priority p)
    × RootLe b (frame_priority p)
    × RootLe (sibling p) (frame_priority p)
    × IsHeap (sibling p)
    × HeapAbove (frame_priority p) above

RootLe-trans : (t : Treap) (a b : ℕ) → RootLe t a → a ≤ b → RootLe t b
RootLe-trans nil a b h k = tt
RootLe-trans (node e x l r) a b h k = omega arith

plug-IsHeap :
    (t : Treap) (bound : ℕ) (above : List (Frame ℕ))
    → IsHeap t
    → RootLe t bound
    → HeapAbove bound above
    → IsHeap (plug t above)
plug-IsHeap t bound [] h k a = h
plug-IsHeap t bound (from_left e x r ∷ above) h k (le, s, hs, a) =
    plug-IsHeap (node e x t r) e above (RootLe-trans t bound e k le, s, h, hs) (omega arith) a
plug-IsHeap t bound (from_right e x l ∷ above) h k (le, s, hs, a) =
    plug-IsHeap (node e x l t) e above (s, RootLe-trans t bound e k le, hs, h) (omega arith) a

bubble_up-IsHeap :
    (e : ℕ) (x : InternalRecord) (a b : Treap) (above : List (Frame ℕ))
    → Bubbling (node e x a b) above
    → IsHeap (bubble_up (node e x a b) above)
unfolding bubble_up rotate_above left_rotate right_rotate
bubble_up-IsHeap e x a b [] h = h
bubble_up-IsHeap e x a b (from_left f y s ∷ above) ((ae, be, ha, hb), af, bf, sf, hs, h) =
    elim (Bool-cases (root_above (node e x a b) f)) [
      | inl k ↦ rw k (bubble_up-IsHeap e x a (node f y b s) above (lift (ground arith) above h))
      | inr k ↦ rw k (
          plug-IsHeap (node e x a b) e (from_left f y s ∷ above) (ae, be, ha, hb) (omega arith)
            (ground arith, sf, hs, h))
    ]
  where
    lift :
        f ≤ e
        → (above : List (Frame ℕ)) → HeapAbove f above
        → Bubbling (node e x a (node f y b s)) above
    lift le [] h = (ae, le, ha, (bf, sf, hb, hs))
    lift le (g ∷ above) (fg, t, ht, h) =
        ((ae, le, ha, (bf, sf, hb, hs)), RootLe-trans a f (frame_priority g) af fg, fg, t, ht, h)
bubble_up-IsHeap e x a b (from_right f y s ∷ above) ((ae, be, ha, hb), af, bf, sf, hs, h) =
    elim (Bool-cases (root_above (node e x a b) f)) [
      | inl k ↦ rw k (bubble_up-IsHeap e x (node f y s a) b above (lift (ground arith) above h))
      | inr k ↦ rw k (
          plug-IsHeap (node e x a b) e (from_right f y s ∷ above) (ae, be, ha, hb) (omega arith)
            (ground arith, sf, hs, h))
    ]
  where
    lift :
        f ≤ e
        → (above : List (Frame ℕ)) → HeapAbove f above
        → Bubbling (node e x (node f y s a) b) above
    lift le [] h = (le, be, (sf, af, hs, ha), hb)
    lift le (g ∷ above) (fg, t, ht, h) =
        ((le, be, (sf, af, hs, ha), hb), fg, RootLe-trans b f (frame_priority g) bf fg, t, ht, h)

HeapAbove-weaken :
    (a b : ℕ) (above : List (Frame ℕ)) → a ≤ b → HeapAbove b above → HeapAbove a above
HeapAbove-weaken a b [] h k = tt
HeapAbove-weaken a b (p ∷ above) h (le, s, hs, k) = (omega arith, s, hs, k)

-- The descent leaves a heap around the place it finds.
descend-HeapAbove :
    (v : InternalRecord) (t : Treap) (bound : ℕ) (above : List (Frame ℕ))
    → IsHeap t
    → RootLe t bound
    → HeapAbove bound above
    → Whenever (HeapAbove 0) (descend v t above)
unfolding descend
descend-HeapAbove v nil bound above h k a = HeapAbove-weaken 0 bound above (omega arith) a
descend-HeapAbove v (node e x l r) bound above (le, re, hl, hr) k a =
    let inner = HeapAbove-weaken e bound above k a in
    let e_le : e ≤ e = omega arith in
    let leftwards = descend-HeapAbove v l e (from_left e x r ∷ above) hl le (e_le, re, hr, inner) in
    let rightwards =
      descend-HeapAbove v r e (from_right e x l ∷ above) hr re (e_le, le, hl, inner) in
    elim (Bool-cases (node_lt v x)) [
      | inl b ↦ rw b leftwards
      | inr b ↦ elim (Bool-cases (node_lt x v)) [
        | inl c ↦ rw (b, c) rightwards
        | inr c ↦ rw (b, c) tt
      ]
    ]

hang-IsHeap :
    (priority : ℕ) (entry : InternalRecord) (t : Treap) (found : Option (List (Frame ℕ)))
    → IsHeap t
    → Whenever (HeapAbove 0) found
    → IsHeap (hang priority entry t found).1
unfolding hang
hang-IsHeap priority entry t none h a = h
hang-IsHeap priority entry t (some []) h a =
    bubble_up-IsHeap priority entry nil nil [] (tt, tt, tt, tt)
hang-IsHeap priority entry t (some (p ∷ above)) h (le, s, hs, a) =
    bubble_up-IsHeap priority entry nil nil (p ∷ above) ((tt, tt, tt, tt), tt, tt, s, hs, a)

IsHeap-iff : (t : Treap) → (heap_ordering_correct t ≡ true) ↔ IsHeap t
unfolding heap_ordering_correct
IsHeap-iff nil = (λ _. tt, λ _. refl)
IsHeap-iff (node e x nil nil) = (λ _. (tt, tt, tt, tt), λ _. refl)
IsHeap-iff (node e x (node f y a b) nil) = ground (arith, IsHeap-iff (node f y a b))
IsHeap-iff (node e x nil (node g z c d)) = ground (arith, IsHeap-iff (node g z c d))
IsHeap-iff (node e x (node f y a b) (node g z c d)) =
    ground (arith, IsHeap-iff (node f y a b), IsHeap-iff (node g z c d))

abbrev top : Treap → ℕ
top nil = 0
top (node e x l r) = e

RootLe-top : (t : Treap) → RootLe t (top t)
RootLe-top nil = tt
RootLe-top (node e x l r) = omega arith

insert-IsHeap :
    (priority : ℕ) (entry : InternalRecord) (t : Treap)
    → IsHeap t
    → IsHeap (insert priority entry t).1
unfolding insert
insert-IsHeap priority entry t h =
    hang-IsHeap priority entry t (descend entry t []) h
      (descend-HeapAbove entry t (top t) [] h (RootLe-top t) tt)

-- For every priority drawn, `insert` keeps `validate` true (search order and heap order), whether it
-- adds the record or answers Duplicate.
pub validate-insert_treap :
    (priority : ℕ) (entry : InternalRecord) (t : Treap)
    → validate t ≡ true
    → validate (insert priority entry t).1 ≡ true
unfolding validate
validate-insert_treap priority entry t h =
    let heap : heap_ordering_correct t ≡ true = ground arith in
    let order : bst_ordering_correct t ≡ true = ground arith in
    let sorted = (bst_ordering_correct_iff t).0 order in
    let keeps_heap =
      (IsHeap-iff (insert priority entry t).1).1
        (insert-IsHeap priority entry t ((IsHeap-iff t).0 heap)) in
    let keeps_order =
      (bst_ordering_correct_iff (insert priority entry t).1).1
        (insert-IsSorted priority entry t sorted) in
    ground arith
