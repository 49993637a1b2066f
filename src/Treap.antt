-- ===== src/Treap.antt =====
-- src/data_structures/treap.cpp on the shared tree: a node holds a priority. The priorities come from
-- the library's random generator, which is a parameter: `insert` takes the priority drawn for the
-- new node. The ordinary tree operations are those of `Tree`.
pub mod Order
pub mod Heap
pub mod Interface
mod Tests
use kvdb.Base.{ℕ, Bool, true, false, ◌&&◌, Option, none, some, List, [], ◌∷◌, ltb, if◌then◌else◌}
use kvdb.Status.{StatusCode, ok_code, duplicate}
use kvdb.Record.{InternalRecord}
use kvdb.Tree.{
  Tree, nil, node, Frame, from_left, from_right, plug, left_rotate, right_rotate, descend,
  bst_ordering_correct,
}

abbrev pub Treap : Type 0
Treap = Tree ℕ

abbrev pub frame_priority : Frame ℕ → ℕ
frame_priority (from_left e x r) = e
frame_priority (from_right e x l) = e

-- `v->priority > bound`
abbrev pub root_above : Treap → ℕ → Bool
root_above nil bound = false
root_above (node e x l r) bound = ltb bound e

-- `right_rotate(p)` if `v == p->left`, else `left_rotate(p)`: the new focus.
unfoldable pub rotate_above : Treap → Frame ℕ → Treap
unfolding left_rotate right_rotate
rotate_above v (from_left e x r) = right_rotate (node e x v r)
rotate_above v (from_right e x l) = left_rotate (node e x l v)

-- The loop at the end of `bst_insert`.
unfoldable pub bubble_up : Treap → List (Frame ℕ) → Treap
unfolding rotate_above
bubble_up v [] = v
bubble_up v (p ∷ above) =
    let further_up = bubble_up (rotate_above v p) above in
    if root_above v (frame_priority p) then further_up else plug v (p ∷ above)

unfoldable pub hang : ℕ → InternalRecord → Treap → Option (List (Frame ℕ)) → StatusCode × Treap
unfolding bubble_up
hang priority entry t none = (duplicate, t)
hang priority entry t (some above) = (ok_code, bubble_up (node priority entry nil nil) above)

-- `insert`, with `bst_insert`.
unfoldable pub insert : ℕ → InternalRecord → Treap → StatusCode × Treap
unfolding descend hang
insert priority entry t = hang priority entry t (descend entry t [])

unfoldable pub heap_ordering_correct : Treap → Bool
heap_ordering_correct nil = true
heap_ordering_correct (node e x l r) =
    let left_correct = heap_ordering_correct l in
    let right_correct = heap_ordering_correct r in
    if root_above l e
    then false
    else if root_above r e
    then false
    else left_correct && right_correct

-- `validate`; the parent links are right by construction.
unfoldable pub validate : Treap → Bool
unfolding heap_ordering_correct bst_ordering_correct
validate t = heap_ordering_correct t && bst_ordering_correct t
