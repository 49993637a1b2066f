-- ===== src/RedBlack.antt =====
-- src/data_structures/red_black_tree.cpp, the default driver of the memtable: a red-black tree of
-- records. The parts that it shares with the other trees are in Tree.antt. Allocation succeeds: the
-- `bad_alloc` path of `insert` is not modelled. The node in focus and its ancestors stand for the
-- pointer `v` and its `parent` links.
pub mod Order
pub mod Colors
pub mod Balance
pub mod Valid
pub mod Depth
pub mod Interface
mod Tests
use kvdb.Base.{
  ℕ, ◌+◌, Bool, true, false, not, ◌&&◌, ◌||◌, Option, none, some, List, [], ◌∷◌, if◌then◌else◌,
}
use kvdb.Base.Int.{ℤ, pos, negsuc, add_ℕ, ◌==ℤ◌}
use kvdb.Status.{StatusCode, ok_code, duplicate}
use kvdb.Record.{InternalRecord}
use kvdb.Tree.{
  Tree, nil, node, Frame, from_left, from_right, plug, left_rotate, right_rotate, descend,
  bst_ordering_correct,
}

-- `Node::Color`
pub data Color : Type 0 where
  red : Color
  black : Color

abbrev pub RbTree : Type 0
RbTree = Tree Color

-- `x != nullptr && x->color == Color::Red`
abbrev pub is_red : RbTree → Bool
is_red (node red x l r) = true
is_red (node black x l r) = false
is_red nil = false

abbrev pub frame_is_red : Frame Color → Bool
frame_is_red (from_left red x r) = true
frame_is_red (from_left black x r) = false
frame_is_red (from_right red x l) = true
frame_is_red (from_right black x l) = false

-- `x->color = c`
unfoldable pub paint : Color → RbTree → RbTree
paint c nil = nil
paint c (node d x l r) = node c x l r

-- The uncle of `v` with parent `p` and grandparent `g`.
unfoldable pub uncle_of : Frame Color → RbTree
uncle_of (from_left c x uncle) = uncle
uncle_of (from_right c x uncle) = uncle

-- Parent and uncle black, grandparent red: the new focus.
unfoldable pub recolor : RbTree → Frame Color → Frame Color → RbTree
unfolding paint
recolor v p (from_left c x uncle) = node red x (paint black (plug v (p ∷ []))) (paint black uncle)
recolor v p (from_right c x uncle) = node red x (paint black uncle) (paint black (plug v (p ∷ [])))

-- The parent's subtree, after `left_rotate(parent)` if `v == parent->right`.
unfoldable pub straighten_left : RbTree → Frame Color → RbTree
unfolding left_rotate
straighten_left v (from_left c x r) = node c x v r
straighten_left v (from_right c x l) = left_rotate (node c x l v)

-- The parent's subtree, after `right_rotate(parent)` if `v == parent->left`.
unfoldable pub straighten_right : RbTree → Frame Color → RbTree
unfolding right_rotate
straighten_right v (from_left c x r) = right_rotate (node c x v r)
straighten_right v (from_right c x l) = node c x l v

-- The case of a black uncle: straighten, parent black, grandparent red, rotate the grandparent.
unfoldable pub rotate_up : RbTree → Frame Color → Frame Color → RbTree
unfolding paint straighten_left straighten_right left_rotate right_rotate
rotate_up v p (from_left c x uncle) =
    right_rotate (node red x (paint black (straighten_left v p)) uncle)
rotate_up v p (from_right c x uncle) =
    left_rotate (node red x uncle (paint black (straighten_right v p)))

-- The loop of `balance`. It goes on while the parent is red and there is a grandparent. After the
-- rotations the parent of `v` is black, so the loop's test fails.
unfoldable pub balance_loop : RbTree → List (Frame Color) → RbTree
unfolding recolor rotate_up uncle_of
balance_loop v [] = v
balance_loop v (p ∷ []) = plug v (p ∷ [])
balance_loop v (p ∷ (g ∷ above)) =
    let further_up = balance_loop (recolor v p g) above in
    if not (frame_is_red p)
    then plug v (p ∷ (g ∷ above))
    else if is_red (uncle_of g)
    then further_up
    else plug (rotate_up v p g) above

-- `balance`: the loop, then `root->color = Black`.
unfoldable pub balance : RbTree → List (Frame Color) → RbTree
unfolding balance_loop paint
balance v above = paint black (balance_loop v above)

-- What follows the descent: `Duplicate` with the tree as it was, or a red node hung below its
-- parent, on the side that the last comparison chose, and `balance`.
unfoldable pub hang : InternalRecord → RbTree → Option (List (Frame Color)) → StatusCode × RbTree
unfolding balance
hang entry t none = (duplicate, t)
hang entry t (some above) = (ok_code, balance (node red entry nil nil) above)

-- `insert`, with `bst_insert`.
unfoldable pub insert : InternalRecord → RbTree → StatusCode × RbTree
unfolding descend hang
insert entry t = hang entry t (descend entry t [])

-- `subtree_has_no_red_node_with_red_child`
unfoldable pub subtree_has_no_red_node_with_red_child : RbTree → Bool
subtree_has_no_red_node_with_red_child nil = true
subtree_has_no_red_node_with_red_child (node c x l r) =
    let below =
      subtree_has_no_red_node_with_red_child l && subtree_has_no_red_node_with_red_child r in
    if is_red (node c x l r)
    then (if is_red l then false else if is_red r then false else below)
    else below

unfoldable pub root_is_black : RbTree → Bool
root_is_black nil = true
root_is_black (node c x l r) = not (is_red (node c x l r))

abbrev black_weight : Color → ℕ
black_weight red = 0
black_weight black = 1

abbrev black_height_of : Color → Bool × ℤ → Bool × ℤ → Bool × ℤ
black_height_of c left right =
    if not left.0 || not right.0
    then (false, negsuc 0)
    else if not (left.1 ==ℤ right.1)
    then (false, negsuc 0)
    else (true, add_ℕ left.1 (black_weight c))

-- `subtree_black_height_info`: -1 stands beside false. The `int` does not overflow: it is at most
-- the number of nodes.
unfoldable pub subtree_black_height_info : RbTree → Bool × ℤ
subtree_black_height_info nil = (true, pos 1)
subtree_black_height_info (node c x l r) =
    black_height_of c (subtree_black_height_info l) (subtree_black_height_info r)

-- `validate`, less the parent links, which hold by construction.
unfoldable pub validate : RbTree → Bool
validate t =
    root_is_black t
    && subtree_has_no_red_node_with_red_child t
    && bst_ordering_correct t
    && (subtree_black_height_info t).0
