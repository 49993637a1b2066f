-- ===== src/Tree.antt =====
-- The binary search trees of src/data_structures. red_black_tree.cpp, treap.cpp and splay_tree.cpp
-- repeat one text for rotations, the descent of an insertion, the lookup, the inorder iterator and
-- the memory count; this module has it once, over what a node holds beside its record (`E`: a
-- colour, a priority, nothing). A node pointer with its `parent` links is a subtree in focus with
-- the list of its ancestors, the nearest first; `plug` is the tree seen from `root`. So the parent
-- links that `expect_parent_links_valid` checks are right by construction, and a rotation below a
-- parent relinks the parent by `plug`.
pub mod Inorder
pub mod Insert
pub mod Lookup
pub mod Iterate
mod Tests
use kvdb.Base.{
  ◌%◌, ◌^◌, ℕ, zero, suc, ◌+◌, Bool, true, false, not, ◌&&◌, Option, none, some, List, [], ◌∷◌,
  ◌++◌, length, if◌then◌else◌,
}
use kvdb.Entry.{ArenaEntry, entry_lt, entry_eq}
use kvdb.Record.{InternalRecord, node_lt}

pub data Tree (E : Type 0) : Type 0 where
  nil : Tree E
  node : E → InternalRecord → Tree E → Tree E → Tree E

-- The focus is the left child of a node (with its right subtree), or the right child.
pub data Frame (E : Type 0) : Type 0 where
  from_left : E → InternalRecord → Tree E → Frame E
  from_right : E → InternalRecord → Tree E → Frame E

module _ {E : Type 0} where
  abbrev pub plug : Tree E → List (Frame E) → Tree E
  plug t [] = t
  plug t (from_left e x r ∷ above) = plug (node e x t r) above
  plug t (from_right e x l ∷ above) = plug (node e x l t) above

  -- `inorder_traverse`
  abbrev pub inorder : Tree E → List InternalRecord
  inorder nil = []
  inorder (node e x l r) = inorder l ++ (x ∷ inorder r)

  -- `left_rotate` and `right_rotate` on the subtree of `v`
  unfoldable pub left_rotate : Tree E → Tree E
  left_rotate (node e v a (node f u b c)) = node f u (node e v a b) c
  left_rotate t = t

  unfoldable pub right_rotate : Tree E → Tree E
  right_rotate (node e v (node f u a b) c) = node f u a (node e v b c)
  right_rotate t = t

  -- The `while` of `bst_insert`: the ancestors of the new node, nearest first; `none` if a node of
  -- its key and sequence number is met.
  unfoldable pub descend : InternalRecord → Tree E → List (Frame E) → Option (List (Frame E))
  descend v nil above = some above
  descend v (node e x l r) above =
      let leftwards = descend v l (from_left e x r ∷ above) in
      let rightwards = descend v r (from_right e x l ∷ above) in
      if not (node_lt v x) && not (node_lt x v)
      then none
      else if node_lt v x
      then leftwards
      else rightwards

  -- The `while` of `find_latest_by_key`: `result` is the last node met with the key.
  unfoldable pub find_loop : ArenaEntry → Tree E → Option InternalRecord → Option InternalRecord
  find_loop key nil result = result
  find_loop key (node e x l r) result =
      let rightwards = find_loop key r result in
      let leftwards = find_loop key l (if entry_eq x.key_entry key then some x else result) in
      if entry_lt x.key_entry key then rightwards else leftwards

  unfoldable pub find_latest_by_key : Tree E → ArenaEntry → Option InternalRecord
  find_latest_by_key t key = find_loop key t none

  unfoldable pub empty : Tree E → Bool
  empty nil = true
  empty (node e x l r) = false

  -- `InorderIterator`: a stack of nodes.
  unfoldable pub push_left : Tree E → List (Tree E) → List (Tree E)
  push_left nil st = st
  push_left (node e x l r) st = push_left l (node e x l r ∷ st)

  -- `next`; `none` is the failed assertion on an empty stack. No null pointer is ever pushed.
  unfoldable pub next : List (Tree E) → Option (InternalRecord × List (Tree E))
  next [] = none
  next (nil ∷ st) = none
  next (node e x l r ∷ st) = some (x, push_left r st)

  -- The number of nodes, which bounds the rounds of a traversal.
  abbrev pub size : Tree E → ℕ
  size nil = 0
  size (node e x l r) = suc (size l + size r)

  -- `while (it.has_next()) out.emplace_back(it.next())`
  unfoldable pub dump_loop : ℕ → List (Tree E) → List InternalRecord → List InternalRecord
  dump_loop zero st out = out
  dump_loop (suc fuel) st out = elim (next st) [
    | none ↦ out
    | some (x, rest) ↦ dump_loop fuel rest (out ++ (x ∷ []))
  ]

  unfoldable pub dump_inorder : Tree E → List InternalRecord
  dump_inorder t = dump_loop (size t) (push_left t []) []

  -- The loop of `bst_ordering_correct`: `prev` is the node visited before.
  unfoldable pub ordering_loop : ℕ → List (Tree E) → Option InternalRecord → Bool
  ordering_loop zero st prev = true
  ordering_loop (suc fuel) st prev = elim (next st) [
    | none ↦ true
    | some (x, rest) ↦
        let others = ordering_loop fuel rest (some x) in
        elim prev [ none ↦ others | some p ↦ if not (node_lt p x) then false else others ]
  ]

  unfoldable pub bst_ordering_correct : Tree E → Bool
  bst_ordering_correct t = ordering_loop (size t) (push_left t []) none

  -- `approximate_subtree_memory_usage`; `node_size` is the platform's `sizeof(Node)`, and
  -- `size_t` has 64 bits.
  unfoldable pub approximate_subtree_memory_usage : ℕ → Tree E → ℕ
  approximate_subtree_memory_usage node_size nil = 0
  approximate_subtree_memory_usage node_size (node e x l r) =
      (approximate_subtree_memory_usage node_size l
        + approximate_subtree_memory_usage node_size r
        + (node_size + length x.key_entry + length x.value_entry))
      % 2 ^ 64
