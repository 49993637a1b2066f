-- ===== src/Splay.antt =====
-- src/data_structures/splay_tree.cpp on the shared tree; a node holds nothing beside its record. The
-- overload of `find_latest_by_key` for a tree that is not const splays the node found, or the last
-- one met; the const overload and the other operations are those of `Tree`.
pub mod Order
pub mod Find
pub mod Interface
mod Tests
use kvdb.Base.{Bool, Option, none, some, List, [], ◌∷◌, if◌then◌else◌}
use kvdb.Status.{StatusCode, ok_code, duplicate}
use kvdb.Entry.{ArenaEntry, entry_lt, entry_eq}
use kvdb.Record.{InternalRecord}
use kvdb.Tree.{
  Tree, nil, node, Frame, from_left, from_right, left_rotate, right_rotate, descend,
  bst_ordering_correct,
}

abbrev pub SplayTree : Type 0
SplayTree = Tree (Unit {0})

abbrev pub SplayFrame : Type 0
SplayFrame = Frame (Unit {0})

-- Zig: the parent is the root.
unfoldable pub zig : SplayTree → SplayFrame → SplayTree
unfolding left_rotate right_rotate
zig v (from_left e x r) = right_rotate (node e x v r)
zig v (from_right e x l) = left_rotate (node e x l v)

-- The two rotations with a grandparent: zig-zig and zig-zag.
unfoldable pub zig_zig_or_zag : SplayTree → SplayFrame → SplayFrame → SplayTree
unfolding left_rotate right_rotate
zig_zig_or_zag v (from_left e x r) (from_left f y s) =
    right_rotate (right_rotate (node f y (node e x v r) s))
zig_zig_or_zag v (from_right e x l) (from_right f y s) =
    left_rotate (left_rotate (node f y s (node e x l v)))
zig_zig_or_zag v (from_left e x r) (from_right f y s) =
    left_rotate (node f y s (right_rotate (node e x v r)))
zig_zig_or_zag v (from_right e x l) (from_left f y s) =
    right_rotate (node f y (left_rotate (node e x l v)) s)

unfoldable pub splay : SplayTree → List SplayFrame → SplayTree
unfolding zig zig_zig_or_zag
splay v [] = v
splay v (p ∷ []) = zig v p
splay v (p ∷ (g ∷ above)) = splay (zig_zig_or_zag v p g) above

unfoldable pub hang : InternalRecord → SplayTree → Option (List SplayFrame) → StatusCode × SplayTree
unfolding splay
hang entry t none = (duplicate, t)
hang entry t (some above) = (ok_code, splay (node tt entry nil nil) above)

-- `insert`, with `bst_insert`.
unfoldable pub insert : InternalRecord → SplayTree → StatusCode × SplayTree
unfolding descend hang
insert entry t = hang entry t (descend entry t [])

-- A node pointer: the node with its subtrees, and its ancestors.
pub record Position : Type 0 where
  pub found : InternalRecord
  pub left : SplayTree
  pub right : SplayTree
  pub above : List SplayFrame

abbrev pub focus : Position → SplayTree
focus p = node tt p.found p.left p.right

-- The loop of `find_latest_by_key`: `result` and `last`.
unfoldable pub search :
    ArenaEntry
    → SplayTree
    → List SplayFrame
    → Option Position
    → Option Position
    → Option Position × Option Position
search key nil above result last = (result, last)
search key (node e x l r) above result last =
    let here = some (record { found = x; left = l; right = r; above = above }) in
    let next_result = if entry_eq x.key_entry key then here else result in
    let rightwards = search key r (from_right e x l ∷ above) result here in
    let leftwards = search key l (from_left e x r ∷ above) next_result here in
    if entry_lt x.key_entry key then rightwards else leftwards

unfoldable pub splay_at : SplayTree → Option Position → SplayTree
unfolding splay
splay_at t none = t
splay_at t (some p) = splay (focus p) p.above

abbrev pub record_at : Option Position → Option InternalRecord
record_at none = none
record_at (some p) = some p.found

abbrev pub either : Option Position → Option Position → Option Position
either none last = last
either (some p) last = some p

unfoldable pub find_mutable : SplayTree → ArenaEntry → SplayTree × Option InternalRecord
unfolding search splay_at
find_mutable t key =
    let (result, last) = search key t [] none none in
    (splay_at t (either result last), record_at result)
