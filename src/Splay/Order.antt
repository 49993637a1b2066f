-- ===== src/Splay/Order.antt =====
-- Splaying keeps the records in order, and so insertion is that into the sorted list.
use mathlib.Core.Option
use kvdb.Base.{◌≡◌, refl, ap, ◌∙◌, append-nil, Option, none, some, List, [], ◌∷◌, ◌++◌}
use kvdb.Status.{StatusCode, ok_code}
use kvdb.Record.{InternalRecord}
use kvdb.Record.Versions.{IsSorted, insert_version, insert_version-IsSorted, Whenever, outcome}
use kvdb.Tree.{nil, node, from_left, from_right, plug, inorder, left_rotate, right_rotate, descend}
use kvdb.Tree.Inorder.{inorder-left_rotate, inorder-right_rotate, inorder-plug_congr}
use kvdb.Tree.Insert.{hung, descend-insert_version}
use kvdb.Splay.{SplayTree, SplayFrame, zig, zig_zig_or_zag, splay, hang, insert}

inorder-zig : (v : SplayTree) (p : SplayFrame) → inorder (zig v p) ≡ inorder (plug v (p ∷ []))
unfolding zig
inorder-zig v (from_left e x r) = inorder-right_rotate (node e x v r)
inorder-zig v (from_right e x l) = inorder-left_rotate (node e x l v)

inorder-zig_zig_or_zag :
    (v : SplayTree) (p g : SplayFrame)
    → inorder (zig_zig_or_zag v p g) ≡ inorder (plug v (p ∷ (g ∷ [])))
unfolding zig_zig_or_zag
inorder-zig_zig_or_zag v (from_left e x r) (from_left f y s) =
    inorder-right_rotate (right_rotate (node f y (node e x v r) s))
    ∙ inorder-right_rotate (node f y (node e x v r) s)
inorder-zig_zig_or_zag v (from_right e x l) (from_right f y s) =
    inorder-left_rotate (left_rotate (node f y s (node e x l v)))
    ∙ inorder-left_rotate (node f y s (node e x l v))
inorder-zig_zig_or_zag v (from_left e x r) (from_right f y s) =
    inorder-left_rotate (node f y s (right_rotate (node e x v r)))
    ∙ inorder-plug_congr (right_rotate (node e x v r)) (node e x v r) (from_right f y s ∷ [])
        (inorder-right_rotate (node e x v r))
inorder-zig_zig_or_zag v (from_right e x l) (from_left f y s) =
    inorder-right_rotate (node f y (left_rotate (node e x l v)) s)
    ∙ inorder-plug_congr (left_rotate (node e x l v)) (node e x l v) (from_left f y s ∷ [])
        (inorder-left_rotate (node e x l v))

plug-plug :
    (v : SplayTree) (p g : SplayFrame) (above : List SplayFrame)
    → plug (plug v (p ∷ (g ∷ []))) above ≡ plug v (p ∷ (g ∷ above))
plug-plug v (from_left e x r) (from_left f y s) above = refl
plug-plug v (from_left e x r) (from_right f y s) above = refl
plug-plug v (from_right e x r) (from_left f y s) above = refl
plug-plug v (from_right e x r) (from_right f y s) above = refl

-- Splaying a node to the root leaves the records of the tree, and their order, as they are.
pub inorder-splay :
    (v : SplayTree) (above : List SplayFrame) → inorder (splay v above) ≡ inorder (plug v above)
unfolding splay
inorder-splay v [] = refl
inorder-splay v (p ∷ []) = inorder-zig v p
inorder-splay v (p ∷ (g ∷ above)) =
    inorder-splay (zig_zig_or_zag v p g) above
    ∙ inorder-plug_congr _ (plug v (p ∷ (g ∷ []))) above (inorder-zig_zig_or_zag v p g)
    ∙ ap inorder (plug-plug v p g above)

hang-outcome :
    (entry : InternalRecord) (t : SplayTree) (found : Option (List SplayFrame))
    (expected : Option (List InternalRecord))
    → Option.map (hung tt entry) found ≡ Option.map (λ ys. ys ++ []) expected
    → ((hang entry t found).0, inorder (hang entry t found).1) ≡ outcome (inorder t) expected
unfolding hang
hang-outcome entry t none none e = refl
hang-outcome entry t none (some ys) e = cc
hang-outcome entry t (some above) none e = cc
hang-outcome entry t (some above) (some ys) e =
    let same_records : hung tt entry above ≡ ys ++ [] = cc in
    ap (λ xs. (ok_code, xs))
      (inorder-splay (node tt entry nil nil) above ∙ same_records ∙ append-nil ys)

-- On a splay tree whose records are sorted, `insert` refines the insertion into the sorted list of
-- its records: it answers Duplicate and leaves the records if the key and sequence number are there,
-- and else answers Ok and adds the record at its place.
pub insert_splay-outcome :
    (entry : InternalRecord) (t : SplayTree)
    → IsSorted (inorder t)
    → ((insert entry t).0, inorder (insert entry t).1)
      ≡ outcome (inorder t) (insert_version entry (inorder t))
unfolding insert
insert_splay-outcome entry t h =
    hang-outcome entry t (descend entry t []) (insert_version entry (inorder t))
      (descend-insert_version tt entry t [] h)

outcome-IsSorted :
    (xs : List InternalRecord) (expected : Option (List InternalRecord))
    (answer : StatusCode × List InternalRecord)
    → IsSorted xs
    → Whenever IsSorted expected
    → answer ≡ outcome xs expected
    → IsSorted answer.1
outcome-IsSorted xs none answer h k e = rw e h
outcome-IsSorted xs (some ys) answer h k e = rw e k

pub insert_splay-IsSorted :
    (entry : InternalRecord) (t : SplayTree)
    → IsSorted (inorder t)
    → IsSorted (inorder (insert entry t).1)
insert_splay-IsSorted entry t h =
    outcome-IsSorted (inorder t) (insert_version entry (inorder t)) _ h
      (insert_version-IsSorted entry (inorder t) h) (insert_splay-outcome entry t h)
