-- ===== src/RedBlack/Order.antt =====
-- `insert` adds the record to the sorted list of the tree's records, and nothing else.
use mathlib.Core.Option
use kvdb.Base.{
  if◌then◌else◌, ◌≡◌, refl, sym, ap, ◌∙◌, Option, none, some, List, [], ◌∷◌, ◌++◌, append-nil,
  Bool-cases, inl, inr,
}
use kvdb.Status.{StatusCode, ok_code, duplicate}
use kvdb.Record.{InternalRecord}
use kvdb.Record.Versions.{
  IsSorted, Whenever, insert_version, insert_version-IsSorted, outcome, lookup_of_outcome,
  first_version, newer,
}
use kvdb.Entry.{ArenaEntry, entry_eq}
use kvdb.Tree.Lookup.{find_latest_by_key-first_version}
use kvdb.Tree.{find_latest_by_key, nil, node, Frame, from_left, from_right, plug, inorder, descend}
use kvdb.Tree.Inorder.{inorder-left_rotate, inorder-right_rotate, inorder-plug_congr}
use kvdb.Tree.Insert.{hung, descend-insert_version}
use kvdb.RedBlack.{
  Color, red, black, RbTree, is_red, frame_is_red, paint, uncle_of, recolor, straighten_left,
  straighten_right, rotate_up, balance_loop, hang, insert,
}

inorder-paint : (c : Color) (t : RbTree) → inorder (paint c t) ≡ inorder t
unfolding paint
inorder-paint c nil = refl
inorder-paint c (node d x l r) = refl

inorder-straighten_left :
    (v : RbTree) (p : Frame Color) → inorder (straighten_left v p) ≡ inorder (plug v (p ∷ []))
unfolding straighten_left
inorder-straighten_left v (from_left c x r) = refl
inorder-straighten_left v (from_right c x l) = inorder-left_rotate (node c x l v)

inorder-straighten_right :
    (v : RbTree) (p : Frame Color) → inorder (straighten_right v p) ≡ inorder (plug v (p ∷ []))
unfolding straighten_right
inorder-straighten_right v (from_left c x r) = inorder-right_rotate (node c x v r)
inorder-straighten_right v (from_right c x l) = refl

inorder-recolor :
    (v : RbTree) (p g : Frame Color)
    → inorder (recolor v p g) ≡ inorder (plug (plug v (p ∷ [])) (g ∷ []))
unfolding recolor
inorder-recolor v p (from_left c x u) = simp inorder-paint
inorder-recolor v p (from_right c x u) = simp inorder-paint

inorder-rotate_up :
    (v : RbTree) (p g : Frame Color)
    → inorder (rotate_up v p g) ≡ inorder (plug (plug v (p ∷ [])) (g ∷ []))
unfolding rotate_up
inorder-rotate_up v p (from_left c x u) =
    inorder-right_rotate (node red x (paint black (straighten_left v p)) u)
    ∙ ap (λ xs. xs ++ (x ∷ inorder u))
        (inorder-paint black (straighten_left v p) ∙ inorder-straighten_left v p)
inorder-rotate_up v p (from_right c x u) =
    inorder-left_rotate (node red x u (paint black (straighten_right v p)))
    ∙ ap (λ xs. inorder u ++ (x ∷ xs))
        (inorder-paint black (straighten_right v p) ∙ inorder-straighten_right v p)

plug-plug :
    (v : RbTree) (p g : Frame Color) (above : List (Frame Color))
    → plug v (p ∷ (g ∷ above)) ≡ plug (plug (plug v (p ∷ [])) (g ∷ [])) above
plug-plug v (from_left c x r) (from_left d y s) above = refl
plug-plug v (from_left c x r) (from_right d y s) above = refl
plug-plug v (from_right c x r) (from_left d y s) above = refl
plug-plug v (from_right c x r) (from_right d y s) above = refl

inorder-balance_loop :
    (v : RbTree) (above : List (Frame Color))
    → inorder (balance_loop v above) ≡ inorder (plug v above)
unfolding balance_loop
inorder-balance_loop v [] = refl
inorder-balance_loop v (p ∷ []) = refl
inorder-balance_loop v (p ∷ (g ∷ above)) = elim (Bool-cases (frame_is_red p)) [
  | inr b ↦ rw b refl
  | inl b ↦ elim (Bool-cases (is_red (uncle_of g))) [
    | inl u ↦
        rw (b, u)
          (inorder-balance_loop (recolor v p g) above
            ∙ inorder-plug_congr _ _ above (inorder-recolor v p g)
            ∙ ap inorder (sym (plug-plug v p g above)))
    | inr u ↦
        rw (b, u)
          (inorder-plug_congr _ _ above (inorder-rotate_up v p g)
            ∙ ap inorder (sym (plug-plug v p g above)))
  ]
]

hang-outcome :
    (entry : InternalRecord) (t : RbTree) (found : Option (List (Frame Color)))
    (expected : Option (List InternalRecord))
    → Option.map (hung red entry) found ≡ Option.map (λ ys. ys ++ []) expected
    → ((hang entry t found).0, inorder (hang entry t found).1) ≡ outcome (inorder t) expected
unfolding hang
hang-outcome entry t none none e = refl
hang-outcome entry t none (some ys) e = cc
hang-outcome entry t (some above) none e = cc
hang-outcome entry t (some above) (some ys) e =
    ap (λ xs. (ok_code, xs))
      (inorder-paint black (balance_loop (node red entry nil nil) above)
        ∙ inorder-balance_loop (node red entry nil nil) above
        ∙ same_records)
  where
    same_records : hung red entry above ≡ ys
    same_records = let e' : hung red entry above ≡ ys ++ [] = cc in e' ∙ append-nil ys

-- On a tree whose records are sorted, `insert` answers `Duplicate` and leaves the tree's records if
-- the key and sequence number are there, and else answers `Ok` with the record at its place.
pub insert-insert_version :
    (entry : InternalRecord) (t : RbTree)
    → IsSorted (inorder t)
    → ((insert entry t).0, inorder (insert entry t).1)
      ≡ outcome (inorder t) (insert_version entry (inorder t))
unfolding insert
insert-insert_version entry t h =
    hang-outcome entry t (descend entry t []) (insert_version entry (inorder t))
      (descend-insert_version red entry t [] h)

hang-IsSorted :
    (xs : List InternalRecord) (expected : Option (List InternalRecord))
    (answer : StatusCode × List InternalRecord)
    → IsSorted xs
    → Whenever IsSorted expected
    → answer ≡ outcome xs expected
    → IsSorted answer.1
hang-IsSorted xs none answer h k e = rw e h
hang-IsSorted xs (some ys) answer h k e = rw e k

-- `insert` keeps the records sorted.
pub insert-IsSorted :
    (entry : InternalRecord) (t : RbTree)
    → IsSorted (inorder t)
    → IsSorted (inorder (insert entry t).1)
insert-IsSorted entry t h =
    hang-IsSorted (inorder t) (insert_version entry (inorder t)) _ h
      (insert_version-IsSorted entry (inorder t) h) (insert-insert_version entry t h)

-- Reads after an insertion into a tree with sorted records. If `insert` answers `Ok`, a read of the
-- record's key returns the newer of the record and what was read before, and a read of another key
-- returns what it did. If it answers `Duplicate`, every read returns what it did.
pub find_latest_by_key-insert :
    (entry : InternalRecord) (t : RbTree) (key : ArenaEntry)
    → IsSorted (inorder t)
    → ((insert entry t).0 ≡ ok_code
        → find_latest_by_key (insert entry t).1 key ≡ (
            if entry_eq entry.key_entry key
            then some (newer entry (find_latest_by_key t key))
            else find_latest_by_key t key))
      × ((insert entry t).0 ≡ duplicate
          → find_latest_by_key (insert entry t).1 key ≡ find_latest_by_key t key)
find_latest_by_key-insert entry t key h =
    let (accepted, refused) =
      lookup_of_outcome key entry (inorder t) ((insert entry t).0, inorder (insert entry t).1) h
        (insert-insert_version entry t h) in
    let after =
      find_latest_by_key-first_version (insert entry t).1 key (insert-IsSorted entry t h) in
    let before = find_latest_by_key-first_version t key h in
    (
      λ e. rw (after, before) (accepted e),
      λ e. rw (after, before) (ap (first_version key) (refused e)),
    )
