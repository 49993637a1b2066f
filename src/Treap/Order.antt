-- ===== src/Treap/Order.antt =====
-- Insertion into a treap against insertion into the sorted list of its records.
use mathlib.Core.Option
use kvdb.Base.{
  ℕ, ◌≡◌, refl, ap, ◌∙◌, append-nil, Option, none, some, List, [], ◌∷◌, ◌++◌, Bool-cases, inl, inr,
}
use kvdb.Status.{StatusCode, ok_code}
use kvdb.Record.{InternalRecord}
use kvdb.Record.Versions.{IsSorted, insert_version, insert_version-IsSorted, Whenever, outcome}
use kvdb.Tree.{nil, node, Frame, from_left, from_right, plug, inorder, descend}
use kvdb.Tree.Inorder.{inorder-left_rotate, inorder-right_rotate, inorder-plug_congr}
use kvdb.Tree.Insert.{hung, descend-insert_version}
use kvdb.Treap.{Treap, frame_priority, root_above, rotate_above, bubble_up, hang, insert}

inorder-rotate_above :
    (v : Treap) (p : Frame ℕ) → inorder (rotate_above v p) ≡ inorder (plug v (p ∷ []))
unfolding rotate_above
inorder-rotate_above v (from_left e x r) = inorder-right_rotate (node e x v r)
inorder-rotate_above v (from_right e x l) = inorder-left_rotate (node e x l v)

inorder-bubble_up :
    (v : Treap) (above : List (Frame ℕ)) → inorder (bubble_up v above) ≡ inorder (plug v above)
unfolding bubble_up
inorder-bubble_up v [] = refl
inorder-bubble_up v (p ∷ above) = elim (Bool-cases (root_above v (frame_priority p))) [
  | inr b ↦ rw b refl
  | inl b ↦ rw b (
      inorder-bubble_up (rotate_above v p) above
      ∙ inorder-plug_congr _ (plug v (p ∷ [])) above (inorder-rotate_above v p)
      ∙ ap inorder (plug-plug v p above))
]
  where
    plug-plug :
        (v : Treap) (p : Frame ℕ) (above : List (Frame ℕ))
        → plug (plug v (p ∷ [])) above ≡ plug v (p ∷ above)
    plug-plug v (from_left e x r) above = refl
    plug-plug v (from_right e x l) above = refl

hang-outcome :
    (priority : ℕ) (entry : InternalRecord) (t : Treap) (found : Option (List (Frame ℕ)))
    (expected : Option (List InternalRecord))
    → Option.map (hung priority entry) found ≡ Option.map (λ ys. ys ++ []) expected
    → ((hang priority entry t found).0, inorder (hang priority entry t found).1)
      ≡ outcome (inorder t) expected
unfolding hang
hang-outcome priority entry t none none e = refl
hang-outcome priority entry t none (some ys) e = cc
hang-outcome priority entry t (some above) none e = cc
hang-outcome priority entry t (some above) (some ys) e =
    let same_records : hung priority entry above ≡ ys ++ [] = cc in
    ap (λ xs. (ok_code, xs))
      (inorder-bubble_up (node priority entry nil nil) above ∙ same_records ∙ append-nil ys)

-- On a treap whose records are sorted, and for every priority, `insert` refines the insertion into
-- the sorted list of its records: it answers Duplicate and leaves the records if the key and sequence
-- number are there, and else answers Ok and adds the record at its place.
pub insert-outcome :
    (priority : ℕ) (entry : InternalRecord) (t : Treap)
    → IsSorted (inorder t)
    → ((insert priority entry t).0, inorder (insert priority entry t).1)
      ≡ outcome (inorder t) (insert_version entry (inorder t))
unfolding insert
insert-outcome priority entry t h =
    hang-outcome priority entry t (descend entry t []) (insert_version entry (inorder t))
      (descend-insert_version priority entry t [] h)

outcome-IsSorted :
    (xs : List InternalRecord) (expected : Option (List InternalRecord))
    (answer : StatusCode × List InternalRecord)
    → IsSorted xs
    → Whenever IsSorted expected
    → answer ≡ outcome xs expected
    → IsSorted answer.1
outcome-IsSorted xs none answer h k e = rw e h
outcome-IsSorted xs (some ys) answer h k e = rw e k

pub insert-IsSorted :
    (priority : ℕ) (entry : InternalRecord) (t : Treap)
    → IsSorted (inorder t)
    → IsSorted (inorder (insert priority entry t).1)
insert-IsSorted priority entry t h =
    outcome-IsSorted (inorder t) (insert_version entry (inorder t)) _ h
      (insert_version-IsSorted entry (inorder t) h) (insert-outcome priority entry t h)
