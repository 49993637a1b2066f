-- ===== src/Tree/Inorder.antt =====
-- Rotations and re-plugging keep the records in order.
use kvdb.Base.{◌≡◌, refl, sym, ap, ◌∙◌, List, [], ◌∷◌, ◌++◌, append_assoc, append-nil}
use kvdb.Record.{InternalRecord}
use kvdb.Tree.{
  Tree, nil, node, Frame, from_left, from_right, plug, inorder, left_rotate, right_rotate,
}

module _ {E : Type 0} where
  -- The records before and after those of the focus.
  abbrev pub lefts : List (Frame E) → List InternalRecord
  lefts [] = []
  lefts (from_left e x r ∷ above) = lefts above
  lefts (from_right e x l ∷ above) = lefts above ++ (inorder l ++ (x ∷ []))

  abbrev pub rights : List (Frame E) → List InternalRecord
  rights [] = []
  rights (from_left e x r ∷ above) = x ∷ (inorder r ++ rights above)
  rights (from_right e x l ∷ above) = rights above

  pub inorder-plug :
      (t : Tree E) (above : List (Frame E))
      → inorder (plug t above) ≡ lefts above ++ (inorder t ++ rights above)
  inorder-plug t [] = sym (append-nil _)
  inorder-plug t (from_left e x r ∷ above) = inorder-plug (node e x t r) above ∙ simp append_assoc
  inorder-plug t (from_right e x l ∷ above) = inorder-plug (node e x l t) above ∙ simp append_assoc

  pub inorder-left_rotate : (t : Tree E) → inorder (left_rotate t) ≡ inorder t
  unfolding left_rotate
  inorder-left_rotate (node e v a (node f u b c)) = simp append_assoc
  inorder-left_rotate (node e v a nil) = refl
  inorder-left_rotate nil = refl

  pub inorder-right_rotate : (t : Tree E) → inorder (right_rotate t) ≡ inorder t
  unfolding right_rotate
  inorder-right_rotate (node e v (node f u a b) c) = simp append_assoc
  inorder-right_rotate (node e v nil c) = refl
  inorder-right_rotate nil = refl

  -- Subtrees with the same records give trees with the same records.
  pub inorder-plug_congr :
      (s t : Tree E) (above : List (Frame E))
      → inorder s ≡ inorder t
      → inorder (plug s above) ≡ inorder (plug t above)
  inorder-plug_congr s t above e =
      inorder-plug s above
      ∙ ap (λ xs. lefts above ++ (xs ++ rights above)) e
      ∙ sym (inorder-plug t above)
