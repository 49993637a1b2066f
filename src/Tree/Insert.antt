-- ===== src/Tree/Insert.antt =====
-- The descent of an insertion finds the place that the sorted list gives the new record.
use mathlib.Core.Option
use kvdb.Base.{
  ◌≡◌, refl, sym, ap, ◌∙◌, Option, none, some, List, [], ◌∷◌, ◌++◌, append_assoc, Bool-cases, inl,
  inr, All, All-imp, All-append,
}
use kvdb.Record.{InternalRecord, node_lt}
use kvdb.Record.Order.{◌≺◌, node_lt_trans}
use kvdb.Record.Versions.{
  IsSorted, insert_version, IsSorted-append_left, IsSorted-append_right, All-before,
  insert_version-append_before, insert_version-append_after, insert_version_duplicate,
}
use kvdb.Tree.{Tree, nil, node, Frame, from_left, from_right, plug, inorder, descend}
use kvdb.Tree.Inorder.{lefts, rights, inorder-plug}

map_through {ℓ κ μ} :
    {A : Type ℓ} {B : Type κ} {C : Type μ} (f : A → C) (g : B → C) (h : A → B)
    → ((a : A) → f a ≡ g (h a))
    → (o : Option A) → Option.map f o ≡ Option.map g (Option.map h o)
map_through f g h same none = refl
map_through f g h same (some a) = ap some (same a)

module _ {E : Type 0} where
  -- The tree's records with a new node hung below `above`.
  abbrev pub hung : E → InternalRecord → List (Frame E) → List InternalRecord
  hung e v above = inorder (plug (node e v nil nil) above)

  abbrev around : List (Frame E) → List InternalRecord → List InternalRecord
  around above ys = lefts above ++ (ys ++ rights above)

  pub descend-insert_version :
      (e : E) (v : InternalRecord) (t : Tree E) (above : List (Frame E))
      → IsSorted (inorder t)
      → Option.map (hung e v) (descend v t above)
        ≡ Option.map (around above) (insert_version v (inorder t))
  unfolding descend
  descend-insert_version e v nil above h =
      unfold insert_version in ap some (inorder-plug (node e v nil nil) above)
  descend-insert_version e v (node f x l r) above h = elim (Bool-cases (node_lt v x)) [
    | inl a ↦
        rw (a, insert_version-append_before v (inorder l) x (inorder r) a)
          (descend-insert_version e v l (from_left f x r ∷ above)
              (IsSorted-append_left (inorder l) (x ∷ inorder r) h)
            ∙ map_through _ _ _ (λ ys. simp append_assoc) (insert_version v (inorder l)))
    | inr a ↦ elim (Bool-cases (node_lt x v)) [
      | inl b ↦
          let before : All (λ y. y ≺ v) (inorder l ++ (x ∷ [])) =
            All-append (λ y. y ≺ v) (inorder l) (x ∷ [])
              (All-imp (λ y c. node_lt_trans y x v c b) (inorder l)
                (All-before (inorder l) x (inorder r) h))
              (b, tt) in
          rw (a, b)
            (descend-insert_version e v r (from_right f x l ∷ above)
                (IsSorted-append_right (inorder l) (x ∷ inorder r) h).1
              ∙ map_through _ (around above) (λ zs. (inorder l ++ (x ∷ [])) ++ zs)
                  (λ ys. simp append_assoc) (insert_version v (inorder r))
              ∙ ap (Option.map (around above)) (
                  sym (insert_version-append_after v (inorder l ++ (x ∷ [])) (inorder r) before)
                  ∙ ap (insert_version v) (append_assoc (inorder l) (x ∷ []) (inorder r))))
      | inr b ↦ rw (
        a,
        b,
        insert_version_duplicate v x (inorder l) (inorder r) a b
            (All-before (inorder l) x (inorder r) h),
      )
    ]
  ]
