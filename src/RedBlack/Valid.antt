-- ===== src/RedBlack/Valid.antt =====
-- `validate` decides the search order and the colour rules, and `insert` keeps it true.
use kvdb.Base.{ℕ, zero, suc, ◌≡◌, ◌↔◌, refl, sym, Bool, true, false, arith}
use kvdb.Base.Int.{ℤ, pos, ◌==ℤ◌}
use mathlib.Core.Path.{subst}
use kvdb.Record.{InternalRecord}
use kvdb.Record.Versions.{IsSorted}
use kvdb.Tree.{nil, node, inorder, bst_ordering_correct}
use kvdb.Tree.Iterate.{bst_ordering_correct_iff}
use kvdb.RedBlack.Colors.{NoRedRed, HasHeight, IsColored}
use kvdb.RedBlack.Balance.{insert-IsColored}
use kvdb.RedBlack.Order.{insert-IsSorted}
use kvdb.RedBlack.{
  Color, red, black, RbTree, is_red, subtree_has_no_red_node_with_red_child, root_is_black,
  black_height_of, insert, subtree_black_height_info, validate,
}

NoRedRed-iff : (t : RbTree) → (subtree_has_no_red_node_with_red_child t ≡ true) ↔ NoRedRed t
unfolding subtree_has_no_red_node_with_red_child
NoRedRed-iff nil = (λ _. tt, λ _. refl)
NoRedRed-iff (node red x l r) = ground (arith, NoRedRed-iff l, NoRedRed-iff r)
NoRedRed-iff (node black x l r) = ground (arith, NoRedRed-iff l, NoRedRed-iff r)

HasHeight-info : (t : RbTree) (n : ℕ) → HasHeight t n → subtree_black_height_info t ≡ (true, pos n)
unfolding subtree_black_height_info
HasHeight-info nil n h = ground arith
HasHeight-info (node red x l r) n h = ground (arith, HasHeight-info l n h.0, HasHeight-info r n h.1)
HasHeight-info (node black x l r) zero h = absurd h
HasHeight-info (node black x l r) (suc n) h =
    ground (arith, HasHeight-info l n h.0, HasHeight-info r n h.1)

same_height :
    (c : Color) (left right : Bool × ℤ)
    → (black_height_of c left right).0 ≡ true
    → (left.0 ≡ true) × (right.0 ≡ true) × ((left.1 ==ℤ right.1) ≡ true)
same_height c (a, i) (b, j) h = ground arith

joined :
    (c : Color) (x : InternalRecord) (l r : RbTree) (n : ℕ)
    → HasHeight l n
    → HasHeight r n
    → (m : ℕ) × HasHeight (node c x l r) m
joined red x l r n h k = (n, (h, k))
joined black x l r n h k = (suc n, (h, k))

info-HasHeight : (t : RbTree) → (subtree_black_height_info t).0 ≡ true → (n : ℕ) × HasHeight t n
unfolding subtree_black_height_info
info-HasHeight nil h = (1, refl)
info-HasHeight (node c x l r) h =
    let (a, b, e) = same_height c (subtree_black_height_info l) (subtree_black_height_info r) h in
    let (n, hn) = info-HasHeight l a in
    let (m, hm) = info-HasHeight r b in
    let n_is_m : n ≡ m = ground (arith, HasHeight-info l n hn, HasHeight-info r m hm, e) in
    joined c x l r n hn (subst (HasHeight r) (sym n_is_m) hm)

root_is_black_iff : (t : RbTree) → (root_is_black t ≡ true) ↔ (is_red t ≡ false)
unfolding root_is_black
root_is_black_iff nil = ground arith
root_is_black_iff (node red x l r) = ground arith
root_is_black_iff (node black x l r) = ground arith

-- `validate` answers true exactly on the trees with sorted records that obey the colour rules.
pub validate_iff : (t : RbTree) → (validate t ≡ true) ↔ (IsSorted (inorder t) × IsColored t)
unfolding validate
validate_iff t = (forth, back)
  where
    four :
        validate t ≡ true
        → (root_is_black t ≡ true)
          × (subtree_has_no_red_node_with_red_child t ≡ true)
          × (bst_ordering_correct t ≡ true)
          × ((subtree_black_height_info t).0 ≡ true)
    four h = ground arith

    forth : validate t ≡ true → IsSorted (inorder t) × IsColored t
    forth h =
        let (a, b, c, d) = four h in
        (
          (bst_ordering_correct_iff t).0 c,
          record {
            height = info-HasHeight t d;
            no_red_red = (NoRedRed-iff t).0 b;
            black_root = (root_is_black_iff t).0 a;
          },
        )

    back : IsSorted (inorder t) × IsColored t → validate t ≡ true
    back (sorted, colored) =
        let (n, height) = colored.height in
        rw
          (
            (root_is_black_iff t).1 colored.black_root,
            (NoRedRed-iff t).1 colored.no_red_red,
            (bst_ordering_correct_iff t).1 sorted,
            HasHeight-info t n height,
          )
          refl

-- `insert` keeps `validate` true, whether it adds the record or answers `Duplicate`.
pub validate-insert :
    (entry : InternalRecord) (t : RbTree) → validate t ≡ true → validate (insert entry t).1 ≡ true
validate-insert entry t h =
    let (sorted, colored) = (validate_iff t).0 h in
    (validate_iff (insert entry t).1).1
      (insert-IsSorted entry t sorted, insert-IsColored entry t colored)
