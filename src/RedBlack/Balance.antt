-- ===== src/RedBlack/Balance.antt =====
-- The two rebalancing steps, the loop and `insert`: `balance` restores the colour rules: no red node has a red child, and every way down from the
-- root meets equally many black nodes.
use kvdb.Base.{
  ℕ, zero, suc, ◌≡◌, refl, true, false, not, ◌&&◌, if◌then◌else◌, Option, none, some, List, [], ◌∷◌,
  arith, Bool-cases, inl, inr,
}
use mathlib.Core.Path.{subst}
use kvdb.Record.{InternalRecord, node_lt}
use kvdb.Record.Versions.{Whenever}
use kvdb.Tree.{nil, node, Frame, from_left, from_right, plug, descend}
use kvdb.RedBlack.Colors.{
  NoRedRed, HasHeight, parent_is_red, Clean, HeightAbove, Almost, almost, Below-of, IsColored,
}
use kvdb.RedBlack.{
  Color, red, black, RbTree, is_red, frame_is_red, paint, uncle_of, recolor, rotate_up,
  balance_loop, hang, insert,
}

-- The facts about a red focus below a red parent and a grandparent.
record RedParent (v : RbTree) (p g : Frame Color) (above : List (Frame Color)) (n : ℕ)
    : Type 0 where
  height : HasHeight v n
  no_red_red : NoRedRed v
  focus_red : is_red v ≡ true
  clean : Clean (p ∷ (g ∷ above))
  height_above : HeightAbove (p ∷ (g ∷ above)) n
  parent_red : frame_is_red p ≡ true

-- The rotations leave a black node of the grandparent's black height.
rotate_up_lem :
    (v : RbTree) (p g : Frame Color) (above : List (Frame Color)) (n : ℕ)
    → RedParent v p g above n
    → is_red (uncle_of g) ≡ false
    → HasHeight (rotate_up v p g) (suc n)
      × NoRedRed (rotate_up v p g)
      × (is_red (rotate_up v p g) ≡ false)
      × Clean above
      × HeightAbove above (suc n)
unfolding rotate_up uncle_of
rotate_up_lem (node red z l r) (from_left red x a) (from_left black y u) above n h e = ground arith
rotate_up_lem (node red z l r) (from_left red x a) (from_right black y u) above n h e = ground arith
rotate_up_lem (node red z l r) (from_right red x a) (from_left black y u) above n h e = ground arith
rotate_up_lem (node red z l r) (from_right red x a) (from_right black y u) above n h e =
    ground arith
rotate_up_lem v p g above n h e = ground arith

-- Recolouring leaves a red node of the grandparent's black height.
recolor_lem :
    (v : RbTree) (p g : Frame Color) (above : List (Frame Color)) (n : ℕ)
    → RedParent v p g above n
    → is_red (uncle_of g) ≡ true
    → HasHeight (recolor v p g) (suc n)
      × NoRedRed (recolor v p g)
      × (is_red (recolor v p g) ≡ true)
      × Clean above
      × HeightAbove above (suc n)
unfolding recolor uncle_of
recolor_lem (node red z l r) (from_left red x a) (from_left black y u) above n h e = ground arith
recolor_lem (node red z l r) (from_left red x a) (from_right black y u) above n h e = ground arith
recolor_lem (node red z l r) (from_right red x a) (from_left black y u) above n h e = ground arith
recolor_lem (node red z l r) (from_right red x a) (from_right black y u) above n h e = ground arith
recolor_lem v p g above n h e = ground arith

-- One ancestor alone is the root: `balance` ends there and blackens it.
root_parent :
    (v : RbTree) (p : Frame Color) (n : ℕ)
    → HasHeight v n
    → NoRedRed v
    → Clean (p ∷ [])
    → HeightAbove (p ∷ []) n
    → Almost (plug v (p ∷ []))
root_parent v (from_left red x r) n h k c u = (n, (h, u.0), (k, c.0))
root_parent v (from_left black x r) n h k c u = (suc n, (h, u.0), (k, c.0))
root_parent v (from_right red x l) n h k c u = (n, (u.0, h), (c.0, k))
root_parent v (from_right black x l) n h k c u = (suc n, (u.0, h), (c.0, k))

balance_loop-Almost :
    (v : RbTree) (above : List (Frame Color)) (n : ℕ)
    → HasHeight v n
    → NoRedRed v
    → is_red v ≡ true
    → Clean above
    → HeightAbove above n
    → Almost (balance_loop v above)
unfolding balance_loop
balance_loop-Almost v [] n h k f c u = (n, h, Below-of v k)
balance_loop-Almost v (p ∷ []) n h k f c u = root_parent v p n h k c u
balance_loop-Almost v (p ∷ (g ∷ above)) n h k f c u = elim (Bool-cases (frame_is_red p)) [
  | inr b ↦ rw b (almost v (p ∷ (g ∷ above)) n h k (inr b) c u)
  | inl b ↦
      let facts : RedParent v p g above n = record {
        height = h;
        no_red_red = k;
        focus_red = f;
        clean = c;
        height_above = u;
        parent_red = b;
      } in
      elim (Bool-cases (is_red (uncle_of g))) [
        | inl e ↦
            let (h', k', f', c', u') = recolor_lem v p g above n facts e in
            rw (b, e) (balance_loop-Almost (recolor v p g) above (suc n) h' k' f' c' u')
        | inr e ↦
            let (h', k', f', c', u') = rotate_up_lem v p g above n facts e in
            rw (b, e) (almost (rotate_up v p g) above (suc n) h' k' (inl f') c' u')
      ]
]

paint_black :
    (t : RbTree)
    → Almost t
    → ((n : ℕ) × HasHeight (paint black t) n)
      × NoRedRed (paint black t)
      × (is_red (paint black t) ≡ false)
unfolding paint
paint_black nil (n, h, b) = ((n, h), b, refl)
paint_black (node red x l r) (n, h, b) = ((suc n, h), b, refl)
paint_black (node black x l r) (n, h, b) = ((n, h), b, refl)

-- Ancestors below which a black node of height 1 may be hung as a red one.
abbrev Ready : List (Frame Color) → Type 0
Ready found = Clean found × HeightAbove found 1

choose :
    (v x : InternalRecord) (a b : Option (List (Frame Color)))
    → Whenever Ready a
    → Whenever Ready b
    → Whenever Ready
        (if not (node_lt v x) && not (node_lt x v) then none else if node_lt v x then a else b)
choose v x a b left right = elim (Bool-cases (node_lt v x)) [
  | inl below ↦ rw below left
  | inr h ↦ elim (Bool-cases (node_lt x v)) [
    | inl above ↦ rw (h, above) right
    | inr k ↦ rw (h, k) tt
  ]
]

-- The way down of an insertion obeys the colour rules.
descend-Ready :
    (v : InternalRecord) (t : RbTree) (above : List (Frame Color)) (n : ℕ)
    → HasHeight t n
    → NoRedRed t
    → Clean above
    → HeightAbove above n
    → (is_red t ≡ true → parent_is_red above ≡ false)
    → Whenever Ready (descend v t above)
unfolding descend
descend-Ready v nil above n h k c u b = (c, subst (HeightAbove above) h u)
descend-Ready v (node red x l r) above n h k c u b =
    let left =
      descend-Ready v l (from_left red x r ∷ above) n h.0 k.2 (k.3, k.1, b refl, c) (h.1, u)
        (λ e. cc) in
    let right =
      descend-Ready v r (from_right red x l ∷ above) n h.1 k.3 (k.2, k.0, b refl, c) (h.0, u)
        (λ e. cc) in
    choose v x _ _ left right
descend-Ready v (node black x l r) above zero h k c u b = absurd h
descend-Ready v (node black x l r) above (suc n) h k c u b =
    let left =
      descend-Ready v l (from_left black x r ∷ above) n h.0 k.0 (k.1, c) (h.1, u) (λ e. refl) in
    let right =
      descend-Ready v r (from_right black x l ∷ above) n h.1 k.1 (k.0, c) (h.0, u) (λ e. refl) in
    choose v x _ _ left right

hang-IsColored :
    (entry : InternalRecord) (t : RbTree) (found : Option (List (Frame Color)))
    → IsColored t
    → Whenever Ready found
    → IsColored (hang entry t found).1
unfolding hang
hang-IsColored entry t none h ready = h
hang-IsColored entry t (some found) h (clean, height_above) =
    let leaf : RbTree = node red entry nil nil in
    let (height, no_red_red, black_root) = paint_black (balance_loop leaf found) (
      balance_loop-Almost leaf found 1 (refl, refl) (refl, refl, tt, tt) refl clean height_above) in
    record { height = height; no_red_red = no_red_red; black_root = black_root }

-- `insert` keeps the colour rules, whether it adds the record or refuses it.
pub insert-IsColored :
    (entry : InternalRecord) (t : RbTree) → IsColored t → IsColored (insert entry t).1
unfolding insert
insert-IsColored entry t h =
    let (n, height) = h.height in
    hang-IsColored entry t (descend entry t []) h
      (descend-Ready entry t [] n height h.no_red_red tt tt (λ _. refl))
