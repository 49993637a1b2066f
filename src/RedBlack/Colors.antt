-- ===== src/RedBlack/Colors.antt =====
-- The colour rules of a red-black tree, for a whole tree and for one taken apart at the node in
-- focus, and how the parts make a whole.
use kvdb.Base.{ℕ, zero, suc, ◌≡◌, ◌⊎◌, refl, Bool, false, List, [], ◌∷◌, arith, inl, inr}
use kvdb.Tree.{nil, node, Frame, from_left, from_right, plug}
use kvdb.RedBlack.{Color, red, black, RbTree, is_red, frame_is_red}

-- No red node has a red child.
abbrev pub NoRedRed : RbTree → Type 0
NoRedRed nil = Unit
NoRedRed (node black x l r) = NoRedRed l × NoRedRed r
NoRedRed (node red x l r) = (is_red l ≡ false) × (is_red r ≡ false) × NoRedRed l × NoRedRed r

-- The same below the root.
abbrev pub NoRedRedBelow : RbTree → Type 0
NoRedRedBelow nil = Unit
NoRedRedBelow (node c x l r) = NoRedRed l × NoRedRed r

-- Each way down meets `n` black nodes, a null pointer counted as one.
abbrev pub HasHeight : RbTree → ℕ → Type 0
HasHeight nil n = n ≡ 1
HasHeight (node red x l r) n = HasHeight l n × HasHeight r n
HasHeight (node black x l r) zero = ⊥
HasHeight (node black x l r) (suc n) = HasHeight l n × HasHeight r n

abbrev pub parent_is_red : List (Frame Color) → Bool
parent_is_red [] = false
parent_is_red (f ∷ above) = frame_is_red f

-- The ancestors obey the colour rules, whatever stands in focus.
abbrev pub Clean : List (Frame Color) → Type 0
Clean [] = Unit
Clean (from_left black x r ∷ above) = NoRedRed r × Clean above
Clean (from_right black x l ∷ above) = NoRedRed l × Clean above
Clean (from_left red x r ∷ above) =
    NoRedRed r × (is_red r ≡ false) × (parent_is_red above ≡ false) × Clean above
Clean (from_right red x l ∷ above) =
    NoRedRed l × (is_red l ≡ false) × (parent_is_red above ≡ false) × Clean above

-- A focus of black height `n` fits the siblings on the way up.
abbrev pub HeightAbove : List (Frame Color) → ℕ → Type 0
HeightAbove [] n = Unit
HeightAbove (from_left red x r ∷ above) n = HasHeight r n × HeightAbove above n
HeightAbove (from_left black x r ∷ above) n = HasHeight r n × HeightAbove above (suc n)
HeightAbove (from_right red x l ∷ above) n = HasHeight l n × HeightAbove above n
HeightAbove (from_right black x l ∷ above) n = HasHeight l n × HeightAbove above (suc n)

HasHeight-plug :
    (t : RbTree) (above : List (Frame Color)) (n : ℕ)
    → HasHeight t n
    → HeightAbove above n
    → (m : ℕ) × HasHeight (plug t above) m
HasHeight-plug t [] n h k = (n, h)
HasHeight-plug t (from_left red x r ∷ above) n h k =
    HasHeight-plug (node red x t r) above n (h, k.0) k.1
HasHeight-plug t (from_left black x r ∷ above) n h k =
    HasHeight-plug (node black x t r) above (suc n) (h, k.0) k.1
HasHeight-plug t (from_right red x l ∷ above) n h k =
    HasHeight-plug (node red x l t) above n (k.0, h) k.1
HasHeight-plug t (from_right black x l ∷ above) n h k =
    HasHeight-plug (node black x l t) above (suc n) (k.0, h) k.1

-- A focus that is black, or has a black parent, keeps the colour rules all the way up.
NoRedRed-plug :
    (t : RbTree) (above : List (Frame Color))
    → NoRedRed t
    → (is_red t ≡ false) ⊎ (parent_is_red above ≡ false)
    → Clean above
    → NoRedRed (plug t above)
NoRedRed-plug t [] h b c = h
NoRedRed-plug t (from_left black x r ∷ above) h b c =
    NoRedRed-plug (node black x t r) above (h, c.0) (inl refl) c.1
NoRedRed-plug t (from_right black x l ∷ above) h b c =
    NoRedRed-plug (node black x l t) above (c.0, h) (inl refl) c.1
NoRedRed-plug t (from_left red x r ∷ above) h b c =
    NoRedRed-plug (node red x t r) above (ground arith, c.1, h, c.0) (inr c.2) c.3
NoRedRed-plug t (from_right red x l ∷ above) h b c =
    NoRedRed-plug (node red x l t) above (c.1, ground arith, c.0, h) (inr c.2) c.3

-- What `balance` hands to the last step: the root may be red over red.
abbrev pub Almost : RbTree → Type 0
Almost t = (n : ℕ) × HasHeight t n × NoRedRedBelow t

pub Below-of : (t : RbTree) → NoRedRed t → NoRedRedBelow t
Below-of nil h = tt
Below-of (node black x l r) h = h
Below-of (node red x l r) h = (h.2, h.3)

pub almost :
    (t : RbTree) (above : List (Frame Color)) (n : ℕ)
    → HasHeight t n
    → NoRedRed t
    → (is_red t ≡ false) ⊎ (parent_is_red above ≡ false)
    → Clean above
    → HeightAbove above n
    → Almost (plug t above)
almost t above n h k b c u =
    let (m, hm) = HasHeight-plug t above n h u in
    (m, hm, Below-of (plug t above) (NoRedRed-plug t above k b c))

-- The colour rules of a whole tree.
pub record IsColored (t : RbTree) : Type 0 where
  pub height : (n : ℕ) × HasHeight t n
  pub no_red_red : NoRedRed t
  pub black_root : is_red t ≡ false
