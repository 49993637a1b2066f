-- ===== src/RedBlack/Depth.antt =====
-- A valid red-black tree is shallow, so that lookup and insertion take logarithmically many steps.
use Prim.Native.Nat.{max}
use native.Mathlib.Nat.{pow-suc}
use kvdb.Base.{ℕ, zero, suc, ◌+◌, ◌-◌, ◌*◌, ◌^◌, ◌≤◌, ◌≡◌, refl, true, false, arith}
use kvdb.Tree.{nil, node, size}
use kvdb.RedBlack.{red, black, RbTree, is_red, validate}
use kvdb.RedBlack.Colors.{NoRedRed, HasHeight}
use kvdb.RedBlack.Valid.{validate_iff}

-- The longest way down.
abbrev pub depth : RbTree → ℕ
depth nil = 0
depth (node c x l r) = suc (max (depth l) (depth r))

abbrev red_weight : RbTree → ℕ
red_weight (node red x l r) = 1
red_weight (node black x l r) = 0
red_weight nil = 0

red_weight_zero : (t : RbTree) → is_red t ≡ false → red_weight t ≡ 0
red_weight_zero nil h = refl
red_weight_zero (node red x l r) h = cc
red_weight_zero (node black x l r) h = refl

red_weight_le : (t : RbTree) → red_weight t ≤ 1
red_weight_le nil = omega arith
red_weight_le (node red x l r) = omega arith
red_weight_le (node black x l r) = omega arith

doubled :
    (n a b : ℕ)
    → 2 ^ (suc n - 1) ≤ a + 1
    → 2 ^ (suc n - 1) ≤ b + 1
    → 2 ^ (suc (suc n) - 1) ≤ suc (a + b) + 1
doubled n a b h k =
    let p : suc (suc n) - 1 ≡ suc n = omega arith in
    let q : suc n - 1 ≡ n = omega arith in
    let h' : 2 ^ n ≤ a + 1 = rw q at h in
    let k' : 2 ^ n ≤ b + 1 = rw q at k in rw (p, pow-suc) (omega arith)

depth-HasHeight :
    (t : RbTree) (n : ℕ)
    → HasHeight t n
    → NoRedRed t
    → (1 ≤ n) × (2 ^ (n - 1) ≤ size t + 1) × (depth t + 2 ≤ 2 * n + red_weight t)
depth-HasHeight nil n h k = rw h (omega arith)
depth-HasHeight (node red x l r) n h k =
    let (a, b, c) = depth-HasHeight l n h.0 k.2 in
    let (a', b', c') = depth-HasHeight r n h.1 k.3 in
    (a, omega arith, omega (arith, red_weight_zero l k.0, red_weight_zero r k.1))
depth-HasHeight (node black x l r) zero h k = absurd h
depth-HasHeight (node black x l r) (suc zero) h k =
    let (a, b, c) = depth-HasHeight l zero h.0 k.0 in absurd (omega arith)
depth-HasHeight (node black x l r) (suc (suc n)) h k =
    let (a, b, c) = depth-HasHeight l (suc n) h.0 k.0 in
    let (a', b', c') = depth-HasHeight r (suc n) h.1 k.1 in
    (omega arith, doubled n (size l) (size r) b b', omega (arith, red_weight_le l, red_weight_le r))

-- In a valid tree no way down is longer than twice the binary logarithm of its size plus one.
pub depth-validate :
    (t : RbTree) → validate t ≡ true → (k : ℕ) × (depth t ≤ 2 * k) × (2 ^ k ≤ size t + 1)
depth-validate t h =
    let colored = ((validate_iff t).0 h).1 in
    let (n, height) = colored.height in
    let (a, b, c) = depth-HasHeight t n height colored.no_red_red in
    (n - 1, omega (arith, red_weight_zero t colored.black_root), b)
