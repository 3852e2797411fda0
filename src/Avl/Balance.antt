-- ===== src/Avl/Balance.antt =====
-- Heights in project-3/avl.c: the cached `depth` of a node, and what the rotations do to it.
use Prim.Native.Nat.{max}
use os_cs238p_proj.Common.{ℕ, suc, ◌+◌, ◌≤◌, ◌<◌, ◌≡◌, refl, arith}
use os_cs238p_proj.Common.Int.{pos, sub_ℕ, ◌+ℤ◌, ◌-ℤ◌}
use os_cs238p_proj.Avl.{
  Cell, Node, null, node, delta, balance, depth, set_depth, rotate_right, rotate_left,
  rotate_left_right, rotate_right_left,
}

abbrev pub height : Node → ℕ
height null = 0
height (node c l r) = suc (max (height l) (height r))

-- Every node's subtrees differ in height by at most one, and its `depth` is its height less one.
abbrev pub IsAvl : Node → Type 0
IsAvl null = Unit
IsAvl (node c l r) =
    (c.depth ≡ pos (max (height l) (height r)))
    × (height l ≤ height r + 1)
    × (height r ≤ height l + 1)
    × IsAvl l
    × IsAvl r

pub delta-IsAvl : (t : Node) → IsAvl t → delta t ≡ sub_ℕ (height t) 1
unfolding delta
delta-IsAvl null h = refl
delta-IsAvl (node c l r) h = ground arith

pub depth-IsAvl : (l r : Node) → IsAvl l → IsAvl r → depth l r ≡ pos (max (height l) (height r))
unfolding depth ◌+ℤ◌
depth-IsAvl l r hl hr = rw (delta-IsAvl l hl, delta-IsAvl r hr) (ground arith)

-- The test `1 < abs(balance(root))`.
pub balance-IsAvl :
    (c : Cell) (l r : Node) → IsAvl l → IsAvl r → balance (node c l r) ≡ sub_ℕ (height l) (height r)
unfolding balance ◌-ℤ◌
balance-IsAvl c l r hl hr = rw (delta-IsAvl l hl, delta-IsAvl r hr) (ground arith)

pub set_depth-IsAvl :
    (c : Cell) (l r : Node)
    → IsAvl l
    → IsAvl r
    → height l ≤ height r + 1
    → height r ≤ height l + 1
    → IsAvl (set_depth c l r)
unfolding set_depth
set_depth-IsAvl c l r hl hr p q = (depth-IsAvl l r hl hr, p, q, hl, hr)

pub height-set_depth :
    (c : Cell) (l r : Node) → height (set_depth c l r) ≡ suc (max (height l) (height r))
unfolding set_depth
height-set_depth c l r = refl

pub rotate_right-IsAvl :
    (c d : Cell) (ll lr r : Node)
    → IsAvl (node d ll lr)
    → IsAvl r
    → height (node d ll lr) ≡ height r + 2
    → height lr ≤ height ll
    → IsAvl (rotate_right (node c (node d ll lr) r))
unfolding rotate_right
rotate_right-IsAvl c d ll lr r h hr e p =
    let low = set_depth-IsAvl c lr r h.4 hr (omega arith) (omega arith) in
    let k = height-set_depth c lr r in
    set_depth-IsAvl d ll (set_depth c lr r) h.3 low (omega arith) (omega arith)

pub height-rotate_right :
    (c d : Cell) (ll lr r : Node)
    → height (rotate_right (node c (node d ll lr) r))
      ≡ suc (max (height ll) (suc (max (height lr) (height r))))
unfolding rotate_right set_depth
height-rotate_right c d ll lr r = refl

pub rotate_left-IsAvl :
    (c d : Cell) (l rl rr : Node)
    → IsAvl l
    → IsAvl (node d rl rr)
    → height (node d rl rr) ≡ height l + 2
    → height rl ≤ height rr
    → IsAvl (rotate_left (node c l (node d rl rr)))
unfolding rotate_left
rotate_left-IsAvl c d l rl rr hl h e p =
    let low = set_depth-IsAvl c l rl hl h.3 (omega arith) (omega arith) in
    let k = height-set_depth c l rl in
    (
      rw (depth-IsAvl rr (set_depth c l rl) h.4 low) (ground arith),
      omega arith,
      omega arith,
      low,
      h.4,
    )

pub height-rotate_left :
    (c d : Cell) (l rl rr : Node)
    → height (rotate_left (node c l (node d rl rr)))
      ≡ suc (max (suc (max (height l) (height rl))) (height rr))
unfolding rotate_left set_depth
height-rotate_left c d l rl rr = refl

-- The double rotations, of which the middle subtree is the taller one.
pub rotate_left_right-IsAvl :
    (c d : Cell) (ll lr r : Node)
    → IsAvl (node d ll lr)
    → IsAvl r
    → height (node d ll lr) ≡ height r + 2
    → height ll < height lr
    → IsAvl (rotate_left_right (node c (node d ll lr) r))
      × (height (rotate_left_right (node c (node d ll lr) r)) ≡ height (node d ll lr))
unfolding rotate_left_right rotate_left rotate_right
rotate_left_right-IsAvl c d ll null r h hr e p = absurd (omega arith)
rotate_left_right-IsAvl c d ll (node x a b) r h hr e p =
    let low = set_depth-IsAvl d ll a h.3 h.4.3 (omega arith) (omega arith) in
    let k = height-set_depth d ll a in
    let high = set_depth-IsAvl c b r h.4.4 hr (omega arith) (omega arith) in
    let m = height-set_depth c b r in
    (
      set_depth-IsAvl _ (set_depth d ll a) (set_depth c b r) low high (omega arith) (omega arith),
      omega (arith, height-set_depth _ (set_depth d ll a) (set_depth c b r)),
    )

pub rotate_right_left-IsAvl :
    (c d : Cell) (l rl rr : Node)
    → IsAvl l
    → IsAvl (node d rl rr)
    → height (node d rl rr) ≡ height l + 2
    → height rr < height rl
    → IsAvl (rotate_right_left (node c l (node d rl rr)))
      × (height (rotate_right_left (node c l (node d rl rr))) ≡ height (node d rl rr))
unfolding rotate_right_left rotate_left rotate_right set_depth
rotate_right_left-IsAvl c d l null rr hl h e p = absurd (omega arith)
rotate_right_left-IsAvl c d l (node x a b) rr hl h e p =
    let low = set_depth-IsAvl c l a hl h.3.3 (omega arith) (omega arith) in
    let k = height-set_depth c l a in
    let high = set_depth-IsAvl d b rr h.3.4 h.4 (omega arith) (omega arith) in
    let m = height-set_depth d b rr in
    (
      (
        rw (depth-IsAvl (set_depth d b rr) (set_depth c l a) high low) (ground arith),
        omega arith,
        omega arith,
        low,
        high,
      ),
      omega arith,
    )
