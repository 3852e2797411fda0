-- ===== src/Avl/Shrink.antt =====
-- Deletion in project-3/avl.c keeps the balance, and the height falls by at most one.
use Prim.Native.Nat.{max}
use native.Mathlib.Decide.{dec_lt}
use os_cs238p_proj.Common.{
  ℕ, suc, ◌+◌, ◌≤◌, ◌<◌, ◌≡◌, inl, inr, arith, ltb, Bool-cases, Ordering-cases,
}
use os_cs238p_proj.Common.Int.{sub_ℕ}
use os_cs238p_proj.Common.Bytes.{CString, strcmp}
use os_cs238p_proj.Common.Word.{sub64}
use os_cs238p_proj.Avl.Balance.{
  height, IsAvl, balance-IsAvl, set_depth-IsAvl, height-set_depth, rotate_right-IsAvl,
  height-rotate_right, rotate_left-IsAvl, height-rotate_left, rotate_left_right-IsAvl,
  rotate_right_left-IsAvl,
}
use os_cs238p_proj.Avl.Delete.{find_min, rebalance}
use os_cs238p_proj.Avl.Prune.{
  drop_min, unlink, prune, moved, prune-lt, prune-gt, prune_many, prune_last,
}
use os_cs238p_proj.Avl.{
  Cell, Node, null, node, set_depth, balance, depth, rotate_right, rotate_left, rotate_left_right,
  rotate_right_left,
}

module _ (c : Cell) (l r : Node) (hl : IsAvl l) (hr : IsAvl r) where
  balance-set_depth : balance (set_depth c l r) ≡ sub_ℕ (height l) (height r)
  unfolding set_depth
  balance-set_depth = balance-IsAvl (record c { depth = depth l r }) l r hl hr

  rebalance_still :
      height l ≤ height r + 1 → height r ≤ height l + 1 → rebalance (node c l r) ≡ set_depth c l r
  unfolding rebalance
  rebalance_still p q = rw balance-set_depth (ground arith)

-- The four cases in which the step rotates.
module _ (c d : Cell) (a b o : Node) (h : IsAvl (node d a b)) (ho : IsAvl o) where
  rebalance_left_single :
      height (node d a b) ≡ height o + 2
      → height b ≤ height a
      → rebalance (node c (node d a b) o) ≡ rotate_right (set_depth c (node d a b) o)
  unfolding rebalance
  rebalance_left_single p q =
      rw (balance-set_depth c (node d a b) o h ho, balance-IsAvl d a b h.3 h.4) (ground arith)

  rebalance_left_double :
      height (node d a b) ≡ height o + 2
      → height a < height b
      → rebalance (node c (node d a b) o) ≡ rotate_left_right (set_depth c (node d a b) o)
  unfolding rebalance
  rebalance_left_double p q =
      rw (balance-set_depth c (node d a b) o h ho, balance-IsAvl d a b h.3 h.4) (ground arith)

  rebalance_right_single :
      height (node d a b) ≡ height o + 2
      → height a ≤ height b
      → rebalance (node c o (node d a b)) ≡ rotate_left (set_depth c o (node d a b))
  unfolding rebalance
  rebalance_right_single p q =
      rw (balance-set_depth c o (node d a b) ho h, balance-IsAvl d a b h.3 h.4) (ground arith)

  rebalance_right_double :
      height (node d a b) ≡ height o + 2
      → height b < height a
      → rebalance (node c o (node d a b)) ≡ rotate_right_left (set_depth c o (node d a b))
  unfolding rebalance
  rebalance_right_double p q =
      rw (balance-set_depth c o (node d a b) ho h, balance-IsAvl d a b h.3 h.4) (ground arith)

-- Rebalanced after a subtree has become lower: the height is the greater of the two, or one more,
-- and one more where they differ by at most one.
abbrev Rebalanced : Node → Node → Node → Type 0
Rebalanced l r t =
    IsAvl t × (max (height l) (height r) ≤ height t) × (height t ≤ suc (max (height l) (height r)))

rebalance_left-Rebalanced :
    (c : Cell) (l r : Node)
    → IsAvl l
    → IsAvl r
    → height l ≡ height r + 2
    → Rebalanced l r (rebalance (node c l r))
unfolding set_depth
rebalance_left-Rebalanced c null r hl hr p = absurd (omega arith)
rebalance_left-Rebalanced c (node d ll lr) r hl hr p = elim (dec_lt (height ll) (height lr)) [
  | yes q ↦
      let k : Cell = record c { depth = depth (node d ll lr) r } in
      let done = rotate_left_right-IsAvl k d ll lr r hl hr p q in
      rw (rebalance_left_double c d ll lr r hl hr p q) (done.0, omega arith, omega arith)
  | no q ↦
      let k : Cell = record c { depth = depth (node d ll lr) r } in
      let tall = height-rotate_right k d ll lr r in
      rw (rebalance_left_single c d ll lr r hl hr p (omega arith))
        (rotate_right-IsAvl k d ll lr r hl hr p (omega arith), omega arith, omega arith)
]

rebalance_right-Rebalanced :
    (c : Cell) (l r : Node)
    → IsAvl l
    → IsAvl r
    → height r ≡ height l + 2
    → Rebalanced l r (rebalance (node c l r))
unfolding set_depth
rebalance_right-Rebalanced c l null hl hr p = absurd (omega arith)
rebalance_right-Rebalanced c l (node d rl rr) hl hr p = elim (dec_lt (height rr) (height rl)) [
  | yes q ↦
      let k : Cell = record c { depth = depth l (node d rl rr) } in
      let done = rotate_right_left-IsAvl k d l rl rr hl hr p q in
      rw (rebalance_right_double c d rl rr l hr hl p q) (done.0, omega arith, omega arith)
  | no q ↦
      let k : Cell = record c { depth = depth l (node d rl rr) } in
      let tall = height-rotate_left k d l rl rr in
      rw (rebalance_right_single c d rl rr l hr hl p (omega arith))
        (rotate_left-IsAvl k d l rl rr hl hr p (omega arith), omega arith, omega arith)
]

rebalance_still-Rebalanced :
    (c : Cell) (l r : Node)
    → IsAvl l
    → IsAvl r
    → height l ≤ height r + 1
    → height r ≤ height l + 1
    → IsAvl (rebalance (node c l r))
      × (height (rebalance (node c l r)) ≡ suc (max (height l) (height r)))
rebalance_still-Rebalanced c l r hl hr p q =
    rw (rebalance_still c l r hl hr p q) (set_depth-IsAvl c l r hl hr p q, height-set_depth c l r)

-- A tree that deletion has left balanced, and at most one lower than `h`.
abbrev pub Shrunk : ℕ → Node → Type 0
Shrunk h t = IsAvl t × (height t ≤ h) × (h ≤ height t + 1)

rebalance_left-Shrunk :
    (c : Cell) (l r : Node) (h : ℕ)
    → Shrunk h l
    → IsAvl r
    → h ≤ height r + 1
    → height r ≤ h + 1
    → Shrunk (suc (max h (height r))) (rebalance (node c l r))
rebalance_left-Shrunk c l r h s hr p q = elim (dec_lt (height l + 1) (height r)) [
  | yes k ↦
      let done = rebalance_right-Rebalanced c l r s.0 hr (omega arith) in
      (done.0, omega arith, omega arith)
  | no k ↦
      let done = rebalance_still-Rebalanced c l r s.0 hr (omega arith) (omega arith) in
      (done.0, omega arith, omega arith)
]

rebalance_right-Shrunk :
    (c : Cell) (l r : Node) (h : ℕ)
    → Shrunk h r
    → IsAvl l
    → h ≤ height l + 1
    → height l ≤ h + 1
    → Shrunk (suc (max (height l) h)) (rebalance (node c l r))
rebalance_right-Shrunk c l r h s hl p q = elim (dec_lt (height r + 1) (height l)) [
  | yes k ↦
      let done = rebalance_left-Rebalanced c l r hl s.0 (omega arith) in
      (done.0, omega arith, omega arith)
  | no k ↦
      let done = rebalance_still-Rebalanced c l r hl s.0 (omega arith) (omega arith) in
      (done.0, omega arith, omega arith)
]

drop_min-Shrunk :
    (c : Cell) (l r : Node) → IsAvl (node c l r) → Shrunk (height (node c l r)) (drop_min c l r)
unfolding drop_min
drop_min-Shrunk c null r h = (h.4, omega arith, omega arith)
drop_min-Shrunk c (node d ll lr) r h =
    rebalance_left-Shrunk c (drop_min d ll lr) r (height (node d ll lr))
      (drop_min-Shrunk d ll lr h.3) h.4 h.1 h.2

unlink-Shrunk :
    (copy : ℕ) (c : Cell) (l r : Node)
    → IsAvl (node c l r)
    → Shrunk (height (node c l r)) (unlink copy c l r)
unfolding unlink
unlink-Shrunk copy c null r h = (h.4, omega arith, omega arith)
unlink-Shrunk copy c (node d ll lr) null h = (h.3, omega arith, omega arith)
unlink-Shrunk copy c (node d ll lr) (node e rl rr) h =
    rebalance_right-Shrunk (moved copy c (find_min e rl)) (node d ll lr) (drop_min e rl rr)
      (height (node e rl rr)) (drop_min-Shrunk e rl rr h.4) h.3 h.2 h.1

-- Deletion keeps the balance, and the height falls by at most one.
pub prune-Shrunk :
    (copy : ℕ) (t : Node) (item : CString) → IsAvl t → Shrunk (height t) (prune copy t item)
prune-Shrunk copy null item h = unfold prune in (tt, omega arith, omega arith)
prune-Shrunk copy (node c l r) item h = elim (Ordering-cases (strcmp item c.item)) [
  | inl o ↦ rw (prune-lt copy c l r item o) (
      rebalance_left-Shrunk c (prune copy l item) r (height l) (prune-Shrunk copy l item h.3) h.4
        h.1 h.2)
  | inr (inl o) ↦ elim (Bool-cases (ltb 1 c.count)) [
    | inl k ↦
        let done =
          rebalance_still-Rebalanced (record c { count = sub64 c.count 1 }) l r h.3 h.4 h.1 h.2 in
        rw (prune_many copy c l r item o k) (done.0, omega arith, omega arith)
    | inr k ↦ rw (prune_last copy c l r item o k) (unlink-Shrunk copy c l r h)
  ]
  | inr (inr o) ↦ rw (prune-gt copy c l r item o) (
      rebalance_right-Shrunk c l (prune copy r item) (height r) (prune-Shrunk copy r item h.4) h.3
        h.2 h.1)
]
