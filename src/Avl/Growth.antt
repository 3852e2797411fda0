-- ===== src/Avl/Growth.antt =====
-- Insertion below a balanced node of project-3/avl.c: the balance is kept, and the height grows by
-- at most one.
use Prim.Native.Nat.{max}
use Prim.Native.Nat.Ordering.{lt, eq, gt}
use native.Mathlib.Decide.{dec_lt}
use os_cs238p_proj.Common.{
  ℕ, suc, ◌+◌, ◌≤◌, ◌<◌, ◌≡◌, ◌≢◌, refl, ◌⊎◌, inl, inr, arith, Ordering-cases,
}
use os_cs238p_proj.Common.Int.{pos}
use os_cs238p_proj.Common.Bytes.{CString, strcmp, strcmp_refl}
use os_cs238p_proj.Common.Word.{add64}
use os_cs238p_proj.Avl.Balance.{
  height, IsAvl, balance-IsAvl, set_depth-IsAvl, height-set_depth, rotate_right-IsAvl,
  height-rotate_right, rotate_left-IsAvl, height-rotate_left, rotate_left_right-IsAvl,
  rotate_right_left-IsAvl,
}
use os_cs238p_proj.Avl.Insert.{item_of, fix_left, fix_right, refresh}
use os_cs238p_proj.Avl.Graft.{graft, graft-lt, graft-eq, graft-gt}
use os_cs238p_proj.Avl.{
  Cell, Node, null, node, set_depth, rotate_right, rotate_left, rotate_left_right,
  rotate_right_left,
}

pub refresh-IsAvl : (t : Node) → IsAvl t → IsAvl (refresh t) × (height (refresh t) ≡ height t)
unfolding refresh
refresh-IsAvl null h = (tt, refl)
refresh-IsAvl (node c l r) h = (set_depth-IsAvl c l r h.3 h.4 h.1 h.2, height-set_depth c l r)

module _ (item : CString) (c : Cell) (l r : Node) (hl : IsAvl l) (hr : IsAvl r) where
  fix_left_still :
      height l ≤ height r + 1 → height r ≤ height l + 1 → fix_left item (node c l r) ≡ node c l r
  unfolding fix_left
  fix_left_still p q = rw (balance-IsAvl c l r hl hr) (ground arith)

  fix_left_single :
      height l ≡ height r + 2
      → strcmp item (item_of l) ≡ lt
      → fix_left item (node c l r) ≡ rotate_right (node c l r)
  unfolding fix_left
  fix_left_single p q = rw (balance-IsAvl c l r hl hr, q) (ground arith)

  fix_left_double :
      height l ≡ height r + 2
      → strcmp item (item_of l) ≡ gt
      → fix_left item (node c l r) ≡ rotate_left_right (node c l r)
  unfolding fix_left
  fix_left_double p q = rw (balance-IsAvl c l r hl hr, q) (ground arith)

  fix_right_still :
      height l ≤ height r + 1 → height r ≤ height l + 1 → fix_right item (node c l r) ≡ node c l r
  unfolding fix_right
  fix_right_still p q = rw (balance-IsAvl c l r hl hr) (ground arith)

  fix_right_single :
      height r ≡ height l + 2
      → strcmp item (item_of r) ≡ gt
      → fix_right item (node c l r) ≡ rotate_left (node c l r)
  unfolding fix_right
  fix_right_single p q = rw (balance-IsAvl c l r hl hr, q) (ground arith)

  fix_right_double :
      height r ≡ height l + 2
      → strcmp item (item_of r) ≡ lt
      → fix_right item (node c l r) ≡ rotate_right_left (node c l r)
  unfolding fix_right
  fix_right_double p q = rw (balance-IsAvl c l r hl hr, q) (ground arith)

-- At a tree that insertion has made taller, the side of the item is the taller one.
abbrev pub Leans : CString → Node → Type 0
Leans item null = Unit
Leans item (node c l r) =
    (strcmp item c.item ≡ lt → height l ≡ suc (height r))
    × (strcmp item c.item ≡ eq → (height l ≡ 0) × (height r ≡ 0))
    × (strcmp item c.item ≡ gt → height r ≡ suc (height l))

abbrev pub Grown : CString → ℕ → Node → Type 0
Grown item h t = IsAvl t × ((height t ≡ h) ⊎ ((height t ≡ suc h) × Leans item t))

near : (h k : ℕ) → h ≤ k + 1 → (h < k) ⊎ (h ≡ k) ⊎ (h ≡ k + 1)
near h k p = elim (dec_lt h k) [
  | yes q ↦ inl q
  | no q ↦ elim (dec_lt k h) [ yes q' ↦ inr (inr (omega arith)) | no q' ↦ inr (inl (omega arith)) ]
]

-- The two rotations that an insertion at the left can need bring the height back.
rotated_left :
    (item : CString) (c : Cell) (l r : Node)
    → IsAvl l
    → IsAvl r
    → Leans item l
    → height l ≡ height r + 2
    → IsAvl (fix_left item (node c l r)) × (height (fix_left item (node c l r)) ≡ height r + 2)
rotated_left item c null r k hr s q = absurd (omega arith)
rotated_left item c (node d ll lr) r k hr s q = elim (Ordering-cases (strcmp item d.item)) [
  | inl e ↦
      let grew = s.0 e in
      rw (fix_left_single item c (node d ll lr) r k hr q e) (
        rotate_right-IsAvl c d ll lr r k hr q (omega arith),
        omega (arith, height-rotate_right c d ll lr r),
      )
  | inr (inl e) ↦ let empty = s.1 e in absurd (omega arith)
  | inr (inr e) ↦
      let grew = s.2 e in
      let done = rotate_left_right-IsAvl c d ll lr r k hr q (omega arith) in
      rw (fix_left_double item c (node d ll lr) r k hr q e) (done.0, omega arith)
]

rotated_right :
    (item : CString) (c : Cell) (l r : Node)
    → IsAvl l
    → IsAvl r
    → Leans item r
    → height r ≡ height l + 2
    → IsAvl (fix_right item (node c l r)) × (height (fix_right item (node c l r)) ≡ height l + 2)
rotated_right item c l null hl k s q = absurd (omega arith)
rotated_right item c l (node d rl rr) hl k s q = elim (Ordering-cases (strcmp item d.item)) [
  | inl e ↦
      let grew = s.0 e in
      let done = rotate_right_left-IsAvl c d l rl rr hl k q (omega arith) in
      rw (fix_right_double item c l (node d rl rr) hl k q e) (done.0, omega arith)
  | inr (inl e) ↦ let empty = s.1 e in absurd (omega arith)
  | inr (inr e) ↦
      let grew = s.2 e in
      rw (fix_right_single item c l (node d rl rr) hl k q e) (
        rotate_left-IsAvl c d l rl rr hl k q (omega arith),
        omega (arith, height-rotate_left c d l rl rr),
      )
]

-- The step at the left: `l` is the subtree that the item went into.
fix_left-Grown :
    (item : CString) (c : Cell) (l r : Node) (h : ℕ)
    → strcmp item c.item ≡ lt
    → Grown item h l
    → IsAvl r
    → h ≤ height r + 1
    → height r ≤ h + 1
    → Grown item (suc (max h (height r))) (refresh (fix_left item (node c l r)))
unfolding refresh
fix_left-Grown item c l r h e (k, inl p) hr a b =
    rw (fix_left_still item c l r k hr (omega arith) (omega arith)) (
      set_depth-IsAvl c l r k hr (omega arith) (omega arith),
      inl (omega (arith, height-set_depth c l r)),
    )
fix_left-Grown item c l r h e (k, inr (p, s)) hr a b = elim (near h (height r) a) [
  | inl q ↦ rw (fix_left_still item c l r k hr (omega arith) (omega arith)) (
    set_depth-IsAvl c l r k hr (omega arith) (omega arith),
    inl (omega (arith, height-set_depth c l r)),
  )
  | inr (inl q) ↦ rw (fix_left_still item c l r k hr (omega arith) (omega arith)) (
    set_depth-IsAvl c l r k hr (omega arith) (omega arith),
    inr (
      omega (arith, height-set_depth c l r),
      unfold set_depth in (λ _. omega arith, λ f. cc, λ f. cc),
    ),
  )
  | inr (inr q) ↦
      let done = rotated_left item c l r k hr s (omega arith) in
      let fresh = refresh-IsAvl (fix_left item (node c l r)) done.0 in (fresh.0, inl (omega arith))
]

fix_right-Grown :
    (item : CString) (c : Cell) (l r : Node) (h : ℕ)
    → strcmp item c.item ≡ gt
    → Grown item h r
    → IsAvl l
    → h ≤ height l + 1
    → height l ≤ h + 1
    → Grown item (suc (max (height l) h)) (refresh (fix_right item (node c l r)))
unfolding refresh
fix_right-Grown item c l r h e (k, inl p) hl a b =
    rw (fix_right_still item c l r hl k (omega arith) (omega arith)) (
      set_depth-IsAvl c l r hl k (omega arith) (omega arith),
      inl (omega (arith, height-set_depth c l r)),
    )
fix_right-Grown item c l r h e (k, inr (p, s)) hl a b = elim (near h (height l) a) [
  | inl q ↦ rw (fix_right_still item c l r hl k (omega arith) (omega arith)) (
    set_depth-IsAvl c l r hl k (omega arith) (omega arith),
    inl (omega (arith, height-set_depth c l r)),
  )
  | inr (inl q) ↦ rw (fix_right_still item c l r hl k (omega arith) (omega arith)) (
    set_depth-IsAvl c l r hl k (omega arith) (omega arith),
    inr (
      omega (arith, height-set_depth c l r),
      unfold set_depth in (λ f. cc, λ f. cc, λ _. omega arith),
    ),
  )
  | inr (inr q) ↦
      let done = rotated_right item c l r hl k s (omega arith) in
      let fresh = refresh-IsAvl (fix_right item (node c l r)) done.0 in (fresh.0, inl (omega arith))
]

lt_irrefl : (a : CString) → strcmp a a ≢ lt
lt_irrefl a e = cc (strcmp_refl a)

gt_irrefl : (a : CString) → strcmp a a ≢ gt
gt_irrefl a e = cc (strcmp_refl a)

-- Insertion keeps the balance, and the height grows by at most one.
pub graft-Grown :
    (n : Cell) (t : Node) → n.depth ≡ pos 0 → IsAvl t → Grown n.item (height t) (graft n t)
graft-Grown n null d h =
    unfold graft in
    (
      (d, omega arith, omega arith, tt, tt),
      inr (
        refl,
        (λ e. absurd (lt_irrefl n.item e), λ e. (refl, refl), λ e. absurd (gt_irrefl n.item e)),
      ),
    )
graft-Grown n (node c l r) d h = elim (Ordering-cases (strcmp n.item c.item)) [
  | inl e ↦
      rw (graft-lt n c l r e)
        (fix_left-Grown n.item c (graft n l) r (height l) e (graft-Grown n l d h.3) h.4 h.1 h.2)
  | inr (inl e) ↦
      let fresh = refresh-IsAvl (node (record c { count = add64 c.count 1 }) l r) h in
      rw (graft-eq n c l r e) (fresh.0, inl fresh.1)
  | inr (inr e) ↦
      rw (graft-gt n c l r e)
        (fix_right-Grown n.item c l (graft n r) (height r) e (graft-Grown n r d h.4) h.3 h.2 h.1)
]

pub graft-IsAvl : (n : Cell) (t : Node) → n.depth ≡ pos 0 → IsAvl t → IsAvl (graft n t)
graft-IsAvl n t d h = (graft-Grown n t d h).0
