-- ===== src/Avl/Totals.antt =====
-- The number of nodes of a tree of project-3/avl.c and the sum of their counts: what the fields
-- `unique` and `items` of `struct state` keep.
use os_cs238p_proj.Common.{ℕ, zero, suc, ◌+◌, ◌<◌, ◌≡◌, refl, ◌∙◌, arith, Ordering-cases, inl, inr}
use os_cs238p_proj.Common.Bytes.{CString, strcmp}
use os_cs238p_proj.Common.Word.{add64, add64_exact, u64_mod}
use os_cs238p_proj.Avl.Insert.{fix_left, fix_right, refresh}
use os_cs238p_proj.Avl.Lookup.{exists-lt, exists-eq, exists-gt}
use os_cs238p_proj.Avl.Graft.{graft, graft-lt, graft-eq, graft-gt, fix_left_any, fix_right_any}
use os_cs238p_proj.Avl.{
  Cell, Node, null, node, set_depth, rotate_right, rotate_left, rotate_left_right,
  rotate_right_left, exists,
}

abbrev pub size : Node → ℕ
size null = 0
size (node c l r) = suc (size l + size r)

abbrev pub total : Node → ℕ
total null = 0
total (node c l r) = c.count + total l + total r

-- No node has a count of 0.
abbrev pub IsPositive : Node → Type 0
IsPositive null = Unit
IsPositive (node c l r) = (0 < c.count) × IsPositive l × IsPositive r

-- Two trees with the same nodes, as far as these numbers go.
abbrev pub SameTotals : Node → Node → Type 0
SameTotals t u = (size u ≡ size t) × (total u ≡ total t) × (IsPositive t → IsPositive u)

pub rotate_right-SameTotals : (t : Node) → SameTotals t (rotate_right t)
unfolding rotate_right set_depth
rotate_right-SameTotals null = (refl, refl, λ h. h)
rotate_right-SameTotals (node c null r) = (refl, refl, λ h. h)
rotate_right-SameTotals (node c (node d ll lr) r) =
    (omega arith, omega arith, λ h. (h.1.0, h.1.1, (h.0, h.1.2, h.2)))

pub rotate_left-SameTotals : (t : Node) → SameTotals t (rotate_left t)
unfolding rotate_left set_depth
rotate_left-SameTotals null = (refl, refl, λ h. h)
rotate_left-SameTotals (node c l null) = (refl, refl, λ h. h)
rotate_left-SameTotals (node c l (node d rl rr)) =
    (omega arith, omega arith, λ h. (h.2.0, (h.0, h.1, h.2.1), h.2.2))

pub rotate_left_right-SameTotals : (t : Node) → SameTotals t (rotate_left_right t)
unfolding rotate_left_right
rotate_left_right-SameTotals null = (refl, refl, λ h. h)
rotate_left_right-SameTotals (node c l r) =
    let inner = rotate_left-SameTotals l in
    let outer = rotate_right-SameTotals (node c (rotate_left l) r) in
    (omega arith, omega arith, λ h. outer.2 (h.0, inner.2 h.1, h.2))

pub rotate_right_left-SameTotals : (t : Node) → SameTotals t (rotate_right_left t)
unfolding rotate_right_left
rotate_right_left-SameTotals null = (refl, refl, λ h. h)
rotate_right_left-SameTotals (node c l r) =
    let inner = rotate_right-SameTotals r in
    let outer = rotate_left-SameTotals (node c l (rotate_right r)) in
    (omega arith, omega arith, λ h. outer.2 (h.0, h.1, inner.2 h.2))

refresh-SameTotals : (t : Node) → SameTotals t (refresh t)
unfolding refresh set_depth
refresh-SameTotals null = (refl, refl, λ h. h)
refresh-SameTotals (node c l r) = (refl, refl, λ h. h)

fix_left-SameTotals : (item : CString) (t : Node) → SameTotals t (refresh (fix_left item t))
fix_left-SameTotals item t =
    let done =
      fix_left_any (SameTotals t) item t (refl, refl, λ h. h) (rotate_right-SameTotals t)
        (rotate_left_right-SameTotals t) in
    let fresh = refresh-SameTotals (fix_left item t) in
    (fresh.0 ∙ done.0, fresh.1 ∙ done.1, λ h. fresh.2 (done.2 h))

fix_right-SameTotals : (item : CString) (t : Node) → SameTotals t (refresh (fix_right item t))
fix_right-SameTotals item t =
    let done =
      fix_right_any (SameTotals t) item t (refl, refl, λ h. h) (rotate_left-SameTotals t)
        (rotate_right_left-SameTotals t) in
    let fresh = refresh-SameTotals (fix_right item t) in
    (fresh.0 ∙ done.0, fresh.1 ∙ done.1, λ h. fresh.2 (done.2 h))

-- 1 where the item is new
abbrev pub fresh : ℕ → ℕ
fresh zero = 1
fresh (suc n) = 0

pub fresh_pos : (n : ℕ) → 0 < n → fresh n ≡ 0
fresh_pos zero h = absurd (omega arith)
fresh_pos (suc n) h = refl

abbrev Counts : Cell → Node → Node → Type 0
Counts n t u = (size u ≡ size t + fresh (exists t n.item)) × (total u ≡ total t + 1) × IsPositive u

-- Insertion adds one to the sum of the counts, and a node where the item is new.
pub graft-Counts :
    (n : Cell) (t : Node)
    → n.count ≡ 1
    → IsPositive t
    → total t + 1 < u64_mod
    → Counts n t (graft n t)
graft-Counts n null k h b = unfold graft exists in (refl, omega arith, (omega arith, tt, tt))
graft-Counts n (node c l r) k h b = elim (Ordering-cases (strcmp n.item c.item)) [
  | inl e ↦
      let (s, t, p) = graft-Counts n l k h.1 (omega arith) in
      let done = fix_left-SameTotals n.item (node c (graft n l) r) in
      rw (graft-lt n c l r e, exists-lt c l r n.item e)
        (omega arith, omega arith, done.2 (h.0, p, h.2))
  | inr (inl e) ↦
      let one = add64_exact c.count 1 (omega arith) in
      let done = refresh-SameTotals (node (record c { count = add64 c.count 1 }) l r) in
      rw (graft-eq n c l r e, exists-eq c l r n.item e)
        (omega (arith, fresh_pos c.count h.0), omega arith, done.2 (omega arith, h.1, h.2))
  | inr (inr e) ↦
      let (s, t, p) = graft-Counts n r k h.2 (omega arith) in
      let done = fix_right-SameTotals n.item (node c l (graft n r)) in
      rw (graft-gt n c l r e, exists-gt c l r n.item e)
        (omega arith, omega arith, done.2 (h.0, h.1, p))
]
