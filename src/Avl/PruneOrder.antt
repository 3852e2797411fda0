-- ===== src/Avl/PruneOrder.antt =====
-- Deletion in project-3/avl.c: the order of the tree and the lookups after it.
use os_cs238p_proj.Common.{ℕ, ◌≡◌, ◌≢◌, refl, ◌∙◌, inl, inr, arith, Ordering-cases, if_any, sym}
use os_cs238p_proj.Common.Int.{pos, negsuc, ltb_ℤ}
use os_cs238p_proj.Common.Bytes.{CString, strcmp, strcmp_trans, eq_of_strcmp, lt_of_gt}
use os_cs238p_proj.Avl.Order.{
  ◌≺◌, All, IsOrdered, Above, Below-trans, Above-trans, All-rotate_right, All-rotate_left,
  All-rotate_left_right, All-rotate_right_left, rotate_right-IsOrdered, rotate_left-IsOrdered,
  rotate_left_right-IsOrdered, rotate_right_left-IsOrdered,
}
use os_cs238p_proj.Avl.Lookup.{
  exists-Below, exists-Above, exists-lt, exists-gt, exists-rotate_right, exists-rotate_left,
  exists-rotate_left_right, exists-rotate_right_left,
}
use os_cs238p_proj.Avl.Delete.{find_min, rebalance}
use os_cs238p_proj.Avl.Prune.{drop_min, unlink, moved, find_min-All}
use os_cs238p_proj.Avl.{
  Cell, Node, null, node, exists, set_depth, rotate_right, rotate_left, rotate_left_right,
  rotate_right_left, balance,
}

-- What holds of a node and of its four rotations holds after the rebalancing step.
pub rebalance_any {ℓ} :
    (P : Node → Type ℓ) (c : Cell) (l r : Node)
    → P (set_depth c l r)
    → P (rotate_right (set_depth c l r))
    → P (rotate_left_right (set_depth c l r))
    → P (rotate_left (set_depth c l r))
    → P (rotate_right_left (set_depth c l r))
    → P (rebalance (node c l r))
unfolding rebalance
rebalance_any P c l r h hr hlr hl hrl =
    let b = balance (set_depth c l r) in
    if_any P (ltb_ℤ (pos 1) b) (if_any P (ltb_ℤ (balance l) (pos 0)) hlr hr)
      (if_any P (ltb_ℤ b (negsuc 0)) (if_any P (ltb_ℤ (pos 0) (balance r)) hrl hl) h)

pub All-rebalance {ℓ} :
    (P : CString → Type ℓ) (c : Cell) (l r : Node)
    → All P (node c l r)
    → All P (rebalance (node c l r))
All-rebalance P c l r h =
    let t = set_depth c l r in
    let k : All P t = unfold set_depth in h in
    rebalance_any (All P) c l r k (All-rotate_right P t k) (All-rotate_left_right P t k)
      (All-rotate_left P t k) (All-rotate_right_left P t k)

pub rebalance-IsOrdered :
    (c : Cell) (l r : Node) → IsOrdered (node c l r) → IsOrdered (rebalance (node c l r))
rebalance-IsOrdered c l r h =
    let t = set_depth c l r in
    let k : IsOrdered t = unfold set_depth in h in
    rebalance_any IsOrdered c l r k (rotate_right-IsOrdered t k) (rotate_left_right-IsOrdered t k)
      (rotate_left-IsOrdered t k) (rotate_right_left-IsOrdered t k)

pub exists-rebalance :
    (c : Cell) (l r : Node) (q : CString)
    → IsOrdered (node c l r)
    → exists (rebalance (node c l r)) q ≡ exists (node c l r) q
exists-rebalance c l r q h =
    let t = set_depth c l r in
    let k : IsOrdered t = unfold set_depth in h in
    let e : exists t q ≡ exists (node c l r) q = unfold set_depth exists in refl in
    rebalance_any (λ u. exists u q ≡ exists (node c l r) q) c l r e (exists-rotate_right t q k ∙ e)
      (exists-rotate_left_right t q k ∙ e) (exists-rotate_left t q k ∙ e)
      (exists-rotate_right_left t q k ∙ e)

pub All-drop_min {ℓ} :
    (P : CString → Type ℓ) (c : Cell) (l r : Node) → All P (node c l r) → All P (drop_min c l r)
unfolding drop_min
All-drop_min P c null r h = h.2
All-drop_min P c (node d ll lr) r h =
    All-rebalance P c (drop_min d ll lr) r (All-drop_min P d ll lr h.0, h.1, h.2)

pub drop_min-Above :
    (c : Cell) (l r : Node) → IsOrdered (node c l r) → Above (find_min c l).item (drop_min c l r)
unfolding drop_min find_min
drop_min-Above c null r h = h.1
drop_min-Above c (node d ll lr) r h =
    let m = (find_min d ll).item in
    let k = find_min-All (λ x. x ≺ c.item) d ll lr h.0 in
    All-rebalance (λ x. m ≺ x) c (drop_min d ll lr) r
      (drop_min-Above d ll lr h.2, k, Above-trans m c.item r h.1 k)

-- A node whose left child has lost its least item is ordered before it is rebalanced.
dropped-IsOrdered :
    (c d : Cell) (ll lr r : Node)
    → IsOrdered (node c (node d ll lr) r)
    → IsOrdered (drop_min d ll lr)
    → IsOrdered (node c (drop_min d ll lr) r)
dropped-IsOrdered c d ll lr r h k = (All-drop_min (λ x. x ≺ c.item) d ll lr h.0, h.1, k, h.3)

pub drop_min-IsOrdered :
    (c : Cell) (l r : Node) → IsOrdered (node c l r) → IsOrdered (drop_min c l r)
unfolding drop_min
drop_min-IsOrdered c null r h = h.3
drop_min-IsOrdered c (node d ll lr) r h =
    rebalance-IsOrdered c (drop_min d ll lr) r
      (dropped-IsOrdered c d ll lr r h (drop_min-IsOrdered d ll lr h.2))

-- A tree reads like its least cell with the rest hung on the right.
pub exists-drop_min :
    (c : Cell) (l r : Node) (q : CString)
    → IsOrdered (node c l r)
    → exists (node (find_min c l) null (drop_min c l r)) q ≡ exists (node c l r) q
unfolding exists drop_min find_min
exists-drop_min c null r q h = refl
exists-drop_min c (node d ll lr) r q h =
    let m = (find_min d ll).item in
    let k = find_min-All (λ x. x ≺ c.item) d ll lr h.0 in
    let o = dropped-IsOrdered c d ll lr r h (drop_min-IsOrdered d ll lr h.2) in
    ground (
      arith,
      exists-drop_min d ll lr q h.2,
      exists-rebalance c (drop_min d ll lr) r q o,
      k,
      strcmp_trans q m c.item,
      eq_of_strcmp q m,
    )

pub All-unlink {ℓ} :
    (P : CString → Type ℓ) (copy : ℕ) (c : Cell) (l r : Node)
    → All P l
    → All P r
    → All P (unlink copy c l r)
unfolding unlink
All-unlink P copy c null r hl hr = hr
All-unlink P copy c (node d ll lr) null hl hr = hl
All-unlink P copy c (node d ll lr) (node e rl rr) hl hr =
    All-rebalance P (moved copy c (find_min e rl)) (node d ll lr) (drop_min e rl rr)
      (hl, find_min-All P e rl rr hr, All-drop_min P e rl rr hr)

-- The node that takes the least item of its right subtree is ordered before it is rebalanced.
moved-IsOrdered :
    (copy : ℕ) (c e : Cell) (l rl rr : Node)
    → IsOrdered (node c l (node e rl rr))
    → IsOrdered (node (moved copy c (find_min e rl)) l (drop_min e rl rr))
moved-IsOrdered copy c e l rl rr h =
    let m = (find_min e rl).item in
    let k = find_min-All (λ x. c.item ≺ x) e rl rr h.1 in
    (Below-trans c.item m l h.0 k, drop_min-Above e rl rr h.3, h.2, drop_min-IsOrdered e rl rr h.3)

pub unlink-IsOrdered :
    (copy : ℕ) (c : Cell) (l r : Node) → IsOrdered (node c l r) → IsOrdered (unlink copy c l r)
unfolding unlink
unlink-IsOrdered copy c null r h = h.3
unlink-IsOrdered copy c (node d ll lr) null h = h.2
unlink-IsOrdered copy c (node d ll lr) (node e rl rr) h =
    rebalance-IsOrdered (moved copy c (find_min e rl)) (node d ll lr) (drop_min e rl rr)
      (moved-IsOrdered copy c e (node d ll lr) rl rr h)

-- The item of an unlinked node is gone.
pub exists-unlink_self :
    (copy : ℕ) (c : Cell) (l r : Node)
    → IsOrdered (node c l r)
    → exists (unlink copy c l r) c.item ≡ 0
unfolding unlink
exists-unlink_self copy c null r h = exists-Above r c.item h.1
exists-unlink_self copy c (node d ll lr) null h = exists-Below (node d ll lr) c.item h.0
exists-unlink_self copy c (node d ll lr) (node e rl rr) h =
    let k = find_min-All (λ x. c.item ≺ x) e rl rr h.1 in
    let m = moved copy c (find_min e rl) in
    exists-rebalance m (node d ll lr) (drop_min e rl rr) c.item
      (moved-IsOrdered copy c e (node d ll lr) rl rr h)
    ∙ exists-lt m (node d ll lr) (drop_min e rl rr) c.item k
    ∙ exists-Below (node d ll lr) c.item h.0

-- Every other item is counted as in the two subtrees.
pub exists-unlink_ne :
    (copy : ℕ) (c : Cell) (l r : Node) (q : CString)
    → IsOrdered (node c l r)
    → q ≢ c.item
    → exists (unlink copy c l r) q ≡ exists (node c l r) q
unfolding unlink
exists-unlink_ne copy c null r q h n = elim (Ordering-cases (strcmp q c.item)) [
  | inl o ↦
      exists-Above r q (Above-trans q c.item r h.1 o)
      ∙ sym (exists-lt c null r q o ∙ unfold exists in refl)
  | inr (inl o) ↦ absurd (n (eq_of_strcmp q c.item o))
  | inr (inr o) ↦ sym (exists-gt c null r q o)
]
exists-unlink_ne copy c (node d ll lr) null q h n = elim (Ordering-cases (strcmp q c.item)) [
  | inl o ↦ sym (exists-lt c (node d ll lr) null q o)
  | inr (inl o) ↦ absurd (n (eq_of_strcmp q c.item o))
  | inr (inr o) ↦
      exists-Below (node d ll lr) q (Below-trans c.item q (node d ll lr) h.0 (lt_of_gt q c.item o))
      ∙ sym (exists-gt c (node d ll lr) null q o ∙ unfold exists in refl)
]
exists-unlink_ne copy c (node d ll lr) (node e rl rr) q h n =
    let k = find_min-All (λ x. c.item ≺ x) e rl rr h.1 in
    let m = find_min e rl in
    let l = node d ll lr in
    exists-rebalance (moved copy c m) l (drop_min e rl rr) q (moved-IsOrdered copy c e l rl rr h)
    ∙ unfold exists in
      ground (
        arith,
        k,
        exists-drop_min e rl rr q h.3,
        exists-Below l q,
        Below-trans c.item q l h.0,
        lt_of_gt q c.item,
        eq_of_strcmp q c.item,
        strcmp_trans q c.item m.item,
      )
