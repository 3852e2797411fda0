-- ===== src/Avl/Graft.antt =====
-- The tree that `update` of project-3/avl.c makes when the heap serves it, as a function of the
-- node that it creates: order, lookups and balance.
use Prim.Native.Nat.Ordering.{lt, eq, gt}
use os_cs238p_proj.Common.{
  ◌≡◌, ◌≢◌, refl, ◌∙◌, inl, inr, arith, ltb, if_any, Ordering-cases, Ordering-cases,
}
use os_cs238p_proj.Common.Bytes.{CString, strcmp, lt_of_gt, eq_of_strcmp, strcmp_refl}
use os_cs238p_proj.Common.Word.{add64}
use os_cs238p_proj.Avl.Order.{
  ◌≺◌, All, IsOrdered, All-rotate_right, All-rotate_left, All-rotate_left_right,
  All-rotate_right_left, rotate_right-IsOrdered, rotate_left-IsOrdered, rotate_left_right-IsOrdered,
  rotate_right_left-IsOrdered,
}
use os_cs238p_proj.Avl.Lookup.{
  exists-rotate_right, exists-rotate_left, exists-rotate_left_right, exists-rotate_right_left,
  exists_congr, exists-lt, exists-eq, exists-gt,
}
use os_cs238p_proj.Avl.Insert.{item_of, fix_left, fix_right, refresh}
use os_cs238p_proj.Avl.{
  Cell, Node, null, node, exists, set_depth, rotate_right, rotate_left, rotate_left_right,
  rotate_right_left,
}

-- `update` without its state: `n` is the node for a new item.
unfoldable pub graft : Cell → Node → Node
graft n null = node n null null
graft n (node c l r) = elim (strcmp n.item c.item) [
  | eq ↦ refresh (node (record c { count = add64 c.count 1 }) l r)
  | lt ↦ refresh (fix_left n.item (node c (graft n l) r))
  | gt ↦ refresh (fix_right n.item (node c l (graft n r)))
]

-- What holds of a tree and of both its rotations holds after the rebalancing step.
pub fix_left_any {ℓ} :
    (P : Node → Type ℓ) (item : CString) (t : Node)
    → P t
    → P (rotate_right t)
    → P (rotate_left_right t)
    → P (fix_left item t)
unfolding fix_left
fix_left_any P item null h r lr = if_any P (ltb 1 _) h h
fix_left_any P item (node c l r) h hr hlr =
    if_any P (ltb 1 _)
      (elim (strcmp item (item_of l))
        as (λ o.
          P (elim o [ lt ↦ rotate_right (node c l r) | _ ↦ rotate_left_right (node c l r) ])) [
            | lt ↦ hr
            | eq ↦ hlr
            | gt ↦ hlr
          ])
      h

pub fix_right_any {ℓ} :
    (P : Node → Type ℓ) (item : CString) (t : Node)
    → P t
    → P (rotate_left t)
    → P (rotate_right_left t)
    → P (fix_right item t)
unfolding fix_right
fix_right_any P item null h r lr = if_any P (ltb 1 _) h h
fix_right_any P item (node c l r) h hl hrl =
    if_any P (ltb 1 _)
      (elim (strcmp item (item_of r))
        as (λ o.
          P (elim o [ gt ↦ rotate_left (node c l r) | _ ↦ rotate_right_left (node c l r) ])) [
            | lt ↦ hrl
            | eq ↦ hrl
            | gt ↦ hl
          ])
      h

pub All-refresh {ℓ} : (P : CString → Type ℓ) (t : Node) → All P t → All P (refresh t)
unfolding refresh set_depth
All-refresh P null h = h
All-refresh P (node c l r) h = h

refresh-IsOrdered : (t : Node) → IsOrdered t → IsOrdered (refresh t)
unfolding refresh set_depth
refresh-IsOrdered null h = h
refresh-IsOrdered (node c l r) h = h

exists-refresh : (t : Node) (q : CString) → exists (refresh t) q ≡ exists t q
unfolding refresh set_depth exists
exists-refresh null q = refl
exists-refresh (node c l r) q = refl

All-fix_left {ℓ} :
    (P : CString → Type ℓ) (item : CString) (t : Node) → All P t → All P (fix_left item t)
All-fix_left P item t h =
    fix_left_any (All P) item t h (All-rotate_right P t h) (All-rotate_left_right P t h)

All-fix_right {ℓ} :
    (P : CString → Type ℓ) (item : CString) (t : Node) → All P t → All P (fix_right item t)
All-fix_right P item t h =
    fix_right_any (All P) item t h (All-rotate_left P t h) (All-rotate_right_left P t h)

fix_left-IsOrdered : (item : CString) (t : Node) → IsOrdered t → IsOrdered (fix_left item t)
fix_left-IsOrdered item t h =
    fix_left_any IsOrdered item t h (rotate_right-IsOrdered t h) (rotate_left_right-IsOrdered t h)

fix_right-IsOrdered : (item : CString) (t : Node) → IsOrdered t → IsOrdered (fix_right item t)
fix_right-IsOrdered item t h =
    fix_right_any IsOrdered item t h (rotate_left-IsOrdered t h) (rotate_right_left-IsOrdered t h)

exists-fix_left :
    (item : CString) (t : Node) (q : CString)
    → IsOrdered t
    → exists (refresh (fix_left item t)) q ≡ exists t q
exists-fix_left item t q h =
    exists-refresh (fix_left item t) q
    ∙ fix_left_any (λ u. exists u q ≡ exists t q) item t refl (exists-rotate_right t q h)
        (exists-rotate_left_right t q h)

exists-fix_right :
    (item : CString) (t : Node) (q : CString)
    → IsOrdered t
    → exists (refresh (fix_right item t)) q ≡ exists t q
exists-fix_right item t q h =
    exists-refresh (fix_right item t) q
    ∙ fix_right_any (λ u. exists u q ≡ exists t q) item t refl (exists-rotate_left t q h)
        (exists-rotate_right_left t q h)

module _ (n c : Cell) (l r : Node) where
  pub graft-lt :
      n.item ≺ c.item → graft n (node c l r) ≡ refresh (fix_left n.item (node c (graft n l) r))
  unfolding graft
  graft-lt e = rw (e, graft)

  pub graft-eq :
      strcmp n.item c.item ≡ eq
      → graft n (node c l r) ≡ refresh (node (record c { count = add64 c.count 1 }) l r)
  unfolding graft
  graft-eq e = rw (e, graft)

  pub graft-gt :
      strcmp n.item c.item ≡ gt
      → graft n (node c l r) ≡ refresh (fix_right n.item (node c l (graft n r)))
  unfolding graft
  graft-gt e = rw (e, graft)

-- Every item of the new tree is the new one or an old one.
pub All-graft {ℓ} :
    (P : CString → Type ℓ) (n : Cell) (t : Node) → P n.item → All P t → All P (graft n t)
All-graft P n null p h = unfold graft in (tt, p, tt)
All-graft P n (node c l r) p h = elim (Ordering-cases (strcmp n.item c.item)) [
  | inl e ↦ rw (graft-lt n c l r e) (
      All-refresh P _
        (All-fix_left P n.item (node c (graft n l) r) (All-graft P n l p h.0, h.1, h.2)))
  | inr (inl e) ↦
      rw (graft-eq n c l r e) (All-refresh P (node (record c { count = add64 c.count 1 }) l r) h)
  | inr (inr e) ↦ rw (graft-gt n c l r e) (
      All-refresh P _
        (All-fix_right P n.item (node c l (graft n r)) (h.0, h.1, All-graft P n r p h.2)))
]

-- The node with the new item below it is ordered before it is rebalanced.
left-IsOrdered :
    (n c : Cell) (l r : Node)
    → n.item ≺ c.item
    → IsOrdered (node c l r)
    → IsOrdered (graft n l)
    → IsOrdered (node c (graft n l) r)
left-IsOrdered n c l r e h k = (All-graft (λ x. x ≺ c.item) n l e h.0, h.1, k, h.3)

right-IsOrdered :
    (n c : Cell) (l r : Node)
    → strcmp n.item c.item ≡ gt
    → IsOrdered (node c l r)
    → IsOrdered (graft n r)
    → IsOrdered (node c l (graft n r))
right-IsOrdered n c l r e h k =
    (h.0, All-graft (λ x. c.item ≺ x) n r (lt_of_gt n.item c.item e) h.1, h.2, k)

-- `graft` keeps the order.
pub graft-IsOrdered : (n : Cell) (t : Node) → IsOrdered t → IsOrdered (graft n t)
graft-IsOrdered n null h = unfold graft in (tt, tt, tt, tt)
graft-IsOrdered n (node c l r) h = elim (Ordering-cases (strcmp n.item c.item)) [
  | inl e ↦ rw (graft-lt n c l r e) (
      refresh-IsOrdered _ (
        fix_left-IsOrdered n.item (node c (graft n l) r)
          (left-IsOrdered n c l r e h (graft-IsOrdered n l h.2))))
  | inr (inl e) ↦
      rw (graft-eq n c l r e)
        (refresh-IsOrdered (node (record c { count = add64 c.count 1 }) l r) h)
  | inr (inr e) ↦ rw (graft-gt n c l r e) (
      refresh-IsOrdered _ (
        fix_right-IsOrdered n.item (node c l (graft n r))
          (right-IsOrdered n c l r e h (graft-IsOrdered n r h.3))))
]

-- The new item is counted once more.
pub exists-graft_self :
    (n : Cell) (t : Node)
    → n.count ≡ 1
    → IsOrdered t
    → exists (graft n t) n.item ≡ add64 (exists t n.item) 1
exists-graft_self n null k h = unfold graft exists add64 in rw (strcmp_refl, exists) k
exists-graft_self n (node c l r) k h = elim (Ordering-cases (strcmp n.item c.item)) [
  | inl e ↦
      rw
        (
          graft-lt n c l r e,
          exists-fix_left,
          exists-lt c _ r _ e,
          exists-lt c l r _ e,
          left-IsOrdered n c l r e h (graft-IsOrdered n l h.2),
        )
        (exists-graft_self n l k h.2)
  | inr (inl e) ↦ rw (
    graft-eq n c l r e,
    exists-refresh,
    exists-eq (record c { count = add64 c.count 1 }) l r _ e,
    exists-eq c l r _ e,
  )
  | inr (inr e) ↦
      rw
        (
          graft-gt n c l r e,
          exists-fix_right,
          exists-gt c l _ _ e,
          exists-gt c l r _ e,
          right-IsOrdered n c l r e h (graft-IsOrdered n r h.3),
        )
        (exists-graft_self n r k h.3)
]

-- Every other item is counted as before.
pub exists-graft_ne :
    (n : Cell) (t : Node) (q : CString)
    → q ≢ n.item
    → IsOrdered t
    → exists (graft n t) q ≡ exists t q
exists-graft_ne n null q k h = unfold graft exists in ground (arith, eq_of_strcmp q n.item)
exists-graft_ne n (node c l r) q k h = elim (Ordering-cases (strcmp n.item c.item)) [
  | inl e ↦
      rw (graft-lt n c l r e, exists-fix_left, left-IsOrdered n c l r e h (graft-IsOrdered n l h.2))
        (exists_congr c c (graft n l) l r r q refl refl (exists-graft_ne n l q k h.2) refl)
  | inr (inl e) ↦
      rw (graft-eq n c l r e, exists-refresh)
        (unfold exists in ground (arith, eq_of_strcmp q c.item, eq_of_strcmp n.item c.item))
  | inr (inr e) ↦
      rw
        (
          graft-gt n c l r e,
          exists-fix_right,
          right-IsOrdered n c l r e h (graft-IsOrdered n r h.3),
        )
        (exists_congr c c l l (graft n r) r q refl refl refl (exists-graft_ne n r q k h.3))
]
