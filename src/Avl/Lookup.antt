-- ===== src/Avl/Lookup.antt =====
-- What `exists` of project-3/avl.c reads after a rotation.
use Prim.Native.Nat.Ordering.{lt, eq, gt}
use os_cs238p_proj.Common.{◌≡◌, refl, arith, ◌∙◌}
use os_cs238p_proj.Common.Bytes.{CString, strcmp, strcmp_trans, gt_of_lt, eq_of_strcmp}
use os_cs238p_proj.Avl.Order.{
  IsOrdered, Below, Above, ◌≺◌, All-rotate_left, All-rotate_right, rotate_left-IsOrdered,
  rotate_right-IsOrdered,
}
use os_cs238p_proj.Avl.{
  Cell, Node, null, node, set_depth, rotate_right, rotate_left, rotate_left_right,
  rotate_right_left, exists,
}

pub exists-lt :
    (c : Cell) (l r : Node) (q : CString)
    → strcmp q c.item ≡ lt
    → exists (node c l r) q ≡ exists l q
unfolding exists
exists-lt c l r q e = rw (e, exists)

pub exists-eq :
    (c : Cell) (l r : Node) (q : CString) → strcmp q c.item ≡ eq → exists (node c l r) q ≡ c.count
unfolding exists
exists-eq c l r q e = rw (e, exists)

pub exists-gt :
    (c : Cell) (l r : Node) (q : CString)
    → strcmp q c.item ≡ gt
    → exists (node c l r) q ≡ exists r q
unfolding exists
exists-gt c l r q e = rw (e, exists)

-- An item beyond all of a tree's is not in it.
pub exists-Below : (t : Node) (q : CString) → Below q t → exists t q ≡ 0
unfolding exists
exists-Below null q h = refl
exists-Below (node c l r) q h = rw (gt_of_lt c.item q h.1, exists) (exists-Below r q h.2)

pub exists-Above : (t : Node) (q : CString) → Above q t → exists t q ≡ 0
unfolding exists
exists-Above null q h = refl
exists-Above (node c l r) q h = rw (h.1, exists) (exists-Above l q h.0)

pub exists-rotate_right :
    (t : Node) (q : CString) → IsOrdered t → exists (rotate_right t) q ≡ exists t q
unfolding exists rotate_right set_depth
exists-rotate_right null q h = refl
exists-rotate_right (node c null r) q h = refl
exists-rotate_right (node c (node d ll lr) r) q h = ground (
  arith,
  h.0.1,
  strcmp_trans q d.item c.item,
  strcmp_trans d.item c.item q,
  eq_of_strcmp q c.item,
  eq_of_strcmp q d.item,
  gt_of_lt d.item c.item h.0.1,
)

pub exists-rotate_left :
    (t : Node) (q : CString) → IsOrdered t → exists (rotate_left t) q ≡ exists t q
unfolding exists rotate_left set_depth
exists-rotate_left null q h = refl
exists-rotate_left (node c l null) q h = refl
exists-rotate_left (node c l (node d rl rr)) q h = ground (
  arith,
  h.1.1,
  strcmp_trans q c.item d.item,
  eq_of_strcmp q c.item,
  eq_of_strcmp q d.item,
  gt_of_lt c.item d.item h.1.1,
)

-- `exists` of a node reads its subtrees through `exists` alone.
pub exists_congr :
    (c d : Cell) (l l' r r' : Node) (q : CString)
    → c.item ≡ d.item
    → c.count ≡ d.count
    → exists l q ≡ exists l' q
    → exists r q ≡ exists r' q
    → exists (node c l r) q ≡ exists (node d l' r') q
unfolding exists
exists_congr c d l l' r r' q e n el er = rw e (ground arith)

pub exists-rotate_left_right :
    (t : Node) (q : CString) → IsOrdered t → exists (rotate_left_right t) q ≡ exists t q
unfolding rotate_left_right
exists-rotate_left_right null q h = refl
exists-rotate_left_right (node c l r) q h =
    exists-rotate_right (node c (rotate_left l) r) q
      (All-rotate_left (λ x. x ≺ c.item) l h.0, h.1, rotate_left-IsOrdered l h.2, h.3)
    ∙ exists_congr c c (rotate_left l) l r r q refl refl (exists-rotate_left l q h.2) refl

pub exists-rotate_right_left :
    (t : Node) (q : CString) → IsOrdered t → exists (rotate_right_left t) q ≡ exists t q
unfolding rotate_right_left
exists-rotate_right_left null q h = refl
exists-rotate_right_left (node c l r) q h =
    exists-rotate_left (node c l (rotate_right r)) q
      (h.0, All-rotate_right (λ x. c.item ≺ x) r h.1, h.2, rotate_right-IsOrdered r h.3)
    ∙ exists_congr c c l l (rotate_right r) r q refl refl refl (exists-rotate_right r q h.3)
