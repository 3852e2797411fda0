-- ===== src/Avl/Delete.antt =====
-- `find_min` and `delete` of project-3/avl.c.
use Prim.Native.Nat.Ordering.{lt, eq, gt}
use os_cs238p_proj.Common.{ℕ, zero, suc, true, false, ltb, if◌then◌else◌}
use os_cs238p_proj.Common.Int.{pos, negsuc, ltb_ℤ}
use os_cs238p_proj.Common.Bytes.{CString, strcmp}
use os_cs238p_proj.Common.Word.{sub64}
use os_cs238p_proj.Common.Outcome.{M, ret, out_of_fuel, pure, ◌>>=◌, ◌>>◌, modify}
use os_cs238p_proj.Avl.Heap.{Heap, Store, on_scm}
use os_cs238p_proj.Avl.{
  Cell, Node, null, node, balance, set_depth, rotate_right, rotate_left, rotate_left_right,
  rotate_right_left,
}

-- The fields of the node that `find_min` returns. The source never calls it on NULL.
unfoldable pub find_min : Cell → Node → Cell
find_min c null = c
find_min c (node d ll lr) = find_min d ll

-- `temp->count = 1` on that node, which is part of the right subtree.
unfoldable pub set_min_count : Node → ℕ → Node
set_min_count null n = null
set_min_count (node c null r) n = node (record c { count = n }) null r
set_min_count (node c (node d ll lr) r) n = node c (set_min_count (node d ll lr) n) r

-- From `root->depth = ...` to the end of `delete`.
unfoldable pub rebalance : Node → Node
rebalance null = null
rebalance (node c l r) =
    let root = set_depth c l r in
    if ltb_ℤ (pos 1) (balance root)
    then (if ltb_ℤ (balance l) (pos 0) then rotate_left_right root else rotate_right root)
    else (if ltb_ℤ (balance root) (negsuc 0)
        then (if ltb_ℤ (pos 0) (balance r) then rotate_right_left root else rotate_left root)
        else root)

module _ {S : Type 0} (heap : Heap S) where
  -- `scm_free`
  abbrev pub scm_free : ℕ → M (Store S) (Unit {0})
  scm_free p = modify λ s. record s { scm = heap.free p s.scm }

  -- The branch of `delete` for the last copy of an item, with the recursive call as an argument.
  unfoldable pub remove_last :
      (Node → CString → M (Store S) Node) → Cell → Node → Node → M (Store S) Node
  remove_last delete c null r = do scm_free c.item_addr; scm_free c.addr; pure r
  remove_last delete c (node d ll lr) null = do
    scm_free c.item_addr
    scm_free c.addr
    pure (node d ll lr)
  remove_last delete c (node d ll lr) (node e rl rr) = do
    copy ← on_scm (heap.strdup (find_min e rl).item)
    scm_free c.item_addr
    r' ← delete (set_min_count (node e rl rr) 1) (find_min e rl).item
    pure (
        rebalance (
          node
            (record c {
              count = (find_min e rl).count;
              item_addr = copy;
              item = (find_min e rl).item;
            })
            (node d ll lr) r'))

  -- Each round of the recursion takes a unit of fuel.
  unfoldable pub delete : ℕ → Node → CString → M (Store S) Node
  delete zero root item s = out_of_fuel
  delete (suc fuel) null item s = ret (null, s)
  delete (suc fuel) (node c l r) item s = elim (strcmp item c.item) [
    | lt ↦ (do l' ← delete fuel l item; pure (rebalance (node c l' r))) s
    | gt ↦ (do r' ← delete fuel r item; pure (rebalance (node c l r'))) s
    | eq ↦ elim (ltb 1 c.count) [
      | true ↦ ret (rebalance (node (record c { count = sub64 c.count 1 }) l r), s)
      | false ↦ remove_last (delete fuel) c l r s
    ]
  ]
