-- ===== src/Avl/Depth.antt =====
-- The height of the trees that `avl_insert` of project-3/avl.c leaves.
use native.Mathlib.Nat.{pow-suc}
use os_cs238p_proj.Common.{ℕ, zero, suc, ◌+◌, ◌*◌, ◌^◌, ◌<◌, ◌≤◌, ◌≡◌, arith}
use os_cs238p_proj.Common.Int.{ℤ}
use os_cs238p_proj.Common.Bytes.{CString}
use os_cs238p_proj.Common.Word.{u64_mod}
use os_cs238p_proj.Common.Outcome.{ret}
use os_cs238p_proj.Avl.Heap.{Heap, IsHeap}
use os_cs238p_proj.Avl.Balance.{height, IsAvl}
use os_cs238p_proj.Avl.Totals.{size, total}
use os_cs238p_proj.Avl.Insertion.{IsValid, avl_insert-Inserted}
use os_cs238p_proj.Avl.Api.{Avl, avl_insert, avl_unique}
use os_cs238p_proj.Avl.{Node, null, node}

IsAvl-size : (t : Node) (k : ℕ) → IsAvl t → 2 * k ≤ height t → 2 ^ k ≤ size t + 1
IsAvl-size null zero h b = omega arith
IsAvl-size null (suc k) h b = absurd (omega arith)
IsAvl-size (node c l r) zero h b = omega arith
IsAvl-size (node c l r) (suc k) h b =
    omega (arith, pow-suc 2 k, IsAvl-size l k h.3 (omega arith), IsAvl-size r k h.4 (omega arith))

module _ {S : Type 0} (heap : Heap S) (ok : IsHeap heap) where
  -- Where `avl_insert` on a valid tree returns, the longest path of the new tree has at most twice the
  -- binary logarithm of the nodes that `avl_unique` counts then, and one more: a path of `2 * k` nodes
  -- or more needs a count of at least `2 ^ k - 1`. The count of items can grow by one within 64 bits.
  pub avl_insert-shallow :
      (avl avl' : Avl S) (item : CString) (code : ℤ) (k : ℕ)
      → IsValid avl
      → total avl.root + 1 < u64_mod
      → avl_insert heap item avl ≡ ret (code, avl')
      → 2 * k ≤ height avl'.root
      → 2 ^ k ≤ avl_unique avl' + 1
  unfolding avl_unique
  avl_insert-shallow avl avl' item code k v room h b =
      let new = (avl_insert-Inserted heap ok avl avl' item code v room h).valid in
      omega (arith, new.unique, IsAvl-size avl'.root k new.balanced b)
