-- ===== src/Avl/Deletion.antt =====
-- `avl_delete` of project-3/avl.c keeps a valid tree valid and counts the item once less.
use os_cs238p_proj.Common.{
  ℕ, zero, suc, ◌+◌, ◌-◌, ◌<◌, ◌≡◌, ◌≢◌, refl, arith, true, false, if◌then◌else◌, ◌==◌, ap, ◌∙◌,
  Bool-cases, inl, inr, ==_of_ne, sym,
}
use os_cs238p_proj.Common.Int.{ℤ, pos}
use os_cs238p_proj.Common.Bytes.{CString}
use os_cs238p_proj.Common.Word.{sub64, sub64_exact, u64_mod}
use os_cs238p_proj.Common.Outcome.{M, ret, abort, out_of_fuel, >>=-ret}
use os_cs238p_proj.Avl.Heap.{Heap, IsHeap, Store}
use os_cs238p_proj.Avl.Order.{IsOrdered}
use os_cs238p_proj.Avl.Delete.{delete}
use os_cs238p_proj.Avl.Totals.{size, total}
use os_cs238p_proj.Avl.Prune.{prune, Pruned, delete-Pruned, delete-ends}
use os_cs238p_proj.Avl.PruneLookup.{prune-IsOrdered, exists-prune_self, exists-prune_ne}
use os_cs238p_proj.Avl.PruneTotals.{hit, last, prune_counts}
use os_cs238p_proj.Avl.Shrink.{prune-Shrunk}
use os_cs238p_proj.Avl.Insertion.{IsValid, size-le-total}
use os_cs238p_proj.Avl.Api.{
  Avl, is_nonempty, avl_exists, avl_delete, uncount, to_int32, on_store-ret, on_store-ends,
  on_store, return_root,
}
use os_cs238p_proj.Avl.{Node, exists}

module _ {S : Type 0} (heap : Heap S) where
  -- `avl->state->root = delete(...); return 0;`
  abbrev delete_root : CString → M (Avl S) ℤ
  delete_root item avl = on_store (λ root. delete heap (suc (size root)) root item) return_root avl

  exists_ret :
      (avl : Avl S) (item : CString)
      → is_nonempty item ≡ true
      → avl_exists item avl ≡ ret (exists avl.root item, avl)
  unfolding avl_exists
  exists_ret avl item e = rw e

  -- The assertions hold: the call lowers the counters and deletes.
  delete_found :
      (avl : Avl S) (item : CString)
      → is_nonempty item ≡ true
      → exists avl.root item ≢ 0
      → exists avl.root item < 0x1_0000_0000
      → avl_delete heap item avl ≡ delete_root item (uncount (exists avl.root item) avl)
  unfolding avl_delete
  delete_found avl item e n b =
      let k : to_int32 (exists avl.root item) ≡ exists avl.root item = omega arith in
      rw e (
        >>=-ret (avl_exists item) _ avl avl (exists avl.root item) (exists_ret avl item e)
        ∙ rw (k, ==_of_ne (exists avl.root item) 0 n))

  delete_empty :
      (avl : Avl S) (item : CString) → is_nonempty item ≡ false → avl_delete heap item avl ≡ abort
  unfolding avl_delete
  delete_empty avl item e = rw e

  -- `avl_delete` of an item that is not in the tree ends the process by a failed assertion.
  avl_delete-abort :
      (avl : Avl S) (item : CString) → exists avl.root item ≡ 0 → avl_delete heap item avl ≡ abort
  unfolding avl_delete
  avl_delete-abort avl item z = elim (Bool-cases (is_nonempty item)) [
    | inl e ↦
        rw e (
          >>=-ret (avl_exists item) _ avl avl (exists avl.root item) (exists_ret avl item e) ∙ rw z)
    | inr e ↦ rw e
  ]

unique_prune :
    (n u m k : ℕ)
    → n ≢ 0
    → u ≡ (if n == 1 then sub64 m 1 else m)
    → m ≡ k + last n
    → m < u64_mod
    → u ≡ k
unique_prune zero u m k z h e b = absurd (z refl)
unique_prune (suc zero) u m k z h e b = omega (arith, h, sub64_exact m 1)
unique_prune (suc (suc n)) u m k z h e b = ground arith

hit_pos : (n : ℕ) → n ≢ 0 → hit n ≡ 1
hit_pos zero z = absurd (z refl)
hit_pos (suc n) z = refl

module _ {S : Type 0} (heap : Heap S) (ok : IsHeap heap) where
  -- What `avl_delete` has done where it returned.
  pub record Deleted (avl : Avl S) (item : CString) (code : ℤ) (avl' : Avl S) : Type 0 where
    pub code_zero : code ≡ pos 0
    pub valid : IsValid avl'
    pub counted : exists avl'.root item + 1 ≡ exists avl.root item
    pub others : (q : CString) → q ≢ item → exists avl'.root q ≡ exists avl.root q
    pub items : avl'.store.items + 1 ≡ avl.store.items
    pub unique : avl'.store.unique + last (exists avl.root item) ≡ avl.store.unique

  deleted :
      (avl avl' : Avl S) (item : CString) (code : ℤ)
      → IsValid avl
      → total avl.root < u64_mod
      → exists avl.root item ≢ 0
      → (t : Node) (s : Store S)
      → Pruned heap avl.root item (uncount (exists avl.root item) avl).store t s
      → (code ≡ pos 0) × (avl'.root ≡ t) × (avl'.store ≡ s)
      → Deleted avl item code avl'
  deleted avl avl' item code v b n t s p (z, rt, st) =
      let e = exists avl.root item in
      let (x, y, w) = prune_counts p.copy avl.root item v.positive b in
      let h = hit_pos e n in
      let root' : avl'.root ≡ prune p.copy avl.root item = rt ∙ p.pruned in
      let i : avl'.store.items ≡ avl.store.items - 1 =
        ap (λ (q : Store S). q.items) st
        ∙ p.items
        ∙ sub64_exact avl.store.items 1 (omega (arith, v.items)) (omega (arith, v.items)) in
      let q : avl'.store.unique ≡ size (prune p.copy avl.root item) =
        unique_prune e avl'.store.unique avl.store.unique (size (prune p.copy avl.root item)) n
          (ap (λ (o : Store S). o.unique) st ∙ p.unique) (omega (arith, v.unique))
          (omega (arith, v.unique, size-le-total avl.root v.positive)) in
      let counted = exists-prune_self p.copy avl.root item v.ordered v.positive b in
      record {
        code_zero = z;
        valid = record {
          ordered = rw root' (prune-IsOrdered p.copy avl.root item v.ordered);
          balanced = rw root' (prune-Shrunk p.copy avl.root item v.balanced).0;
          positive = rw root' w;
          items = rw root' (omega (arith, v.items));
          unique = rw root' q;
        };
        counted = rw root' (omega arith);
        others =
            λ o k. ap (λ a. exists a o) root' ∙ exists-prune_ne p.copy avl.root item o v.ordered k;
        items = omega (arith, v.items);
        unique = omega (arith, v.unique);
      }

  -- From a valid tree of fewer than 2 ^ 64 items, and for an item that is counted less than 2 ^ 32
  -- times: where `avl_delete` returns, it returns 0; the tree is still an ordered
  -- and balanced one whose counters are exact, the item is counted once less, and no other item's
  -- count has changed.
  pub avl_delete-Deleted :
      (avl avl' : Avl S) (item : CString) (code : ℤ)
      → IsValid avl
      → total avl.root < u64_mod
      → exists avl.root item < 0x1_0000_0000
      → avl_delete heap item avl ≡ ret (code, avl')
      → Deleted avl item code avl'
  avl_delete-Deleted avl avl' item code v b k h = elim (Bool-cases (is_nonempty item)) [
    | inl e ↦ elim (Bool-cases (exists avl.root item == 0)) [
      | inl z ↦ absurd (cc (h, avl_delete-abort heap avl item (ground arith)))
      | inr z ↦
          let n : exists avl.root item ≢ 0 = ground arith in
          let g = sym (delete_found heap avl item e n k) ∙ h in
          let start = uncount (exists avl.root item) avl in
          let (t, s, d, r) =
            on_store-ret (λ root. delete heap (suc (size root)) root item) return_root start
              (code, avl') g in
          let p =
            delete-Pruned heap (suc (size avl.root)) avl.root item start.store s t v.ordered
              (omega arith) d in
          deleted avl avl' item code v b n t s p (cc r, cc r, cc r)
    ]
    | inr e ↦ absurd (cc (h, delete_empty heap avl item e))
  ]

  -- On an ordered tree, and for an item that is counted less than 2 ^ 32 times, the fuel of the model
  -- suffices: `avl_delete` returns, or the process has been ended.
  pub avl_delete-ends :
      (avl : Avl S) (item : CString)
      → IsOrdered avl.root
      → exists avl.root item < 0x1_0000_0000
      → avl_delete heap item avl ≢ out_of_fuel
  avl_delete-ends avl item o k = elim (Bool-cases (is_nonempty item)) [
    | inl e ↦ elim (Bool-cases (exists avl.root item == 0)) [
      | inl z ↦ λ h. cc (h, avl_delete-abort heap avl item (ground arith))
      | inr z ↦
          let n : exists avl.root item ≢ 0 = ground arith in
          let start = uncount (exists avl.root item) avl in
          rw (delete_found heap avl item e n k) (
            on_store-ends (λ root. delete heap (suc (size root)) root item) return_root start
              (delete-ends heap ok (suc (size avl.root)) avl.root item start.store o (omega arith))
              λ t a h. cc h)
    ]
    | inr e ↦ λ h. cc (h, delete_empty heap avl item e)
  ]
