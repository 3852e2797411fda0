-- ===== src/Avl/Insertion.antt =====
-- `avl_insert` of project-3/avl.c keeps a valid tree valid and counts the item once more.
use os_cs238p_proj.Common.{
  ℕ, zero, suc, ◌+◌, ◌<◌, ◌≡◌, ◌≢◌, refl, arith, if◌then◌else◌, ◌==◌, ap, ◌∙◌, Bool-cases, inl, inr,
}
use os_cs238p_proj.Common.Int.{ℤ, pos}
use os_cs238p_proj.Common.Bytes.{CString}
use os_cs238p_proj.Common.Word.{add64, add64_exact, u64_mod}
use os_cs238p_proj.Common.Outcome.{ret}
use os_cs238p_proj.Avl.Heap.{Heap, IsHeap, Store}
use os_cs238p_proj.Avl.Insert.{update}
use os_cs238p_proj.Avl.Order.{IsOrdered}
use os_cs238p_proj.Avl.Balance.{IsAvl}
use os_cs238p_proj.Avl.Growth.{graft-IsAvl}
use os_cs238p_proj.Avl.Totals.{size, total, IsPositive, fresh, graft-Counts}
use os_cs238p_proj.Avl.Graft.{graft, graft-IsOrdered, exists-graft_self, exists-graft_ne}
use os_cs238p_proj.Avl.Update.{new_cell, Updated, update-Updated}
use os_cs238p_proj.Avl.Api.{Avl, is_nonempty, avl_insert, set_root, on_store-ret}
use os_cs238p_proj.Avl.{Node, null, node, exists}

-- A search tree with exact depths, balanced, and with counters that agree with its nodes.
pub record IsValid {S : Type 0} (avl : Avl S) : Type 0 where
  pub ordered : IsOrdered avl.root
  pub balanced : IsAvl avl.root
  pub positive : IsPositive avl.root
  pub items : avl.store.items ≡ total avl.root
  pub unique : avl.store.unique ≡ size avl.root

-- There are no more nodes than items.
pub size-le-total : (t : Node) → IsPositive t → size t < total t + 1
size-le-total null h = omega arith
size-le-total (node c l r) h = omega (arith, size-le-total l h.1, size-le-total r h.2)

pub exists-le-total : (t : Node) (q : CString) → exists t q < total t + 1
unfolding exists
exists-le-total null q = omega arith
exists-le-total (node c l r) q = ground (arith, exists-le-total l q, exists-le-total r q)

unique_graft :
    (n u m : ℕ) → u ≡ (if n == 0 then add64 m 1 else m) → m + 1 < u64_mod → u ≡ m + fresh n
unique_graft zero u m h b = h ∙ add64_exact m 1 b
unique_graft (suc n) u m h b = ground arith

set_root_pos :
    {S : Type 0} (t : Node) (a : Avl S)
    → 0 < total t
    → set_root t a ≡ ret (pos 0, record a { root = t })
set_root_pos null a h = absurd (omega arith)
set_root_pos (node c l r) a h = refl

module _ {S : Type 0} (heap : Heap S) (ok : IsHeap heap) where
  -- What `avl_insert` has done where it returned.
  pub record Inserted (avl : Avl S) (item : CString) (code : ℤ) (avl' : Avl S) : Type 0 where
    pub code_zero : code ≡ pos 0
    pub valid : IsValid avl'
    pub counted : exists avl'.root item ≡ exists avl.root item + 1
    pub others : (q : CString) → q ≢ item → exists avl'.root q ≡ exists avl.root q
    pub items : avl'.store.items ≡ avl.store.items + 1
    pub unique : avl'.store.unique ≡ avl.store.unique + fresh (exists avl.root item)

  inserted :
      (avl avl' : Avl S) (item : CString) (code : ℤ)
      → IsValid avl
      → total avl.root + 1 < u64_mod
      → (t : Node) (s : Store S) → Updated heap ok avl.root item avl.store t s
      → set_root t (record avl { store = s }) ≡ ret (code, avl')
      → Inserted avl item code avl'
  inserted avl avl' item code v b t s u g =
      let n = new_cell u.addr u.copy item in
      let (z, w, p) = graft-Counts n avl.root refl v.positive b in
      let e = u.grafted in
      let posi : 0 < total t = omega (arith, ap total e) in
      let g' = rw (set_root_pos t (record avl { store = s }) posi) at g in
      let root' : avl'.root ≡ graft n avl.root = cc (g', e) in
      let i : avl'.store.items ≡ avl.store.items + 1 =
        cc (g', u.items, add64_exact avl.store.items 1 (omega (arith, v.items))) in
      let q : avl'.store.unique ≡ avl.store.unique + fresh (exists avl.root item) =
        unique_graft (exists avl.root item) avl'.store.unique avl.store.unique (cc (g', u.unique))
          (omega (arith, v.unique, size-le-total avl.root v.positive)) in
      record {
        code_zero = cc g';
        valid = record {
          ordered = rw root' (graft-IsOrdered n avl.root v.ordered);
          balanced = rw root' (graft-IsAvl n avl.root refl v.balanced);
          positive = rw root' p;
          items = rw root' (omega (arith, v.items));
          unique = rw root' (omega (arith, v.unique));
        };
        counted =
            ap (λ x. exists x item) root'
            ∙ exists-graft_self n avl.root refl v.ordered
            ∙ add64_exact (exists avl.root item) 1 (omega (arith, exists-le-total avl.root item));
        others = λ y k. ap (λ x. exists x y) root' ∙ exists-graft_ne n avl.root y k v.ordered;
        items = i;
        unique = q;
      }

  insert-ret :
      (avl avl' : Avl S) (item : CString) (code : ℤ)
      → avl_insert heap item avl ≡ ret (code, avl')
      → (t : Node) × (s : Store S) × (update heap avl.root item avl.store ≡ ret (t, s))
        × (set_root t (record avl { store = s }) ≡ ret (code, avl'))
  unfolding avl_insert
  insert-ret avl avl' item code h = elim (Bool-cases (is_nonempty item)) [
    | inl e ↦
        on_store-ret (λ root. update heap root item) set_root avl (code, avl')
          (rw (e, is_nonempty) at h)
    | inr e ↦ absurd (cc (rw (e, is_nonempty) at h))
  ]

  -- From a valid tree whose count of items can grow by one within 64 bits: where `avl_insert` returns,
  -- it returns 0; the tree is still an ordered and balanced one whose
  -- counters are exact, the item is counted once more, and no other item's count has changed.
  pub avl_insert-Inserted :
      (avl avl' : Avl S) (item : CString) (code : ℤ)
      → IsValid avl
      → total avl.root + 1 < u64_mod
      → avl_insert heap item avl ≡ ret (code, avl')
      → Inserted avl item code avl'
  avl_insert-Inserted avl avl' item code v b h =
      let (t, s, e, g) = insert-ret avl avl' item code h in
      let u = update-Updated heap ok avl.root item avl.store s t v.positive e in
      inserted avl avl' item code v b t s u g
