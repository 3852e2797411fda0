-- ===== src/Avl/Heap.antt =====
-- What project-3/avl.c asks of the persistent heap (project-3/scm.h), and the part of `struct avl`
-- that its routines change on the way through the tree.
use os_cs238p_proj.Common.{ℕ, ◌≡◌, ◌≢◌, arith}
use os_cs238p_proj.Common.Bytes.{CString}
use os_cs238p_proj.Common.Outcome.{M, Outcome, ret, out_of_fuel}

-- `scm_malloc`, `scm_strdup` and `scm_free`; the address 0 is NULL.
pub record Heap (S : Type 0) : Type 0 where
  pub malloc : ℕ → M S ℕ
  pub strdup : CString → M S ℕ
  pub free : ℕ → S → S

-- A call that returns gives an address that is not NULL, and `strdup` has no loop that need not end.
pub record IsHeap {S : Type 0} (heap : Heap S) : Type 0 where
  pub malloc_nonnull : (n : ℕ) (s s' : S) (p : ℕ) → heap.malloc n s ≡ ret (p, s') → p ≢ 0
  pub strdup_nonnull : (t : CString) (s s' : S) (p : ℕ) → heap.strdup t s ≡ ret (p, s') → p ≢ 0
  pub strdup_ends : (t : CString) (s : S) → heap.strdup t s ≢ out_of_fuel

-- The heap behind `avl->scm` with the counters of `struct state`.
pub record Store (S : Type 0) : Type 0 where
  pub scm : S
  pub items : ℕ
  pub unique : ℕ

module _ {S : Type 0} where
  -- A call of the heap, from within the store.
  abbrev pub on_scm : {A : Type 0} → M S A → M (Store S) A
  on_scm m s = elim (m s.scm) [
    | ret (a, scm) ↦ ret (a, record s { scm = scm })
    | Outcome.abort ↦ Outcome.abort
    | out_of_fuel ↦ out_of_fuel
  ]

  -- A call of the heap changes only the heap.
  pub on_scm-ret :
      {A : Type 0} (m : M S A) (s s' : Store S) (a : A)
      → on_scm m s ≡ ret (a, s')
      → (m s.scm ≡ ret (a, s'.scm)) × (s'.items ≡ s.items) × (s'.unique ≡ s.unique)
  on_scm-ret m s s' a h = ground arith

  pub on_scm-ends :
      {A : Type 0} (m : M S A) (s : Store S) → m s.scm ≢ out_of_fuel → on_scm m s ≢ out_of_fuel
  on_scm-ends m s h e = ground (arith, h)
