-- ===== src/Avl/Api.antt =====
-- The operations of project-3/avl.h on an open tree: a call first reads and writes the fields of
-- `struct state`, which stand in the persistent heap.
use os_cs238p_proj.Common.{
  ℕ, suc, ◌==◌, ◌%◌, Bool, true, false, not, if◌then◌else◌, [], ◌∷◌, ◌≡◌, ◌≢◌, refl,
}
use os_cs238p_proj.Common.Int.{ℤ, pos, negsuc}
use os_cs238p_proj.Common.Bytes.{CString}
use os_cs238p_proj.Common.Word.{sub64}
use os_cs238p_proj.Common.Outcome.{M, Outcome, ret, abort, out_of_fuel, ◌>>=◌, ◌>>◌, modify, assert}
use os_cs238p_proj.Avl.Heap.{Heap, Store}
use os_cs238p_proj.Avl.Insert.{update}
use os_cs238p_proj.Avl.Delete.{delete}
use os_cs238p_proj.Avl.Totals.{size}
use os_cs238p_proj.Avl.{Node, null, node, exists}

-- `struct avl`
pub record Avl (S : Type 0) : Type 0 where
  pub store : Store S
  pub root : Node

-- `safe_strlen(item)` as a test
abbrev pub is_nonempty : CString → Bool
is_nonempty [] = false
is_nonempty (c ∷ s) = true

-- `int count = avl_exists(...)` keeps the low 32 bits; both tests are for equality.
abbrev pub to_int32 : ℕ → ℕ
to_int32 n = n % 0x1_0000_0000

module _ {S : Type 0} where
  -- Run a routine of the tree on the store and put the root that it returns through `f`.
  abbrev pub on_store : (Node → M (Store S) Node) → (Node → M (Avl S) ℤ) → M (Avl S) ℤ
  on_store m f avl = elim (m avl.root avl.store) [
    | ret (root, store) ↦ f root (record avl { store = store })
    | abort ↦ abort
    | out_of_fuel ↦ out_of_fuel
  ]

  -- `-1` where `update` returned NULL: then `root` keeps its old value.
  abbrev pub set_root : Node → M (Avl S) ℤ
  set_root null avl = ret (negsuc 0, avl)
  set_root (node c l r) avl = ret (pos 0, record avl { root = node c l r })

  unfoldable pub avl_insert : Heap S → CString → M (Avl S) ℤ
  avl_insert heap item =
      assert (is_nonempty item) >> on_store (λ root. update heap root item) set_root

  unfoldable pub avl_exists : CString → M (Avl S) ℕ
  avl_exists item avl = if is_nonempty item then ret (exists avl.root item, avl) else abort

  -- The counters, which `avl_delete` lowers before it changes the tree.
  abbrev pub uncount : ℕ → Avl S → Avl S
  uncount count avl = record avl {
    store = record (avl.store) {
      items = sub64 avl.store.items 1;
      unique = if count == 1 then sub64 avl.store.unique 1 else avl.store.unique;
    };
  }

  abbrev pub return_root : Node → M (Avl S) ℤ
  return_root root avl = ret (pos 0, record avl { root = root })

  unfoldable pub avl_delete : Heap S → CString → M (Avl S) ℤ
  avl_delete heap item = do
    assert (is_nonempty item)
    found ← avl_exists item
    let count = to_int32 found
    assert (not (count == 0))
    modify (uncount count)
    λ avl. on_store (λ root. delete heap (suc (size root)) root item) return_root avl

  unfoldable pub avl_items : Avl S → ℕ
  avl_items avl = avl.store.items

  unfoldable pub avl_unique : Avl S → ℕ
  avl_unique avl = avl.store.unique

  -- A call of a routine of the tree that returned.
  pub on_store-ret :
      (m : Node → M (Store S) Node) (f : Node → M (Avl S) ℤ) (avl : Avl S) (r : ℤ × Avl S)
      → on_store m f avl ≡ ret r
      → (t : Node) × (s : Store S) × (m avl.root avl.store ≡ ret (t, s))
        × (f t (record avl { store = s }) ≡ ret r)
  on_store-ret m f avl r h = split (m avl.root avl.store) refl h
    where
      split :
          (o : Outcome (Node × Store S))
          → m avl.root avl.store ≡ o
          → on_store (λ _ _. o) f avl ≡ ret r
          → (t : Node) × (s : Store S) × (m avl.root avl.store ≡ ret (t, s))
            × (f t (record avl { store = s }) ≡ ret r)
      split (ret (t, s)) e g = (t, s, e, g)
      split abort e g = absurd (cc g)
      split out_of_fuel e g = absurd (cc g)

  pub on_store-ends :
      (m : Node → M (Store S) Node) (f : Node → M (Avl S) ℤ) (avl : Avl S)
      → m avl.root avl.store ≢ out_of_fuel
      → ((t : Node) (a : Avl S) → f t a ≢ out_of_fuel)
      → on_store m f avl ≢ out_of_fuel
  on_store-ends m f avl h k = split (m avl.root avl.store) h
    where
      split :
          (o : Outcome (Node × Store S)) → o ≢ out_of_fuel → on_store (λ _ _. o) f avl ≢ out_of_fuel
      split (ret (t, s)) g e = k t (record avl { store = s }) e
      split abort g e = cc e
      split out_of_fuel g e = g refl
