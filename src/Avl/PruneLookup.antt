-- ===== src/Avl/PruneLookup.antt =====
-- `delete` of project-3/avl.c as `prune`: the order and every lookup after it.
use os_cs238p_proj.Common.{
  ℕ, ◌-◌, ◌<◌, ◌≡◌, ◌≢◌, refl, ◌∙◌, inl, inr, arith, ltb, Bool-cases, Ordering-cases, ap, sym,
}
use os_cs238p_proj.Common.Bytes.{CString, strcmp, eq_of_strcmp}
use os_cs238p_proj.Common.Word.{sub64, sub64_exact, u64_mod}
use os_cs238p_proj.Avl.Order.{◌≺◌, All, IsOrdered}
use os_cs238p_proj.Avl.Lookup.{exists_congr, exists-lt, exists-eq, exists-gt}
use os_cs238p_proj.Avl.Totals.{total, IsPositive}
use os_cs238p_proj.Avl.Prune.{unlink, prune, prune-lt, prune-gt, prune_many, prune_last}
use os_cs238p_proj.Avl.PruneOrder.{
  All-rebalance, rebalance-IsOrdered, exists-rebalance, All-unlink, unlink-IsOrdered,
  exists-unlink_self, exists-unlink_ne,
}
use os_cs238p_proj.Avl.{Cell, Node, null, node, exists}

pub All-prune {ℓ} :
    (P : CString → Type ℓ) (copy : ℕ) (t : Node) (item : CString)
    → All P t
    → All P (prune copy t item)
All-prune P copy null item h = unfold prune in tt
All-prune P copy (node c l r) item h = elim (Ordering-cases (strcmp item c.item)) [
  | inl o ↦
      rw (prune-lt copy c l r item o)
        (All-rebalance P c (prune copy l item) r (All-prune P copy l item h.0, h.1, h.2))
  | inr (inl o) ↦ elim (Bool-cases (ltb 1 c.count)) [
    | inl k ↦
        rw (prune_many copy c l r item o k)
          (All-rebalance P (record c { count = sub64 c.count 1 }) l r h)
    | inr k ↦ rw (prune_last copy c l r item o k) (All-unlink P copy c l r h.0 h.2)
  ]
  | inr (inr o) ↦
      rw (prune-gt copy c l r item o)
        (All-rebalance P c l (prune copy r item) (h.0, h.1, All-prune P copy r item h.2))
]

module _ (copy : ℕ) (c : Cell) (l r : Node) (item : CString) (h : IsOrdered (node c l r)) where
  left-IsOrdered : IsOrdered (prune copy l item) → IsOrdered (node c (prune copy l item) r)
  left-IsOrdered k = (All-prune (λ x. x ≺ c.item) copy l item h.0, h.1, k, h.3)

  right-IsOrdered : IsOrdered (prune copy r item) → IsOrdered (node c l (prune copy r item))
  right-IsOrdered k = (h.0, All-prune (λ x. c.item ≺ x) copy r item h.1, h.2, k)

-- `prune` keeps the order.
pub prune-IsOrdered :
    (copy : ℕ) (t : Node) (item : CString) → IsOrdered t → IsOrdered (prune copy t item)
prune-IsOrdered copy null item h = unfold prune in tt
prune-IsOrdered copy (node c l r) item h = elim (Ordering-cases (strcmp item c.item)) [
  | inl o ↦ rw (prune-lt copy c l r item o) (
      rebalance-IsOrdered c (prune copy l item) r
        (left-IsOrdered copy c l r item h (prune-IsOrdered copy l item h.2)))
  | inr (inl o) ↦ elim (Bool-cases (ltb 1 c.count)) [
    | inl k ↦
        rw (prune_many copy c l r item o k)
          (rebalance-IsOrdered (record c { count = sub64 c.count 1 }) l r h)
    | inr k ↦ rw (prune_last copy c l r item o k) (unlink-IsOrdered copy c l r h)
  ]
  | inr (inr o) ↦ rw (prune-gt copy c l r item o) (
      rebalance-IsOrdered c l (prune copy r item)
        (right-IsOrdered copy c l r item h (prune-IsOrdered copy r item h.3)))
]

-- The item is counted once less, and stays absent if it was.
pub exists-prune_self :
    (copy : ℕ) (t : Node) (item : CString)
    → IsOrdered t
    → IsPositive t
    → total t < u64_mod
    → exists (prune copy t item) item ≡ exists t item - 1
exists-prune_self copy null item h p b = unfold prune exists in refl
exists-prune_self copy (node c l r) item h p b = elim (Ordering-cases (strcmp item c.item)) [
  | inl o ↦
      let k = left-IsOrdered copy c l r item h (prune-IsOrdered copy l item h.2) in
      ap (λ x. exists x item) (prune-lt copy c l r item o)
      ∙ exists-rebalance c (prune copy l item) r item k
      ∙ exists-lt c (prune copy l item) r item o
      ∙ exists-prune_self copy l item h.2 p.1 (omega arith)
      ∙ ap (λ x. x - 1) (sym (exists-lt c l r item o))
  | inr (inl o) ↦ elim (Bool-cases (ltb 1 c.count)) [
    | inl k ↦
        let d : Cell = record c { count = sub64 c.count 1 } in
        ap (λ x. exists x item) (prune_many copy c l r item o k)
        ∙ exists-rebalance d l r item h
        ∙ exists-eq d l r item o
        ∙ sub64_exact c.count 1 (omega arith) (omega arith)
        ∙ ap (λ x. x - 1) (sym (exists-eq c l r item o))
    | inr k ↦
        let same = eq_of_strcmp item c.item o in
        ap (λ x. exists x item) (prune_last copy c l r item o k)
        ∙ ap (exists (unlink copy c l r)) same
        ∙ exists-unlink_self copy c l r h
        ∙ ground (arith, exists-eq c l r item o)
  ]
  | inr (inr o) ↦
      let k = right-IsOrdered copy c l r item h (prune-IsOrdered copy r item h.3) in
      ap (λ x. exists x item) (prune-gt copy c l r item o)
      ∙ exists-rebalance c l (prune copy r item) item k
      ∙ exists-gt c l (prune copy r item) item o
      ∙ exists-prune_self copy r item h.3 p.2 (omega arith)
      ∙ ap (λ x. x - 1) (sym (exists-gt c l r item o))
]

-- Every other item is counted as before.
pub exists-prune_ne :
    (copy : ℕ) (t : Node) (item q : CString)
    → IsOrdered t
    → q ≢ item
    → exists (prune copy t item) q ≡ exists t q
exists-prune_ne copy null item q h n = unfold prune exists in refl
exists-prune_ne copy (node c l r) item q h n = elim (Ordering-cases (strcmp item c.item)) [
  | inl o ↦
      let k = left-IsOrdered copy c l r item h (prune-IsOrdered copy l item h.2) in
      ap (λ x. exists x q) (prune-lt copy c l r item o)
      ∙ exists-rebalance c (prune copy l item) r q k
      ∙ exists_congr c c (prune copy l item) l r r q refl refl (exists-prune_ne copy l item q h.2 n)
          refl
  | inr (inl o) ↦ elim (Bool-cases (ltb 1 c.count)) [
    | inl k ↦
        let d : Cell = record c { count = sub64 c.count 1 } in
        ap (λ x. exists x q) (prune_many copy c l r item o k)
        ∙ exists-rebalance d l r q h
        ∙ unfold exists in ground (arith, eq_of_strcmp q c.item, eq_of_strcmp item c.item)
    | inr k ↦
        ap (λ x. exists x q) (prune_last copy c l r item o k)
        ∙ exists-unlink_ne copy c l r q h (λ e. n (e ∙ sym (eq_of_strcmp item c.item o)))
  ]
  | inr (inr o) ↦
      let k = right-IsOrdered copy c l r item h (prune-IsOrdered copy r item h.3) in
      ap (λ x. exists x q) (prune-gt copy c l r item o)
      ∙ exists-rebalance c l (prune copy r item) q k
      ∙ exists_congr c c l l (prune copy r item) r q refl refl refl
          (exists-prune_ne copy r item q h.3 n)
]
