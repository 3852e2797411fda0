-- ===== src/Avl/PruneTotals.antt =====
-- Deletion in project-3/avl.c: the number of nodes and the sum of the counts after it.
use os_cs238p_proj.Common.{
  ℕ, zero, suc, ◌+◌, ◌-◌, ◌<◌, ◌≡◌, refl, inl, inr, true, false, arith, ltb, Bool-cases,
  Ordering-cases,
}
use os_cs238p_proj.Common.Bytes.{CString, strcmp}
use os_cs238p_proj.Common.Word.{sub64, sub64_exact, u64_mod}
use os_cs238p_proj.Avl.Lookup.{exists-lt, exists-eq, exists-gt}
use os_cs238p_proj.Avl.Delete.{find_min, rebalance}
use os_cs238p_proj.Avl.Totals.{
  size, total, IsPositive, SameTotals, rotate_right-SameTotals, rotate_left-SameTotals,
  rotate_left_right-SameTotals, rotate_right_left-SameTotals,
}
use os_cs238p_proj.Avl.Prune.{
  drop_min, unlink, prune, moved, prune-lt, prune-gt, prune_many, prune_last,
}
use os_cs238p_proj.Avl.PruneOrder.{rebalance_any}
use os_cs238p_proj.Avl.{Cell, Node, null, node, exists, set_depth}

set_depth-SameTotals :
    (c : Cell) (l r u : Node) → SameTotals (set_depth c l r) u → SameTotals (node c l r) u
unfolding set_depth
set_depth-SameTotals c l r u h = h

pub rebalance-SameTotals :
    (c : Cell) (l r : Node) → SameTotals (node c l r) (rebalance (node c l r))
rebalance-SameTotals c l r =
    let t = set_depth c l r in
    set_depth-SameTotals c l r (rebalance (node c l r)) (
      rebalance_any (SameTotals t) c l r (refl, refl, λ h. h) (rotate_right-SameTotals t)
        (rotate_left_right-SameTotals t) (rotate_left-SameTotals t)
        (rotate_right_left-SameTotals t))

-- The least cell is what `drop_min` takes out.
pub drop_min_totals :
    (c : Cell) (l r : Node)
    → IsPositive (node c l r)
    → (suc (size (drop_min c l r)) ≡ size (node c l r))
      × (total (drop_min c l r) + (find_min c l).count ≡ total (node c l r))
      × (0 < (find_min c l).count)
      × IsPositive (drop_min c l r)
unfolding drop_min find_min
drop_min_totals c null r h = (omega arith, omega arith, h.0, h.2)
drop_min_totals c (node d ll lr) r h =
    let (s, t, k, p) = drop_min_totals d ll lr h.1 in
    let done = rebalance-SameTotals c (drop_min d ll lr) r in
    (omega arith, omega arith, k, done.2 (h.0, p, h.2))

pub unlink_totals :
    (copy : ℕ) (c : Cell) (l r : Node)
    → IsPositive (node c l r)
    → (suc (size (unlink copy c l r)) ≡ size (node c l r))
      × (total (unlink copy c l r) + c.count ≡ total (node c l r))
      × IsPositive (unlink copy c l r)
unfolding unlink
unlink_totals copy c null r h = (omega arith, omega arith, h.2)
unlink_totals copy c (node d ll lr) null h = (omega arith, omega arith, h.1)
unlink_totals copy c (node d ll lr) (node e rl rr) h =
    let (s, t, k, p) = drop_min_totals e rl rr h.2 in
    let done =
      rebalance-SameTotals (moved copy c (find_min e rl)) (node d ll lr) (drop_min e rl rr) in
    (omega arith, omega arith, done.2 (k, h.1, p))

-- 1 for an item that is in the tree, and for one whose last copy is there.
abbrev pub hit : ℕ → ℕ
hit zero = 0
hit (suc n) = 1

abbrev pub last : ℕ → ℕ
last zero = 0
last (suc zero) = 1
last (suc (suc n)) = 0

last_many : (n : ℕ) → ltb 1 n ≡ true → (last n ≡ 0) × (hit n ≡ 1)
last_many zero h = absurd (ground arith)
last_many (suc zero) h = absurd (ground arith)
last_many (suc (suc n)) h = (refl, refl)

last_one : (n : ℕ) → 0 < n → ltb 1 n ≡ false → (last n ≡ 1) × (hit n ≡ 1) × (n ≡ 1)
last_one zero h k = absurd (omega arith)
last_one (suc zero) h k = (refl, refl, refl)
last_one (suc (suc n)) h k = absurd (ground arith)

abbrev Lowered : CString → Node → Node → Type 0
Lowered item t u =
    (size u + last (exists t item) ≡ size t)
    × (total u + hit (exists t item) ≡ total t)
    × IsPositive u

-- Deletion takes one from the sum of the counts, and a node with an item's last copy.
pub prune_counts :
    (copy : ℕ) (t : Node) (item : CString)
    → IsPositive t
    → total t < u64_mod
    → Lowered item t (prune copy t item)
prune_counts copy null item h b = unfold prune exists in (refl, refl, tt)
prune_counts copy (node c l r) item h b = elim (Ordering-cases (strcmp item c.item)) [
  | inl o ↦
      let (s, t, p) = prune_counts copy l item h.1 (omega arith) in
      let done = rebalance-SameTotals c (prune copy l item) r in
      rw (prune-lt copy c l r item o, exists-lt c l r item o)
        (omega arith, omega arith, done.2 (h.0, p, h.2))
  | inr (inl o) ↦ elim (Bool-cases (ltb 1 c.count)) [
    | inl k ↦
        let more : 1 < c.count = ground arith in
        let d : Cell = record c { count = sub64 c.count 1 } in
        let e : d.count ≡ c.count - 1 = sub64_exact c.count 1 (omega arith) (omega arith) in
        let (x, y) = last_many c.count k in
        let done = rebalance-SameTotals d l r in
        rw (prune_many copy c l r item o k, exists-eq c l r item o)
          (omega arith, omega arith, done.2 (omega arith, h.1, h.2))
    | inr k ↦
        let (x, y, z) = last_one c.count h.0 k in
        let (s, t, p) = unlink_totals copy c l r h in
        rw (prune_last copy c l r item o k, exists-eq c l r item o) (omega arith, omega arith, p)
  ]
  | inr (inr o) ↦
      let (s, t, p) = prune_counts copy r item h.2 (omega arith) in
      let done = rebalance-SameTotals c l (prune copy r item) in
      rw (prune-gt copy c l r item o, exists-gt c l r item o)
        (omega arith, omega arith, done.2 (h.0, h.1, p))
]
