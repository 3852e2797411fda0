-- ===== src/Avl/Prune.antt =====
-- The tree that `delete` of project-3/avl.c makes, as a structural function, and that the
-- recursion of the source computes it.
use Prim.Native.Nat.Ordering.{lt, eq, gt}
use os_cs238p_proj.Common.{
  ℕ, zero, suc, ◌<◌, ◌≡◌, ◌≢◌, refl, ◌∙◌, inl, inr, true, false, arith, ltb, if◌then◌else◌,
  Bool-cases, Ordering-cases, ap, sym,
}
use os_cs238p_proj.Common.Bytes.{CString, strcmp, strcmp_refl}
use os_cs238p_proj.Common.Word.{sub64}
use os_cs238p_proj.Common.Outcome.{ret, out_of_fuel, pure, ◌>>=◌, >>=-eq-ret, >>=-ret, >>=-ends}
use os_cs238p_proj.Avl.Heap.{Heap, IsHeap, Store, on_scm, on_scm-ret, on_scm-ends}
use os_cs238p_proj.Avl.Order.{◌≺◌, All, IsOrdered}
use os_cs238p_proj.Avl.Delete.{find_min, set_min_count, rebalance, remove_last, delete}
use os_cs238p_proj.Avl.Totals.{size}
use os_cs238p_proj.Avl.{Cell, Node, null, node}

-- A node without its leftmost descendant, rebalanced on the way up.
unfoldable pub drop_min : Cell → Node → Node → Node
drop_min c null r = r
drop_min c (node d ll lr) r = rebalance (node c (drop_min d ll lr) r)

-- The cell that takes the place of a deleted one; `copy` is the address of its new string.
abbrev pub moved : ℕ → Cell → Cell → Cell
moved copy c m = record c { count = m.count; item_addr = copy; item = m.item }

unfoldable pub unlink : ℕ → Cell → Node → Node → Node
unlink copy c null r = r
unlink copy c (node d ll lr) null = node d ll lr
unlink copy c (node d ll lr) (node e rl rr) =
    rebalance (node (moved copy c (find_min e rl)) (node d ll lr) (drop_min e rl rr))

unfoldable pub prune : ℕ → Node → CString → Node
prune copy null item = null
prune copy (node c l r) item = elim (strcmp item c.item) [
  | lt ↦ rebalance (node c (prune copy l item) r)
  | gt ↦ rebalance (node c l (prune copy r item))
  | eq ↦
      if ltb 1 c.count
      then rebalance (node (record c { count = sub64 c.count 1 }) l r)
      else unlink copy c l r
]

module _ (copy : ℕ) (c : Cell) (l r : Node) (item : CString) where
  pub prune-lt :
      strcmp item c.item ≡ lt
      → prune copy (node c l r) item ≡ rebalance (node c (prune copy l item) r)
  unfolding prune
  prune-lt e = rw (e, prune)

  pub prune-gt :
      strcmp item c.item ≡ gt
      → prune copy (node c l r) item ≡ rebalance (node c l (prune copy r item))
  unfolding prune
  prune-gt e = rw (e, prune)

  pub prune_many :
      strcmp item c.item ≡ eq
      → ltb 1 c.count ≡ true
      → prune copy (node c l r) item ≡ rebalance (node (record c { count = sub64 c.count 1 }) l r)
  unfolding prune
  prune_many e k = rw (e, prune) (rw k)

  pub prune_last :
      strcmp item c.item ≡ eq
      → ltb 1 c.count ≡ false
      → prune copy (node c l r) item ≡ unlink copy c l r
  unfolding prune
  prune_last e k = rw (e, prune) (rw k)

pub find_min-All {ℓ} :
    (P : CString → Type ℓ) (c : Cell) (l r : Node) → All P (node c l r) → P (find_min c l).item
unfolding find_min
find_min-All P c null r h = h.1
find_min-All P c (node d ll lr) r h = find_min-All P d ll lr h.0

module _ {S : Type 0} (heap : Heap S) where
  delete-lt :
      (f : ℕ) (c : Cell) (l r : Node) (item : CString) (s : Store S)
      → strcmp item c.item ≡ lt
      → delete heap (suc f) (node c l r) item s
        ≡ (delete heap f l item >>= λ l'. pure (rebalance (node c l' r))) s
  unfolding delete
  delete-lt f c l r item s e = rw (e, delete)

  delete-gt :
      (f : ℕ) (c : Cell) (l r : Node) (item : CString) (s : Store S)
      → strcmp item c.item ≡ gt
      → delete heap (suc f) (node c l r) item s
        ≡ (delete heap f r item >>= λ r'. pure (rebalance (node c l r'))) s
  unfolding delete
  delete-gt f c l r item s e = rw (e, delete)

  delete_many :
      (f : ℕ) (c : Cell) (l r : Node) (item : CString) (s : Store S)
      → strcmp item c.item ≡ eq
      → ltb 1 c.count ≡ true
      → delete heap (suc f) (node c l r) item s
        ≡ ret (rebalance (node (record c { count = sub64 c.count 1 }) l r), s)
  unfolding delete
  delete_many f c l r item s e k = rw (e, k, delete)

  delete_last :
      (f : ℕ) (c : Cell) (l r : Node) (item : CString) (s : Store S)
      → strcmp item c.item ≡ eq
      → ltb 1 c.count ≡ false
      → delete heap (suc f) (node c l r) item s ≡ remove_last heap (delete heap f) c l r s
  unfolding delete
  delete_last f c l r item s e k = rw (e, k, delete)

  -- Where `delete` is called for the leftmost item of a tree, and its count is 1, it only frees.
  pub delete_min :
      (f : ℕ) (c : Cell) (l r : Node) (s : Store S)
      → IsOrdered (node c l r)
      → size (node c l r) < f
      → (scm : S) × (delete heap f (set_min_count (node c l r) 1) (find_min c l).item s
          ≡ ret (drop_min c l r, record s { scm = scm }))
  unfolding set_min_count find_min drop_min remove_last
  delete_min zero c l r s h b = absurd (omega arith)
  delete_min (suc f) c null r s h b =
      let k = record c { count = 1 } in
      (
        heap.free c.addr (heap.free c.item_addr s.scm),
        rw (delete_last f k null r c.item s (strcmp_refl c.item) refl),
      )
  delete_min (suc f) c (node d ll lr) r s h b =
      let (scm, e) = delete_min f d ll lr s h.2 (omega arith) in
      (
        scm,
        delete-lt f c (set_min_count (node d ll lr) 1) r (find_min d ll).item s
              (find_min-All (λ x. x ≺ c.item) d ll lr h.0)
            ∙ >>=-ret (delete heap f (set_min_count (node d ll lr) 1) (find_min d ll).item) _ s
                (record s { scm = scm }) (drop_min d ll lr) e,
      )

  -- What a call of `delete` that returned has done.
  pub record Pruned (t : Node) (item : CString) (s : Store S) (u : Node) (s' : Store S)
      : Type 0 where
    pub copy : ℕ
    pub pruned : u ≡ prune copy t item
    pub items : s'.items ≡ s.items
    pub unique : s'.unique ≡ s.unique

  -- Unlinking the node of an item: the calls of the heap are all that the source does beside
  -- `unlink`.
  remove_last-unlink :
      (f : ℕ) (c : Cell) (l r : Node) (s s' : Store S) (u : Node)
      → IsOrdered (node c l r)
      → size (node c l r) < suc f
      → remove_last heap (delete heap f) c l r s ≡ ret (u, s')
      → (copy : ℕ) × (u ≡ unlink copy c l r) × (s'.items ≡ s.items) × (s'.unique ≡ s.unique)
  unfolding remove_last unlink
  remove_last-unlink f c null r s s' u h b e = (0, cc e, ground (arith, e), ground (arith, e))
  remove_last-unlink f c (node d ll lr) null s s' u h b e =
      (0, cc e, ground (arith, e), ground (arith, e))
  remove_last-unlink f c (node d ll lr) (node e rl rr) s s' u h b x =
      let m = (find_min e rl).item in
      let (copy, s₁, e₁, h₁) = >>=-eq-ret (on_scm (heap.strdup m)) _ s (u, s') x in
      let (m₁, i₁, q₁) = on_scm-ret (heap.strdup m) s s₁ copy e₁ in
      let s₂ : Store S = record s₁ { scm = heap.free c.item_addr s₁.scm } in
      let (scm, k) = delete_min f e rl rr s₂ h.3 (omega arith) in
      let g =
        sym (
          >>=-ret (delete heap f (set_min_count (node e rl rr) 1) m) _ s₂ (record s₂ { scm = scm })
            (drop_min e rl rr) k)
        ∙ h₁ in
      (copy, cc g, ground (arith, g), ground (arith, g))

  -- Where `delete` returns, the tree is `prune` of the old one, and the counters are as they were.
  pub delete-Pruned :
      (f : ℕ) (t : Node) (item : CString) (s s' : Store S) (u : Node)
      → IsOrdered t
      → size t < f
      → delete heap f t item s ≡ ret (u, s')
      → Pruned t item s u s'
  delete-Pruned zero t item s s' u h b e = absurd (omega arith)
  delete-Pruned (suc f) null item s s' u h b e = record {
    copy = 0;
    pruned = unfold delete prune in cc e;
    items = unfold delete in ground arith;
    unique = unfold delete in ground arith;
  }
  delete-Pruned (suc f) (node c l r) item s s' u h b e =
      elim (Ordering-cases (strcmp item c.item)) [
        | inl o ↦
            let g = rw (delete-lt f c l r item s o) at e in
            let (l', s₁, e₁, h₁) = >>=-eq-ret (delete heap f l item) _ s (u, s') g in
            let below = delete-Pruned f l item s s₁ l' h.2 (omega arith) e₁ in
            record {
              copy = below.copy;
              pruned = cc (
                h₁,
                ap (λ x. rebalance (node c x r)) below.pruned,
                prune-lt below.copy c l r item o,
              );
              items = cc (h₁, below.items);
              unique = cc (h₁, below.unique);
            }
        | inr (inl o) ↦ elim (Bool-cases (ltb 1 c.count)) [
          | inl k ↦
              let g = rw (delete_many f c l r item s o k) at e in
              record {
                copy = 0;
                pruned = cc (g, prune_many 0 c l r item o k);
                items = cc g;
                unique = cc g;
              }
          | inr k ↦
              let g = rw (delete_last f c l r item s o k) at e in
              let (copy, p, i, q) = remove_last-unlink f c l r s s' u h b g in
              record {
                copy = copy;
                pruned = p ∙ sym (prune_last copy c l r item o k);
                items = i;
                unique = q;
              }
        ]
        | inr (inr o) ↦
            let g = rw (delete-gt f c l r item s o) at e in
            let (r', s₁, e₁, h₁) = >>=-eq-ret (delete heap f r item) _ s (u, s') g in
            let below = delete-Pruned f r item s s₁ r' h.3 (omega arith) e₁ in
            record {
              copy = below.copy;
              pruned = cc (
                h₁,
                ap (λ x. rebalance (node c l x)) below.pruned,
                prune-gt below.copy c l r item o,
              );
              items = cc (h₁, below.items);
              unique = cc (h₁, below.unique);
            }
      ]

module _ {S : Type 0} (heap : Heap S) (ok : IsHeap heap) where
  remove_last-ends :
      (f : ℕ) (c : Cell) (l r : Node) (s : Store S)
      → IsOrdered (node c l r)
      → size (node c l r) < suc f
      → remove_last heap (delete heap f) c l r s ≢ out_of_fuel
  unfolding remove_last
  remove_last-ends f c null r s h b = λ e. cc e
  remove_last-ends f c (node d ll lr) null s h b = λ e. cc e
  remove_last-ends f c (node d ll lr) (node e rl rr) s h b =
      let m = (find_min e rl).item in
      >>=-ends (on_scm (heap.strdup m)) _ s (on_scm-ends (heap.strdup m) s (ok.strdup_ends m s.scm))
        λ copy s₁ x.
          let s₂ : Store S = record s₁ { scm = heap.free c.item_addr s₁.scm } in
          let (scm, k) = delete_min heap f e rl rr s₂ h.3 (omega arith) in
          let g =
            sym (
              >>=-ret (delete heap f (set_min_count (node e rl rr) 1) m) _ s₂
                (record s₂ { scm = scm }) (drop_min e rl rr) k)
            ∙ x in
          cc g

  -- With more fuel than nodes `delete` ends: it returns, or the heap has ended the process.
  pub delete-ends :
      (f : ℕ) (t : Node) (item : CString) (s : Store S)
      → IsOrdered t
      → size t < f
      → delete heap f t item s ≢ out_of_fuel
  delete-ends zero t item s h b = absurd (omega arith)
  delete-ends (suc f) null item s h b = unfold delete in λ e. cc e
  delete-ends (suc f) (node c l r) item s h b = elim (Ordering-cases (strcmp item c.item)) [
    | inl o ↦ rw (delete-lt heap f c l r item s o) (
        >>=-ends (delete heap f l item) _ s (delete-ends f l item s h.2 (omega arith))
          λ a t e. cc e)
    | inr (inl o) ↦ elim (Bool-cases (ltb 1 c.count)) [
      | inl k ↦ rw (delete_many heap f c l r item s o k) (λ e. cc e)
      | inr k ↦ rw (delete_last heap f c l r item s o k) (remove_last-ends f c l r s h b)
    ]
    | inr (inr o) ↦ rw (delete-gt heap f c l r item s o) (
        >>=-ends (delete heap f r item) _ s (delete-ends f r item s h.3 (omega arith))
          λ a t e. cc e)
  ]
