-- ===== src/Avl/Update.antt =====
-- `update` of project-3/avl.c with its state: where it returns, the tree is `graft` of the node
-- that the heap gave, and the counters follow.
use Prim.Native.Nat.Ordering.{lt, eq, gt}
use os_cs238p_proj.Common.{
  ℕ, ◌≡◌, arith, if◌then◌else◌, ◌==◌, Ordering-cases, inl, inr, ap, ==_of_ne,
}
use os_cs238p_proj.Common.Int.{pos}
use os_cs238p_proj.Common.Bytes.{CString, strcmp}
use os_cs238p_proj.Common.Word.{add64}
use os_cs238p_proj.Common.Outcome.{ret, pure, ◌>>=◌, >>=-eq-ret}
use os_cs238p_proj.Avl.Heap.{Heap, IsHeap, Store, on_scm, on_scm-ret}
use os_cs238p_proj.Avl.Insert.{node_size, create, update, refresh, fix_left, fix_right}
use os_cs238p_proj.Avl.Lookup.{exists-lt, exists-eq, exists-gt}
use os_cs238p_proj.Avl.Graft.{graft, graft-lt, graft-eq, graft-gt}
use os_cs238p_proj.Avl.Totals.{IsPositive}
use os_cs238p_proj.Avl.{Cell, Node, null, node, exists}

-- The node that `update` creates.
abbrev pub new_cell : ℕ → ℕ → CString → Cell
new_cell addr copy item = record {
  addr = addr;
  depth = pos 0;
  count = 1;
  item_addr = copy;
  item = item;
}

module _ {S : Type 0} (heap : Heap S) where
  update-lt :
      (c : Cell) (l r : Node) (item : CString) (s : Store S)
      → strcmp item c.item ≡ lt
      → update heap (node c l r) item s
        ≡ (update heap l item >>= λ l'. pure (refresh (fix_left item (node c l' r)))) s
  unfolding update
  update-lt c l r item s e = rw (e, update)

  update-eq :
      (c : Cell) (l r : Node) (item : CString) (s : Store S)
      → strcmp item c.item ≡ eq
      → update heap (node c l r) item s
        ≡ ret (
          refresh (node (record c { count = add64 c.count 1 }) l r),
          record s { items = add64 s.items 1 },
        )
  unfolding update
  update-eq c l r item s e = rw (e, update)

  update-gt :
      (c : Cell) (l r : Node) (item : CString) (s : Store S)
      → strcmp item c.item ≡ gt
      → update heap (node c l r) item s
        ≡ (update heap r item >>= λ r'. pure (refresh (fix_right item (node c l r')))) s
  unfolding update
  update-gt c l r item s e = rw (e, update)

module _ {S : Type 0} (heap : Heap S) (ok : IsHeap heap) where
  -- What a call of `update` that returned has done, to the tree and to the counters.
  pub record Updated (t : Node) (item : CString) (s : Store S) (u : Node) (s' : Store S)
      : Type 0 where
    pub addr : ℕ
    pub copy : ℕ
    pub grafted : u ≡ graft (new_cell addr copy item) t
    pub items : s'.items ≡ add64 s.items 1
    pub unique : s'.unique ≡ (if exists t item == 0 then add64 s.unique 1 else s.unique)

  create-Updated :
      (item : CString) (s s' : Store S) (u : Node)
      → create heap item s ≡ ret (u, s')
      → Updated null item s u s'
  unfolding create graft exists
  create-Updated item s s' u h =
      let (addr, s₁, e₁, h₁) = >>=-eq-ret (on_scm (heap.malloc node_size)) _ s (u, s') h in
      let (m₁, i₁, q₁) = on_scm-ret (heap.malloc node_size) s s₁ addr e₁ in
      let a₁ = ==_of_ne addr 0 (ok.malloc_nonnull node_size s.scm s₁.scm addr m₁) in
      let g₁ = rw a₁ at h₁ in
      let (copy, s₂, e₂, h₂) = >>=-eq-ret (on_scm (heap.strdup item)) _ s₁ (u, s') g₁ in
      let (m₂, i₂, q₂) = on_scm-ret (heap.strdup item) s₁ s₂ copy e₂ in
      let a₂ = ==_of_ne copy 0 (ok.strdup_nonnull item s₁.scm s₂.scm copy m₂) in
      let g₂ = rw a₂ at h₂ in
      record {
        addr = addr;
        copy = copy;
        grafted = cc g₂;
        items = ground arith;
        unique = ground arith;
      }

  -- Where `update` returns, it has grafted the new node and counted it.
  pub update-Updated :
      (t : Node) (item : CString) (s s' : Store S) (u : Node)
      → IsPositive t
      → update heap t item s ≡ ret (u, s')
      → Updated t item s u s'
  update-Updated null item s s' u p h = create-Updated item s s' u (unfold update in h)
  update-Updated (node c l r) item s s' u p h = elim (Ordering-cases (strcmp item c.item)) [
    | inl e ↦
        let g = rw (update-lt heap c l r item s e) at h in
        let (l', s₁, e₁, h₁) = >>=-eq-ret (update heap l item) _ s (u, s') g in
        let below = update-Updated l item s s₁ l' p.1 e₁ in
        record {
          addr = below.addr;
          copy = below.copy;
          grafted = cc (
            h₁,
            ap (λ x. refresh (fix_left item (node c x r))) below.grafted,
            graft-lt (new_cell below.addr below.copy item) c l r e,
          );
          items = cc (h₁, below.items);
          unique = rw (exists-lt c l r item e) (cc (h₁, below.unique));
        }
    | inr (inl e) ↦
        let g = rw (update-eq heap c l r item s e) at h in
        record {
          addr = 0;
          copy = 0;
          grafted = cc (g, graft-eq (new_cell 0 0 item) c l r e);
          items = cc g;
          unique = rw (exists-eq c l r item e) (ground (arith, g));
        }
    | inr (inr e) ↦
        let g = rw (update-gt heap c l r item s e) at h in
        let (r', s₁, e₁, h₁) = >>=-eq-ret (update heap r item) _ s (u, s') g in
        let below = update-Updated r item s s₁ r' p.2 e₁ in
        record {
          addr = below.addr;
          copy = below.copy;
          grafted = cc (
            h₁,
            ap (λ x. refresh (fix_right item (node c l x))) below.grafted,
            graft-gt (new_cell below.addr below.copy item) c l r e,
          );
          items = cc (h₁, below.items);
          unique = rw (exists-gt c l r item e) (cc (h₁, below.unique));
        }
  ]
