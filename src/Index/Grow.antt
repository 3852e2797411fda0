-- ===== src/Index/Grow.antt =====
-- `grow` of project-4/index.c moves every key with its offset, and the stores through the pointers that
-- `update` returns.
use os_cs238p_proj.Common.{
  ℕ, zero, suc, ◌+◌, ◌<◌, ◌==◌, ◌≡◌, ◌≢◌, ◌⊎◌, refl, ap, sym, ◌∙◌, subst, arith, if◌then◌else◌, inl,
  inr, Bool-cases, ==_iff, some, none, ◌/◌,
}
use os_cs238p_proj.Common.Word.{add64}
use os_cs238p_proj.Common.Outcome.{Outcome, ret, abort, out_of_fuel}
use os_cs238p_proj.Index.{
  Index, Found, vacant, found, full, probe, probe_all, put, update, store, move_all, create, grow,
  is_loaded, mul64,
}
use os_cs238p_proj.Index.Probe.{Ends, probe-Ends, probe-zero}
use os_cs238p_proj.Index.Update.{IsIndex, update-Updated, off_at, off_of, put_at, put_ne}

-- A store at the slot of a key
module _ (t : Index) (key j v : ℕ) (here : probe_all t key ≡ found j) where
  pub store-IsIndex : IsIndex t → IsIndex (store j v t)
  unfolding store
  store-IsIndex ok = record { reachable = λ s lt nz. ok.reachable s lt nz }

  pub off_of-store_self : off_of (store j v t) key ≡ some v
  unfolding off_of store
  off_of-store_self = ap (off_at (put t.offs j v)) here ∙ ap (λ x. some x) (put_at t.offs j v)

  pub off_of-store_ne : (k : ℕ) → k ≢ key → off_of (store j v t) k ≡ off_of t k
  unfolding off_of store
  off_of-store_ne k n = split (probe_all t k) refl
    where
      split :
          (f : Found)
          → probe_all t k ≡ f
          → off_at (put t.offs j v) (probe_all t k) ≡ off_at t.offs (probe_all t k)
      split (vacant s) e = rw e refl
      split full e = rw e refl
      split (found s) e =
          let a =
            subst (Ends t.keys t.capacity k) e (probe-Ends t.keys t.capacity k t.capacity 0) in
          let b =
            subst (Ends t.keys t.capacity key) here
              (probe-Ends t.keys t.capacity key t.capacity 0) in
          let ne : s ≢ j = λ q. n (sym a.0 ∙ ap t.keys q ∙ b.0) in
          rw e (ap (λ x. some x) (put_ne t.offs j v s ne))

has_slot : (index : Index) (k n i s : ℕ) → probe index.keys index.capacity k n i ≡ found s → 0 < n
has_slot index k zero i s h = absurd (cc (rw (probe-zero index.keys index.capacity k i) at h))
has_slot index k (suc n) i s h = omega arith

-- The slots below `i` have been moved, and nothing else.
record Moved (index : Index) (i : ℕ) (t : Index) : Type 0 where
  pub valid : IsIndex t
  pub moved : (j : ℕ) → j < i → index.keys j ≢ 0 → off_of t (index.keys j) ≡ some (index.offs j)
  pub only : (k : ℕ) → k ≢ 0 → (off_of t k ≡ none) ⊎ ((j : ℕ) × (j < i) × (index.keys j ≡ k))

off_at-empty : (capacity k n : ℕ) → off_at (λ j. 0) (probe (λ j. 0) capacity k n 0) ≡ none
unfolding probe
off_at-empty capacity k zero = refl
off_at-empty capacity k (suc n) = refl

module _ (index : Index) (ok : IsIndex index) where
  -- Two slots have different keys.
  distinct :
      (j i : ℕ)
      → j < index.capacity
      → i < index.capacity
      → index.keys i ≢ 0
      → index.keys j ≡ index.keys i
      → j ≡ i
  distinct j i lj li nz e =
      let a = ok.reachable j lj (λ z. nz (sym e ∙ z)) in
      let b = ok.reachable i li nz in
      let c : found j ≡ found i = sym a ∙ ap (probe_all index) e ∙ b in cc c

  Moved-skip : (i : ℕ) (t : Index) → Moved index i t → index.keys i ≡ 0 → Moved index (i + 1) t
  Moved-skip i t m z = record {
    valid = m.valid;
    moved = λ j lt nz. m.moved j (below j lt nz) nz;
    only = λ k nz. wider (m.only k nz);
  }
    where
      below : (j : ℕ) → j < i + 1 → index.keys j ≢ 0 → j < i
      below j lt nz = elim (Bool-cases (j == i)) [
        | inl e ↦ absurd (nz (ap index.keys ((==_iff j i).0 e) ∙ z))
        | inr e ↦ ground arith
      ]

      wider :
          {k : ℕ}
          → (off_of t k ≡ none) ⊎ ((j : ℕ) × (j < i) × (index.keys j ≡ k))
          → (off_of t k ≡ none) ⊎ ((j : ℕ) × (j < i + 1) × (index.keys j ≡ k))
      wider (inl e) = inl e
      wider (inr (j, lt, e)) = inr (j, omega arith, e)

  Moved-next :
      (i j : ℕ) (t t' : Index)
      → i < index.capacity
      → Moved index i t
      → index.keys i ≢ 0
      → update t (index.keys i) ≡ ret (j, t')
      → Moved index (i + 1) (store j (index.offs i) t')
  Moved-next i j t t' li m nz h =
      let u = update-Updated t (index.keys i) m.valid nz j t' h in
      let self = off_of-store_self t' (index.keys i) j (index.offs i) u.here in
      let other : (k : ℕ)
          → k ≢ index.keys i
          → k ≢ 0
          → off_of (store j (index.offs i) t') k ≡ off_of t k =
        λ k n z. off_of-store_ne t' (index.keys i) j (index.offs i) u.here k n ∙ u.others k n z in
      record {
        valid = store-IsIndex t' (index.keys i) j (index.offs i) u.here u.valid;
        moved = λ s lt z. elim (Bool-cases (s == i)) [
          | inl e ↦
              let q : s ≡ i = (==_iff s i).0 e in
              subst (λ x. off_of (store j (index.offs i) t') (index.keys x) ≡ some (index.offs x))
                (sym q) self
          | inr e ↦
              let lt' : s < i = ground arith in
              other (index.keys s)
                (λ q. absurd (omega (arith, lt', distinct s i (omega (arith, lt', li)) li nz q))) z
              ∙ m.moved s lt' z
        ];
        only = λ k z. elim (Bool-cases (k == index.keys i)) [
          | inl e ↦ inr (i, omega arith, sym ((==_iff k (index.keys i)).0 e))
          | inr e ↦ elim (m.only k z) [
            | inl n ↦ inl (other k (λ q. cc (sym e ∙ (==_iff k (index.keys i)).1 q)) z ∙ n)
            | inr (s, lt, q) ↦ inr (s, omega arith, q)
          ]
        ];
      }

  move_all-Moved :
      (n i : ℕ) (t t' : Index)
      → i + n ≡ index.capacity
      → Moved index i t
      → move_all index n i t ≡ ret t'
      → Moved index index.capacity t'
  unfolding move_all
  move_all-Moved zero i t t' s m h =
      let e : t ≡ t' = cc h in
      let p : i ≡ index.capacity = omega arith in
      subst (Moved index index.capacity) e (subst (λ x. Moved index x t) p m)
  move_all-Moved (suc n) i t t' s m h = elim (Bool-cases (index.keys i == 0)) [
    | inl e ↦
        move_all-Moved n (i + 1) t t' (omega arith)
          (Moved-skip i t m ((==_iff (index.keys i) 0).0 e)) (rw (e, move_all) at h)
    | inr e ↦
        after (update t (index.keys i)) refl (rw (e, move_all) at h)
          (λ z. cc (sym e ∙ (==_iff (index.keys i) 0).1 z))
          (λ x w. move_all-Moved n (i + 1) x t' (omega arith) w)
  ]
    where
      go_on : Outcome (ℕ × Index) → Outcome Index
      go_on (ret (j, x)) = move_all index n (i + 1) (store j (index.offs i) x)
      go_on abort = abort
      go_on out_of_fuel = out_of_fuel

      after :
          (o : Outcome (ℕ × Index))
          → update t (index.keys i) ≡ o
          → go_on o ≡ ret t'
          → index.keys i ≢ 0
          → ((x : Index)
              → Moved index (i + 1) x
              → move_all index n (i + 1) x ≡ ret t'
              → Moved index index.capacity t')
          → Moved index index.capacity t'
      after (ret (j, x)) e g nz rec =
          rec (store j (index.offs i) x) (Moved-next i j t x (omega arith) m nz e) g
      after abort e g nz rec = absurd (cc g)
      after out_of_fuel e g nz rec = absurd (cc g)

  create-Moved : (capacity : ℕ) → Moved index 0 (create capacity)
  unfolding create off_of
  create-Moved capacity = record {
    valid = record { reachable = λ j lt nz. absurd (nz refl) };
    moved = λ j lt nz. absurd (omega arith);
    only = λ k nz. inl (off_at-empty capacity k capacity);
  }

  -- What `grow` has done where it returned
  pub record Grown (t : Index) : Type 0 where
    pub valid : IsIndex t
    pub same : (k : ℕ) → k ≢ 0 → off_of t k ≡ off_of index k

  Moved-Grown : (t : Index) → Moved index index.capacity t → Grown t
  unfolding off_of
  Moved-Grown t m = record { valid = m.valid; same = λ k nz. split k nz (probe_all index k) refl }
    where
      absent : (k : ℕ) → k ≢ 0 → ((j : ℕ) → probe_all index k ≢ found j) → off_of t k ≡ none
      absent k nz n = elim (m.only k nz) [
        | inl e ↦ e
        | inr (j, lt, e) ↦
            absurd (n j (sym (ap (probe_all index) e) ∙ ok.reachable j lt (λ z. nz (sym e ∙ z))))
      ]

      split : (k : ℕ) → k ≢ 0 → (f : Found) → probe_all index k ≡ f → off_of t k ≡ off_of index k
      split k nz (vacant s) e = absent k nz (λ j g. cc (sym e ∙ g)) ∙ sym (ap (off_at index.offs) e)
      split k nz full e = absent k nz (λ j g. cc (sym e ∙ g)) ∙ sym (ap (off_at index.offs) e)
      split k nz (found s) e =
          let a =
            subst (Ends index.keys index.capacity k) e
              (probe-Ends index.keys index.capacity k index.capacity 0) in
          let z : index.keys s ≢ 0 = λ q. nz (sym a.0 ∙ q) in
          let b = m.moved s (a.1 (has_slot index k index.capacity 0 s e)) z in
          ap (off_of t) (sym a.0) ∙ b ∙ sym (ap (off_at index.offs) e)

  -- Where `grow` returns, the table has every key with its offset, no other key, and each is found.
  pub grow-Grown : (t : Index) → grow index ≡ ret t → Grown t
  unfolding grow
  grow-Grown t h = elim (Bool-cases (is_loaded index)) [
    | inl e ↦
        let c = mul64 (add64 index.capacity 97) 3 / 2 in
        Moved-Grown t (
          move_all-Moved index.capacity 0 (create c) t (omega arith) (create-Moved c)
            (rw (e, if◌then◌else◌) at h))
    | inr e ↦
        let g : index ≡ t = cc (rw (e, if◌then◌else◌) at h) in
        subst Grown g (record { valid = ok; same = λ k nz. refl })
  ]
