-- ===== src/Index/Update.antt =====
-- `update` of project-4/index.c, and what a lookup finds after it.
use os_cs238p_proj.Common.{
  ℕ, zero, suc, ◌+◌, ◌<◌, ◌==◌, ◌≡◌, ◌≢◌, refl, ap, sym, ◌∙◌, subst, arith, false, if◌then◌else◌,
  inl, inr, Bool-cases, ==_of_ne, ==_iff, Option, some, none,
}
use os_cs238p_proj.Common.Word.{add64}
use os_cs238p_proj.Common.Outcome.{ret}
use os_cs238p_proj.Index.{
  Index, Found, vacant, found, full, slot, probe, probe_all, put, update, insert_at,
}
use os_cs238p_proj.Index.Probe.{
  Ends, probe-Ends, probe-zero, probe-vacant, probe-found, probe-next, put-found, put_self,
}

-- Every key in the table is found at its slot.
pub record IsIndex (index : Index) : Type 0 where
  pub reachable :
      (j : ℕ) → j < index.capacity → index.keys j ≢ 0 → probe_all index (index.keys j) ≡ found j

-- The offset of a key
abbrev pub off_at : (ℕ → ℕ) → Found → Option ℕ
off_at offs (found j) = some (offs j)
off_at offs _ = none

unfoldable pub off_of : Index → ℕ → Option ℕ
off_of index key = off_at index.offs (probe_all index key)

abbrev pub or_zero : Option ℕ → ℕ
or_zero none = 0
or_zero (some off) = off

abbrev pub is_new : Option ℕ → ℕ
is_new none = 1
is_new (some off) = 0

-- The table after `update` has returned the slot `j`
pub record Updated (index : Index) (key j : ℕ) (index' : Index) : Type 0 where
  pub valid : IsIndex index'
  pub here : probe_all index' key ≡ found j
  pub off : index'.offs j ≡ or_zero (off_of index key)
  pub others : (k : ℕ) → k ≢ key → k ≢ 0 → off_of index' k ≡ off_of index k
  pub size :
      index'.size ≡ (if is_new (off_of index key) == 0 then index.size else add64 index.size 1)
  pub capacity : index'.capacity ≡ index.capacity

pub put_same : (keys : ℕ → ℕ) (j key x : ℕ) → keys j ≡ key → put keys j key x ≡ keys x
put_same keys j key x h = elim (Bool-cases (x == j)) [
  | inl e ↦ rw (e, if◌then◌else◌) (sym h ∙ ap keys (sym ((==_iff x j).0 e)))
  | inr e ↦ rw (e, if◌then◌else◌) refl
]

pub put_at : (keys : ℕ → ℕ) (j key : ℕ) → put keys j key j ≡ key
put_at keys j key = rw ((==_iff j j).1 refl, if◌then◌else◌)

pub put_ne : (keys : ℕ → ℕ) (j key x : ℕ) → x ≢ j → put keys j key x ≡ keys x
put_ne keys j key x h = rw (==_of_ne x j h, if◌then◌else◌)

module _ (index : Index) (key : ℕ) (ok : IsIndex index) (nonzero : key ≢ 0) where
  -- A slot was free: the key is in it now.
  module _ (j : ℕ) (h : probe_all index key ≡ vacant j) (some_slot : 0 < index.capacity) where
    free : (index.keys j ≡ 0) × (j < index.capacity)
    free =
        let e =
          subst (Ends index.keys index.capacity key) h
            (probe-Ends index.keys index.capacity key index.capacity 0) in
        (e.0, e.1 some_slot)

    insert-IsIndex : IsIndex (insert_at key j index)
    unfolding insert_at
    insert-IsIndex = record {
      reachable = λ s lt nz. elim (Bool-cases (s == j)) [
        | inl e ↦
            let q : s ≡ j = (==_iff s j).0 e in
            let p : put index.keys j key s ≡ key =
              ap (put index.keys j key) q ∙ put_at index.keys j key in
            ap (probe_all (insert_at key j index)) p
            ∙ put_self index.keys index.capacity key j free.0 index.capacity 0 nonzero h
            ∙ ap found (sym q)
        | inr e ↦
            let p : put index.keys j key s ≡ index.keys s = rw (e, if◌then◌else◌) refl in
            ap (probe_all (insert_at key j index)) p
            ∙ put-found index.keys index.capacity key j free.0 (index.keys s) index.capacity 0 s
                (ok.reachable s lt (λ z. nz (p ∙ z)))
      ];
    }

    -- Another key that the table does not have is not found.
    not_found :
        (k : ℕ)
        → k ≢ key
        → k ≢ 0
        → (s : ℕ) → probe_all (insert_at key j index) k ≡ found s
        → probe_all index k ≡ found s
    unfolding insert_at
    not_found k n z s g =
        let e =
          subst (Ends (put index.keys j key) index.capacity k) g
            (probe-Ends (put index.keys j key) index.capacity k index.capacity 0) in
        let ne : s ≢ j = λ q. n (sym e.0 ∙ ap (put index.keys j key) q ∙ put_at index.keys j key) in
        let p = sym (put_ne index.keys j key s ne) ∙ e.0 in
        sym (ap (probe_all index) p) ∙ ok.reachable s (e.1 some_slot) (λ q. z (sym p ∙ q))

    insert-others : (k : ℕ) → k ≢ key → k ≢ 0 → off_of (insert_at key j index) k ≡ off_of index k
    unfolding off_of insert_at
    insert-others k n z = split (probe_all index k) (probe_all (insert_at key j index) k) refl refl
      where
        kept :
            (s : ℕ)
            → probe_all index k ≡ found s
            → off_at (put index.offs j 0) (probe_all (insert_at key j index) k)
              ≡ off_at index.offs (probe_all index k)
        kept s g =
            let e =
              subst (Ends index.keys index.capacity k) g
                (probe-Ends index.keys index.capacity k index.capacity 0) in
            let ne : s ≢ j = λ q. z (sym e.0 ∙ ap index.keys q ∙ free.0) in
            let g' = put-found index.keys index.capacity key j free.0 k index.capacity 0 s g in
            ap (off_at (put index.offs j 0)) g'
            ∙ ap (λ x. some x) (put_ne index.offs j 0 s ne)
            ∙ sym (ap (off_at index.offs) g)

        split :
            (f g : Found)
            → probe_all index k ≡ f
            → probe_all (insert_at key j index) k ≡ g
            → off_at (put index.offs j 0) (probe_all (insert_at key j index) k)
              ≡ off_at index.offs (probe_all index k)
        split (found s) g e e' = kept s e
        split f (found s) e e' = kept s (not_found k n z s e')
        split (vacant s) (vacant t) e e' = rw (e, e') refl
        split (vacant s) full e e' = rw (e, e') refl
        split full (vacant t) e e' = rw (e, e') refl
        split full full e e' = rw (e, e') refl

    insert-Updated : Updated index key j (insert_at key j index)
    unfolding off_of insert_at
    insert-Updated = record {
      valid = insert-IsIndex;
      here = put_self_index;
      off = put_at index.offs j 0 ∙ sym (ap (λ f. or_zero (off_at index.offs f)) h);
      others = insert-others;
      size = size_index;
      capacity = capacity_index;
    }
      where
        put_self_index : probe_all (insert_at key j index) key ≡ found j
        put_self_index = put_self index.keys index.capacity key j free.0 index.capacity 0 nonzero h

        capacity_index : (insert_at key j index).capacity ≡ index.capacity
        capacity_index = refl

        size_index : (insert_at key j index).size ≡ (
            if is_new (off_at index.offs (probe_all index key)) == 0
            then index.size
            else add64 index.size 1)
        size_index = rw h refl

  -- The key was there: the store of the key changes nothing.
  found-Updated :
      (j : ℕ)
      → probe_all index key ≡ found j
      → Updated index key j (record index { keys = put index.keys j key })
  unfolding off_of
  found-Updated j h =
      let e =
        subst (Ends index.keys index.capacity key) h
          (probe-Ends index.keys index.capacity key index.capacity 0) in
      let same : index.keys ≡ put index.keys j key =
        λ i x. sym (put_same index.keys j key x e.0) i in
      subst (λ ks. Updated index key j (record index { keys = ks })) same
        (record {
          valid = ok;
          here = h;
          off = sym (ap (λ f. or_zero (off_at index.offs f)) h);
          others = λ k n z. refl;
          size = rw h refl;
          capacity = refl;
        })

  has_slot : (n i j : ℕ) → probe index.keys index.capacity key n i ≡ vacant j → 0 < n
  has_slot zero i j h = absurd (cc (rw (probe-zero index.keys index.capacity key i) at h))
  has_slot (suc n) i j h = omega arith

  -- `update` returns the slot of the key, which has the offset that it had before, 0 for a new key; the
  -- offsets of all other keys are as they were, and every key stays reachable. The key is not 0, and
  -- the table is well-formed.
  pub update-Updated :
      (j : ℕ) (index' : Index) → update index key ≡ ret (j, index') → Updated index key j index'
  unfolding update
  update-Updated j index' h = split (probe_all index key) refl h
    where
      split :
          (f : Found)
          → probe_all index key ≡ f
          → update index key ≡ ret (j, index')
          → Updated index key j index'
      split (vacant s) e g =
          let g' = rw (e, update) at g in
          let p : s ≡ j = cc g' in
          let q : insert_at key s index ≡ index' = cc g' in
          subst (λ x. Updated index key j x) q
            (subst (λ x. Updated index key x (insert_at key s index)) p
              (insert-Updated s e (has_slot index.capacity 0 s e)))
      split (found s) e g =
          let g' = rw (e, update) at g in
          let p : s ≡ j = cc g' in
          let q : record index { keys = put index.keys s key } ≡ index' = cc g' in
          subst (λ x. Updated index key j x) q
            (subst (λ x. Updated index key x (record index { keys = put index.keys s key })) p
              (found-Updated s e))
      split full e g = absurd (cc (rw (e, update) at g))

-- A free slot in its way ends the loop.
probe-free :
    (keys : ℕ → ℕ) (capacity key n i m : ℕ)
    → m < n
    → keys (slot capacity key (i + m)) ≡ 0
    → probe keys capacity key n i ≢ full
probe-free keys capacity key zero i m lt h g = absurd (omega arith)
probe-free keys capacity key (suc n) i m lt h g =
    elim (Bool-cases (keys (slot capacity key i) == 0)) [
      | inl e ↦ cc (rw (probe-vacant keys capacity key n i e) at g)
      | inr e ↦ elim (Bool-cases (keys (slot capacity key i) == key)) [
        | inl k ↦ cc (rw (probe-found keys capacity key n i e k) at g)
        | inr k ↦
            next m lt h (rw (probe-next keys capacity key n i e k) at g) e
              (λ m' lt' h'. probe-free keys capacity key n (i + 1) m' lt' h')
      ]
    ]
  where
    next :
        (m : ℕ)
        → m < suc n
        → keys (slot capacity key (i + m)) ≡ 0
        → probe keys capacity key n (i + 1) ≡ full
        → (keys (slot capacity key i) == 0) ≡ false
        → ((m' : ℕ)
            → m' < n
            → keys (slot capacity key (i + 1 + m')) ≡ 0
            → probe keys capacity key n (i + 1) ≢ full)
        → ⊥
    next zero lt h g e rec =
        let p : i + 0 ≡ i = omega arith in
        let q : keys (slot capacity key i) ≡ 0 = sym (ap (λ x. keys (slot capacity key x)) p) ∙ h in
        cc (sym e ∙ (==_iff (keys (slot capacity key i)) 0).1 q)
    next (suc m') lt h g e rec =
        let p : i + 1 + m' ≡ i + suc m' = omega arith in
        rec m' (omega arith) (ap (λ x. keys (slot capacity key x)) p ∙ h) g

-- `update` does not end the process where one of the slots that it tries is free.
pub update-ends :
    (index : Index) (key i : ℕ)
    → i < index.capacity
    → index.keys (slot index.capacity key i) ≡ 0
    → (j : ℕ) × (index' : Index) × (update index key ≡ ret (j, index'))
unfolding update
update-ends index key i lt free = split (probe_all index key) refl
  where
    split :
        (f : Found)
        → probe_all index key ≡ f
        → (j : ℕ) × (index' : Index) × (update index key ≡ ret (j, index'))
    split (vacant s) e = (s, insert_at key s index, rw (e, update) refl)
    split (found s) e = (s, record index { keys = put index.keys s key }, rw (e, update) refl)
    split full e =
        let p : 0 + i ≡ i = omega arith in
        absurd (
          probe-free index.keys index.capacity key index.capacity 0 i lt
            (ap (λ x. index.keys (slot index.capacity key x)) p ∙ free) e)
