-- ===== src/Index/Probe.antt =====
-- The loop over the slots of project-4/index.c, before and after a key is put into a free slot.
use os_cs238p_proj.Common.{
  ℕ, zero, suc, ◌+◌, ◌<◌, ◌==◌, ◌≡◌, ◌≢◌, refl, ap, sym, ◌∙◌, arith, true, false, if◌then◌else◌,
  inl, inr, Bool-cases, ==_of_ne, ==_iff,
}
use native.Mathlib.Nat.{mod-lt}
use os_cs238p_proj.Index.{Found, vacant, found, full, slot, probe, put}

module _ (keys : ℕ → ℕ) (capacity key : ℕ) where
  pub probe-vacant :
      (n i : ℕ)
      → (keys (slot capacity key i) == 0) ≡ true
      → probe keys capacity key (suc n) i ≡ vacant (slot capacity key i)
  unfolding probe
  probe-vacant n i h = rw (h, probe, if◌then◌else◌)

  pub probe-found :
      (n i : ℕ)
      → (keys (slot capacity key i) == 0) ≡ false
      → (keys (slot capacity key i) == key) ≡ true
      → probe keys capacity key (suc n) i ≡ found (slot capacity key i)
  unfolding probe
  probe-found n i h k = rw (h, k, probe, if◌then◌else◌)

  pub probe-next :
      (n i : ℕ)
      → (keys (slot capacity key i) == 0) ≡ false
      → (keys (slot capacity key i) == key) ≡ false
      → probe keys capacity key (suc n) i ≡ probe keys capacity key n (i + 1)
  unfolding probe
  probe-next n i h k = rw (h, k, probe, if◌then◌else◌)

  pub probe-zero : (i : ℕ) → probe keys capacity key zero i ≡ full
  unfolding probe
  probe-zero i = refl

  -- The slot that the loop ends at
  abbrev pub Ends : Found → Type 0
  Ends (vacant j) = (keys j ≡ 0) × (0 < capacity → j < capacity)
  Ends (found j) = (keys j ≡ key) × (0 < capacity → j < capacity)
  Ends full = Unit

  slot-lt : (i : ℕ) → 0 < capacity → slot capacity key i < capacity
  unfolding slot
  slot-lt i h = mod-lt _ h

  pub probe-Ends : (n i : ℕ) → Ends (probe keys capacity key n i)
  unfolding probe
  probe-Ends zero i = tt
  probe-Ends (suc n) i = elim (Bool-cases (keys (slot capacity key i) == 0)) [
    | inl e ↦ rw (probe-vacant n i e) ((==_iff (keys (slot capacity key i)) 0).0 e, slot-lt i)
    | inr e ↦ elim (Bool-cases (keys (slot capacity key i) == key)) [
      | inl k ↦ rw (probe-found n i e k) ((==_iff (keys (slot capacity key i)) key).0 k, slot-lt i)
      | inr k ↦ rw (probe-next n i e k) (probe-Ends n (i + 1))
    ]
  ]

-- A key put into a free slot
module _ (keys : ℕ → ℕ) (capacity key : ℕ) (j : ℕ) (free : keys j ≡ 0) where
  put_other : (s : ℕ) → (keys s == 0) ≡ false → put keys j key s ≡ keys s
  put_other s h =
      let ne : (s == j) ≡ false = ==_of_ne s j (λ e. absurd (ground (arith, ap keys e ∙ free))) in
      rw (ne, if◌then◌else◌)

  -- leaves what is found found,
  pub put-found :
      (other n i s : ℕ)
      → probe keys capacity other n i ≡ found s
      → probe (put keys j key) capacity other n i ≡ found s
  put-found other zero i s h = absurd (cc (rw (probe-zero keys capacity other i) at h))
  put-found other (suc n) i s h = elim (Bool-cases (keys (slot capacity other i) == 0)) [
    | inl e ↦ absurd (cc (rw (probe-vacant keys capacity other n i e) at h))
    | inr e ↦
        let p = put_other (slot capacity other i) e in
        let e' = ap (λ x. x == 0) p ∙ e in
        elim (Bool-cases (keys (slot capacity other i) == other)) [
          | inl k ↦
              probe-found (put keys j key) capacity other n i e' (ap (λ x. x == other) p ∙ k)
              ∙ sym (probe-found keys capacity other n i e k)
              ∙ h
          | inr k ↦
              probe-next (put keys j key) capacity other n i e' (ap (λ x. x == other) p ∙ k)
              ∙ put-found other n (i + 1) s (rw (probe-next keys capacity other n i e k) at h)
        ]
  ]

  -- and is found where the loop for it came to the slot.
  pub put_self :
      (n i : ℕ)
      → key ≢ 0
      → probe keys capacity key n i ≡ vacant j
      → probe (put keys j key) capacity key n i ≡ found j
  put_self zero i z h = absurd (cc (rw (probe-zero keys capacity key i) at h))
  put_self (suc n) i z h = elim (Bool-cases (keys (slot capacity key i) == 0)) [
    | inl e ↦
        let s : slot capacity key i ≡ j = cc (rw (probe-vacant keys capacity key n i e) at h) in
        let p : put keys j key (slot capacity key i) ≡ key = ap (put keys j key) s ∙ put_at in
        probe-found (put keys j key) capacity key n i (ap (λ x. x == 0) p ∙ ==_of_ne key 0 z)
          (ap (λ x. x == key) p ∙ (==_iff key key).1 refl)
        ∙ ap found s
    | inr e ↦
        let p = put_other (slot capacity key i) e in
        let e' = ap (λ x. x == 0) p ∙ e in
        elim (Bool-cases (keys (slot capacity key i) == key)) [
          | inl k ↦ absurd (cc (rw (probe-found keys capacity key n i e k) at h))
          | inr k ↦
              probe-next (put keys j key) capacity key n i e' (ap (λ x. x == key) p ∙ k)
              ∙ put_self n (i + 1) z (rw (probe-next keys capacity key n i e k) at h)
        ]
  ]
    where
      put_at : put keys j key j ≡ key
      put_at = rw ((==_iff j j).1 refl, if◌then◌else◌)
