-- ===== src/Scm/Free.antt =====
-- `scm_free` of project-3/scm.c on the list of blocks.
use os_cs238p_proj.Common.{
  ℕ, ◌+◌, ◌-◌, ◌≤◌, ◌≡◌, ◌≢◌, inl, inr, refl, ◌==◌, true, false, if◌then◌else◌, [], ◌∷◌, arith,
  Bool-cases,
}
use os_cs238p_proj.Common.Word.{sub64}
use os_cs238p_proj.Common.Outcome.{ret}
use os_cs238p_proj.Scm.Chain.{
  Blocks, At, At-le, starts, mark, find_addr-starts, find_addr_empty, Chain-mark, Chain-write_below,
}
use os_cs238p_proj.Scm.Malloc.{first_block, Holds, Live, unused}
use os_cs238p_proj.Scm.{
  Scm, write, vm_start, base_addr, loop_fuel, scm_mbase, scm_allocated_addr, release, scm_free,
}

pub allocated-starts :
    (s : Scm) (bs : Blocks) (p : ℕ)
    → Holds s bs
    → scm_allocated_addr s p ≡ ret (starts first_block bs p)
unfolding scm_allocated_addr scm_mbase
allocated-starts s bs p h = elim (Bool-cases (s.used_bytes == 0)) [
  | inl z ↦
      let u : s.used_bytes ≡ 0 = ground arith in
      rw (z, unused s bs h u)
        (unfold starts in
          find_addr_empty s.used_bytes s.mem base_addr (base_addr + s.used_bytes) p (omega arith))
  | inr z ↦ rw z (
      find_addr-starts (loop_fuel s) s.mem first_block bs (first_block + s.used_bytes) p h.chain
        (omega arith) (omega arith) (omega (arith, h.fits, h.words)))
]

pub starts-At : (a : ℕ) (bs : Blocks) (p : ℕ) → starts a bs p ≡ true → At a bs p
unfolding starts
starts-At a [] p h = absurd (cc h)
starts-At a (b ∷ bs) p h = elim (Bool-cases (a == p)) [
  | inl e ↦ inl (ground arith)
  | inr e ↦ inr (starts-At (a + b.bytes + 16) bs p (rw e at h))
]

-- The list after a call: the block at `p`, if one starts there, is free.
unfoldable pub dispose : Blocks → ℕ → Blocks
dispose bs p = if starts first_block bs p then mark first_block bs p 0 else bs

-- Every other block in use stays in use.
Live-mark_free :
    (a : ℕ) (bs : Blocks) (p q m : ℕ) → q ≢ p → Live a bs q m → Live a (mark a bs p 0) q m
unfolding mark
Live-mark_free a [] p q m n l = absurd l
Live-mark_free a (b ∷ bs) p q m n (inl l) = elim (Bool-cases (a == p)) [
  | inl e ↦ absurd (ground (arith, l, n))
  | inr e ↦ rw e (inl l)
]
Live-mark_free a (b ∷ bs) p q m n (inr l) = elim (Bool-cases (a == p)) [
  | inl e ↦ rw e (inr l)
  | inr e ↦ rw e (inr (Live-mark_free (a + b.bytes + 16) bs p q m n l))
]

Live-from : (a : ℕ) (bs : Blocks) (q m : ℕ) → Live a bs q m → a ≤ q
Live-from a [] q m l = absurd l
Live-from a (b ∷ bs) q m (inl l) = omega arith
Live-from a (b ∷ bs) q m (inr l) = omega (arith, Live-from (a + b.bytes + 16) bs q m l)

-- No block in use is left at `p`.
not_Live : (a : ℕ) (bs : Blocks) (p m : ℕ) → ¬ (Live a (mark a bs p 0) p m)
unfolding mark
not_Live a [] p m l = l
not_Live a (b ∷ bs) p m l = elim (Bool-cases (a == p)) [
  | inl e ↦ head_free e (rw e at l)
  | inr e ↦ head_other e (rw e at l) (not_Live (a + b.bytes + 16) bs p m)
]
  where
    head_free : (a == p) ≡ true → Live a (record b { flag = 0 } ∷ bs) p m → ⊥
    head_free e (inl k) = k.2 refl
    head_free e (inr k) = absurd (ground (arith, Live-from (a + b.bytes + 16) bs p m k))

    head_other :
        (a == p) ≡ false
        → Live a (b ∷ mark (a + b.bytes + 16) bs p 0) p m
        → (Live (a + b.bytes + 16) (mark (a + b.bytes + 16) bs p 0) p m → ⊥)
        → ⊥
    head_other e (inl k) f = absurd (ground (arith, k))
    head_other e (inr k) f = f k

Live-At : (a : ℕ) (bs : Blocks) (p m : ℕ) → Live a bs p m → starts a bs p ≡ true
unfolding starts
Live-At a [] p m l = absurd l
Live-At a (b ∷ bs) p m (inl l) = ground (arith, l)
Live-At a (b ∷ bs) p m (inr l) = ground (arith, Live-At (a + b.bytes + 16) bs p m l)

release-Holds :
    (s : Scm) (bs : Blocks) (p : ℕ)
    → Holds s bs
    → At first_block bs p
    → Holds (release p s) (mark first_block bs p 0)
unfolding release
release-Holds s bs p h t =
    let le = At-le first_block bs p t in
    let e = first_block + s.used_bytes in
    let c = Chain-mark s.mem first_block bs e p 0 t (omega arith) h.chain in
    record {
      chain =
          Chain-write_below (write s.mem (p - 16) 0) first_block (mark first_block bs p 0) e
            (vm_start + 16) (sub64 s.user_bytes (s.mem (p - 8))) (omega arith) c;
      id_word = ground (arith, h.id_word);
      used_word = ground (arith, h.used_word);
      user_word = refl;
      fits = h.fits;
      words = h.words;
    }

-- What a call of `scm_free` for `p` has done.
pub record Freed (bs : Blocks) (p : ℕ) (bs' : Blocks) (s' : Scm) : Type 0 where
  pub holds : Holds s' bs'
  pub kept : (q m : ℕ) → q ≢ p → Live first_block bs q m → Live first_block bs' q m
  pub gone : (m : ℕ) → ¬ (Live first_block bs' p m)

pub free_hit :
    (s : Scm) (bs : Blocks) (p : ℕ)
    → Holds s bs
    → starts first_block bs p ≡ true
    → scm_free p s ≡ release p s
unfolding scm_free
free_hit s bs p h t = rw (allocated-starts s bs p h, t, scm_free)

-- An address at which no block starts is ignored.
free_miss :
    (s : Scm) (bs : Blocks) (p : ℕ)
    → Holds s bs
    → starts first_block bs p ≡ false
    → scm_free p s ≡ s
unfolding scm_free
free_miss s bs p h t = rw (allocated-starts s bs p h, t, scm_free)

-- After `scm_free` the heap holds the list in which the block at `p`, if one starts there, is free:
-- no block in use is left at `p`, and every other one is in use as before.
pub free-Freed :
    (s : Scm) (bs : Blocks) (p : ℕ) → Holds s bs → Freed bs p (dispose bs p) (scm_free p s)
unfolding dispose
free-Freed s bs p h = elim (Bool-cases (starts first_block bs p)) [
  | inl t ↦
      rw (free_hit s bs p h t, t)
        (record {
          holds = release-Holds s bs p h (starts-At first_block bs p t);
          kept = λ q m n l. Live-mark_free first_block bs p q m n l;
          gone = λ m l. not_Live first_block bs p m l;
        })
  | inr t ↦
      rw (free_miss s bs p h t, t)
        (record {
          holds = h;
          kept = λ q m n l. l;
          gone = λ m l. cc (Live-At first_block bs p m l, t);
        })
]

-- Marking moves no block.
pub starts-mark : (a : ℕ) (bs : Blocks) (p v q : ℕ) → starts a (mark a bs p v) q ≡ starts a bs q
unfolding starts mark
starts-mark a [] p v q = refl
starts-mark a (b ∷ bs) p v q = ground (arith, starts-mark (a + b.bytes + 16) bs p v q)
