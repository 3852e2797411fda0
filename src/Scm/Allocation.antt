-- ===== src/Scm/Allocation.antt =====
-- What `scm_malloc` of project-3/scm.c promises: room of its own for every block in use.
use os_cs238p_proj.Common.{
  ℕ, ◌+◌, ◌≤◌, ◌<◌, ◌≡◌, ◌⊎◌, inl, inr, refl, ◌==◌, true, false, [], ◌∷◌, ◌++◌, arith, Bool-cases,
  Option-cases,
}
use os_cs238p_proj.Common.Outcome.{ret}
use os_cs238p_proj.Scm.Chain.{Blocks, Chain, Chain-le, At-le, first_fit, mark}
use os_cs238p_proj.Scm.Malloc.{
  first_block, Holds, Fit, first_fit-Fit, Fit-At, Live, alloc, reuse-Holds, extend-Holds,
  malloc_fit, malloc_none, malloc_room,
}
use os_cs238p_proj.Scm.{Scm, scm_malloc}

pub Live-le :
    (mem : ℕ → ℕ) (a : ℕ) (bs : Blocks) (e q m : ℕ)
    → Chain mem a bs e
    → Live a bs q m
    → (a ≤ q) × (q + m + 16 ≤ e)
Live-le mem a [] e q m h l = absurd l
Live-le mem a (b ∷ bs) e q m h (inl l) =
    let le = Chain-le mem (a + b.bytes + 16) bs e h.2 in (omega arith, omega arith)
Live-le mem a (b ∷ bs) e q m h (inr l) =
    let (x, y) = Live-le mem (a + b.bytes + 16) bs e q m h.2 l in (omega arith, y)

Fit-le :
    (mem : ℕ → ℕ) (a : ℕ) (bs : Blocks) (e p n : ℕ)
    → Chain mem a bs e
    → Fit a bs p n
    → (a ≤ p) × (p + n + 16 ≤ e)
Fit-le mem a [] e p n h f = absurd f
Fit-le mem a (b ∷ bs) e p n h (inl f) =
    let le = Chain-le mem (a + b.bytes + 16) bs e h.2 in (omega arith, omega arith)
Fit-le mem a (b ∷ bs) e p n h (inr f) =
    let (x, y) = Fit-le mem (a + b.bytes + 16) bs e p n h.2 f in (omega arith, y)

-- A free block and one in use do not overlap.
Fit-apart :
    (mem : ℕ → ℕ) (a : ℕ) (bs : Blocks) (e p n q m : ℕ)
    → Chain mem a bs e
    → Fit a bs p n
    → Live a bs q m
    → (q + m ≤ p) ⊎ (p + n ≤ q)
Fit-apart mem a [] e p n q m h f l = absurd f
Fit-apart mem a (b ∷ bs) e p n q m h (inl f) (inl l) = absurd (l.2 f.1)
Fit-apart mem a (b ∷ bs) e p n q m h (inl f) (inr l) =
    let (x, y) = Live-le mem (a + b.bytes + 16) bs e q m h.2 l in inr (omega arith)
Fit-apart mem a (b ∷ bs) e p n q m h (inr f) (inl l) =
    let (x, y) = Fit-le mem (a + b.bytes + 16) bs e p n h.2 f in inl (omega arith)
Fit-apart mem a (b ∷ bs) e p n q m h (inr f) (inr l) =
    Fit-apart mem (a + b.bytes + 16) bs e p n q m h.2 f l

-- Marking a block as used keeps those that were in use, and adds it.
Live-mark : (a : ℕ) (bs : Blocks) (p q m : ℕ) → Live a bs q m → Live a (mark a bs p 1) q m
unfolding mark
Live-mark a [] p q m l = absurd l
Live-mark a (b ∷ bs) p q m (inl l) = elim (Bool-cases (a == p)) [
  | inl e ↦ rw e (inl (l.0, l.1, omega arith))
  | inr e ↦ rw e (inl l)
]
Live-mark a (b ∷ bs) p q m (inr l) = elim (Bool-cases (a == p)) [
  | inl e ↦ rw e (inr l)
  | inr e ↦ rw e (inr (Live-mark (a + b.bytes + 16) bs p q m l))
]

Fit-mark :
    (a : ℕ) (bs : Blocks) (p n : ℕ) → Fit a bs p n → (m : ℕ) × (n ≤ m) × Live a (mark a bs p 1) p m
unfolding mark
Fit-mark a [] p n f = absurd f
Fit-mark a (b ∷ bs) p n (inl f) =
    let e : (a == p) ≡ true = ground (arith, f) in rw e (b.bytes, f.2, inl (f.0, refl, omega arith))
Fit-mark a (b ∷ bs) p n (inr f) =
    let le = At-le (a + b.bytes + 16) bs p (Fit-At (a + b.bytes + 16) bs p n f) in
    let e : (a == p) ≡ false = ground arith in
    let (m, k, l) = Fit-mark (a + b.bytes + 16) bs p n f in rw e (m, k, inr l)

pub Live-append : (a : ℕ) (bs cs : Blocks) (q m : ℕ) → Live a bs q m → Live a (bs ++ cs) q m
Live-append a [] cs q m l = absurd l
Live-append a (b ∷ bs) cs q m (inl l) = inl l
Live-append a (b ∷ bs) cs q m (inr l) = inr (Live-append (a + b.bytes + 16) bs cs q m l)

pub Live-new :
    (mem : ℕ → ℕ) (a : ℕ) (bs : Blocks) (e n : ℕ)
    → Chain mem a bs e
    → Live a (bs ++ record { flag = 1; bytes = n } ∷ []) e n
Live-new mem a [] e n h = inl (h, refl, omega arith)
Live-new mem a (b ∷ bs) e n h = inr (Live-new mem (a + b.bytes + 16) bs e n h.2)

-- What a call of `scm_malloc` for `n` bytes that returned `p` has done.
pub record Allocated (bs : Blocks) (n p : ℕ) (bs' : Blocks) (s' : Scm) : Type 0 where
  pub holds : Holds s' bs'
  pub own : (m : ℕ) × (n ≤ m) × Live first_block bs' p m
  pub kept : (q m : ℕ) → Live first_block bs q m → Live first_block bs' q m
  pub apart : (q m : ℕ) → Live first_block bs q m → (q + m ≤ p) ⊎ (p + n ≤ q)

module _ (s s' : Scm) (bs : Blocks) (n p : ℕ) (h : Holds s bs) (b : n < 0x8000_0000_0000_0000) where
  -- For a request of less than 2 ^ 63 bytes: where `scm_malloc` returns, the heap holds the list of blocks in which the first free block that
  -- is large enough is taken, or a new one stands at the end; the address is that of a block in use
  -- of at least the requested size; all blocks that were in use still are, and none of them overlaps
  -- the requested bytes.
  pub malloc-Allocated : scm_malloc n s ≡ ret (p, s') → Allocated bs n p (alloc bs n) s'
  malloc-Allocated e = elim (Option-cases (first_fit first_block bs n)) [
    | inl f ↦
        let (room, at, same) = malloc_room s s' bs n p h b (malloc_none s s' bs n p h f e) in
        let a : alloc bs n ≡ bs ++ record { flag = 1; bytes = n } ∷ [] =
          unfold alloc in rw (f, alloc) in
        rw (at, a, same)
          (record {
            holds = extend-Holds s bs n h room;
            own = (
              n,
              omega arith,
              Live-new s.mem first_block bs (first_block + s.used_bytes) n h.chain,
            );
            kept = λ q m l. Live-append first_block bs (record { flag = 1; bytes = n } ∷ []) q m l;
            apart = λ q m l.
                let (x, y) =
                  Live-le s.mem first_block bs (first_block + s.used_bytes) q m h.chain l in
                inl (omega arith);
          })
    | inr (q, f) ↦
        let (at, same) = malloc_fit s s' bs n p h q f e in
        let fit = first_fit-Fit first_block bs n q f in
        let a : alloc bs n ≡ mark first_block bs q 1 = unfold alloc in rw (f, alloc) in
        rw (at, a, same)
          (record {
            holds = reuse-Holds s bs q 1 h (Fit-At first_block bs q n fit);
            own = Fit-mark first_block bs q n fit;
            kept = λ x m l. Live-mark first_block bs q x m l;
            apart = λ x m l.
                Fit-apart s.mem first_block bs (first_block + s.used_bytes) q n x m h.chain fit l;
          })
  ]
