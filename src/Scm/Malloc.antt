-- ===== src/Scm/Malloc.antt =====
-- `scm_malloc` and `scm_strdup` of project-3/scm.c on the list of blocks.
use os_cs238p_proj.Common.{
  ℕ, ◌+◌, ◌-◌, ◌≤◌, ◌<◌, ◌≡◌, ◌≢◌, ◌⊎◌, inl, inr, refl, ◌==◌, ltb, leb, ◌&&◌, none, some, [], ◌∷◌,
  ◌++◌, arith, Bool-cases,
}
use os_cs238p_proj.Common.Word.{add64, add64_exact}
use os_cs238p_proj.Common.Outcome.{ret}
use os_cs238p_proj.Scm.Chain.{
  Block, Blocks, Chain, At, Chain-le, At-le, first_fit, find-first_fit, mark, Chain-mark,
  Chain-write_below, Chain-write_behind, Chain-append, find_empty,
}
use os_cs238p_proj.Scm.{
  Scm, vm_start, base_addr, size_info_id, write, find, loop_fuel, scm_mbase, extend, malloc_new,
  scm_malloc,
}

-- The address of the first block.
abbrev pub first_block : ℕ
first_block = 0x7000_0000_0028

-- The memory holds the blocks of the list, and the size information that a later `scm_open` reads.
pub record Holds (s : Scm) (bs : Blocks) : Type 0 where
  pub chain : Chain s.mem first_block bs (first_block + s.used_bytes)
  pub id_word : s.mem vm_start ≡ size_info_id
  pub used_word : s.mem (vm_start + 8) ≡ s.used_bytes
  pub user_word : s.mem (vm_start + 16) ≡ s.user_bytes
  pub fits : s.used_bytes ≤ s.size
  pub words : s.size < 0x1_0000_0000_0000

-- No byte used, no block.
pub unused : (s : Scm) (bs : Blocks) → Holds s bs → s.used_bytes ≡ 0 → bs ≡ []
unused s [] h z = refl
unused s (b ∷ bs) h z = absurd (
    omega (
      arith,
      Chain-le s.mem (first_block + b.bytes + 16) bs (first_block + s.used_bytes) h.chain.2,
    ))

-- The loop of `scm_malloc` finds the first fit of the list.
pub find_blocks :
    (s : Scm) (bs : Blocks) (n : ℕ)
    → Holds s bs
    → find (loop_fuel s) s.mem (scm_mbase s) (scm_mbase s + s.used_bytes) n
      ≡ ret (first_fit first_block bs n)
unfolding scm_mbase
find_blocks s bs n h = elim (Bool-cases (s.used_bytes == 0)) [
  | inl z ↦
      let u : s.used_bytes ≡ 0 = ground arith in
      rw (z, unused s bs h u)
        (unfold first_fit in
          find_empty s.used_bytes s.mem base_addr (base_addr + s.used_bytes) n (omega arith))
  | inr z ↦ rw z (
      find-first_fit (loop_fuel s) s.mem first_block bs (first_block + s.used_bytes) n h.chain
        (omega arith) (omega arith) (omega (arith, h.fits, h.words)))
]

-- The first fit is a free block of the list that is large enough.
abbrev pub Fit : ℕ → Blocks → ℕ → ℕ → Type 0
Fit a [] p n = ⊥
Fit a (b ∷ bs) p n = ((a ≡ p) × (b.flag ≡ 0) × (n ≤ b.bytes)) ⊎ Fit (a + b.bytes + 16) bs p n

pub first_fit-Fit : (a : ℕ) (bs : Blocks) (n p : ℕ) → first_fit a bs n ≡ some p → Fit a bs p n
unfolding first_fit
first_fit-Fit a [] n p h = absurd (cc h)
first_fit-Fit a (b ∷ bs) n p h = elim (Bool-cases (b.flag == 0 && leb n b.bytes)) [
  | inl j ↦ inl (cc (rw j at h), ground arith, ground arith)
  | inr j ↦ inr (first_fit-Fit (a + b.bytes + 16) bs n p (rw j at h))
]

pub Fit-At : (a : ℕ) (bs : Blocks) (p n : ℕ) → Fit a bs p n → At a bs p
Fit-At a [] p n h = absurd h
Fit-At a (b ∷ bs) p n (inl h) = inl h.0
Fit-At a (b ∷ bs) p n (inr h) = inr (Fit-At (a + b.bytes + 16) bs p n h)

-- A block in use: `m` bytes at `q`.
abbrev pub Live : ℕ → Blocks → ℕ → ℕ → Type 0
Live a [] q m = ⊥
Live a (b ∷ bs) q m = ((a ≡ q) × (b.bytes ≡ m) × (b.flag ≢ 0)) ⊎ Live (a + b.bytes + 16) bs q m

-- What the allocation of `n` bytes does to the list: the first fit is taken, or a block is added
-- behind the others.
unfoldable pub alloc : Blocks → ℕ → Blocks
alloc bs n = elim (first_fit first_block bs n) [
  | some p ↦ mark first_block bs p 1
  | none ↦ bs ++ record { flag = 1; bytes = n } ∷ []
]

pub reuse-Holds :
    (s : Scm) (bs : Blocks) (p v : ℕ)
    → Holds s bs
    → At first_block bs p
    → Holds (record s { mem = write s.mem (p - 16) v }) (mark first_block bs p v)
reuse-Holds s bs p v h t =
    let le = At-le first_block bs p t in
    record {
      chain =
          Chain-mark s.mem first_block bs (first_block + s.used_bytes) p v t (omega arith) h.chain;
      id_word = ground (arith, h.id_word);
      used_word = ground (arith, h.used_word);
      user_word = ground (arith, h.user_word);
      fits = h.fits;
      words = h.words;
    }

pub extend-Holds :
    (s : Scm) (bs : Blocks) (n : ℕ)
    → Holds s bs
    → s.used_bytes + n + 16 ≤ s.size
    → Holds (extend n s) (bs ++ record { flag = 1; bytes = n } ∷ [])
unfolding extend
extend-Holds s bs n h b =
    let e = first_block + s.used_bytes in
    let info = base_addr + s.used_bytes in
    let new : Block = record { flag = 1; bytes = n } in
    let used : add64 s.used_bytes (n + 16) ≡ s.used_bytes + (n + 16) =
      add64_exact s.used_bytes (n + 16) (omega (arith, h.words)) in
    let m₁ = write s.mem info 1 in
    let m₂ = write m₁ (info + 8) n in
    let c₁ = Chain-write_behind s.mem first_block bs e info 1 (omega arith) (omega arith) h.chain in
    let c₂ = Chain-write_behind m₁ first_block bs e (info + 8) n (omega arith) (omega arith) c₁ in
    let c₃ = Chain-append m₂ first_block bs e new (ground arith) (ground arith) c₂ in
    let m₃ = write m₂ (vm_start + 8) (add64 s.used_bytes (n + 16)) in
    let c₄ =
      Chain-write_below m₂ first_block (bs ++ new ∷ []) (e + n + 16) (vm_start + 8)
        (add64 s.used_bytes (n + 16)) (omega arith) c₃ in
    let c₅ =
      Chain-write_below m₃ first_block (bs ++ new ∷ []) (e + n + 16) (vm_start + 16)
        (add64 s.user_bytes n) (omega arith) c₄ in
    let end : e + n + 16 ≡ first_block + add64 s.used_bytes (n + 16) = omega arith in
    record {
      chain = rw end at c₅;
      id_word = ground (arith, h.id_word);
      used_word = refl;
      user_word = refl;
      fits = omega arith;
      words = h.words;
    }

-- The two ways in which `scm_malloc` returns.
module _ (s s' : Scm) (bs : Blocks) (n p : ℕ) (h : Holds s bs) where
  pub malloc_fit :
      (q : ℕ)
      → first_fit first_block bs n ≡ some q
      → scm_malloc n s ≡ ret (p, s')
      → (p ≡ q) × (s' ≡ record s { mem = write s.mem (q - 16) 1 })
  unfolding scm_malloc
  malloc_fit q f e = let g = rw (find_blocks s bs n h, f, scm_malloc) at e in (cc g, cc g)

  pub malloc_none :
      first_fit first_block bs n ≡ none
      → scm_malloc n s ≡ ret (p, s')
      → malloc_new n s ≡ ret (p, s')
  unfolding scm_malloc
  malloc_none f e = rw (find_blocks s bs n h, f, scm_malloc) at e

  pub malloc_room :
      n < 0x8000_0000_0000_0000
      → malloc_new n s ≡ ret (p, s')
      → (s.used_bytes + n + 16 ≤ s.size) × (p ≡ first_block + s.used_bytes) × (s' ≡ extend n s)
  unfolding malloc_new
  malloc_room b e = elim (Bool-cases (ltb s.size (add64 (add64 s.used_bytes n) 16))) [
    | inl j ↦ absurd (cc (rw j at e))
    | inr j ↦
        let g = rw j at e in
        let u = add64_exact s.used_bytes n (omega (arith, h.fits, h.words)) in
        let v = add64_exact (add64 s.used_bytes n) 16 (omega (arith, h.fits, h.words)) in
        let q : p ≡ base_addr + s.used_bytes + 16 = cc g in (ground arith, omega arith, cc g)
  ]

-- Without a free block that is large enough and with room behind the others, a block is added.
pub malloc_full :
    (s : Scm) (bs : Blocks) (n : ℕ)
    → Holds s bs
    → first_fit first_block bs n ≡ none
    → s.used_bytes + n + 16 ≤ s.size
    → scm_malloc n s ≡ ret (first_block + s.used_bytes, extend n s)
unfolding scm_malloc malloc_new
malloc_full s bs n h f b =
    let u = add64_exact s.used_bytes n (omega (arith, h.words)) in
    let v = add64_exact (add64 s.used_bytes n) 16 (omega (arith, h.words)) in
    let a : base_addr + s.used_bytes + 16 ≡ first_block + s.used_bytes = omega arith in
    rw (find_blocks s bs n h, f, scm_malloc) (rw a (ground arith))
