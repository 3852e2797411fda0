-- ===== src/Scm/Chain.antt =====
-- The blocks of the heap of project-3/scm.c as a list: the chain of headers that its loops walk.
use os_cs238p_proj.Common.{
  ℕ, zero, suc, ◌+◌, ◌-◌, ◌≤◌, ◌<◌, ◌≡◌, ◌⊎◌, inl, inr, refl, ◌==◌, ltb, leb, Bool, true, false,
  ◌&&◌, if◌then◌else◌, Option, none, some, List, [], ◌∷◌, ◌++◌, arith, Bool-cases, ◌∙◌, sym, ap,
}
use os_cs238p_proj.Common.Word.{u64_mod, add64, add64_exact}
use os_cs238p_proj.Common.Outcome.{ret}
use os_cs238p_proj.Scm.{write, find, find_addr, lowest, next_header}

-- The two words of a header: 0 marks a free block.
pub record Block : Type 0 where
  pub flag : ℕ
  pub bytes : ℕ

abbrev pub Blocks : Type 0
Blocks = List Block

-- From the block at `a` on the headers in memory are those of the list, up to `e`, where the next
-- block would start.
abbrev pub Chain : (ℕ → ℕ) → ℕ → Blocks → ℕ → Type 0
Chain mem a [] e = a ≡ e
Chain mem a (b ∷ bs) e =
    (mem (a - 16) ≡ b.flag) × (mem (a - 8) ≡ b.bytes) × Chain mem (a + b.bytes + 16) bs e

-- A block starts at `p`.
abbrev pub At : ℕ → Blocks → ℕ → Type 0
At a [] p = ⊥
At a (b ∷ bs) p = (a ≡ p) ⊎ At (a + b.bytes + 16) bs p

pub Chain-le : (mem : ℕ → ℕ) (a : ℕ) (bs : Blocks) (e : ℕ) → Chain mem a bs e → a ≤ e
Chain-le mem a [] e h = omega arith
Chain-le mem a (b ∷ bs) e h = omega (arith, Chain-le mem (a + b.bytes + 16) bs e h.2)

pub At-le : (a : ℕ) (bs : Blocks) (p : ℕ) → At a bs p → a ≤ p
At-le a [] p h = absurd h
At-le a (b ∷ bs) p (inl h) = omega arith
At-le a (b ∷ bs) p (inr h) = omega (arith, At-le (a + b.bytes + 16) bs p h)

-- The first free block of `n` bytes or more, if any.
unfoldable pub first_fit : ℕ → Blocks → ℕ → Option ℕ
first_fit a [] n = none
first_fit a (b ∷ bs) n =
    if b.flag == 0 && leb n b.bytes then some a else first_fit (a + b.bytes + 16) bs n

unfoldable pub starts : ℕ → Blocks → ℕ → Bool
starts a [] p = false
starts a (b ∷ bs) p = if a == p then true else starts (a + b.bytes + 16) bs p

module _ (f : ℕ) (mem : ℕ → ℕ) (a e : ℕ) (more : ltb a e ≡ true) (low : ltb a lowest ≡ false) where
  find_hit :
      (n : ℕ)
      → (mem (a - 16) == 0 && leb n (mem (a - 8))) ≡ true
      → find (suc f) mem a e n ≡ ret (some a)
  unfolding find
  find_hit n j = rw (more, low, j, find)

  find_miss :
      (n : ℕ)
      → (mem (a - 16) == 0 && leb n (mem (a - 8))) ≡ false
      → find (suc f) mem a e n ≡ find f mem (next_header mem a) e n
  unfolding find
  find_miss n j = rw (more, low, j, find)

  find_addr_step :
      (p : ℕ)
      → find_addr (suc f) mem a e p
        ≡ elim (a == p) [ true ↦ ret true | false ↦ find_addr f mem (next_header mem a) e p ]
  unfolding find_addr
  find_addr_step p = elim (Bool-cases (a == p)) [
    | inl j ↦ rw (more, j, find_addr) refl
    | inr j ↦ rw (more, j, low, find_addr) refl
  ]

-- The address of the next header, where it is below 2 ^ 64
next_header-exact :
    (mem : ℕ → ℕ) (a n : ℕ)
    → mem (a - 8) ≡ n
    → a + n + 16 < u64_mod
    → next_header mem a ≡ a + n + 16
next_header-exact mem a n h b =
    rw h
      (ap (λ x. add64 x 16) (add64_exact a n (omega arith)) ∙ add64_exact (a + n) 16 (omega arith))

-- The loop of `scm_malloc` finds the first fit.
pub find-first_fit :
    (f : ℕ) (mem : ℕ → ℕ) (a : ℕ) (bs : Blocks) (e n : ℕ)
    → Chain mem a bs e
    → e < a + f
    → lowest ≤ a
    → e < u64_mod
    → find f mem a e n ≡ ret (first_fit a bs n)
unfolding first_fit
find-first_fit zero mem a bs e n h b lo hi = absurd (omega (arith, Chain-le mem a bs e h))
find-first_fit (suc f) mem a [] e n h b lo hi = unfold find in ground arith
find-first_fit (suc f) mem a (x ∷ bs) e n h b lo hi =
    let le = Chain-le mem (a + x.bytes + 16) bs e h.2 in
    let more : ltb a e ≡ true = ground arith in
    let next = find-first_fit f mem (a + x.bytes + 16) bs e n h.2 (omega arith) (omega arith) hi in
    let low : ltb a lowest ≡ false = ground arith in
    let st = next_header-exact mem a x.bytes h.1 (omega arith) in
    elim (Bool-cases (x.flag == 0 && leb n x.bytes)) [
      | inl j ↦ find_hit f mem a e more low n (rw (h.0, h.1) j) ∙ rw j
      | inr j ↦
          find_miss f mem a e more low n (rw (h.0, h.1) j)
          ∙ ap (λ z. find f mem z e n) st
          ∙ rw j next
    ]

-- The loop of `scm_allocated_addr` finds the start of a block.
pub find_addr-starts :
    (f : ℕ) (mem : ℕ → ℕ) (a : ℕ) (bs : Blocks) (e p : ℕ)
    → Chain mem a bs e
    → e < a + f
    → lowest ≤ a
    → e < u64_mod
    → find_addr f mem a e p ≡ ret (starts a bs p)
unfolding starts
find_addr-starts zero mem a bs e p h b lo hi = absurd (omega (arith, Chain-le mem a bs e h))
find_addr-starts (suc f) mem a [] e p h b lo hi = unfold find_addr in ground arith
find_addr-starts (suc f) mem a (x ∷ bs) e p h b lo hi =
    let le = Chain-le mem (a + x.bytes + 16) bs e h.2 in
    let more : ltb a e ≡ true = ground arith in
    let next =
      find_addr-starts f mem (a + x.bytes + 16) bs e p h.2 (omega arith) (omega arith) hi in
    let low : ltb a lowest ≡ false = ground arith in
    let st = next_header-exact mem a x.bytes h.1 (omega arith) in
    elim (Bool-cases (a == p)) [
      | inl j ↦ rw (find_addr_step f mem a e more low p, j)
      | inr j ↦
          rw (find_addr_step f mem a e more low p, j) (ap (λ z. find_addr f mem z e p) st ∙ next)
    ]

pub find_empty : (f : ℕ) (mem : ℕ → ℕ) (a e n : ℕ) → e ≤ a → find (suc f) mem a e n ≡ ret none
unfolding find
find_empty f mem a e n h = ground arith

pub find_addr_empty :
    (f : ℕ) (mem : ℕ → ℕ) (a e p : ℕ) → e ≤ a → find_addr (suc f) mem a e p ≡ ret false
unfolding find_addr
find_addr_empty f mem a e p h = ground arith

-- The list with the flag of the block at `p` set to `v`.
unfoldable pub mark : ℕ → Blocks → ℕ → ℕ → Blocks
mark a [] p v = []
mark a (b ∷ bs) p v =
    if a == p then record b { flag = v } ∷ bs else b ∷ mark (a + b.bytes + 16) bs p v

-- A store below the headers, or behind them, leaves the chain.
pub Chain-write_below :
    (mem : ℕ → ℕ) (a : ℕ) (bs : Blocks) (e x v : ℕ)
    → x + 16 < a
    → Chain mem a bs e
    → Chain (write mem x v) a bs e
Chain-write_below mem a [] e x v b h = h
Chain-write_below mem a (c ∷ bs) e x v b h = (
  ground (arith, h.0),
  ground (arith, h.1),
  Chain-write_below mem (a + c.bytes + 16) bs e x v (omega arith) h.2,
)

pub Chain-write_behind :
    (mem : ℕ → ℕ) (a : ℕ) (bs : Blocks) (e x v : ℕ)
    → e < x + 17
    → 16 ≤ a
    → Chain mem a bs e
    → Chain (write mem x v) a bs e
Chain-write_behind mem a [] e x v b c h = h
Chain-write_behind mem a (d ∷ bs) e x v b c h =
    let le = Chain-le mem (a + d.bytes + 16) bs e h.2 in
    (
      ground (arith, h.0),
      ground (arith, h.1),
      Chain-write_behind mem (a + d.bytes + 16) bs e x v b (omega arith) h.2,
    )

-- A store of a flag marks the block.
pub Chain-mark :
    (mem : ℕ → ℕ) (a : ℕ) (bs : Blocks) (e p v : ℕ)
    → At a bs p
    → 16 ≤ a
    → Chain mem a bs e
    → Chain (write mem (p - 16) v) a (mark a bs p v) e
unfolding mark
Chain-mark mem a [] e p v t c h = absurd t
Chain-mark mem a (d ∷ bs) e p v (inl t) c h =
    let same : (a == p) ≡ true = ground arith in
    rw same (
      ground (arith, t),
      ground (arith, t, h.1),
      Chain-write_below mem (a + d.bytes + 16) bs e (p - 16) v (omega arith) h.2,
    )
Chain-mark mem a (d ∷ bs) e p v (inr t) c h =
    let le = At-le (a + d.bytes + 16) bs p t in
    let other : (a == p) ≡ false = ground arith in
    rw other (
      ground (arith, h.0),
      ground (arith, h.1),
      Chain-mark mem (a + d.bytes + 16) bs e p v t (omega arith) h.2,
    )

-- Two stores behind the chain make one more block.
pub Chain-append :
    (mem : ℕ → ℕ) (a : ℕ) (bs : Blocks) (e : ℕ) (b : Block)
    → mem (e - 16) ≡ b.flag
    → mem (e - 8) ≡ b.bytes
    → Chain mem a bs e
    → Chain mem a (bs ++ b ∷ []) (e + b.bytes + 16)
Chain-append mem a [] e b x y h = (rw h x, rw h y, rw h)
Chain-append mem a (d ∷ bs) e b x y h =
    (h.0, h.1, Chain-append mem (a + d.bytes + 16) bs e b x y h.2)

pub At-append :
    (a : ℕ) (bs : Blocks) (mem : ℕ → ℕ) (e : ℕ) (b : Block)
    → Chain mem a bs e
    → At a (bs ++ b ∷ []) e
At-append a [] mem e b h = inl h
At-append a (d ∷ bs) mem e b h = inr (At-append (a + d.bytes + 16) bs mem e b h.2)

-- The loop returns no address below the mapping.
pub find-ge : (f : ℕ) (mem : ℕ → ℕ) (a e n p : ℕ) → find f mem a e n ≡ ret (some p) → lowest ≤ p
unfolding find
find-ge zero mem a e n p h = absurd (cc h)
find-ge (suc f) mem a e n p h = elim (Bool-cases (ltb a e)) [
  | inl k ↦ elim (Bool-cases (ltb a lowest)) [
    | inl l ↦ absurd (cc (rw (k, l, find) at h))
    | inr l ↦ elim (Bool-cases (mem (a - 16) == 0 && leb n (mem (a - 8)))) [
      | inl j ↦ let g = sym (find_hit f mem a e k l n j) ∙ h in ground arith
      | inr j ↦ find-ge f mem (next_header mem a) e n p (sym (find_miss f mem a e k l n j) ∙ h)
    ]
  ]
  | inr k ↦ absurd (cc (rw (k, find) at h))
]

-- Memories that agree on all headers have the same chain.
pub Chain-same :
    (mem mem' : ℕ → ℕ) (a : ℕ) (bs : Blocks) (e : ℕ)
    → 16 ≤ a
    → ((x : ℕ) → x + 24 ≤ e → mem' x ≡ mem x)
    → Chain mem a bs e
    → Chain mem' a bs e
Chain-same mem mem' a [] e lo same h = h
Chain-same mem mem' a (b ∷ bs) e lo same h =
    let le = Chain-le mem (a + b.bytes + 16) bs e h.2 in
    (
      same (a - 16) (omega arith) ∙ h.0,
      same (a - 8) (omega arith) ∙ h.1,
      Chain-same mem mem' (a + b.bytes + 16) bs e (omega arith) same h.2,
    )
