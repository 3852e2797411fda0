-- ===== src/Scm/Overrun.antt =====
-- Where project-3/scm.c does not keep what it means to keep: the end of the mapping and the count of
-- user bytes.
use os_cs238p_proj.Common.{
  ℕ, ◌+◌, ◌-◌, ◌≤◌, ◌<◌, ◌≡◌, refl, true, some, arith, length, ◌∙◌, ap, false, ltb, if◌then◌else◌,
}
use os_cs238p_proj.Common.Bytes.{CString}
use os_cs238p_proj.Common.Word.{add64_exact, sub64}
use os_cs238p_proj.Common.Outcome.{ret}
use os_cs238p_proj.Scm.Chain.{Blocks, first_fit, starts, mark, At-le}
use os_cs238p_proj.Scm.Malloc.{first_block, Holds, malloc_fit}
use os_cs238p_proj.Scm.Free.{free_hit, free-Freed, dispose, starts-At, starts-mark}
use os_cs238p_proj.Scm.{
  Scm, vm_start, base_addr, extend, scm_malloc, scm_strdup, scm_free, release, scm_utilized,
  mapped_bytes, write_text,
}

-- `scm_strdup` does not look at the size of the file: a string for which the file has no room is copied
-- behind its end, where the last of the pages that are mapped has room; the call returns, and the bytes
-- used come to be more than the file has.
pub strdup_overrun :
    (s : Scm) (bs : Blocks) (t : CString)
    → Holds s bs
    → s.size < s.used_bytes + (length t + 1) + 16
    → s.used_bytes + length t + 41 ≤ mapped_bytes s
    → (p : ℕ) × (s' : Scm) × (scm_strdup t s ≡ ret (p, s'))
      × (s'.size < s'.used_bytes)
      × (vm_start + s.size < p + length t + 1)
unfolding scm_strdup extend
strdup_overrun s bs t h b c =
    let m : mapped_bytes s ≤ s.size + 4095 = unfold mapped_bytes in omega arith in
    let k : ltb (vm_start + mapped_bytes s) (base_addr + s.used_bytes + 16 + length t + 1) ≡ false =
      ground arith in
    (
      base_addr + s.used_bytes + 16,
      record (extend (length t + 1) s) {
        text = write_text s.text (base_addr + s.used_bytes + 16) t;
      },
      rw (k, if◌then◌else◌) refl,
      omega (
        arith,
        h.fits,
        h.words,
        add64_exact s.used_bytes (length t + 1 + 16) (omega (arith, m, h.words)),
      ),
      omega arith,
    )

-- A block that is taken again is not counted again: after `scm_free` and a `scm_malloc` that takes
-- the same block, `scm_utilized` is lower by the block's size than before, modulo 2 ^ 64.
pub reuse_uncounted :
    (s s' : Scm) (bs : Blocks) (p q n : ℕ)
    → Holds s bs
    → starts first_block bs p ≡ true
    → first_fit first_block (dispose bs p) n ≡ some p
    → scm_malloc n (scm_free p s) ≡ ret (q, s')
    → (q ≡ p) × (scm_utilized s' ≡ sub64 (scm_utilized s) (s.mem (p - 8)))
unfolding scm_utilized
reuse_uncounted s s' bs p q n h t f e =
    let g = free-Freed s bs p h in
    let (at, same) = malloc_fit (scm_free p s) s' (dispose bs p) n q g.holds p f e in
    (
      at,
      ap (λ (x : Scm). x.user_bytes) (same)
          ∙ ap (λ (x : Scm). x.user_bytes) (free_hit s bs p h t)
          ∙ unfold release in refl,
    )

-- The flag of a block is not looked at: a second `scm_free` of a block lowers the count again.
pub free_twice :
    (s : Scm) (bs : Blocks) (p : ℕ)
    → Holds s bs
    → starts first_block bs p ≡ true
    → scm_utilized (scm_free p (scm_free p s))
      ≡ sub64 (sub64 (scm_utilized s) (s.mem (p - 8))) (s.mem (p - 8))
unfolding scm_utilized
free_twice s bs p h t =
    let le = At-le first_block bs p (starts-At first_block bs p t) in
    let d : dispose bs p ≡ mark first_block bs p 0 = unfold dispose in rw t in
    let g = (free-Freed s bs p h).holds in
    let again = starts-mark first_block bs p 0 p ∙ t in
    let second : scm_free p (scm_free p s) ≡ release p (scm_free p s) =
      free_hit (scm_free p s) (dispose bs p) p g (rw d again) in
    let first = free_hit s bs p h t in
    ap (λ (x : Scm). x.user_bytes) second
    ∙ ap (λ (x : Scm). (release p x).user_bytes) first
    ∙ unfold release in ground arith
