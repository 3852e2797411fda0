-- ===== src/Kv/Logfs/Forget.antt =====
-- The read cache at the start of `logfs_append` of project-4/logfs.c.
use os_cs238p_proj.Common.{
  ℕ, ◌+◌, ◌/◌, ◌%◌, ◌≤◌, ◌==◌, ◌≡◌, ◌≢◌, ◌⊎◌, inl, inr, refl, ap, sym, ◌∙◌, subst, arith, true,
  false, Bool-cases, ==_iff, if_true, if_false, List, length,
}
use os_cs238p_proj.Kv.Device.{Disk}
use os_cs238p_proj.Kv.Device.Access.{IsDisk}
use os_cs238p_proj.Kv.Logfs.{Block, Logfs, put, block_start, forget_current}
use os_cs238p_proj.Kv.Logfs.Queue.{put_other, put_here}
use os_cs238p_proj.Kv.Logfs.Blocks.{Aligned-apart, aligned-div, Good-full}
use os_cs238p_proj.Kv.Logfs.State.{Cached, CachedWhole, IsQueue, IsCurrent}
use os_cs238p_proj.Kv.Logfs.Put.{IsQueue-fill}
use os_cs238p_proj.Kv.Logfs.Fill.{block_start-eq, IsOpen}

module _ {S : Type 0} (disk : Disk S) (ok : IsDisk disk) where
  IsCurrent-forget :
      (fs : Logfs S) (bytes : List ℕ) (start : ℕ) (rcache : ℕ → Block)
      → IsCurrent fs bytes start
      → IsCurrent (record fs { rcache = rcache }) bytes start
  IsCurrent-forget fs bytes start rcache c = record {
    aligned = c.aligned;
    off = c.off;
    count = c.count;
    available = c.available;
    space = c.space;
    whole = c.whole;
    filled = c.filled;
  }

  -- Where the block that is being filled is not in the read cache, all that is there is whole.
  pub forget_current-IsOpen :
      (fs : Logfs S) (bytes : List ℕ) (start : ℕ)
      → IsQueue disk ok fs bytes
      → IsCurrent fs bytes start
      → ((i : ℕ) → Cached fs.blk_sz bytes i (fs.rcache i))
      → IsOpen disk ok (forget_current fs) bytes
  unfolding forget_current
  forget_current-IsOpen fs bytes start v c cached = forget (Bool-cases (blk == (fs.rcache i0).blk))
    where
      n : ℕ
      n = fs.blk_sz

      blk : ℕ
      blk = block_start fs fs.off

      i0 : ℕ
      i0 = blk / n % 256

      blk_eq : blk ≡ start
      blk_eq =
          ap (block_start fs) c.off
          ∙ block_start-eq fs start fs.cur_off c.aligned (omega (arith, c.available, c.space))

      -- An entry that is not whole is that of the block that is being filled.
      whole : (i : ℕ) → ((i ≡ i0) → (fs.rcache i).blk ≢ blk) → CachedWhole n bytes i (fs.rcache i)
      whole i other = elim (cached i) [
        | inl e ↦ inl e
        | inr (k, e, p, good) ↦ elim (Aligned-apart n (fs.rcache i).blk start (k, e) c.aligned) [
          | inl q ↦
              let d : blk / n ≡ k =
                ap (λ x. x / n) (blk_eq ∙ sym q ∙ e) ∙ aligned-div n k (omega (arith, v.large)) in
              absurd (other (p ∙ ap (λ x. x % 256) (sym d)) (q ∙ sym blk_eq))
          | inr (inl l) ↦
              let t : (fs.rcache i).blk + n ≤ length bytes = omega (arith, l, c.count) in
              inr (k, e, p, t, Good-full n bytes (fs.rcache i).buf (fs.rcache i).blk good t)
          | inr (inr l) ↦ absurd (omega (arith, l, good.1, c.count, c.available, c.space))
        ]
      ]

      b3 : Block
      b3 = record { blk = 3; buf = (fs.rcache i0).buf }

      at_slot : (i : ℕ) → CachedWhole n bytes i (put fs.rcache i0 b3 i)
      at_slot i = elim (Bool-cases (i == i0)) [
        | inl e ↦
            subst (CachedWhole n bytes i)
              (sym (ap (put fs.rcache i0 b3) ((==_iff i i0).0 e) ∙ put_here fs.rcache i0 b3))
              (inl refl)
        | inr e ↦
            let ne : i ≢ i0 = λ p. cc (sym e ∙ (==_iff i i0).1 p) in
            subst (CachedWhole n bytes i) (sym (put_other fs.rcache i0 i b3 ne))
              (whole i (λ p. absurd (ne p)))
      ]

      forget :
          ((blk == (fs.rcache i0).blk) ≡ true) ⊎ ((blk == (fs.rcache i0).blk) ≡ false)
          → IsOpen disk ok (forget_current fs) bytes
      forget (inl e) =
          subst (λ x. IsOpen disk ok x bytes)
            (sym (
              if_true (blk == (fs.rcache i0).blk) (record fs { rcache = put fs.rcache i0 b3 }) fs
                e))
            (record {
              queue =
                  IsQueue-fill disk ok fs bytes fs.cur_blk fs.cur_off fs.off fs.available
                    (put fs.rcache i0 b3) v;
              start = start;
              current = IsCurrent-forget fs bytes start (put fs.rcache i0 b3) c;
              cached = at_slot;
            })
      forget (inr e) =
          subst (λ x. IsOpen disk ok x bytes)
            (sym (
              if_false (blk == (fs.rcache i0).blk) (record fs { rcache = put fs.rcache i0 b3 }) fs
                e))
            (record {
              queue = v;
              start = start;
              current = c;
              cached = λ i. whole i (λ p q. cc (
                  sym e
                  ∙ (==_iff blk (fs.rcache i0).blk).1 (sym q ∙ ap (λ x. (fs.rcache x).blk) p)));
            })
