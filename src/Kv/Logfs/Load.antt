-- ===== src/Kv/Logfs/Load.antt =====
-- `read_mem` of project-4/logfs.c, where the block is not in the read cache.
use os_cs238p_proj.Common.{
  ℕ, ◌+◌, ◌-◌, ◌<◌, ◌≤◌, ◌==◌, ◌≡◌, ◌≢◌, inl, inr, refl, ap, sym, ◌∙◌, subst, arith, Bool-cases,
  ==_iff, List, length, take, drop, length-drop, take_all,
}
use os_cs238p_proj.Common.Outcome.{M, ret, ◌>>◌, >>=-ret, Gives, Gives-eq}
use os_cs238p_proj.Kv.Log.{log_max}
use os_cs238p_proj.Kv.Device.{Disk}
use os_cs238p_proj.Kv.Device.Access.{IsDisk}
use os_cs238p_proj.Kv.Logfs.{Logfs, block_start, load_flushed, load_block}
use os_cs238p_proj.Kv.Logfs.Blocks.{Aligned, Aligned-apart, part, Good, full-Good}
use os_cs238p_proj.Kv.Logfs.State.{IsQueue, IsCurrent}
use os_cs238p_proj.Kv.Logfs.Rounds.{OnlyQueue, Rounds-IsQueue}
use os_cs238p_proj.Kv.Logfs.Fill.{DoesRounds, block_start-eq}
use os_cs238p_proj.Kv.Logfs.Read.{load_flushed-Gives}

module _ {S : Type 0} (disk : Disk S) (ok : IsDisk disk) where
  module _ (meanwhile : M (Logfs S) (Unit {0})) (rounds : DoesRounds disk meanwhile)
      (goes_on : (fs : Logfs S) → (fs' : Logfs S) × (meanwhile fs ≡ ret (tt, fs'))) where
    pub load_block-Gives :
        (fs : Logfs S) (bytes : List ℕ) (start o : ℕ)
        → IsQueue disk ok fs bytes
        → IsCurrent fs bytes start
        → length bytes < log_max
        → Aligned fs.blk_sz o
        → o ≤ length bytes
        → Gives ok.Fails
            (load_block disk meanwhile o)
            fs
            (λ buf fs'. Good fs.blk_sz bytes buf o × IsQueue disk ok fs' bytes × OnlyQueue fs fs')
    unfolding load_block
    load_block-Gives fs bytes start o v c small al le =
        elim (Bool-cases (o == block_start fs fs.off)) [
          | inl e ↦
              let p : o ≡ start = (==_iff o (block_start fs fs.off)).0 e ∙ start_eq in
              rw e (
                inr (
                  fs.cur_blk,
                  fs,
                  refl,
                  (subst (Good n bytes fs.cur_blk) (sym p) current_Good, v, refl),
                ))
          | inr e ↦
              let l : o + n ≤ length bytes =
                whole (λ p. cc (sym e ∙ (==_iff o (block_start fs fs.off)).1 (p ∙ sym start_eq))) in
              let (fs1, g) = goes_on fs in
              let (v1, p1) = Rounds-IsQueue disk ok bytes small v (rounds fs fs1 g) in
              let sz : fs1.blk_sz ≡ n = ap (λ x. x.blk_sz) p1 in
              rw e (
                Gives-eq (meanwhile >> load_flushed disk o) (load_flushed disk o) fs fs1
                  (λ buf fs'. Good n bytes buf o × IsQueue disk ok fs' bytes × OnlyQueue fs fs')
                  (>>=-ret meanwhile (λ _. load_flushed disk o) fs fs1 tt g)
                  (after fs1 p1 sz l (
                    load_flushed-Gives disk ok fs1 bytes o v1 small
                      (subst (λ x. Aligned x o) (sym sz) al) (omega (arith, l, sz)))))
        ]
      where
        n : ℕ
        n = fs.blk_sz

        start_eq : block_start fs fs.off ≡ start
        start_eq =
            ap (block_start fs) c.off
            ∙ block_start-eq fs start fs.cur_off c.aligned (omega (arith, c.available, c.space))

        current_Good : Good n bytes fs.cur_blk start
        current_Good =
            let m : length bytes - start ≡ fs.cur_off = omega (arith, c.count) in
            (
              omega (arith, c.whole),
              omega (arith, c.count),
              ap (λ x. take x fs.cur_blk) m
                  ∙ c.filled
                  ∙ sym (
                      take_all (drop start bytes) n
                        (omega (arith, length-drop start bytes, c.count, c.available))),
            )

        whole : o ≢ start → o + n ≤ length bytes
        whole ne = elim (Aligned-apart n o start al c.aligned) [
          | inl e ↦ absurd (ne e)
          | inr (inl l) ↦ omega (arith, l, c.count)
          | inr (inr l) ↦ absurd (omega (arith, l, le, c.count, c.available, c.space))
        ]

        after :
            (fs1 : Logfs S)
            → OnlyQueue fs fs1
            → fs1.blk_sz ≡ n
            → o + n ≤ length bytes
            → Gives ok.Fails (load_flushed disk o) fs1 (λ buf fs'.
              (buf ≡ part bytes fs1.blk_sz o) × IsQueue disk ok fs' bytes × OnlyQueue fs1 fs')
            → Gives ok.Fails
                (load_flushed disk o)
                fs1
                (λ buf fs'. Good n bytes buf o × IsQueue disk ok fs' bytes × OnlyQueue fs fs')
        after fs1 p1 sz l (inl x) = inl x
        after fs1 p1 sz l (inr (buf, fs2, e, (q, v2, p2))) = inr (
          buf,
          fs2,
          e,
          (
            full-Good n bytes buf o l (q ∙ ap (λ x. part bytes x o) sz),
            v2,
            p2
                ∙ ap
                    (λ (x : Logfs S). record x {
                      device = fs2.device;
                      tail = fs2.tail;
                      active_blks = fs2.active_blks;
                    })
                    p1,
          ),
        )
