-- ===== src/Kv/Logfs/Fill.antt =====
-- A block that `logfs_append` of project-4/logfs.c has filled and puts into the queue.
use os_cs238p_proj.Common.{
  ℕ, suc, ◌+◌, ◌-◌, ◌%◌, ◌<◌, ◌≤◌, ◌≡◌, inl, inr, ap, sym, ◌∙◌, subst, arith, List, ◌++◌, length,
  length-append, take, drop, length-take, length-drop, take_all, replicate, length-replicate,
}
use os_cs238p_proj.Common.Word.{add64, sub64, add64_exact, sub64_exact}
use os_cs238p_proj.Common.Outcome.{M, ret}
use os_cs238p_proj.Kv.Log.{log_max}
use os_cs238p_proj.Kv.Device.{Disk}
use os_cs238p_proj.Kv.Device.Access.{IsDisk}
use os_cs238p_proj.Kv.Logfs.{
  Block, Logfs, put_block, overwrite, block_start, fill_block, fresh_block,
}
use os_cs238p_proj.Kv.Logfs.Blocks.{
  Aligned, Aligned-add-mod, part, part-append, drop_all, drop-append_le, length-overwrite,
  take-overwrite,
}
use os_cs238p_proj.Kv.Logfs.State.{CachedWhole, IsQueue, IsCurrent}
use os_cs238p_proj.Kv.Logfs.Rounds.{Rounds, Rounds-IsQueue}
use os_cs238p_proj.Kv.Logfs.Put.{IsQueue-fill, put_block-IsQueue}

-- What is known of the other thread: where it lets this one go on, it has done a number of rounds.
abbrev pub DoesRounds : {S : Type 0} → Disk S → M (Logfs S) (Unit {0}) → Type 0
DoesRounds {S} disk meanwhile =
    (fs fs' : Logfs S) → meanwhile fs ≡ ret (tt, fs') → Rounds disk fs fs'

-- The start of the block that `start + x` is in
pub block_start-eq :
    {S : Type 0} (fs : Logfs S) (start x : ℕ)
    → Aligned fs.blk_sz start
    → x < fs.blk_sz
    → block_start fs (start + x) ≡ start
unfolding block_start
block_start-eq fs start x a lt = omega (arith, Aligned-add-mod fs.blk_sz start x a lt)

pub CachedWhole-append :
    (n : ℕ) (bytes more : List ℕ) (i : ℕ) (b : Block)
    → CachedWhole n bytes i b
    → CachedWhole n (bytes ++ more) i b
CachedWhole-append n bytes more i b (inl e) = inl e
CachedWhole-append n bytes more i b (inr (k, e, p, l, q)) = inr (
  k,
  e,
  p,
  omega (arith, l, length-append bytes more),
  q ∙ sym (part-append bytes more n b.blk l),
)

module _ {S : Type 0} (disk : Disk S) (ok : IsDisk disk) where
  -- The state between two rounds of the loop
  pub record IsOpen (fs : Logfs S) (bytes : List ℕ) : Type 0 where
    pub queue : IsQueue disk ok fs bytes
    pub start : ℕ
    pub current : IsCurrent fs bytes start
    pub cached : (i : ℕ) → CachedWhole fs.blk_sz bytes i (fs.rcache i)

  -- The block is filled up with the first of the new bytes.
  module _ (fs : Logfs S) (bytes buf : List ℕ) (o : IsOpen fs bytes)
      (small : length bytes + length buf < log_max) (le : fs.available ≤ length buf) where
    abbrev more : List ℕ
    more = take fs.available buf

    abbrev filled : List ℕ
    filled = overwrite fs.cur_blk fs.cur_off more

    length-more : length more ≡ fs.available
    length-more = omega (arith, length-take fs.available buf, le)

    length-all : length (bytes ++ more) ≡ o.start + fs.blk_sz
    length-all =
        omega (arith, length-append bytes more, length-more, o.current.count, o.current.available)

    length-filled : length filled ≡ fs.blk_sz
    length-filled =
        length-overwrite fs.cur_blk more fs.cur_off
          (omega (arith, length-more, o.current.available, o.current.whole))
        ∙ o.current.whole

    filled-part : filled ≡ part (bytes ++ more) fs.blk_sz o.start
    filled-part =
        let c = o.current in
        let e : fs.cur_off + length more ≡ fs.blk_sz = omega (arith, length-more, c.available) in
        let d = drop-append_le o.start bytes more (omega (arith, c.count)) in
        let l : length (drop o.start bytes) ≡ fs.cur_off =
          omega (arith, length-drop o.start bytes, c.count) in
        sym (take_all filled (fs.cur_off + length more) (omega (arith, e, length-filled)))
        ∙ take-overwrite fs.cur_blk more fs.cur_off (omega (arith, e, c.whole))
        ∙ ap (λ x. x ++ more) c.filled
        ∙ sym (
            take_all (drop o.start bytes ++ more) fs.blk_sz
              (omega (arith, length-append (drop o.start bytes) more, l, e)))
        ∙ ap (take fs.blk_sz) (sym d)

    new_off : add64 fs.off fs.available ≡ o.start + fs.blk_sz
    new_off =
        let c = o.current in
        add64_exact fs.off fs.available (omega (arith, c.off, c.count, le, small))
        ∙ omega (arith, c.off, c.available)

    -- The address that the block is put into the queue with
    pub address : block_start (fill_block buf fs) (sub64 (fill_block buf fs).off 1) ≡ o.start
    unfolding fill_block block_start
    address =
        let c = o.current in
        let n1 : sub64 (add64 fs.off fs.available) 1 ≡ o.start + (fs.blk_sz - 1) =
          ap (λ x. sub64 x 1) new_off
          ∙ sub64_exact (o.start + fs.blk_sz) 1 (omega (arith, c.count, c.available, le, small))
              (omega (arith, o.queue.large))
          ∙ omega (arith, o.queue.large) in
        ap (λ x. x - x % fs.blk_sz) n1
        ∙ block_start-eq fs o.start (fs.blk_sz - 1) c.aligned (omega (arith, o.queue.large))

    -- What has become of the state when the other thread lets this one go on
    pub put_filled-IsOpen :
        (fs2 : Logfs S)
        → Rounds disk (fill_block buf fs) fs2
        → fs2.active_blks < 32
        → IsOpen (fresh_block (put_block filled o.start fs2)) (bytes ++ more)
    unfolding fill_block fresh_block put_block
    put_filled-IsOpen fs2 r room =
        let v1 =
          IsQueue-fill disk ok fs bytes filled fs.cur_off (add64 fs.off fs.available) 0 fs.rcache
            o.queue in
        let (v2, p) = Rounds-IsQueue disk ok bytes (omega (arith, small)) v1 r in
        let sz : fs2.blk_sz ≡ fs.blk_sz = ap (λ x. x.blk_sz) p in
        let rc : fs2.rcache ≡ fs.rcache = ap (λ x. x.rcache) p in
        let of : fs2.off ≡ o.start + fs.blk_sz = ap (λ x. x.off) p ∙ new_off in
        let al : Aligned fs2.blk_sz o.start =
          subst (λ x. Aligned x o.start) (sym sz) o.current.aligned in
        let v3 =
          put_block-IsQueue disk ok fs2 bytes more v2 o.start filled room al
            (omega (arith, o.current.count)) (omega (arith, sz, length-all))
            (filled-part ∙ ap (λ x. part (bytes ++ more) x o.start) (sym sz)) in
        record {
          queue =
              IsQueue-fill disk ok (put_block filled o.start fs2) (bytes ++ more)
                (replicate fs2.blk_sz 0) 0 fs2.off fs2.blk_sz fs2.rcache v3;
          start = o.start + fs.blk_sz;
          current = record {
            aligned =
                subst (λ x. Aligned x (o.start + fs.blk_sz)) (sym sz)
                  (next_block o.current.aligned);
            off = of ∙ omega arith;
            count = length-all ∙ omega arith;
            available = omega arith;
            space = omega (arith, sz, o.queue.large);
            whole = length-replicate fs2.blk_sz 0;
            filled =
                sym (drop_all (o.start + fs.blk_sz) (bytes ++ more) (omega (arith, length-all)));
          };
          cached = λ i.
              subst (λ x. CachedWhole x (bytes ++ more) i (fs2.rcache i)) (sym sz)
                (subst (λ x. CachedWhole fs.blk_sz (bytes ++ more) i (x i)) (sym rc)
                  (CachedWhole-append fs.blk_sz bytes more i (fs.rcache i) (o.cached i)));
        }
      where
        next_block : Aligned fs.blk_sz o.start → Aligned fs.blk_sz (o.start + fs.blk_sz)
        next_block (k, e) = (suc k, omega (arith, e, native.Mathlib.Nat.suc-mul k fs.blk_sz))
