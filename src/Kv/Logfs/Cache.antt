-- ===== src/Kv/Logfs/Cache.antt =====
-- `read_mem` of project-4/logfs.c, with the read cache.
use os_cs238p_proj.Common.{
  ℕ, zero, suc, ◌+◌, ◌-◌, ◌*◌, ◌/◌, ◌%◌, ◌<◌, ◌≤◌, ◌==◌, ◌≡◌, ◌≢◌, ◌⊎◌, inl, inr, refl, ap, sym,
  ◌∙◌, subst, arith, true, false, Bool-cases, ==_iff, some, List, [], ◌∷◌, ◌++◌, length, take, drop,
  slice, drop-add,
}
use os_cs238p_proj.Common.Outcome.{M, ret, pure, modify, ◌>>◌, Gives, or_return-Gives}
use os_cs238p_proj.Kv.Log.{log_max}
use os_cs238p_proj.Kv.Device.{Disk, Device}
use os_cs238p_proj.Kv.Device.Access.{IsDisk}
use os_cs238p_proj.Kv.Logfs.{Block, Logfs, put, load_block, keep, read_mem}
use os_cs238p_proj.Kv.Logfs.Queue.{put_other, put_here}
use os_cs238p_proj.Kv.Logfs.Blocks.{aligned-div, Good, Good-slice}
use os_cs238p_proj.Kv.Logfs.State.{Cached, IsQueue, IsCurrent}
use os_cs238p_proj.Kv.Logfs.Rounds.{three, OnlyQueue}
use os_cs238p_proj.Kv.Logfs.Put.{IsQueue-fill}
use os_cs238p_proj.Kv.Logfs.Fill.{DoesRounds}
use os_cs238p_proj.Kv.Logfs.Read.{IsLogfs}
use os_cs238p_proj.Kv.Logfs.Load.{load_block-Gives}

take-take-drop : (m n : ℕ) (xs : List ℕ) → m ≤ n → take m xs ++ take (n - m) (drop m xs) ≡ take n xs
take-take-drop zero n xs h = let e : n - 0 ≡ n = omega arith in ap (λ k. take k xs) e
take-take-drop (suc m) zero xs h = absurd (omega arith)
take-take-drop (suc m) (suc n) [] h = nil (suc n - suc m)
  where
    nil : (k : ℕ) → take {A = ℕ} k [] ≡ []
    nil zero = refl
    nil (suc k) = refl
take-take-drop (suc m) (suc n) (x ∷ xs) h =
    let e : suc n - suc m ≡ n - m = omega arith in
    ap (λ k. x ∷ (take m xs ++ take k (drop m xs))) e
    ∙ ap (◌∷◌ x) (take-take-drop m n xs (omega arith))

-- Two reads, one behind the other
pub slice-slice :
    (bytes : List ℕ) (off m n : ℕ)
    → m ≤ n
    → slice bytes off m ++ slice bytes (off + m) (n - m) ≡ slice bytes off n
slice-slice bytes off m n h =
    ap (λ x. slice bytes off m ++ take (n - m) x) (drop-add off m bytes)
    ∙ take-take-drop m n (drop off bytes) h

-- The state after a block was read
IsCurrent-kept :
    {S : Type 0} (fs : Logfs S) (bytes : List ℕ) (start : ℕ) (d : Device S) (tail active : ℕ)
    (rcache : ℕ → Block)
    → IsCurrent fs bytes start
    → IsCurrent
        (record fs { device = d; tail = tail; active_blks = active; rcache = rcache })
        bytes
        start
IsCurrent-kept fs bytes start d tail active rcache c = record {
  aligned = c.aligned;
  off = c.off;
  count = c.count;
  available = c.available;
  space = c.space;
  whole = c.whole;
  filled = c.filled;
}

module _ {S : Type 0} (disk : Disk S) (ok : IsDisk disk) (meanwhile : M (Logfs S) (Unit {0}))
    (rounds : DoesRounds disk meanwhile)
    (goes_on : (fs : Logfs S) → (fs' : Logfs S) × (meanwhile fs ≡ ret (tt, fs'))) where
  -- The log is as before, and its blocks have the same size.
  abbrev pub StillLogfs : Logfs S → List ℕ → Logfs S → Type 0
  StillLogfs fs bytes fs' = IsLogfs disk ok fs' bytes × (fs'.blk_sz ≡ fs.blk_sz)

  kept-IsLogfs :
      (fs fs1 fs2 : Logfs S) (bytes buf : List ℕ) (start k i : ℕ) (b1 : Block)
      → fs1 ≡ record fs { rcache = put fs.rcache i b1 }
      → IsCurrent fs bytes start
      → ((j : ℕ) → Cached fs.blk_sz bytes j (fs.rcache j))
      → IsQueue disk ok fs2 bytes
      → OnlyQueue fs1 fs2
      → i ≡ k % 256
      → Good fs.blk_sz bytes buf (k * fs.blk_sz)
      → IsLogfs disk ok (keep i (k * fs.blk_sz) buf fs2) bytes
  kept-IsLogfs fs fs1 fs2 bytes buf start k i b1 e1 c cached v2 p2 ei good =
      let n = fs.blk_sz in
      let b2 : Block = record { blk = k * n; buf = buf } in
      let sz : fs2.blk_sz ≡ n = ap (λ x. x.blk_sz) p2 ∙ ap (λ x. x.blk_sz) e1 in
      let rc : fs2.rcache ≡ put fs.rcache i b1 = ap (λ x. x.rcache) p2 ∙ ap (λ x. x.rcache) e1 in
      let whole : record fs2 { rcache = put fs2.rcache i b2 } ≡ record fs {
        device = fs2.device;
        tail = fs2.tail;
        active_blks = fs2.active_blks;
        rcache = put fs2.rcache i b2;
      } =
        ap (λ (x : Logfs S). record x { rcache = put fs2.rcache i b2 }) p2
        ∙ ap
            (λ (x : Logfs S). record x {
              device = fs2.device;
              tail = fs2.tail;
              active_blks = fs2.active_blks;
              rcache = put fs2.rcache i b2;
            })
            e1 in
      record {
        queue =
            IsQueue-fill disk ok fs2 bytes fs2.cur_blk fs2.cur_off fs2.off fs2.available
              (put fs2.rcache i b2) v2;
        start = start;
        current =
            subst (λ x. IsCurrent x bytes start) (sym whole)
              (IsCurrent-kept fs bytes start fs2.device fs2.tail fs2.active_blks
                (put fs2.rcache i b2) c);
        cached = λ j.
            subst (λ x. Cached x bytes j (put fs2.rcache i b2 j)) (sym sz)
              (entry j rc (Bool-cases (j == i)));
      }
    where
      entry :
          (j : ℕ)
          → fs2.rcache ≡ put fs.rcache i b1
          → ((j == i) ≡ true) ⊎ ((j == i) ≡ false)
          → Cached fs.blk_sz bytes j
              (put fs2.rcache i (record { blk = k * fs.blk_sz; buf = buf }) j)
      entry j rc (inl e) =
          let q : j ≡ i = (==_iff j i).0 e in
          let b2 : Block = record { blk = k * fs.blk_sz; buf = buf } in
          subst (Cached fs.blk_sz bytes j)
            (sym (ap (put fs2.rcache i b2) q ∙ put_here fs2.rcache i b2))
            (inr (k, refl, q ∙ ei, good))
      entry j rc (inr e) =
          let q : j ≢ i = λ p. cc (sym e ∙ (==_iff j i).1 p) in
          let b2 : Block = record { blk = k * fs.blk_sz; buf = buf } in
          subst (Cached fs.blk_sz bytes j)
            (sym (put_other fs2.rcache i j b2 q ∙ ap (λ x. x j) rc ∙ put_other fs.rcache i j b1 q))
            (cached j)

  -- A read within the block at `k * blk_sz`
  pub read_mem-Gives :
      (fs : Logfs S) (bytes : List ℕ) (k x len : ℕ)
      → IsLogfs disk ok fs bytes
      → length bytes < log_max
      → k * fs.blk_sz ≤ x
      → x + len ≤ k * fs.blk_sz + fs.blk_sz
      → x + len ≤ length bytes
      → Gives ok.Fails
          (read_mem disk meanwhile (k * fs.blk_sz) x len)
          fs
          (λ got fs'. (got ≡ slice bytes x len) × StillLogfs fs bytes fs')
  unfolding read_mem
  read_mem-Gives fs bytes k x len v small h1 h2 h3 = elim (Bool-cases (o == (fs.rcache i).blk)) [
    | inl e ↦
        rw (e, read_mem)
          (inr (
            slice (fs.rcache i).buf (x - o) len,
            fs,
            refl,
            (hit ((==_iff o (fs.rcache i).blk).0 e) (v.cached i), (v, refl)),
          ))
    | inr e ↦
        rw (e, read_mem)
          (or_return-Gives (load_block disk meanwhile o)
            (λ buf. modify (keep i o buf) >> pure (some (slice buf (x - o) len))) fs1
            (λ buf fs2. Good n bytes buf o × IsQueue disk ok fs2 bytes × OnlyQueue fs1 fs2)
            (λ got fs'. (got ≡ slice bytes x len) × StillLogfs fs bytes fs')
            (load_block-Gives disk ok meanwhile rounds goes_on fs1 bytes v.start o
              (IsQueue-fill disk ok fs bytes fs.cur_blk fs.cur_off fs.off fs.available
                (put fs.rcache i b1) v.queue)
              (IsCurrent-kept fs bytes v.start fs.device fs.tail fs.active_blks (put fs.rcache i b1)
                v.current)
              small (k, refl) (omega arith))
            (λ buf fs2 (good, v2, p2). inr (
              slice buf (x - o) len,
              keep i o buf fs2,
              refl,
              (
                Good-slice n bytes buf o x len good h1 h2 h3,
                (
                  kept-IsLogfs fs fs1 fs2 bytes buf v.start k i b1 refl v.current v.cached v2 p2
                      i_eq good,
                  ap (λ y. y.blk_sz) p2,
                ),
              ),
            )))
  ]
    where
      n : ℕ
      n = fs.blk_sz

      o : ℕ
      o = k * n

      i : ℕ
      i = o / n % 256

      b1 : Block
      b1 = record { blk = o; buf = (fs.rcache i).buf }

      fs1 : Logfs S
      fs1 = keep i o (fs.rcache i).buf fs

      i_eq : i ≡ k % 256
      i_eq = ap (λ y. y % 256) (aligned-div n k (omega (arith, v.queue.large)))

      hit :
          o ≡ (fs.rcache i).blk
          → Cached n bytes i (fs.rcache i)
          → slice (fs.rcache i).buf (x - o) len ≡ slice bytes x len
      hit q (inl z) = absurd (three n v.queue.large (k, sym (q ∙ z)))
      hit q (inr (_, _, _, good)) =
          Good-slice n bytes (fs.rcache i).buf o x len
            (subst (Good n bytes (fs.rcache i).buf) (sym q) good) h1 h2 h3
