-- ===== src/Kv/Logfs/Append.antt =====
-- `logfs_append` of project-4/logfs.c.
use os_cs238p_proj.Common.{
  ℕ, zero, suc, ◌+◌, ◌-◌, ◌<◌, ◌≤◌, ◌==◌, ◌≡◌, ◌≢◌, inl, inr, refl, ap, sym, ◌∙◌, subst, arith, leb,
  false, Bool-cases, ==_iff, if_true, if_false, List, [], ◌∷◌, ◌++◌, length, length-append, take,
  drop, length-take, length-drop, append_assoc, append-nil, take-append-drop,
}
use os_cs238p_proj.Common.Word.{add64, sub64, add64_exact}
use os_cs238p_proj.Common.Outcome.{
  M, ret, out_of_fuel, modify, >>=-eq-ret, >>=-ends, >>=-ends_after,
}
use os_cs238p_proj.Kv.Log.{log_max}
use os_cs238p_proj.Kv.Device.{Disk}
use os_cs238p_proj.Kv.Device.Access.{IsDisk}
use os_cs238p_proj.Kv.Logfs.{
  Logfs, put_block, overwrite, block_start, forget_current, fill_block, fresh_block, append_rest,
  try_put, write_to_queue, append_block, append_loop, logfs_append,
}
use os_cs238p_proj.Kv.Logfs.Blocks.{drop-append_le, length-overwrite, take-overwrite}
use os_cs238p_proj.Kv.Logfs.State.{Cached, IsQueue, IsCurrent}
use os_cs238p_proj.Kv.Logfs.Put.{IsQueue-fill, IsQueue-append}
use os_cs238p_proj.Kv.Logfs.Fill.{
  DoesRounds, CachedWhole-append, IsOpen, put_filled-IsOpen, address,
}
use os_cs238p_proj.Kv.Logfs.Rounds.{Rounds, Rounds-IsQueue}
use os_cs238p_proj.Kv.Logfs.Forget.{forget_current-IsOpen}

module _ {S : Type 0} (disk : Disk S) (ok : IsDisk disk) where
  try_put-eq-ret :
      (buf : List ℕ) (blk : ℕ) (fs fs' : Logfs S)
      → try_put buf blk fs ≡ ret (tt, fs')
      → (fs.active_blks < 32) × (fs' ≡ put_block buf blk fs)
  try_put-eq-ret buf blk fs fs' h = elim (Bool-cases (leb 32 fs.active_blks)) [
    | inl e ↦ absurd (cc (sym (if_true (leb 32 fs.active_blks) _ _ e) ∙ h))
    | inr e ↦
        let p : put_block buf blk fs ≡ fs' =
          cc (sym (if_false (leb 32 fs.active_blks) _ _ e) ∙ h) in
        (ground (arith, e), sym p)
  ]

  no_bytes : (xs : List ℕ) → length xs ≡ 0 → xs ≡ []
  no_bytes [] h = refl
  no_bytes (x ∷ xs) h = absurd (omega arith)

  -- Bytes that do not fill the block
  partly :
      (fs : Logfs S) (bytes buf : List ℕ)
      → IsOpen disk ok fs bytes
      → length bytes + length buf < log_max
      → length buf < fs.available
      → IsOpen disk ok
          (record fs {
            cur_blk = overwrite fs.cur_blk fs.cur_off buf;
            off = add64 fs.off (length buf);
            cur_off = fs.cur_off + length buf;
            available = fs.available - length buf;
          })
          (bytes ++ buf)
  partly fs bytes buf o small lt =
      let c = o.current in
      let l = length-append bytes buf in
      let fit : fs.cur_off + length buf ≤ length fs.cur_blk =
        omega (arith, c.available, c.whole, lt) in
      record {
        queue =
            IsQueue-fill disk ok fs (bytes ++ buf) (overwrite fs.cur_blk fs.cur_off buf)
              (fs.cur_off + length buf) (add64 fs.off (length buf)) (fs.available - length buf)
              fs.rcache
              (IsQueue-append disk ok fs bytes buf o.queue o.start c.aligned
                (omega (arith, c.count)) (omega (arith, l, c.count, c.available, lt)));
        start = o.start;
        current = record {
          aligned = c.aligned;
          off =
              add64_exact fs.off (length buf) (omega (arith, c.off, c.count, small))
              ∙ omega (arith, c.off);
          count = omega (arith, l, c.count);
          available = omega (arith, c.available, lt);
          space = omega (arith, lt);
          whole = length-overwrite fs.cur_blk buf fs.cur_off fit ∙ c.whole;
          filled =
              take-overwrite fs.cur_blk buf fs.cur_off fit
              ∙ ap (λ x. x ++ buf) c.filled
              ∙ sym (drop-append_le o.start bytes buf (omega (arith, c.count)));
        };
        cached = λ i. CachedWhole-append fs.blk_sz bytes buf i (fs.rcache i) (o.cached i);
      }

  module _ (meanwhile : M (Logfs S) (Unit {0})) (rounds : DoesRounds disk meanwhile) where
    -- A round that returns: the other thread's rounds, then the block is put into the queue.
    append_block-eq-ret :
        (fs fs' : Logfs S) (buf : List ℕ)
        → append_block disk meanwhile buf fs ≡ ret (tt, fs')
        → (fs2 : Logfs S) × Rounds disk (fill_block buf fs) fs2
          × (fs2.active_blks < 32)
          × (fs'
              ≡ fresh_block (
                  put_block
                    (fill_block buf fs).cur_blk
                    (block_start (fill_block buf fs) (sub64 (fill_block buf fs).off 1))
                    fs2))
    unfolding append_block write_to_queue
    append_block-eq-ret fs fs' buf h =
        let fs1 = fill_block buf fs in
        let at = block_start fs1 (sub64 fs1.off 1) in
        let (_, fs3, a, b) =
          >>=-eq-ret (λ x. write_to_queue disk meanwhile fs1.cur_blk at x) (λ _. modify fresh_block)
            fs1 (tt, fs') h in
        let (_, fs2, a2, b2) = >>=-eq-ret meanwhile (λ _. try_put fs1.cur_blk at) fs1 (tt, fs3) a in
        let (room, e3) = try_put-eq-ret fs1.cur_blk at fs2 fs3 b2 in
        let q : fresh_block fs3 ≡ fs' = cc b in
        (fs2, rounds fs1 fs2 a2, room, sym q ∙ ap fresh_block e3)

    append_block-IsOpen :
        (fs fs' : Logfs S) (bytes buf : List ℕ)
        → IsOpen disk ok fs bytes
        → length bytes + length buf < log_max
        → fs.available ≤ length buf
        → append_block disk meanwhile buf fs ≡ ret (tt, fs')
        → IsOpen disk ok fs' (bytes ++ take fs.available buf)
    unfolding fill_block overwrite
    append_block-IsOpen fs fs' bytes buf o small le h =
        let fs1 = fill_block buf fs in
        let (fs2, r, room, e) = append_block-eq-ret fs fs' buf h in
        let q =
          ap (λ x. fresh_block (put_block fs1.cur_blk x fs2))
            (address disk ok fs bytes buf o small le) in
        subst (λ x. IsOpen disk ok x (bytes ++ take fs.available buf)) (sym (e ∙ q))
          (put_filled-IsOpen disk ok fs bytes buf o small le fs2 r room)

    -- A round leaves the flag `done`.
    append_block-done :
        (fs fs' : Logfs S) (bytes buf : List ℕ)
        → IsOpen disk ok fs bytes
        → length bytes < log_max
        → append_block disk meanwhile buf fs ≡ ret (tt, fs')
        → fs'.done ≡ fs.done
    unfolding fill_block overwrite fresh_block put_block
    append_block-done fs fs' bytes buf o small h =
        let fs1 = fill_block buf fs in
        let (fs2, r, room, e) = append_block-eq-ret fs fs' buf h in
        let v = IsQueue-fill disk ok fs bytes fs1.cur_blk fs.cur_off fs1.off 0 fs.rcache o.queue in
        let (_, p) = Rounds-IsQueue disk ok bytes small v r in
        ap (λ x. x.done) e ∙ ap (λ x. x.done) p

    append_rest-IsOpen :
        (fs : Logfs S) (bytes buf : List ℕ)
        → IsOpen disk ok fs bytes
        → length bytes + length buf < log_max
        → length buf < fs.available
        → IsOpen disk ok (append_rest buf fs) (bytes ++ buf)
    unfolding append_rest
    append_rest-IsOpen fs bytes buf o small lt = elim (Bool-cases (length buf == 0)) [
      | inl e ↦
          let z : buf ≡ [] = no_bytes buf ((==_iff (length buf) 0).0 e) in
          subst (λ x. IsOpen disk ok x (bytes ++ buf)) (sym (if_true (length buf == 0) _ _ e))
            (subst (IsOpen disk ok fs) (sym (append-nil bytes) ∙ ap (λ x. bytes ++ x) (sym z)) o)
      | inr e ↦
          subst (λ x. IsOpen disk ok x (bytes ++ buf)) (sym (if_false (length buf == 0) _ _ e))
            (partly fs bytes buf o small lt)
    ]

    append_loop-IsOpen :
        (fuel : ℕ) (fs fs' : Logfs S) (bytes buf : List ℕ)
        → IsOpen disk ok fs bytes
        → length bytes + length buf < log_max
        → append_loop disk meanwhile fuel buf fs ≡ ret (tt, fs')
        → IsOpen disk ok fs' (bytes ++ buf)
    unfolding append_loop
    append_loop-IsOpen zero fs fs' bytes buf o small h = absurd (cc h)
    append_loop-IsOpen (suc fuel) fs fs' bytes buf o small h =
        elim (Bool-cases (leb fs.available (length buf))) [
          | inl e ↦
              let le : fs.available ≤ length buf = ground (arith, e) in
              let (_, fs1, a, b) =
                >>=-eq-ret (append_block disk meanwhile buf)
                  (λ _. append_loop disk meanwhile fuel (drop fs.available buf)) fs (tt, fs')
                  (rw (e, append_loop) at h) in
              let o1 = append_block-IsOpen fs fs1 bytes buf o small le a in
              let l1 = length-append bytes (take fs.available buf) in
              let l2 = length-take fs.available buf in
              let l3 = length-drop fs.available buf in
              let q =
                append_assoc bytes (take fs.available buf) (drop fs.available buf)
                ∙ ap (λ x. bytes ++ x) (take-append-drop fs.available buf) in
              subst (IsOpen disk ok fs') q (
                append_loop-IsOpen fuel fs1 fs' (bytes ++ take fs.available buf)
                  (drop fs.available buf) o1 (omega arith) b)
          | inr e ↦
              let lt : length buf < fs.available = ground (arith, e) in
              let p : append_rest buf fs ≡ fs' = cc (rw (e, append_loop) at h) in
              subst (λ x. IsOpen disk ok x (bytes ++ buf)) p
                (append_rest-IsOpen fs bytes buf o small lt)
        ]

    -- An append that returns
    pub logfs_append-IsOpen :
        (fs fs' : Logfs S) (bytes buf : List ℕ) (start : ℕ)
        → IsQueue disk ok fs bytes
        → IsCurrent fs bytes start
        → ((i : ℕ) → Cached fs.blk_sz bytes i (fs.rcache i))
        → length bytes + length buf < log_max
        → logfs_append disk meanwhile buf fs ≡ ret (tt, fs')
        → IsOpen disk ok fs' (bytes ++ buf)
    unfolding logfs_append
    logfs_append-IsOpen fs fs' bytes buf start v c cached small h =
        append_loop-IsOpen (suc (length buf)) (forget_current fs) fs' bytes buf
          (forget_current-IsOpen disk ok fs bytes start v c cached) small h

    -- Where no wait for the other thread is endless, the loop ends: each round takes at least one byte.
    module _
        (no_wait : (buf : List ℕ) (blk : ℕ) (fs : Logfs S)
          → fs.done ≡ false
          → fs.active_blks ≤ 32
          → write_to_queue disk meanwhile buf blk fs ≢ out_of_fuel) where
      append_block-ends :
          (buf : List ℕ) (fs : Logfs S)
          → fs.done ≡ false
          → fs.active_blks ≤ 32
          → append_block disk meanwhile buf fs ≢ out_of_fuel
      unfolding append_block fill_block
      append_block-ends buf fs going active =
          >>=-ends
            (λ x.
              write_to_queue disk meanwhile (fill_block buf fs).cur_blk
                (block_start (fill_block buf fs) (sub64 (fill_block buf fs).off 1)) x)
            (λ _. modify fresh_block) (fill_block buf fs)
            (no_wait (fill_block buf fs).cur_blk
              (block_start (fill_block buf fs) (sub64 (fill_block buf fs).off 1))
              (fill_block buf fs) going active)
            (λ _ x e. cc e)

      append_loop-ends :
          (fuel : ℕ) (fs : Logfs S) (bytes buf : List ℕ)
          → IsOpen disk ok fs bytes
          → length bytes + length buf < log_max
          → length buf < fuel
          → fs.done ≡ false
          → append_loop disk meanwhile fuel buf fs ≢ out_of_fuel
      unfolding append_loop
      append_loop-ends zero fs bytes buf o small lt going = absurd (omega arith)
      append_loop-ends (suc fuel) fs bytes buf o small lt going =
          elim (Bool-cases (leb fs.available (length buf))) [
            | inr e ↦ rw (e, append_loop) (λ x. cc x)
            | inl e ↦
                let le : fs.available ≤ length buf = ground (arith, e) in
                let l1 = length-append bytes (take fs.available buf) in
                let l2 = length-take fs.available buf in
                let l3 = length-drop fs.available buf in
                rw (e, append_loop)
                  (>>=-ends_after (append_block disk meanwhile buf)
                    (λ _. append_loop disk meanwhile fuel (drop fs.available buf)) fs
                    (append_block-ends buf fs going o.queue.active)
                    (λ _ fs1 a.
                      append_loop-ends fuel fs1 (bytes ++ take fs.available buf)
                        (drop fs.available buf) (append_block-IsOpen fs fs1 bytes buf o small le a)
                        (omega arith) (omega (arith, o.current.space))
                        (append_block-done fs fs1 bytes buf o (omega arith) a ∙ going)))
          ]

      pub logfs_append-ends :
          (fs : Logfs S) (bytes buf : List ℕ) (start : ℕ)
          → IsQueue disk ok fs bytes
          → IsCurrent fs bytes start
          → ((i : ℕ) → Cached fs.blk_sz bytes i (fs.rcache i))
          → length bytes + length buf < log_max
          → fs.done ≡ false
          → logfs_append disk meanwhile buf fs ≢ out_of_fuel
      unfolding logfs_append forget_current
      logfs_append-ends fs bytes buf start v c cached small going =
          append_loop-ends (suc (length buf)) (forget_current fs) bytes buf
            (forget_current-IsOpen disk ok fs bytes start v c cached) small (omega arith)
            (ground (arith, going))
