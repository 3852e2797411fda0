-- ===== src/Kv/Logfs/Reading.antt =====
-- `logfs_read` of project-4/logfs.c.
use Prim.Native.Nat.{min}
use os_cs238p_proj.Common.{
  ℕ, zero, suc, ◌+◌, ◌-◌, ◌*◌, ◌/◌, ◌%◌, ◌<◌, ◌≤◌, ◌==◌, ◌≡◌, ◌≢◌, ◌⊎◌, inl, inr, refl, ap, sym,
  ◌∙◌, arith, true, false, ltb, Bool-cases, ==_iff, if◌then◌else◌, Option, some, List, [], ◌++◌,
  length, slice,
}
use os_cs238p_proj.Common.Word.{add64, sub64, add64_exact, sub64_exact}
use os_cs238p_proj.Common.Outcome.{M, ret, or_return, Gives, or_return-Gives, Gives-eq, Gives-map}
use os_cs238p_proj.Kv.Log.{log_max}
use os_cs238p_proj.Kv.Device.{Disk}
use os_cs238p_proj.Kv.Device.Access.{IsDisk}
use os_cs238p_proj.Kv.Logfs.{Logfs, block_start, read_mem, append_to, read_loop, logfs_read}
use os_cs238p_proj.Kv.Logfs.Fill.{DoesRounds}
use os_cs238p_proj.Kv.Logfs.Read.{IsLogfs}
use os_cs238p_proj.Kv.Logfs.Cache.{slice-slice, StillLogfs, read_mem-Gives}

module _ {S : Type 0} (disk : Disk S) (ok : IsDisk disk) (meanwhile : M (Logfs S) (Unit {0}))
    (rounds : DoesRounds disk meanwhile)
    (goes_on : (fs : Logfs S) → (fs' : Logfs S) × (meanwhile fs ≡ ret (tt, fs'))) where
  -- The loop, from the start of a block on
  read_loop-Gives :
      (fuel : ℕ) (fs : Logfs S) (bytes : List ℕ) (k off left : ℕ)
      → IsLogfs disk ok fs bytes
      → length bytes < log_max
      → (left ≢ 0 → off ≡ k * fs.blk_sz)
      → off + left ≤ length bytes
      → left < fuel
      → Gives ok.Fails
          (read_loop disk meanwhile fuel (k * fs.blk_sz) off left)
          fs
          (λ got fs'. (got ≡ slice bytes off left) × IsLogfs disk ok fs' bytes)
  unfolding read_loop
  read_loop-Gives zero fs bytes k off left v small h le lt = absurd (omega arith)
  read_loop-Gives (suc fuel) fs bytes k off left v small h le lt =
      elim (Bool-cases (ltb fs.blk_sz left)) [
        | inl e ↦
            rw (e, read_loop)
              (more (ground (arith, e)) (λ fs1 k' off' left' v' h' le' lt'.
                read_loop-Gives fuel fs1 bytes k' off' left' v' small h' le' lt'))
        | inr e ↦ rw (e, read_loop) (last (ground (arith, e)) (Bool-cases (left == 0)))
      ]
    where
      n : ℕ
      n = fs.blk_sz

      rest : List ℕ → M (Logfs S) (Option (List ℕ))
      rest got =
          or_return (read_loop disk meanwhile fuel (add64 (k * n) n) (add64 off n) (left - n))
            (append_to got)

      more :
          n < left
          → ((fs1 : Logfs S) (k' off' left' : ℕ)
              → IsLogfs disk ok fs1 bytes
              → (left' ≢ 0 → off' ≡ k' * fs1.blk_sz)
              → off' + left' ≤ length bytes
              → left' < fuel
              → Gives ok.Fails
                  (read_loop disk meanwhile fuel (k' * fs1.blk_sz) off' left')
                  fs1
                  (λ got fs'. (got ≡ slice bytes off' left') × IsLogfs disk ok fs' bytes))
          → Gives ok.Fails
              (or_return (read_mem disk meanwhile (k * n) off n) rest)
              fs
              (λ got fs'. (got ≡ slice bytes off left) × IsLogfs disk ok fs' bytes)
      more l again =
          let q : off ≡ k * n = h (λ z. omega arith) in
          let a1 : add64 (k * n) n ≡ suc k * n =
            add64_exact (k * n) n (omega (arith, q)) ∙ sym (native.Mathlib.Nat.suc-mul k n) in
          let a2 : add64 off n ≡ off + n = add64_exact off n (omega arith) in
          or_return-Gives (read_mem disk meanwhile (k * n) off n) rest fs
            (λ got fs'.
              (got ≡ slice bytes off n) × StillLogfs disk ok meanwhile rounds goes_on fs bytes fs')
            (λ got fs'. (got ≡ slice bytes off left) × IsLogfs disk ok fs' bytes)
            (read_mem-Gives disk ok meanwhile rounds goes_on fs bytes k off n v small
              (omega (arith, q)) (omega (arith, q)) (omega arith))
            (λ got fs1 (g, (v1, sz)).
              let ih =
                again fs1 (suc k) (off + n) (left - n) v1
                  (λ _.
                    ap (λ x. x + n) q
                    ∙ sym (native.Mathlib.Nat.suc-mul k n)
                    ∙ ap (λ x. suc k * x) (sym sz))
                  (omega arith) (omega (arith, v.queue.large)) in
              or_return-Gives
                (read_loop disk meanwhile fuel (add64 (k * n) n) (add64 off n) (left - n))
                (append_to got) fs1
                (λ got' fs'. (got' ≡ slice bytes (off + n) (left - n)) × IsLogfs disk ok fs' bytes)
                (λ got' fs'. (got' ≡ slice bytes off left) × IsLogfs disk ok fs' bytes)
                (Gives-eq (read_loop disk meanwhile fuel (add64 (k * n) n) (add64 off n) (left - n))
                  (read_loop disk meanwhile fuel (suc k * fs1.blk_sz) (off + n) (left - n)) fs1 fs1
                  (λ got' fs'.
                    (got' ≡ slice bytes (off + n) (left - n)) × IsLogfs disk ok fs' bytes)
                  (λ j.
                    read_loop disk meanwhile fuel ((a1 ∙ ap (λ x. suc k * x) (sym sz)) j) (a2 j)
                      (left - n) fs1)
                  ih)
                (λ got' fs2 (g', v2). inr (
                  got ++ got',
                  fs2,
                  refl,
                  ((λ j. g j ++ g' j) ∙ slice-slice bytes off n left (omega arith), v2),
                )))

      last :
          left ≤ n
          → ((left == 0) ≡ true) ⊎ ((left == 0) ≡ false)
          → Gives ok.Fails
              (λ x.
                if left == 0 then ret (some [], x) else read_mem disk meanwhile (k * n) off left x)
              fs
              (λ got fs'. (got ≡ slice bytes off left) × IsLogfs disk ok fs' bytes)
      last l (inl e) =
          let z : left ≡ 0 = (==_iff left 0).0 e in
          rw e (inr ([], fs, refl, (ap (λ x. slice bytes off x) (sym z), v)))
      last l (inr e) =
          let q : off ≡ k * n = h (λ z. cc (sym e ∙ (==_iff left 0).1 z)) in
          rw e (
            Gives-map (read_mem disk meanwhile (k * n) off left) fs
              (λ got fs'.
                (got ≡ slice bytes off left)
                × StillLogfs disk ok meanwhile rounds goes_on fs bytes fs')
              (λ got fs'. (got ≡ slice bytes off left) × IsLogfs disk ok fs' bytes)
              (read_mem-Gives disk ok meanwhile rounds goes_on fs bytes k off left v small
                (omega (arith, q)) (omega (arith, q)) le)
              (λ got fs' (g, (v', sz)). (g, v')))

  -- A read of bytes that were appended gives them, and the log is as before; it returns -1 only on a
  -- disk whose reads can fail or be short. Both loops end. The other thread does rounds, each of them
  -- whole, and does not end the process.
  pub logfs_read-Gives :
      (fs : Logfs S) (bytes : List ℕ) (off len : ℕ)
      → IsLogfs disk ok fs bytes
      → length bytes < log_max
      → off + len ≤ length bytes
      → Gives ok.Fails
          (logfs_read disk meanwhile off len)
          fs
          (λ got fs'. (got ≡ slice bytes off len) × IsLogfs disk ok fs' bytes)
  unfolding logfs_read block_start
  logfs_read-Gives fs bytes off len v small h =
      or_return-Gives
        (read_mem disk meanwhile (off - off % n) off
          (min len (sub64 (add64 (off - off % n) n) off)))
        (rest (min len (sub64 (add64 (off - off % n) n) off))) fs
        (λ got fs'.
          (got ≡ slice bytes off m) × StillLogfs disk ok meanwhile rounds goes_on fs bytes fs')
        (λ got fs'. (got ≡ slice bytes off len) × IsLogfs disk ok fs' bytes)
        (Gives-eq (read_mem disk meanwhile (off - off % n) off asked)
          (read_mem disk meanwhile (k * n) off m) fs fs
          (λ got fs'.
            (got ≡ slice bytes off m) × StillLogfs disk ok meanwhile rounds goes_on fs bytes fs')
          (λ j. read_mem disk meanwhile (start_eq j) off (m_eq j) fs)
          (read_mem-Gives disk ok meanwhile rounds goes_on fs bytes k off m v small
            (omega (arith, within)) (omega (arith, within)) (omega arith)))
        (λ got fs1 (g, (v1, sz)).
          or_return-Gives
            (read_loop disk meanwhile (suc len) (add64 (off - off % n) n) (add64 off asked)
              (len - asked))
            (append_to got) fs1
            (λ got' fs'. (got' ≡ slice bytes (off + m) (len - m)) × IsLogfs disk ok fs' bytes)
            (λ got' fs'. (got' ≡ slice bytes off len) × IsLogfs disk ok fs' bytes)
            (Gives-eq
              (read_loop disk meanwhile (suc len) (add64 (off - off % n) n) (add64 off asked)
                (len - asked))
              (read_loop disk meanwhile (suc len) (suc k * fs1.blk_sz) (off + m) (len - m)) fs1 fs1
              (λ got' fs'. (got' ≡ slice bytes (off + m) (len - m)) × IsLogfs disk ok fs' bytes)
              (λ j.
                read_loop disk meanwhile (suc len) ((next_eq ∙ ap (λ x. suc k * x) (sym sz)) j)
                  (off_eq j) (len - m_eq j) fs1)
              (read_loop-Gives (suc len) fs1 bytes (suc k) (off + m) (len - m) v1 small
                (λ z. at_next z ∙ ap (λ x. suc k * x) (sym sz)) (omega arith) (omega arith)))
            (λ got' fs2 (g', v2). inr (
              got ++ got',
              fs2,
              refl,
              ((λ j. g j ++ g' j) ∙ slice-slice bytes off m len (omega arith), v2),
            )))
    where
      n : ℕ
      n = fs.blk_sz

      k : ℕ
      k = off / n

      m : ℕ
      m = min len (k * n + n - off)

      asked : ℕ
      asked = min len (sub64 (add64 (off - off % n) n) off)

      rest : ℕ → List ℕ → M (Logfs S) (Option (List ℕ))
      rest len' got =
          or_return
            (read_loop disk meanwhile (suc len) (add64 (off - off % n) n) (add64 off len')
              (len - len'))
            (append_to got)

      -- The offset is in the block that starts at `k * n`.
      within : (k * n ≤ off) × (off < k * n + n)
      within =
          let d = native.Mathlib.Nat.div-add-mod' off n in
          let l = native.Mathlib.Nat.mod-lt off {m = n} (omega (arith, v.queue.large)) in
          omega (arith, d, l)

      start_eq : off - off % n ≡ k * n
      start_eq = omega (arith, native.Mathlib.Nat.div-add-mod' off n)

      end_eq : add64 (off - off % n) n ≡ k * n + n
      end_eq =
          ap (λ x. add64 x n) start_eq
          ∙ add64_exact (k * n) n (omega (arith, within, v.queue.narrow))

      next_eq : add64 (off - off % n) n ≡ suc k * n
      next_eq = end_eq ∙ sym (native.Mathlib.Nat.suc-mul k n)

      m_eq : asked ≡ m
      m_eq =
          ap (λ x. min len (sub64 x off)) end_eq
          ∙ ap (min len) (
              sub64_exact (k * n + n) off (omega (arith, within, v.queue.narrow))
                (omega (arith, within)))

      off_eq : add64 off asked ≡ off + m
      off_eq = ap (add64 off) m_eq ∙ add64_exact off m (omega arith)

      at_next : len - m ≢ 0 → off + m ≡ suc k * n
      at_next z =
          let q : off + m ≡ k * n + n = omega (arith, z, within) in
          q ∙ sym (native.Mathlib.Nat.suc-mul k n)
