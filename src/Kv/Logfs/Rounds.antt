-- ===== src/Kv/Logfs/Rounds.antt =====
-- What the thread of project-4/logfs.c that writes the queue to the device keeps.
use os_cs238p_proj.Common.{
  ℕ, zero, suc, ◌+◌, ◌-◌, ◌%◌, ◌<◌, ◌≤◌, ◌==◌, ◌≡◌, ◌≢◌, ◌⊎◌, inl, inr, refl, ap, sym, ◌∙◌, subst,
  arith, true, false, Bool-cases, ==_iff, if_true, if_false, List, length,
}
use os_cs238p_proj.Common.Outcome.{ret}
use os_cs238p_proj.Kv.Log.{log_max}
use os_cs238p_proj.Kv.Device.{Disk, Device}
use os_cs238p_proj.Kv.Device.Access.{IsDisk, IsWritten, device_write-IsWritten}
use os_cs238p_proj.Kv.Logfs.{Block, Logfs, take_block, write_to_device}
use os_cs238p_proj.Kv.Logfs.Fifo.{write_block-eq-ret}
use os_cs238p_proj.Kv.Logfs.Blocks.{Aligned, Aligned-apart, part, length-part}
use os_cs238p_proj.Kv.Logfs.State.{OnDevice, IsQueue}

-- 3 is not the start of a block.
pub three : (n : ℕ) → 3 < n → Aligned n 3 → ⊥
three n h (zero, e) = omega (arith, e)
three n h (suc k, e) = omega (arith, e, native.Mathlib.Nat.suc-mul k n)

-- A round changes the device, and takes a block from the queue.
abbrev pub OnlyQueue : {S : Type 0} → Logfs S → Logfs S → Type 0
OnlyQueue fs fs' =
    fs' ≡ record fs { device = fs'.device; tail = fs'.tail; active_blks = fs'.active_blks }

module _ {S : Type 0} (disk : Disk S) where
  -- Any number of rounds
  pub data Rounds (fs : Logfs S) : Logfs S → Type 0 where
    none_left : Rounds fs fs
    round :
        {fs1 fs2 : Logfs S}
        → Rounds fs fs1
        → write_to_device disk fs1 ≡ ret (tt, fs2)
        → Rounds fs fs2

module _ {S : Type 0} (disk : Disk S) (ok : IsDisk disk) where
  round-IsQueue :
      (fs : Logfs S) (bytes : List ℕ) (d : Device S)
      → IsQueue disk ok fs bytes
      → fs.active_blks ≢ 0
      → IsWritten disk ok (fs.wcache fs.tail).buf (fs.wcache fs.tail).blk fs.device d
      → IsQueue disk ok
          (record fs { device = d; tail = (fs.tail + 1) % 32; active_blks = fs.active_blks - 1 })
          bytes
  round-IsQueue fs bytes d v nz w = record {
    large = v.large;
    narrow = v.narrow;
    block = w.block ∙ v.block;
    head = omega (arith, v.head, nz);
    tail = omega arith;
    active = omega (arith, v.active);
    slots = v.slots;
    stored = λ o a h. elim (v.stored o a h) [ inl q ↦ inl q | inr q ↦ inr (kept o a h q) ];
    idle = λ j lt h a. idle_now j lt h a (Bool-cases (j == fs.tail));
  }
    where
      n : ℕ
      n = fs.blk_sz

      b : Block
      b = fs.wcache fs.tail

      -- The block that was taken is one of the log.
      taken : Aligned n b.blk × (b.blk + n ≤ length bytes) × (b.buf ≡ part bytes n b.blk)
      taken = elim (v.slots fs.tail v.tail) [
        | inl (e, _) ↦
            let z : 3 % n ≡ 0 =
              sym (ap (λ x. x % n) e) ∙ ap (λ x. b.blk % x) (sym v.block) ∙ w.aligned in
            absurd (omega (arith, z, native.Mathlib.Nat.mod-eq_of_lt v.large))
        | inr q ↦ q
      ]

      len : length b.buf ≡ n
      len = ap length taken.2 ∙ length-part bytes n b.blk taken.1

      kept :
          (o : ℕ)
          → Aligned n o
          → o + n ≤ length bytes
          → OnDevice disk ok fs.device n bytes o
          → OnDevice disk ok d n bytes o
      kept o a h (q, r) = elim (Aligned-apart n o b.blk a taken.0) [
        | inl e ↦
            (subst (λ x. ok.At d.disk x (part bytes n x)) (sym e) here, omega (arith, r, w.size))
        | inr (inl l) ↦ (
          w.others o (part bytes n o) q (inl (omega (arith, l, length-part bytes n o h))),
          omega (arith, r, w.size),
        )
        | inr (inr l) ↦
            (w.others o (part bytes n o) q (inr (omega (arith, l, len))), omega (arith, r, w.size))
      ]
        where
          here : ok.At d.disk b.blk (part bytes n b.blk)
          here = subst (ok.At d.disk b.blk) taken.2 w.here

      idle_now :
          (j : ℕ)
          → j < 32
          → fs.active_blks - 1 ≤ (j + 32 - (fs.tail + 1) % 32) % 32
          → Aligned n (fs.wcache j).blk
          → ((j == fs.tail) ≡ true) ⊎ ((j == fs.tail) ≡ false)
          → OnDevice disk ok d n bytes (fs.wcache j).blk
      idle_now j lt h a (inl e) =
          let q : j ≡ fs.tail = (==_iff j fs.tail).0 e in
          subst (λ x. OnDevice disk ok d n bytes (fs.wcache x).blk) (sym q)
            (subst (ok.At d.disk b.blk) taken.2 w.here, omega (arith, w.within, len, w.size))
      idle_now j lt h a (inr e) =
          let q : j ≢ fs.tail = λ p. cc (sym e ∙ (==_iff j fs.tail).1 p) in
          let old = v.idle j lt (omega (arith, h, q, v.tail, nz)) a in
          elim (v.slots j lt) [
            | inl (z, _) ↦ absurd (three n v.large (subst (Aligned n) z a))
            | inr s ↦ kept (fs.wcache j).blk a s.1 old
          ]

  -- A round of the thread that returns
  write_to_device-IsQueue :
      (fs fs' : Logfs S) (bytes : List ℕ)
      → length bytes < log_max
      → IsQueue disk ok fs bytes
      → write_to_device disk fs ≡ ret (tt, fs')
      → IsQueue disk ok fs' bytes × OnlyQueue fs fs'
  unfolding write_to_device take_block
  write_to_device-IsQueue fs fs' bytes small v h = elim (Bool-cases fs.done) [
    | inl e ↦
        let p : fs ≡ fs' = cc (sym (if_true fs.done _ _ e) ∙ h) in
        (subst (λ x. IsQueue disk ok x bytes) p v, subst (OnlyQueue fs) p refl)
    | inr e ↦ elim (Bool-cases (fs.active_blks == 0)) [
      | inl z ↦ absurd (cc (sym (if_false fs.done _ _ e ∙ if_true (fs.active_blks == 0) _ _ z) ∙ h))
      | inr z ↦
          let nz : fs.active_blks ≢ 0 = λ q. cc (sym z ∙ (==_iff fs.active_blks 0).1 q) in
          let (d, w, p) =
            write_block-eq-ret disk ((fs.wcache fs.tail).buf, fs.tail)
              (record fs { tail = (fs.tail + 1) % 32; active_blks = fs.active_blks - 1 }) fs'
              (sym (if_false fs.done _ _ e ∙ if_false (fs.active_blks == 0) _ _ z) ∙ h) in
          let done = round-IsQueue fs bytes d v nz (
            device_write-IsWritten disk ok (fs.wcache fs.tail).buf (fs.wcache fs.tail).blk fs.device
              d (in_range v nz) w) in
          (subst (λ x. IsQueue disk ok x bytes) (sym p) done, subst (OnlyQueue fs) (sym p) refl)
    ]
  ]
    where
      in_range :
          IsQueue disk ok fs bytes
          → fs.active_blks ≢ 0
          → (fs.wcache fs.tail).blk + length (fs.wcache fs.tail).buf < 0x1_0000_0000_0000_0000
      in_range v nz = elim (v.slots fs.tail v.tail) [
        | inl (e, l) ↦ omega (arith, e, l)
        | inr (a, l, e) ↦
            omega
              (arith, l, small, ap length e, length-part bytes fs.blk_sz (fs.wcache fs.tail).blk l)
      ]

  pub Rounds-IsQueue :
      {fs fs' : Logfs S} (bytes : List ℕ)
      → length bytes < log_max
      → IsQueue disk ok fs bytes
      → Rounds disk fs fs'
      → IsQueue disk ok fs' bytes × OnlyQueue fs fs'
  Rounds-IsQueue bytes small v none_left = (v, refl)
  Rounds-IsQueue {fs} bytes small v (round {fs1} {fs2} r e) =
      let (v1, p1) = Rounds-IsQueue bytes small v r in
      let (v2, p2) = write_to_device-IsQueue fs1 fs2 bytes small v1 e in
      (
        v2,
        p2
            ∙ ap
                (λ (x : Logfs S). record x {
                  device = fs2.device;
                  tail = fs2.tail;
                  active_blks = fs2.active_blks;
                })
                p1,
      )
