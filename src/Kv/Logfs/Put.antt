-- ===== src/Kv/Logfs/Put.antt =====
-- A block that project-4/logfs.c puts into the queue, and bytes that do not complete one.
use os_cs238p_proj.Common.{
  ℕ, ◌+◌, ◌-◌, ◌%◌, ◌<◌, ◌≤◌, ◌==◌, ◌≡◌, ◌≢◌, ◌⊎◌, inl, inr, ap, sym, ◌∙◌, subst, arith, Bool-cases,
  ==_iff, List, ◌++◌, length, length-append,
}
use os_cs238p_proj.Kv.Device.{Disk}
use os_cs238p_proj.Kv.Device.Access.{IsDisk}
use os_cs238p_proj.Kv.Logfs.{Block, Logfs, put, put_block}
use os_cs238p_proj.Kv.Logfs.Queue.{put_other, put_here}
use os_cs238p_proj.Kv.Logfs.Blocks.{Aligned, Aligned-apart, part, part-append}
use os_cs238p_proj.Kv.Logfs.State.{Slot, InQueue, OnDevice, IsQueue}
use os_cs238p_proj.Kv.Logfs.Rounds.{three}

module _ {S : Type 0} (disk : Disk S) (ok : IsDisk disk) where
  -- The queue does not depend on the block that is being filled.
  pub IsQueue-fill :
      (fs : Logfs S) (bytes cur_blk : List ℕ) (cur_off off available : ℕ) (rcache : ℕ → Block)
      → IsQueue disk ok fs bytes
      → IsQueue disk ok
          (record fs {
            cur_blk = cur_blk;
            cur_off = cur_off;
            off = off;
            available = available;
            rcache = rcache;
          })
          bytes
  IsQueue-fill fs bytes cur_blk cur_off off available rcache v = record {
    large = v.large;
    narrow = v.narrow;
    block = v.block;
    head = v.head;
    tail = v.tail;
    active = v.active;
    slots = v.slots;
    stored = v.stored;
    idle = v.idle;
  }

  module _ (fs : Logfs S) (bytes more : List ℕ) (v : IsQueue disk ok fs bytes) where
    abbrev n : ℕ
    n = fs.blk_sz

    abbrev all : List ℕ
    all = bytes ++ more

    Slot-append : (b : Block) → Slot n bytes b → Slot n all b
    Slot-append b (inl e) = inl e
    Slot-append b (inr (a, l, e)) =
        inr (
          a,
          omega (arith, l, length-append bytes more),
          e ∙ sym (part-append bytes more n b.blk l),
        )

    OnDevice-append :
        (o : ℕ)
        → o + n ≤ length bytes
        → OnDevice disk ok fs.device n bytes o
        → OnDevice disk ok fs.device n all o
    OnDevice-append o l (a, s) =
        (subst (ok.At fs.device.disk o) (sym (part-append bytes more n o l)) a, s)

    idle_block :
        (j : ℕ) → j < 32 → Aligned n (fs.wcache j).blk → (fs.wcache j).blk + n ≤ length bytes
    idle_block j lt a = elim (v.slots j lt) [
      | inl (e, _) ↦ absurd (three n v.large (subst (Aligned n) e a))
      | inr (_, l, _) ↦ l
    ]

    idle-append :
        (j : ℕ)
        → j < 32
        → fs.active_blks ≤ (j + 32 - fs.tail) % 32
        → Aligned n (fs.wcache j).blk
        → OnDevice disk ok fs.device n all (fs.wcache j).blk
    idle-append j lt h a = OnDevice-append (fs.wcache j).blk (idle_block j lt a) (v.idle j lt h a)

    -- Bytes that do not complete the block at `start`
    pub IsQueue-append :
        (start : ℕ)
        → Aligned n start
        → start ≤ length bytes
        → length all < start + n
        → IsQueue disk ok fs all
    IsQueue-append start al le lt = record {
      large = v.large;
      narrow = v.narrow;
      block = v.block;
      head = v.head;
      tail = v.tail;
      active = v.active;
      slots = λ j h. Slot-append (fs.wcache j) (v.slots j h);
      stored = λ o a h.
          let l : o + n ≤ length bytes = whole o a h in
          elim (v.stored o a l) [ inl q ↦ inl q | inr q ↦ inr (OnDevice-append o l q) ];
      idle = idle-append;
    }
      where
        whole : (o : ℕ) → Aligned n o → o + n ≤ length all → o + n ≤ length bytes
        whole o a h = elim (Aligned-apart n o start a al) [
          | inl e ↦ absurd (omega (arith, e, h, lt))
          | inr (inl l) ↦ omega (arith, l, le)
          | inr (inr l) ↦ absurd (omega (arith, l, h, lt, v.large))
        ]

    -- The block at `start`, complete
    module _ (start : ℕ) (buf : List ℕ) (room : fs.active_blks < 32) (al : Aligned n start)
        (le : start ≤ length bytes) (eq : start + n ≡ length all)
        (same : buf ≡ part all n start) where
      abbrev b : Block
      b = record { blk = start; buf = buf }

      put-Slot : (j : ℕ) → j < 32 → Slot n all (put fs.wcache fs.head b j)
      put-Slot j lt = elim (Bool-cases (j == fs.head)) [
        | inl e ↦
            let q =
              ap (put fs.wcache fs.head b) ((==_iff j fs.head).0 e)
              ∙ put_here fs.wcache fs.head b in
            subst (Slot n all) (sym q) (inr (al, omega (arith, eq), same))
        | inr e ↦
            let q = put_other fs.wcache fs.head j b (λ p. cc (sym e ∙ (==_iff j fs.head).1 p)) in
            subst (Slot n all) (sym q) (Slot-append (fs.wcache j) (v.slots j lt))
      ]

      head_lt : fs.head < 32
      head_lt = omega (arith, v.head)

      -- The block that was in the slot is on the device.
      old_stored :
          (o : ℕ)
          → Aligned n o
          → o + n ≤ length bytes
          → InQueue (put fs.wcache fs.head b) o ⊎ OnDevice disk ok fs.device n all o
      old_stored o a l = elim (v.stored o a l) [
        | inr q ↦ inr (OnDevice-append o l q)
        | inl (j, lt, e) ↦ elim (Bool-cases (j == fs.head)) [
          | inr g ↦
              let q = put_other fs.wcache fs.head j b (λ p. cc (sym g ∙ (==_iff j fs.head).1 p)) in
              inl (j, lt, ap (λ x. x.blk) q ∙ e)
          | inl g ↦
              let p : j ≡ fs.head = (==_iff j fs.head).0 g in
              inr (
                subst (OnDevice disk ok fs.device n all) e (
                  idle-append j lt (omega (arith, p, v.head, v.tail, room))
                    (subst (Aligned n) (sym e) a)))
        ]
      ]

      pub put_block-IsQueue : IsQueue disk ok (put_block buf start fs) all
      unfolding put_block
      put_block-IsQueue = record {
        large = v.large;
        narrow = v.narrow;
        block = v.block;
        head = omega (arith, v.head);
        tail = v.tail;
        active = omega (arith, room);
        slots = put-Slot;
        stored = λ o a h. elim (Aligned-apart n o start a al) [
          | inl e ↦ inl (fs.head, head_lt, ap (λ x. x.blk) (put_here fs.wcache fs.head b) ∙ sym e)
          | inr (inl l) ↦ old_stored o a (omega (arith, l, le))
          | inr (inr l) ↦ absurd (omega (arith, l, h, eq, v.large))
        ];
        idle = λ j lt h a.
            let ne : j ≢ fs.head = λ p. omega (arith, p, h, v.head, v.tail, room) in
            let q = put_other fs.wcache fs.head j b ne in
            subst (λ x. OnDevice disk ok fs.device n all x.blk) (sym q)
              (idle-append j lt (omega (arith, h)) (subst (λ x. Aligned n x.blk) q a));
      }
