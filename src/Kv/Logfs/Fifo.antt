-- ===== src/Kv/Logfs/Fifo.antt =====
-- The queue of project-4/logfs.c gives the blocks to the device in the order in which they came.
use os_cs238p_proj.Common.{
  ℕ, suc, ◌+◌, ◌<◌, ◌≡◌, ◌≢◌, ◌⊎◌, inl, inr, refl, ap, sym, ◌∙◌, arith, Bool, true, false, Option,
  none, some, List, [], ◌∷◌, ◌++◌, append_assoc,
}
use os_cs238p_proj.Common.Outcome.{Outcome, ret, abort, out_of_fuel}
use os_cs238p_proj.Kv.Device.{Disk, Device, device_write}
use os_cs238p_proj.Kv.Logfs.{Block, Logfs, put, take_block, put_block, write_block, logfs_close}
use os_cs238p_proj.Kv.Logfs.Queue.{
  System, Step, enqueue, dequeue, write, close, IsTimely, Reach, start, later, window, window-put,
  put_other, window_of_ne_zero, held_blocks, HeldSlot, IsFifo,
}

module _ {S : Type 0} (disk : Disk S) where
  -- A write changes the device alone.
  pub write_block-eq-ret :
      (held : List ℕ × ℕ) (fs fs' : Logfs S)
      → write_block disk held fs ≡ ret (tt, fs')
      → (d : Device S) × (device_write disk held.0 (fs.wcache held.1).blk fs.device ≡ ret (true, d))
        × (fs' ≡ record fs { device = d })
  unfolding write_block
  write_block-eq-ret held fs fs' h =
      split (device_write disk held.0 (fs.wcache held.1).blk fs.device) refl h
    where
      again : Outcome (Bool × Device S) → Outcome (Unit {0} × Logfs S)
      again (ret (true, d)) = ret (tt, record fs { device = d })
      again (ret (false, d)) = abort
      again abort = abort
      again out_of_fuel = out_of_fuel

      split :
          (x : Outcome (Bool × Device S))
          → device_write disk held.0 (fs.wcache held.1).blk fs.device ≡ x
          → again x ≡ ret (tt, fs')
          → (d : Device S) × (device_write disk held.0 (fs.wcache held.1).blk fs.device
              ≡ ret (true, d))
            × (fs' ≡ record fs { device = d })
      split (ret (true, d)) e g = let p : record fs { device = d } ≡ fs' = cc g in (d, e, sym p)
      split (ret (false, d)) e g = absurd (cc g)
      split abort e g = absurd (cc g)
      split out_of_fuel e g = absurd (cc g)

  enqueue-IsFifo :
      (s : System S) (buf : List ℕ) (blk : ℕ)
      → s.fs.active_blks < 32
      → (s.held ≡ none) ⊎ (s.fs.active_blks < 31)
      → IsFifo s
      → IsFifo (record s {
        fs = put_block buf blk s.fs;
        asked = s.asked ++ record { blk = blk; buf = buf } ∷ [];
      })
  unfolding put_block
  enqueue-IsFifo s buf blk lt t v = record {
    head = omega (arith, v.head);
    tail = v.tail;
    active = omega arith;
    slot = kept_slot s.held v.slot refl;
    blocks =
        ap (λ x. x ++ b ∷ []) v.blocks
        ∙ append_assoc s.wrote (held_blocks s s.held ++ w) (b ∷ [])
        ∙ ap (λ x. s.wrote ++ x) (append_assoc (held_blocks s s.held) w (b ∷ []))
        ∙ ap (λ x. s.wrote ++ (x ++ (w ++ b ∷ []))) (kept_blocks s.held v.slot refl)
        ∙ ap (λ x. s.wrote ++ (held_blocks t1 s.held ++ x)) (sym more);
  }
    where
      b : Block
      b = record { blk = blk; buf = buf }

      w : List Block
      w = window s.fs.wcache s.fs.tail s.fs.active_blks

      t1 : System S
      t1 = record s { fs = put_block buf blk s.fs; asked = s.asked ++ b ∷ [] }

      more : window (put s.fs.wcache s.fs.head b) s.fs.tail (s.fs.active_blks + 1) ≡ w ++ b ∷ []
      more =
          let p : s.fs.active_blks + 1 ≡ suc s.fs.active_blks = omega arith in
          ap (window (put s.fs.wcache s.fs.head b) s.fs.tail) p
          ∙ window-put s.fs.wcache b s.fs.active_blks s.fs.tail s.fs.head v.tail lt v.head

      room : (h : List ℕ × ℕ) → s.held ≡ some h → s.fs.active_blks < 31
      room h e = elim t [ inl n ↦ absurd (cc (sym n ∙ e)) | inr l ↦ l ]

      kept_slot :
          (h : Option (List ℕ × ℕ))
          → HeldSlot s.fs h
          → s.held ≡ h
          → HeldSlot (put_block buf blk s.fs) h
      kept_slot none k e = tt
      kept_slot (some h) (k, l, m) e = let r = room h e in (k, l, omega arith)

      kept_blocks :
          (h : Option (List ℕ × ℕ))
          → HeldSlot s.fs h
          → s.held ≡ h
          → held_blocks s h ≡ held_blocks t1 h
      kept_blocks none k e = refl
      kept_blocks (some h) (k, l, m) e =
          let r = room h e in
          let n : h.1 ≢ s.fs.head = λ p. omega (arith, p, v.head, k) in
          ap (λ x. record { blk = x.blk; buf = h.0 } ∷ [])
            (sym (put_other s.fs.wcache s.fs.head h.1 b n))

  -- What a step keeps
  Step-IsFifo : {s t : System S} (step : Step disk s t) → IsTimely disk step → IsFifo s → IsFifo t
  unfolding take_block window logfs_close
  Step-IsFifo {s} (enqueue buf blk lt) t v = enqueue-IsFifo s buf blk lt t v
  Step-IsFifo {s} (dequeue d a h) t v = record {
    head = omega (arith, v.head, a, v.active);
    tail = omega arith;
    active = omega (arith, v.active);
    slot = (refl, v.tail, omega (arith, a, v.active));
    blocks =
        v.blocks
        ∙ ap (λ x. s.wrote ++ (held_blocks s x ++ window s.fs.wcache s.fs.tail s.fs.active_blks)) h
        ∙ ap (λ x. s.wrote ++ x) (window_of_ne_zero s.fs.wcache s.fs.tail s.fs.active_blks a);
  }
  Step-IsFifo {s} (write held fs h e) t v =
      let (d, w, p) = write_block-eq-ret held s.fs fs e in
      let c : s.fs.wcache ≡ fs.wcache = sym (ap (λ x. x.wcache) p) in
      let q : s.fs.tail ≡ fs.tail = sym (ap (λ x. x.tail) p) in
      let n : s.fs.active_blks ≡ fs.active_blks = sym (ap (λ x. x.active_blks) p) in
      let hd : fs.head ≡ s.fs.head = ap (λ x. x.head) p in
      record {
        head = omega (arith, hd, v.head, q, n);
        tail = omega (arith, v.tail, q);
        active = omega (arith, v.active, n);
        slot = tt;
        blocks =
            v.blocks
            ∙ ap
                (λ x. s.wrote ++ (held_blocks s x ++ window s.fs.wcache s.fs.tail s.fs.active_blks))
                h
            ∙ sym (
                append_assoc s.wrote (held_blocks s (some held))
                  (window s.fs.wcache s.fs.tail s.fs.active_blks))
            ∙ (λ i. (s.wrote ++ held_blocks s (some held)) ++ window (c i) (q i) (n i));
      }
  Step-IsFifo {s} close t v = record {
    head = v.head;
    tail = v.tail;
    active = v.active;
    slot = closed s.held v.slot;
    blocks =
        v.blocks
        ∙ ap (λ x. s.wrote ++ (x ++ window s.fs.wcache s.fs.tail s.fs.active_blks)) (same s.held);
  }
    where
      closed : (h : Option (List ℕ × ℕ)) → HeldSlot s.fs h → HeldSlot (logfs_close s.fs) h
      closed none k = tt
      closed (some h) k = k

      same :
          (h : Option (List ℕ × ℕ))
          → held_blocks s h ≡ held_blocks (record s { fs = logfs_close s.fs }) h
      same none = refl
      same (some h) = refl

  -- In every state that the two threads reach, whatever the order of their steps, the blocks put into the
  -- queue are, in their order and with their addresses, those written, the one that is about to be, and
  -- those in the queue, of which there are at most 32. The start has this form, and no block is put into
  -- the last free slot while one that was taken is not yet written.
  pub Reach-IsFifo : {s t : System S} → IsFifo s → Reach disk s t → IsFifo t
  Reach-IsFifo v start = v
  Reach-IsFifo v (later r step t) = Step-IsFifo step t (Reach-IsFifo v r)
