-- ===== src/Kv/Logfs/Queue.antt =====
-- The two threads of project-4/logfs.c: one puts blocks into the queue, the other writes them to the
-- device. A step is what a thread does while it has the lock, or between two times that it has it.
use os_cs238p_proj.Common.{
  ℕ, zero, suc, ◌+◌, ◌-◌, ◌%◌, ◌<◌, ◌≤◌, ◌≡◌, ◌≢◌, ◌⊎◌, refl, ap, ◌∙◌, arith, false, ==_iff,
  ==_of_ne, if◌then◌else◌, Option, none, some, List, [], ◌∷◌, ◌++◌,
}
use os_cs238p_proj.Common.Outcome.{ret}
use os_cs238p_proj.Kv.Device.{Disk}
use os_cs238p_proj.Kv.Logfs.{Block, Logfs, put, take_block, put_block, write_block, logfs_close}

-- `held` is the block that the second thread has taken, with its slot. `asked` are the blocks that were
-- put into the queue, `wrote` those that were written, with the address of the write.
pub record System (S : Type 0) : Type 0 where
  pub fs : Logfs S
  pub held : Option (List ℕ × ℕ)
  pub asked : List Block
  pub wrote : List Block

module _ {S : Type 0} (disk : Disk S) where
  pub data Step (s : System S) : System S → Type 0 where
    enqueue :
        (buf : List ℕ) (blk : ℕ)
        → s.fs.active_blks < 32
        → Step s (record s {
          fs = put_block buf blk s.fs;
          asked = s.asked ++ record { blk = blk; buf = buf } ∷ [];
        })
    dequeue :
        s.fs.done ≡ false
        → s.fs.active_blks ≢ 0
        → s.held ≡ none
        → Step s (record s { fs = (take_block s.fs).1; held = some (take_block s.fs).0 })
    write :
        (held : List ℕ × ℕ) (fs : Logfs S)
        → s.held ≡ some held
        → write_block disk held s.fs ≡ ret (tt, fs)
        → Step s (record s {
          fs = fs;
          held = none;
          wrote = s.wrote ++ record { blk = (s.fs.wcache held.1).blk; buf = held.0 } ∷ [];
        })
    close : Step s (record s { fs = logfs_close s.fs })

  -- No block is put into the last free slot while the other thread has one that it has not written.
  abbrev pub IsTimely : {s t : System S} → Step s t → Type 0
  IsTimely {s} (enqueue buf blk lt) = (s.held ≡ none) ⊎ (s.fs.active_blks < 31)
  IsTimely (dequeue d a h) = Unit
  IsTimely (write held fs h e) = Unit
  IsTimely close = Unit

  pub data Reach (s : System S) : System S → Type 0 where
    start : Reach s s
    later : {t u : System S} → Reach s t → (step : Step t u) → IsTimely step → Reach s u

-- The `n` blocks in the queue from the slot `tail` on
unfoldable pub window : (ℕ → Block) → ℕ → ℕ → List Block
window cache tail zero = []
window cache tail (suc n) = cache tail ∷ window cache ((tail + 1) % 32) n

pub put_other : (cache : ℕ → Block) (i j : ℕ) (b : Block) → j ≢ i → put cache i b j ≡ cache j
put_other cache i j b h = rw (==_of_ne j i h, if◌then◌else◌) refl

pub put_here : (cache : ℕ → Block) (i : ℕ) (b : Block) → put cache i b i ≡ b
put_here cache i b = rw ((==_iff i i).1 refl, if◌then◌else◌) refl

pub window-put :
    (cache : ℕ → Block) (b : Block) (n tail head : ℕ)
    → tail < 32
    → n < 32
    → head ≡ (tail + n) % 32
    → window (put cache head b) tail (suc n) ≡ window cache tail n ++ b ∷ []
unfolding window
window-put cache b zero tail head lt ln e =
    let p : tail ≡ head = omega (arith, e) in
    ap (λ x. x ∷ []) (ap (put cache head b) p ∙ put_here cache head b)
window-put cache b (suc n) tail head lt ln e = λ i.
    put_other cache head tail b (λ p. omega (arith, p, e)) i
    ∷ window-put cache b n ((tail + 1) % 32) head (omega arith) (omega arith) (omega (arith, e)) i

pub window_of_ne_zero :
    (cache : ℕ → Block) (tail n : ℕ)
    → n ≢ 0
    → window cache tail n ≡ cache tail ∷ window cache ((tail + 1) % 32) (n - 1)
unfolding window
window_of_ne_zero cache tail zero h = absurd (h refl)
window_of_ne_zero cache tail (suc n) h = ap (λ k. window cache tail (suc k)) (omega arith)

module _ {S : Type 0} where
  abbrev pub held_blocks : System S → Option (List ℕ × ℕ) → List Block
  held_blocks s none = []
  held_blocks s (some held) = record { blk = (s.fs.wcache held.1).blk; buf = held.0 } ∷ []

  abbrev pub HeldSlot : Logfs S → Option (List ℕ × ℕ) → Type 0
  HeldSlot fs none = Unit
  HeldSlot fs (some held) = ((held.1 + 1) % 32 ≡ fs.tail) × (held.1 < 32) × (fs.active_blks < 32)

  pub record IsFifo (s : System S) : Type 0 where
    pub head : s.fs.head ≡ (s.fs.tail + s.fs.active_blks) % 32
    pub tail : s.fs.tail < 32
    pub active : s.fs.active_blks ≤ 32
    pub slot : HeldSlot s.fs s.held
    pub blocks :
        s.asked ≡ s.wrote ++ (held_blocks s s.held ++ window s.fs.wcache s.fs.tail s.fs.active_blks)
