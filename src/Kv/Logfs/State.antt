-- ===== src/Kv/Logfs/State.antt =====
-- The state of project-4/logfs.c, for the bytes that were appended.
use os_cs238p_proj.Common.{ℕ, ◌+◌, ◌-◌, ◌*◌, ◌%◌, ◌^◌, ◌<◌, ◌≤◌, ◌≡◌, ◌⊎◌, List, length, take, drop}
use os_cs238p_proj.Kv.Device.{Disk, Device}
use os_cs238p_proj.Kv.Device.Access.{IsDisk}
use os_cs238p_proj.Kv.Logfs.{Block, Logfs}
use os_cs238p_proj.Kv.Logfs.Blocks.{Aligned, part, Good}

-- A slot of the queue that has been used has a block of the log.
abbrev pub Slot : ℕ → List ℕ → Block → Type 0
Slot n bytes b =
    ((b.blk ≡ 3) × (length b.buf < 2 ^ 32))
    ⊎ (Aligned n b.blk × (b.blk + n ≤ length bytes) × (b.buf ≡ part bytes n b.blk))

-- The same of a slot of the read cache; the last block need not be complete.
abbrev pub Cached : ℕ → List ℕ → ℕ → Block → Type 0
Cached n bytes i b =
    (b.blk ≡ 3) ⊎ ((k : ℕ) × (b.blk ≡ k * n) × (i ≡ k % 256) × Good n bytes b.buf b.blk)

abbrev pub CachedWhole : ℕ → List ℕ → ℕ → Block → Type 0
CachedWhole n bytes i b =
    (b.blk ≡ 3)
    ⊎ ((k : ℕ) × (b.blk ≡ k * n)
        × (i ≡ k % 256)
        × (b.blk + n ≤ length bytes)
        × (b.buf ≡ part bytes n b.blk))

abbrev pub InQueue : (ℕ → Block) → ℕ → Type 0
InQueue cache o = (j : ℕ) × (j < 32) × ((cache j).blk ≡ o)

-- The block that is being filled starts at `start`.
pub record IsCurrent {S : Type 0} (fs : Logfs S) (bytes : List ℕ) (start : ℕ) : Type 0 where
  pub aligned : Aligned fs.blk_sz start
  pub off : fs.off ≡ start + fs.cur_off
  pub count : length bytes ≡ start + fs.cur_off
  pub available : fs.available + fs.cur_off ≡ fs.blk_sz
  pub space : 0 < fs.available
  pub whole : length fs.cur_blk ≡ fs.blk_sz
  pub filled : take fs.cur_off fs.cur_blk ≡ drop start bytes

module _ {S : Type 0} (disk : Disk S) (ok : IsDisk disk) where
  abbrev pub OnDevice : Device S → ℕ → List ℕ → ℕ → Type 0
  OnDevice d n bytes o = ok.At d.disk o (part bytes n o) × (o + n ≤ d.size)

  -- Every whole block is in a slot of the queue or on the device; one whose slot can be used again is
  -- on the device.
  pub record IsQueue (fs : Logfs S) (bytes : List ℕ) : Type 0 where
    pub large : 3 < fs.blk_sz
    pub narrow : fs.blk_sz < 2 ^ 32
    pub block : fs.device.block ≡ fs.blk_sz
    pub head : fs.head ≡ (fs.tail + fs.active_blks) % 32
    pub tail : fs.tail < 32
    pub active : fs.active_blks ≤ 32
    pub slots : (j : ℕ) → j < 32 → Slot fs.blk_sz bytes (fs.wcache j)
    pub stored :
        (o : ℕ)
        → Aligned fs.blk_sz o
        → o + fs.blk_sz ≤ length bytes
        → InQueue fs.wcache o ⊎ OnDevice fs.device fs.blk_sz bytes o
    pub idle :
        (j : ℕ)
        → j < 32
        → fs.active_blks ≤ (j + 32 - fs.tail) % 32
        → Aligned fs.blk_sz (fs.wcache j).blk
        → OnDevice fs.device fs.blk_sz bytes (fs.wcache j).blk
