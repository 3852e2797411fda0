-- ===== src/Kv/Logfs.antt =====
-- project-4/logfs.c: the log, as blocks on a device, with a queue of blocks that a thread writes and a
-- cache of blocks that were read. `malloc` and the calls of `pthread` are taken to succeed.
pub mod Queue
pub mod Fifo
pub mod Blocks
pub mod State
pub mod Rounds
pub mod Put
pub mod Fill
pub mod Forget
pub mod Append
pub mod Read
pub mod Load
pub mod Cache
pub mod Reading
pub mod Api
use Prim.Native.Nat.{min}
use os_cs238p_proj.Common.{
  ℕ, zero, suc, ◌+◌, ◌-◌, ◌/◌, ◌%◌, ◌==◌, ltb, leb, Bool, true, false, if◌then◌else◌, Option, none,
  some, List, [], ◌∷◌, ◌++◌, length, take, drop, replicate, slice,
}
use os_cs238p_proj.Common.Word.{add64, sub64}
use os_cs238p_proj.Common.Outcome.{
  M, Outcome, ret, abort, out_of_fuel, pure, modify, ◌>>=◌, ◌>>◌, or_return,
}
use os_cs238p_proj.Kv.Device.{Disk, Device, Stat, device_open, device_read, device_write}

-- `struct block`
pub record Block : Type 0 where
  pub blk : ℕ
  pub buf : List ℕ

-- `struct logfs`; `cur_off` counts from the start of `cur_blk`
pub record Logfs (S : Type 0) : Type 0 where
  pub device : Device S
  pub done : Bool
  pub cur_blk : List ℕ
  pub cur_off : ℕ
  pub off : ℕ
  pub blk_sz : ℕ
  pub available : ℕ
  pub head : ℕ
  pub tail : ℕ
  pub active_blks : ℕ
  pub wcache : ℕ → Block
  pub rcache : ℕ → Block

-- A store into one of the caches
abbrev pub put : (ℕ → Block) → ℕ → Block → ℕ → Block
put cache i b x = if x == i then b else cache x

-- `memcpy` into the middle of a block
unfoldable pub overwrite : List ℕ → ℕ → List ℕ → List ℕ
overwrite xs i ys = take i xs ++ (ys ++ drop (i + length ys) xs)

-- The search of `check_in_wcache`, with `n` slots left from the `i`th on
unfoldable pub scan : (ℕ → Block) → ℕ → ℕ → ℕ → Option (List ℕ)
scan cache blk zero i = none
scan cache blk (suc n) i =
    let rest = scan cache blk n (i + 1) in if (cache i).blk == blk then some (cache i).buf else rest

module _ {S : Type 0} where
  unfoldable pub block_start : Logfs S → ℕ → ℕ
  block_start fs off = off - off % fs.blk_sz

  -- `write_to_device` under the lock, where there is a block: the copy of the block, and its slot
  unfoldable pub take_block : Logfs S → (List ℕ × ℕ) × Logfs S
  take_block fs = (
    ((fs.wcache fs.tail).buf, fs.tail),
    record fs { tail = (fs.tail + 1) % 32; active_blks = fs.active_blks - 1 },
  )

  -- `write_to_queue` under the lock, where there is space
  unfoldable pub put_block : List ℕ → ℕ → Logfs S → Logfs S
  put_block buf blk fs = record fs {
    wcache = put fs.wcache fs.head (record { blk = blk; buf = buf });
    head = (fs.head + 1) % 32;
    active_blks = fs.active_blks + 1;
  }

  unfoldable pub check_in_wcache : ℕ → Logfs S → Option (List ℕ)
  check_in_wcache blk fs = scan fs.wcache blk 32 0

  -- The block that is written to next is no longer good in the read cache.
  unfoldable pub forget_current : Logfs S → Logfs S
  forget_current fs =
      let blk = block_start fs fs.off in
      let i = blk / fs.blk_sz % 256 in
      if blk == (fs.rcache i).blk
      then record fs { rcache = put fs.rcache i (record { blk = 3; buf = (fs.rcache i).buf }) }
      else fs

  -- The first half of a round of the loop in `logfs_append`
  unfoldable pub fill_block : List ℕ → Logfs S → Logfs S
  fill_block buf fs = record fs {
    cur_blk = overwrite fs.cur_blk fs.cur_off (take fs.available buf);
    off = add64 fs.off fs.available;
    available = 0;
  }

  -- The second half
  unfoldable pub fresh_block : Logfs S → Logfs S
  fresh_block fs = record fs { cur_blk = replicate fs.blk_sz 0; available = fs.blk_sz; cur_off = 0 }

  -- The end of `logfs_append`
  unfoldable pub append_rest : List ℕ → Logfs S → Logfs S
  append_rest buf fs = if length buf == 0 then fs else record fs {
    cur_blk = overwrite fs.cur_blk fs.cur_off buf;
    off = add64 fs.off (length buf);
    cur_off = fs.cur_off + length buf;
    available = fs.available - length buf;
  }

  -- `logfs_close`, before the thread is waited for
  unfoldable pub logfs_close : Logfs S → Logfs S
  logfs_close fs = record fs { done = true }

  -- `write_to_queue` from the test of the wait on
  abbrev pub try_put : List ℕ → ℕ → M (Logfs S) (Unit {0})
  try_put buf blk fs = if leb 32 fs.active_blks then out_of_fuel else ret (tt, put_block buf blk fs)

  abbrev pub on_device : {A : Type 0} → M (Device S) A → M (Logfs S) A
  on_device m fs = elim (m fs.device) [
    | ret (a, d) ↦ ret (a, record fs { device = d })
    | abort ↦ abort
    | out_of_fuel ↦ out_of_fuel
  ]

  -- A store into the read cache
  abbrev pub keep : ℕ → ℕ → List ℕ → Logfs S → Logfs S
  keep i blk buf fs = record fs { rcache = put fs.rcache i (record { blk = blk; buf = buf }) }

  abbrev pub append_to : List ℕ → List ℕ → M (Logfs S) (Option (List ℕ))
  append_to bytes more = pure (some (bytes ++ more))

module _ {S : Type 0} (disk : Disk S) where
  -- `write_to_device` after the lock is released: the address is read from the slot only now.
  unfoldable pub write_block : List ℕ × ℕ → M (Logfs S) (Unit {0})
  write_block held fs = elim (device_write disk held.0 (fs.wcache held.1).blk fs.device) [
    | ret (true, d) ↦ ret (tt, record fs { device = d })
    | ret (false, d) ↦ abort
    | abort ↦ abort
    | out_of_fuel ↦ out_of_fuel
  ]

  -- A wait that only another thread can end is `out_of_fuel`.
  unfoldable pub write_to_device : M (Logfs S) (Unit {0})
  write_to_device fs =
      if fs.done
      then ret (tt, fs)
      else (if fs.active_blks == 0
          then out_of_fuel
          else (let taken = take_block fs in write_block taken.0 taken.1))

  -- `logfs_open`; `junk` is what `malloc` leaves in a buffer
  unfoldable pub logfs_open :
      (List ℕ → Option (ℕ × S)) → (S → Option Stat) → List ℕ → List ℕ → Outcome (Option (Logfs S))
  logfs_open open_file fstat junk path = elim (device_open disk open_file fstat path) [
    | ret (some d) ↦ ret (
        some (record {
          device = d;
          done = false;
          cur_blk = replicate d.block 0;
          cur_off = 0;
          off = 0;
          blk_sz = d.block;
          available = d.block;
          head = 0;
          tail = 0;
          active_blks = 0;
          wcache = λ i. record { blk = 3; buf = junk };
          rcache = λ i. record { blk = 3; buf = junk };
        }))
    | ret none ↦ ret none
    | abort ↦ abort
    | out_of_fuel ↦ out_of_fuel
  ]

  -- The caches and the device, in `read_mem`
  abbrev pub load_flushed : ℕ → M (Logfs S) (Option (List ℕ))
  load_flushed blk fs = elim (check_in_wcache blk fs) [
    | some buf ↦ ret (some buf, fs)
    | none ↦ on_device (device_read disk blk fs.blk_sz) fs
  ]

  -- What the other thread does until the lock is taken
  module _ (meanwhile : M (Logfs S) (Unit {0})) where
    unfoldable pub write_to_queue : List ℕ → ℕ → M (Logfs S) (Unit {0})
    write_to_queue buf blk = meanwhile >> try_put buf blk

    -- A round of the loop in `logfs_append`
    unfoldable pub append_block : List ℕ → M (Logfs S) (Unit {0})
    append_block buf = do
      modify (fill_block buf)
      λ fs. write_to_queue fs.cur_blk (block_start fs (sub64 fs.off 1)) fs
      modify fresh_block

    unfoldable pub append_loop : ℕ → List ℕ → M (Logfs S) (Unit {0})
    append_loop zero buf fs = out_of_fuel
    append_loop (suc fuel) buf fs = elim (leb fs.available (length buf)) [
      | true ↦ (append_block buf >> append_loop fuel (drop fs.available buf)) fs
      | false ↦ ret (tt, append_rest buf fs)
    ]

    -- Each round copies at least one byte.
    unfoldable pub logfs_append : List ℕ → M (Logfs S) (Unit {0})
    logfs_append buf = modify forget_current >> append_loop (suc (length buf)) buf

    -- The three places that `read_mem` takes a block from
    unfoldable pub load_block : ℕ → M (Logfs S) (Option (List ℕ))
    load_block blk fs =
        if blk == block_start fs fs.off
        then ret (some fs.cur_blk, fs)
        else (meanwhile >> load_flushed blk) fs

    -- The address is stored in the read cache before the block is read.
    unfoldable pub read_mem : ℕ → ℕ → ℕ → M (Logfs S) (Option (List ℕ))
    read_mem blk off len fs =
        let i = blk / fs.blk_sz % 256 in
        if blk == (fs.rcache i).blk
        then ret (some (slice (fs.rcache i).buf (off - blk) len), fs)
        else or_return (load_block blk)
            (λ buf. do modify (keep i blk buf); pure (some (slice buf (off - blk) len)))
            (keep i blk (fs.rcache i).buf fs)

    -- The loop of `logfs_read` and what follows it
    unfoldable pub read_loop : ℕ → ℕ → ℕ → ℕ → M (Logfs S) (Option (List ℕ))
    read_loop zero blk off left fs = out_of_fuel
    read_loop (suc fuel) blk off left fs = elim (ltb fs.blk_sz left) [
      | true ↦
          or_return (read_mem blk off fs.blk_sz)
            (λ bytes.
              or_return
                (read_loop fuel (add64 blk fs.blk_sz) (add64 off fs.blk_sz) (left - fs.blk_sz))
                (append_to bytes))
            fs
      | false ↦ if left == 0 then ret (some [], fs) else read_mem blk off left fs
    ]

    -- Each round reads at least one byte.
    unfoldable pub logfs_read : ℕ → ℕ → M (Logfs S) (Option (List ℕ))
    logfs_read off len fs =
        let blk = block_start fs off in
        let n = min len (sub64 (add64 blk fs.blk_sz) off) in
        or_return (read_mem blk off n)
          (λ bytes.
            or_return (read_loop (suc len) (add64 blk fs.blk_sz) (add64 off n) (len - n))
              (append_to bytes))
          fs
