-- ===== src/Tests/Logs.antt =====
-- project-4/device.c and the queue of project-4/logfs.c, on a device that takes every write.
use os_cs238p_proj.Common.{
  ℕ, ◌+◌, ◌*◌, ◌≡◌, refl, arith, inl, false, Option, some, none, List, [], ◌∷◌, ◌++◌, length,
}
use os_cs238p_proj.Common.Outcome.{ret}
use os_cs238p_proj.Common.Word.{add64}
use os_cs238p_proj.Kv.Device.{
  Disk, Device, Stat, regular, check_geometry, geometry, device_open, device_write, IsDevice,
}
use os_cs238p_proj.Kv.Device.Opening.{device_open-IsDevice}
use os_cs238p_proj.Kv.Logfs.{Block, Logfs, put, put_block, take_block, write_block}
use os_cs238p_proj.Kv.Logfs.Queue.{
  System, Step, enqueue, dequeue, write, Reach, start, later, window, IsFifo,
}
use os_cs238p_proj.Kv.Logfs.Fifo.{Reach-IsFifo}

-- The state of the disk counts the writes.
abbrev counting : Disk ℕ
counting = record {
  pread = λ off len n. ret (none, n);
  pwrite = λ buf off n. ret (some (length buf), n + 1);
}

abbrev open_any : List ℕ → Option (ℕ × ℕ)
open_any path = some (3, 0)

abbrev stat_any : ℕ → Option Stat
stat_any n = some (regular 1000 4)

abbrev dev : Device ℕ
dev = record { disk = 0; size = 1000; block = 4 }

open_ret : device_open counting open_any stat_any (47 ∷ []) ≡ ret (some dev)
unfolding device_open geometry check_geometry
open_ret = refl

device_open-IsDevice_example : IsDevice dev
device_open-IsDevice_example =
    device_open-IsDevice counting open_any stat_any (47 ∷ []) dev open_ret

abbrev four : ℕ → List ℕ
four x = x ∷ x ∷ x ∷ x ∷ []

abbrev empty_fs : Logfs ℕ
empty_fs = record {
  device = dev;
  done = false;
  cur_blk = four 0;
  cur_off = 0;
  off = 0;
  blk_sz = 4;
  available = 4;
  head = 0;
  tail = 0;
  active_blks = 0;
  wcache = λ i. record { blk = 3; buf = [] };
  rcache = λ i. record { blk = 3; buf = [] };
}

abbrev at_start : System ℕ
at_start = record { fs = empty_fs; held = none; asked = []; wrote = [] }

start-IsFifo : IsFifo at_start
unfolding window
start-IsFifo = record {
  head = refl;
  tail = omega arith;
  active = omega arith;
  slot = tt;
  blocks = refl;
}

-- A block is put into the queue, taken and written.
after_put : System ℕ
unfolding put_block
after_put = record at_start {
  fs = put_block (four 7) 0 empty_fs;
  asked = record { blk = 0; buf = four 7 } ∷ [];
}

after_take : System ℕ
unfolding after_put take_block put_block
after_take = record after_put {
  fs = (take_block after_put.fs).1;
  held = some (take_block after_put.fs).0;
}

after_write : System ℕ
unfolding after_take after_put take_block put_block
after_write = record after_take {
  fs = record after_take.fs { device = record dev { disk = 1 } };
  held = none;
  wrote = record { blk = 0; buf = four 7 } ∷ [];
}

one_block : Reach counting at_start after_write
unfolding after_write after_take after_put take_block put_block write_block device_write add64
one_block =
    later
      (later (later start (enqueue (four 7) 0 (omega arith)) (inl refl))
        (dequeue refl (λ e. omega arith) refl) tt)
      (write (four 7, 0) (record after_take.fs { device = record dev { disk = 1 } }) refl refl) tt

Reach-IsFifo_example : IsFifo after_write
Reach-IsFifo_example = Reach-IsFifo counting start-IsFifo one_block

-- The queue is full when block 0 is taken: the block at 128 goes into its slot before it is written, and
-- its bytes are written at 128.
abbrev full_cache : ℕ → Block
full_cache i = record { blk = 4 * i; buf = four i }

abbrev full_fs : Logfs ℕ
full_fs = record empty_fs { active_blks = 32; wcache = full_cache }

abbrev full : System ℕ
full = record { fs = full_fs; held = none; asked = window full_cache 0 32; wrote = [] }

abbrev overtaken_fs : Logfs ℕ
overtaken_fs = record full_fs {
  tail = 1;
  head = 1;
  wcache = put full_cache 0 (record { blk = 128; buf = four 99 });
}

taken :
    Step counting full
      (record full { fs = record full_fs { tail = 1; active_blks = 31 }; held = some (four 0, 0) })
unfolding take_block
taken = dequeue refl (λ e. omega arith) refl

overtaken :
    Step counting
      (record full { fs = record full_fs { tail = 1; active_blks = 31 }; held = some (four 0, 0) })
      (record full {
        fs = overtaken_fs;
        held = some (four 0, 0);
        asked = full.asked ++ record { blk = 128; buf = four 99 } ∷ [];
      })
unfolding put_block
overtaken = enqueue (four 99) 128 (omega arith)

written_over :
    Step counting
      (record full {
        fs = overtaken_fs;
        held = some (four 0, 0);
        asked = full.asked ++ record { blk = 128; buf = four 99 } ∷ [];
      })
      (record full {
        fs = record overtaken_fs { device = record dev { disk = 1 } };
        asked = full.asked ++ record { blk = 128; buf = four 99 } ∷ [];
        wrote = record { blk = 128; buf = four 0 } ∷ [];
      })
unfolding write_block device_write add64
written_over =
    write (four 0, 0) (record overtaken_fs { device = record dev { disk = 1 } }) refl refl
