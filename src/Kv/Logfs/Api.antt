-- ===== src/Kv/Logfs/Api.antt =====
-- project-4/logfs.c as the log that project-4/kvraw.c uses.
use os_cs238p_proj.Common.{
  ℕ, ◌+◌, ◌^◌, ◌<◌, ◌≤◌, ◌≡◌, ◌≢◌, inl, inr, refl, sym, subst, arith, false, Option, none, some,
  List, [], ◌++◌, length, length-append, length-replicate, replicate,
}
use os_cs238p_proj.Common.Outcome.{M, Outcome, ret, abort, out_of_fuel}
use os_cs238p_proj.Kv.Log.{Log, IsLog, log_max}
use os_cs238p_proj.Kv.Device.{Disk, Device, Stat, device_open}
use os_cs238p_proj.Kv.Device.Access.{IsDisk}
use os_cs238p_proj.Kv.Device.Opening.{device_open-IsDevice}
use os_cs238p_proj.Kv.Logfs.{Block, Logfs, write_to_queue, logfs_append, logfs_read, logfs_open}
use os_cs238p_proj.Kv.Logfs.Blocks.{full-Good}
use os_cs238p_proj.Kv.Logfs.State.{Cached, CachedWhole}
use os_cs238p_proj.Kv.Logfs.Rounds.{three}
use os_cs238p_proj.Kv.Logfs.Fill.{DoesRounds, IsOpen}
use os_cs238p_proj.Kv.Logfs.Append.{logfs_append-IsOpen, logfs_append-ends}
use os_cs238p_proj.Kv.Logfs.Read.{IsLogfs}
use os_cs238p_proj.Kv.Logfs.Reading.{logfs_read-Gives}

Cached-whole :
    (n : ℕ) (bytes : List ℕ) (i : ℕ) (b : Block) → CachedWhole n bytes i b → Cached n bytes i b
Cached-whole n bytes i b (inl e) = inl e
Cached-whole n bytes i b (inr (k, e, p, l, q)) = inr (k, e, p, full-Good n bytes b.buf b.blk l q)

module _ {S : Type 0} (disk : Disk S) (meanwhile : M (Logfs S) (Unit {0})) where
  -- The two operations that `kvraw.c` calls
  abbrev pub logfs_log : Log (Logfs S)
  logfs_log = record { append = logfs_append disk meanwhile; read = logfs_read disk meanwhile }

  module _ (ok : IsDisk disk) (rounds : DoesRounds disk meanwhile) where
    open-IsLogfs :
        (fs : Logfs S) (bytes : List ℕ) → IsOpen disk ok fs bytes → IsLogfs disk ok fs bytes
    open-IsLogfs fs bytes o = record {
      queue = o.queue;
      start = o.start;
      current = o.current;
      cached = λ i. Cached-whole fs.blk_sz bytes i (fs.rcache i) (o.cached i);
    }

    -- An append that returns
    pub logfs_append-IsLogfs :
        (fs fs' : Logfs S) (bytes new : List ℕ)
        → IsLogfs disk ok fs bytes
        → length (bytes ++ new) < log_max
        → logfs_append disk meanwhile new fs ≡ ret (tt, fs')
        → IsLogfs disk ok fs' (bytes ++ new)
    logfs_append-IsLogfs fs fs' bytes new v small e = open-IsLogfs fs' (bytes ++ new) (
        logfs_append-IsOpen disk ok meanwhile rounds fs fs' bytes new v.start v.queue v.current
          v.cached (omega (arith, small, length-append bytes new)) e)

    -- The call ends the process, or returns and the log stands for these bytes.
    abbrev pub AppendsTo : List ℕ → Outcome (Unit {0} × Logfs S) → Type 0
    AppendsTo bytes (ret (_, fs)) = IsLogfs disk ok fs bytes
    AppendsTo bytes abort = Unit
    AppendsTo bytes out_of_fuel = ⊥

    -- An append to a log that stands for some bytes returns, and the log stands for these with the new
    -- ones behind them, if the process does not end (a device that is full or fails). The log has not been
    -- closed, and as long as it is not, no wait for space in the queue is endless; the other thread
    -- does rounds, each of them whole, the disk keeps what is written, and there are fewer than 2 ^ 63
    -- bytes.
    pub logfs_append-AppendsTo :
        (fs : Logfs S) (bytes new : List ℕ)
        → IsLogfs disk ok fs bytes
        → length (bytes ++ new) < log_max
        → fs.done ≡ false
        → ((buf : List ℕ) (blk : ℕ) (fs1 : Logfs S)
            → fs1.done ≡ false
            → fs1.active_blks ≤ 32
            → write_to_queue disk meanwhile buf blk fs1 ≢ out_of_fuel)
        → AppendsTo (bytes ++ new) (logfs_append disk meanwhile new fs)
    logfs_append-AppendsTo fs bytes new v small going no_wait =
        let l : length bytes + length new < log_max =
          omega (arith, small, length-append bytes new) in
        split (logfs_append disk meanwhile new fs) refl (
          logfs_append-ends disk ok meanwhile rounds no_wait fs bytes new v.start v.queue v.current
            v.cached l going)
      where
        split :
            (o : Outcome (Unit {0} × Logfs S))
            → logfs_append disk meanwhile new fs ≡ o
            → o ≢ out_of_fuel
            → AppendsTo (bytes ++ new) o
        split (ret (tt, fs')) e n = logfs_append-IsLogfs fs fs' bytes new v small e
        split abort e n = tt
        split out_of_fuel e n = n refl

    -- So `logfs.c` is a log of bytes, where the other thread does not end the process.
    abbrev pub logfs_laws :
        ((fs : Logfs S) → (fs' : Logfs S) × (meanwhile fs ≡ ret (tt, fs'))) → IsLog logfs_log
    logfs_laws goes_on = record {
      Holds = IsLogfs disk ok;
      Fails = ok.Fails;
      append-Holds = logfs_append-IsLogfs;
      read-Holds = logfs_read-Gives disk ok meanwhile rounds goes_on;
    }

module _ {S : Type 0} (disk : Disk S) (ok : IsDisk disk) (open_file : List ℕ → Option (ℕ × S))
    (fstat : S → Option Stat) (junk path : List ℕ) (few : length junk < 2 ^ 32) where
  -- A log that was opened is empty. Its blocks have more than 3 bytes.
  pub logfs_open-IsLogfs :
      (fs : Logfs S)
      → logfs_open disk open_file fstat junk path ≡ ret (some fs)
      → 3 < fs.blk_sz
      → IsLogfs disk ok fs []
  unfolding logfs_open
  logfs_open-IsLogfs fs h = split (device_open disk open_file fstat path) refl h
    where
      made : Device S → Logfs S
      made d = record {
        device = d;
        done = false;
        cur_blk = replicate d.block 0;
        cur_off = 0;
        off = 0;
        blk_sz = d.block;
        available = d.block;
        head = 0;
        tail = 0;
        active_blks = 0;
        wcache = λ i. record { blk = 3; buf = junk };
        rcache = λ i. record { blk = 3; buf = junk };
      }

      again : Outcome (Option (Device S)) → Outcome (Option (Logfs S))
      again (ret (some d)) = ret (some (made d))
      again (ret none) = ret none
      again abort = abort
      again out_of_fuel = out_of_fuel

      new : (d : Device S) → d.block < 2 ^ 32 → 3 < d.block → IsLogfs disk ok (made d) []
      new d small l = record {
        queue = record {
          large = l;
          narrow = small;
          block = refl;
          head = refl;
          tail = omega arith;
          active = omega arith;
          slots = λ j lt. inl (refl, few);
          stored = λ o a h. absurd (omega (arith, h, l));
          idle = λ j lt h a. absurd (three d.block l a);
        };
        start = 0;
        current = record {
          aligned = (0, omega arith);
          off = omega arith;
          count = omega arith;
          available = omega arith;
          space = omega arith;
          whole = length-replicate d.block 0;
          filled = refl;
        };
        cached = λ i. inl refl;
      }

      split :
          (x : Outcome (Option (Device S)))
          → device_open disk open_file fstat path ≡ x
          → again x ≡ ret (some fs)
          → 3 < fs.blk_sz
          → IsLogfs disk ok fs []
      split (ret (some d)) e g l =
          let p : made d ≡ fs = cc g in
          let dev = device_open-IsDevice disk open_file fstat path d e in
          subst (λ x. IsLogfs disk ok x []) p
            (new d dev.block (subst (λ x. 3 < x.blk_sz) (sym p) l))
      split (ret none) e g l = absurd (cc g)
      split abort e g l = absurd (cc g)
      split out_of_fuel e g l = absurd (cc g)
