-- ===== src/Kv/Log.antt =====
-- What project-4/kvraw.c uses of project-4/logfs.c: an append-only log of bytes. `logfs_append` always
-- returns 0; a read gives the bytes, or none for its return of -1, and can change the caches.
use os_cs238p_proj.Common.{ℕ, ◌+◌, ◌≤◌, ◌<◌, ◌≡◌, Option, List, ◌++◌, length, slice}
use os_cs238p_proj.Common.Outcome.{M, ret, Gives}

-- The offsets of a device are below 2 ^ 63 (`off_t`).
abbrev pub log_max : ℕ
log_max = 0x8000_0000_0000_0000

pub record Log (S : Type 0) : Type 0 where
  pub append : List ℕ → M S (Unit {0})
  pub read : ℕ → ℕ → M S (Option (List ℕ))

-- `Holds s bytes`: the state `s` stands for a log of these bytes. A read of bytes that the log
-- has fails only where `Fails` holds, and then nothing is promised of what follows.
pub record IsLog {S : Type 0} (log : Log S) : Type 1 where
  pub Holds : S → List ℕ → Type 0
  pub Fails : Type 0
  pub append-Holds :
      (s t : S) (bytes new : List ℕ)
      → Holds s bytes
      → length (bytes ++ new) < log_max
      → log.append new s ≡ ret (tt, t)
      → Holds t (bytes ++ new)
  pub read-Holds :
      (s : S) (bytes : List ℕ) (off len : ℕ)
      → Holds s bytes
      → length bytes < log_max
      → off + len ≤ length bytes
      → Gives Fails (log.read off len) s (λ got t. (got ≡ slice bytes off len) × Holds t bytes)
