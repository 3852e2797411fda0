-- ===== src/Kv/Device.antt =====
-- project-4/device.c. The system calls are parameters; `malloc` is taken to succeed.
pub mod Opening
pub mod Access
use os_cs238p_proj.Common.{
  ℕ, ◌+◌, ◌*◌, ◌/◌, ◌%◌, ◌^◌, ◌<◌, ◌≤◌, ◌==◌, ◌≡◌, ◌≢◌, refl, ap, sym, ◌∙◌, arith, ltb, not, Bool,
  true, false, ◌||◌, Bool-cases, inl, inr, ==_iff, if◌then◌else◌, Option, none, some, List, length,
}
use os_cs238p_proj.Common.Word.{u64_mod, add64}
use os_cs238p_proj.Common.Outcome.{M, Outcome, ret, abort, out_of_fuel}

-- `pread` gives the bytes that it has read, `pwrite` how many it has written, none for -1.
pub record Disk (S : Type 0) : Type 0 where
  pub pread : ℕ → ℕ → M S (Option (List ℕ))
  pub pwrite : List ℕ → ℕ → M S (Option ℕ)

-- `struct device`, where `disk` is what `fd` stands for
pub record Device (S : Type 0) : Type 0 where
  pub disk : S
  pub size : ℕ
  pub block : ℕ

-- What `fstat`, and for a block device the two `ioctl` calls, give
pub data Stat : Type 0 where
  regular : ℕ → ℕ → Stat
  block_device : Option ℕ → Option ℕ → Stat
  not_supported : Stat

pub record Geometry : Type 0 where
  pub size : ℕ
  pub block : ℕ

-- The end of `geometry`
unfoldable pub check_geometry : ℕ → ℕ → Option Geometry
check_geometry u64 u32 =
    if u32 == 0 || u64 == 0 then none else some (record { size = u64 / u32 * u32; block = u32 })

unfoldable pub geometry : Option Stat → Option Geometry
geometry none = none
geometry (some (regular st_size st_blksize)) = check_geometry st_size (st_blksize % 2 ^ 32)
geometry (some (block_device (some u64) (some u32))) = check_geometry u64 (u32 % 2 ^ 32)
geometry (some (block_device (some u64) none)) = none
geometry (some (block_device none u32)) = none
geometry (some not_supported) = none

module _ {S : Type 0} (disk : Disk S) where
  -- `device_open`, where `open` gives a descriptor and `fstat` what is known of it
  unfoldable pub device_open :
      (List ℕ → Option (ℕ × S)) → (S → Option Stat) → List ℕ → Outcome (Option (Device S))
  device_open open_file fstat path = if length path == 0 then abort else elim (open_file path) [
    | none ↦ ret none
    | some (fd, s) ↦ if fd == 0 then ret none else elim (geometry (fstat s)) [
      | none ↦ ret none
      | some g ↦ ret (some (record { disk = s; size = g.size; block = g.block }))
    ]
  ]

  -- The assertions of `device_read` and of `device_write`
  abbrev pub is_outside : ℕ → ℕ → Device S → Bool
  is_outside off len d =
      not (off % d.block == 0) || not (len % d.block == 0) || ltb d.size (add64 off len)

  abbrev pub whole_read : ℕ → Option (List ℕ) → Option (List ℕ)
  whole_read len none = none
  whole_read len (some bytes) = if len == length bytes then some bytes else none

  unfoldable pub device_read : ℕ → ℕ → M (Device S) (Option (List ℕ))
  device_read off len d = if is_outside off len d then abort else elim (disk.pread off len d.disk) [
    | ret (bytes, s) ↦ ret (whole_read len bytes, record d { disk = s })
    | abort ↦ abort
    | out_of_fuel ↦ out_of_fuel
  ]

  abbrev pub whole_write : ℕ → Option ℕ → Bool
  whole_write len none = false
  whole_write len (some n) = len == n

  -- Whether it returns 0
  unfoldable pub device_write : List ℕ → ℕ → M (Device S) Bool
  device_write buf off d =
      if is_outside off (length buf) d then abort else elim (disk.pwrite buf off d.disk) [
        | ret (n, s) ↦ ret (whole_write (length buf) n, record d { disk = s })
        | abort ↦ abort
        | out_of_fuel ↦ out_of_fuel
      ]

-- What `geometry` promises of a device
pub record IsDevice {S : Type 0} (d : Device S) : Type 0 where
  pub some_block : d.block ≢ 0
  pub block : d.block < 2 ^ 32
  pub whole : d.size % d.block ≡ 0
