-- ===== src/Kv/Device/Opening.antt =====
-- `device_open` and `geometry` of project-4/device.c.
use os_cs238p_proj.Common.{
  ℕ, ◌*◌, ◌/◌, ◌%◌, ◌^◌, ◌<◌, ◌==◌, ◌≡◌, ◌≢◌, refl, sym, ◌∙◌, subst, arith, inl, inr, Bool-cases,
  ==_iff, if◌then◌else◌, Option, none, some, List, length,
}
use os_cs238p_proj.Common.Outcome.{Outcome, ret}
use os_cs238p_proj.Kv.Device.{
  Disk, Device, Stat, regular, block_device, not_supported, Geometry, check_geometry, geometry,
  device_open, IsDevice,
}
use native.Mathlib.Nat.{mul-mod_left}

abbrev Fine : Geometry → Type 0
Fine g = (g.block ≢ 0) × (g.block < 2 ^ 32) × (g.size % g.block ≡ 0)

check_geometry-Fine :
    (u64 u32 : ℕ) (g : Geometry) → u32 < 2 ^ 32 → check_geometry u64 u32 ≡ some g → Fine g
unfolding check_geometry
check_geometry-Fine u64 u32 g lt h = elim (Bool-cases (u32 == 0)) [
  | inl e ↦ absurd (cc (rw (e, if◌then◌else◌) at h))
  | inr e ↦ elim (Bool-cases (u64 == 0)) [
    | inl z ↦ absurd (cc (rw (e, z, if◌then◌else◌) at h))
    | inr z ↦
        let p : record { size = u64 / u32 * u32; block = u32 } ≡ g =
          cc (rw (e, z, if◌then◌else◌) at h) in
        subst Fine p ((λ q. cc (sym e ∙ (==_iff u32 0).1 q)), lt, mul-mod_left (u64 / u32) u32)
  ]
]

geometry-Fine : (stat : Option Stat) (g : Geometry) → geometry stat ≡ some g → Fine g
unfolding geometry
geometry-Fine none g h = absurd (cc h)
geometry-Fine (some (regular size blksize)) g h =
    check_geometry-Fine size (blksize % 2 ^ 32) g (omega arith) h
geometry-Fine (some (block_device (some u64) (some u32))) g h =
    check_geometry-Fine u64 (u32 % 2 ^ 32) g (omega arith) h
geometry-Fine (some (block_device (some u64) none)) g h = absurd (cc h)
geometry-Fine (some (block_device none u32)) g h = absurd (cc h)
geometry-Fine (some not_supported) g h = absurd (cc h)

-- A device that was opened has blocks of 1 to 2 ^ 32 - 1 bytes, and its size is a number of whole
-- blocks, whatever the file or the block device says of itself.
pub device_open-IsDevice :
    {S : Type 0} (disk : Disk S) (open_file : List ℕ → Option (ℕ × S)) (fstat : S → Option Stat)
    (path : List ℕ) (d : Device S)
    → device_open disk open_file fstat path ≡ ret (some d)
    → IsDevice d
unfolding device_open
device_open-IsDevice {S} disk open_file fstat path d h = elim (Bool-cases (length path == 0)) [
  | inl e ↦ absurd (cc (rw (e, if◌then◌else◌) at h))
  | inr e ↦ opened (open_file path) (rw (e, if◌then◌else◌) at h)
]
  where
    made : S → Option Geometry → Outcome (Option (Device S))
    made s none = ret none
    made s (some g) = ret (some (record { disk = s; size = g.size; block = g.block }))

    again : Option (ℕ × S) → Outcome (Option (Device S))
    again none = ret none
    again (some (fd, s)) = if fd == 0 then ret none else made s (geometry (fstat s))

    known :
        (s : S) (x : Option Geometry)
        → geometry (fstat s) ≡ x
        → made s x ≡ ret (some d)
        → IsDevice d
    known s none e g = absurd (cc g)
    known s (some g) e q =
        let f = geometry-Fine (fstat s) g e in
        let p : record { disk = s; size = g.size; block = g.block } ≡ d = cc q in
        subst IsDevice p (record { some_block = f.0; block = f.1; whole = f.2 })

    opened : (x : Option (ℕ × S)) → again x ≡ ret (some d) → IsDevice d
    opened none g = absurd (cc g)
    opened (some (fd, s)) g = elim (Bool-cases (fd == 0)) [
      | inl z ↦ absurd (cc (rw (z, if◌then◌else◌) at g))
      | inr z ↦ known s (geometry (fstat s)) refl (rw (z, if◌then◌else◌) at g)
    ]
