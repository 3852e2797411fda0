-- ===== src/Scm.antt =====
-- The persistent heap of project-3/scm.c. The mapped file is a memory of words, of which the model
-- keeps those that the heap itself reads and writes: the three words of size information at the
-- start of the mapping and the two words in front of each block. `text` holds the strings that
-- `scm_strdup` has copied.
pub mod Chain
pub mod Malloc
pub mod Allocation
pub mod Free
pub mod Reopen
pub mod Overrun
use os_cs238p_proj.Common.{
  ℕ, zero, suc, ◌+◌, ◌-◌, ◌*◌, ◌/◌, ◌==◌, ltb, leb, Bool, true, false, not, ◌&&◌, ◌||◌,
  if◌then◌else◌, Option, none, some, length, take,
}
use os_cs238p_proj.Common.Bytes.{CString}
use os_cs238p_proj.Common.Word.{add64, sub64}
use os_cs238p_proj.Common.Outcome.{M, Outcome, ret, abort, out_of_fuel}

-- `VM_START_ADDR`, and the address behind the size information
abbrev pub vm_start : ℕ
vm_start = 0x7000_0000_0000

abbrev pub base_addr : ℕ
base_addr = 0x7000_0000_0018

-- `SIZE_INFO_ID`
abbrev pub size_info_id : ℕ
size_info_id = 0xffff_ffff_ffff_fffe

-- The mapping starts at `vm_start`: no header of a block below this address can be read.
abbrev pub lowest : ℕ
lowest = 0x7000_0000_0010

-- The address behind a block, modulo 2 ^ 64
abbrev pub next_header : (ℕ → ℕ) → ℕ → ℕ
next_header mem addr = add64 (add64 addr (mem (addr - 8))) 16

-- A store into memory.
abbrev pub write : (ℕ → ℕ) → ℕ → ℕ → ℕ → ℕ
write mem a v x = if x == a then v else mem x

abbrev pub write_text : (ℕ → CString) → ℕ → CString → ℕ → CString
write_text text a v x = if x == a then v else text x

-- `struct scm`, with the memory that it maps
pub record Scm : Type 0 where
  pub size : ℕ
  pub used_bytes : ℕ
  pub user_bytes : ℕ
  pub mem : ℕ → ℕ
  pub text : ℕ → CString

unfoldable pub scm_mbase : Scm → ℕ
scm_mbase s = if s.used_bytes == 0 then base_addr else base_addr + 16

-- The `while` loop of `scm_malloc`: the first free block of `n` bytes or more. An address that has
-- wrapped around to one below the mapping is a fault.
unfoldable pub find : ℕ → (ℕ → ℕ) → ℕ → ℕ → ℕ → Outcome (Option ℕ)
find zero mem addr end n = out_of_fuel
find (suc fuel) mem addr end n = elim (ltb addr end) [
  | false ↦ ret none
  | true ↦ elim (ltb addr lowest) [
    | true ↦ abort
    | false ↦ elim (mem (addr - 16) == 0 && leb n (mem (addr - 8))) [
      | true ↦ ret (some addr)
      | false ↦ find fuel mem (next_header mem addr) end n
    ]
  ]
]

-- The loop of `scm_allocated_addr`: whether a block starts at `p`.
unfoldable pub find_addr : ℕ → (ℕ → ℕ) → ℕ → ℕ → ℕ → Outcome Bool
find_addr zero mem addr end p = out_of_fuel
find_addr (suc fuel) mem addr end p = elim (ltb addr end) [
  | false ↦ ret false
  | true ↦ elim (addr == p) [
    | true ↦ ret true
    | false ↦ elim (ltb addr lowest) [
      | true ↦ abort
      | false ↦ find_addr fuel mem (next_header mem addr) end p
    ]
  ]
]

-- On headers that lead from one to the next below 2 ^ 64, both loops move on by 16 bytes or more in each
-- round, and this many rounds are enough. Headers that are damaged can lead back, and then the C code
-- need not end.
abbrev pub loop_fuel : Scm → ℕ
loop_fuel s = suc s.used_bytes

-- A new block of `n` bytes behind the others: its two words, and the size information.
unfoldable pub extend : ℕ → Scm → Scm
extend n s =
    let addr_info = base_addr + s.used_bytes in
    let user = add64 s.user_bytes n in
    let used = add64 s.used_bytes (n + 16) in
    record s {
      used_bytes = used;
      user_bytes = user;
      mem =
          write (write (write (write s.mem addr_info 1) (addr_info + 8) n) (vm_start + 8) used)
            (vm_start + 16) user;
    }

-- The end of `scm_malloc`, where no block can be used again.
unfoldable pub malloc_new : ℕ → M Scm ℕ
malloc_new n s =
    if ltb s.size (add64 (add64 s.used_bytes n) 16)
    then abort
    else ret (base_addr + s.used_bytes + 16, extend n s)

unfoldable pub scm_malloc : ℕ → M Scm ℕ
scm_malloc n s = elim (find (loop_fuel s) s.mem (scm_mbase s) (scm_mbase s + s.used_bytes) n) [
  | ret (some addr) ↦ ret (addr, record s { mem = write s.mem (addr - 16) 1 })
  | ret none ↦ malloc_new n s
  | abort ↦ abort
  | out_of_fuel ↦ out_of_fuel
]

-- The bytes that `mmap` maps: whole pages of 4096
unfoldable pub mapped_bytes : Scm → ℕ
mapped_bytes s = (s.size + 4095) / 4096 * 4096

-- `strlen(s) + 1` bytes; neither the free blocks nor the size of the file are looked at. A store behind
-- the pages that are mapped is a fault.
unfoldable pub scm_strdup : CString → M Scm ℕ
scm_strdup t s =
    let temp = base_addr + s.used_bytes + 16 in
    let s' = extend (length t + 1) s in
    if ltb (vm_start + mapped_bytes s) (temp + length t + 1)
    then abort
    else ret (temp, record s' { text = write_text s.text temp t })

unfoldable pub scm_allocated_addr : Scm → ℕ → Outcome Bool
scm_allocated_addr s p = find_addr (loop_fuel s) s.mem (scm_mbase s) (scm_mbase s + s.used_bytes) p

-- `scm_free` of an address at which a block starts
unfoldable pub release : ℕ → Scm → Scm
release p s =
    let user = sub64 s.user_bytes (s.mem (p - 8)) in
    record s { user_bytes = user; mem = write (write s.mem (p - 16) 0) (vm_start + 16) user }

-- Where the headers are damaged, so that the walk faults or does not end, the state is left.
unfoldable pub scm_free : ℕ → Scm → Scm
scm_free p s = elim (scm_allocated_addr s p) [ ret true ↦ release p s | _ ↦ s ]

unfoldable pub scm_utilized : Scm → ℕ
scm_utilized s = s.user_bytes

unfoldable pub scm_capacity : Scm → ℕ
scm_capacity s = s.size

-- The words and the strings that lie within a file of this size; behind its end there are zeros.
abbrev pub clip : ℕ → (ℕ → ℕ) → ℕ → ℕ
clip size mem a = if leb (a + 8) (vm_start + size) then mem a else 0

abbrev pub clip_text : ℕ → (ℕ → CString) → ℕ → CString
clip_text size text a = take (vm_start + size - a) (text a)

-- What `open`, `fstat` and `mmap` find behind a path. Only what lies within `st_size` bytes counts.
pub record File : Type 0 where
  pub regular : Bool
  pub st_size : ℕ
  pub words : ℕ → ℕ
  pub strings : ℕ → CString

-- `scm_open`: `file` is `none` where `open` fails; `mapped` is false where `mmap` fails.
unfoldable pub scm_open : Option File → Bool → Bool → Option Scm
scm_open none mapped truncate = none
scm_open (some file) mapped truncate =
    if not file.regular
    then none
    else (if not mapped
        then none
        else (let words = clip file.st_size file.words in
            let strings = clip_text file.st_size file.strings in
            if not (words vm_start == size_info_id) || truncate
            then some (record {
              size = file.st_size;
              used_bytes = 0;
              user_bytes = 0;
              mem =
                  write (write (write words vm_start size_info_id) (vm_start + 8) 0) (vm_start + 16)
                    0;
              text = strings;
            })
            else some (record {
              size = file.st_size;
              used_bytes = words (vm_start + 8);
              user_bytes = words (vm_start + 16);
              mem = words;
              text = strings;
            })))

-- `scm_close`: the file as `msync`, which writes `size` bytes, and `munmap` leave it
unfoldable pub scm_close : Scm → File
scm_close s = record {
  regular = true;
  st_size = s.size;
  words = clip s.size (
      write (write (write s.mem vm_start size_info_id) (vm_start + 8) s.used_bytes) (vm_start + 16)
        s.user_bytes);
  strings = clip_text s.size s.text;
}
