-- ===== src/Tests/Heaps.antt =====
-- project-3/scm.c: allocation, release, reuse and the end of the file.
use os_cs238p_proj.Common.{
  ℕ, ◌+◌, ◌-◌, ◌<◌, ◌≡◌, ◌≢◌, inl, refl, arith, true, false, [], ◌∷◌, ◌++◌, some, length,
}
use os_cs238p_proj.Common.Bytes.{CString}
use os_cs238p_proj.Common.Word.{add64, sub64}
use os_cs238p_proj.Common.Outcome.{Outcome, ret}
use os_cs238p_proj.Scm.{
  Scm, File, find, find_addr, extend, malloc_new, scm_mbase, scm_malloc, scm_strdup, scm_free,
  release, scm_allocated_addr, scm_open, scm_utilized, size_info_id, vm_start, write, mapped_bytes,
}
use os_cs238p_proj.Scm.Chain.{Blocks, first_fit, mark, starts}
use os_cs238p_proj.Scm.Malloc.{Holds, alloc}
use os_cs238p_proj.Scm.Allocation.{Allocated, malloc-Allocated}
use os_cs238p_proj.Scm.Free.{Freed, free-Freed, dispose}
use os_cs238p_proj.Scm.Reopen.{open_empty, strdup-Allocated}
use os_cs238p_proj.Scm.Overrun.{strdup_overrun, reuse_uncounted, free_twice}

abbrev blank_file : File
blank_file = record { regular = true; st_size = 256; words = λ a. 0; strings = λ a. [] }

open_empty_example :
    (s : Scm) × (scm_open (some blank_file) true false ≡ some s)
    × (s.size ≡ 256)
    × (s.user_bytes ≡ 0)
    × Holds s []
open_empty_example = open_empty blank_file false refl (inl (omega arith)) (omega arith)

-- The heap of that file.
abbrev start : Scm
start = record {
  size = 256;
  used_bytes = 0;
  user_bytes = 0;
  mem = write (write (write (λ a. 0) vm_start size_info_id) (vm_start + 8) 0) (vm_start + 16) 0;
  text = λ a. [];
}

start-Holds : Holds start []
start-Holds = record {
  chain = refl;
  id_word = refl;
  used_word = refl;
  user_word = refl;
  fits = omega arith;
  words = omega arith;
}

-- After a first allocation of 100 bytes.
first : Scm
unfolding extend add64
first = extend 100 start

malloc_run : ℕ → Scm → Outcome (ℕ × Scm)
unfolding scm_malloc malloc_new extend find scm_mbase add64
malloc_run n s = scm_malloc n s

abbrev first_p : ℕ
first_p = 0x7000_0000_0028

first_ret : scm_malloc 100 start ≡ ret (first_p, first)
unfolding malloc_run first
first_ret = refl

malloc-Allocated_example : Allocated [] 100 first_p (alloc [] 100) first
malloc-Allocated_example =
    malloc-Allocated start first [] 100 first_p start-Holds (omega arith) first_ret

abbrev hundred : Blocks
hundred = record { flag = 1; bytes = 100 } ∷ []

first-Holds : Holds first hundred
unfolding alloc first_fit
first-Holds = malloc-Allocated_example.holds

free-Freed_example : Freed hundred first_p (dispose hundred first_p) (scm_free first_p first)
free-Freed_example = free-Freed first hundred first_p first-Holds

abbrev word : CString
word = 99 ∷ 97 ∷ 116 ∷ []

strdup_run : Scm → Outcome (ℕ × Scm)
unfolding scm_strdup extend add64 mapped_bytes
strdup_run s = scm_strdup word s

-- The state and the address after the string has been copied.
second : ℕ × Scm
unfolding strdup_run first
second = elim (strdup_run first) [ ret r ↦ r | _ ↦ (0, first) ]

second_ret : scm_strdup word first ≡ ret (second.0, second.1)
unfolding strdup_run second mapped_bytes
second_ret = refl

strdup-Allocated_example :
    Allocated hundred 4 second.0 (hundred ++ record { flag = 1; bytes = 4 } ∷ []) second.1
    × (second.1.text second.0 ≡ word)
    × ((q : ℕ) → q ≢ second.0 → second.1.text q ≡ first.text q)
unfolding first
strdup-Allocated_example =
    strdup-Allocated first second.1 hundred word second.0 first-Holds (omega arith) second_ret

tiny : Scm
unfolding add64
tiny = record start { size = 8 }

tiny-Holds : Holds tiny []
unfolding tiny
tiny-Holds = record {
  chain = refl;
  id_word = refl;
  used_word = refl;
  user_word = refl;
  fits = omega arith;
  words = omega arith;
}

strdup_overrun_example :
    (p : ℕ) × (s : Scm) × (scm_strdup word tiny ≡ ret (p, s))
    × (s.size < s.used_bytes)
    × (vm_start + 8 < p + length word + 1)
unfolding tiny mapped_bytes
strdup_overrun_example = strdup_overrun tiny [] word tiny-Holds (omega arith) (omega arith)

reused : ℕ × Scm
unfolding first malloc_run scm_free release scm_allocated_addr find_addr sub64
reused = elim (malloc_run 80 (scm_free first_p first)) [ ret r ↦ r | _ ↦ (0, first) ]

reused_ret : scm_malloc 80 (scm_free first_p first) ≡ ret (reused.0, reused.1)
unfolding reused
reused_ret = refl

reuse_uncounted_example :
    (reused.0 ≡ first_p)
    × (scm_utilized reused.1 ≡ sub64 (scm_utilized first) (first.mem (first_p - 8)))
unfolding dispose first_fit mark starts
reuse_uncounted_example =
    reuse_uncounted first reused.1 hundred first_p reused.0 80 first-Holds refl refl reused_ret

free_twice_example :
    scm_utilized (scm_free first_p (scm_free first_p first))
    ≡ sub64 (sub64 (scm_utilized first) (first.mem (first_p - 8))) (first.mem (first_p - 8))
unfolding starts
free_twice_example = free_twice first hundred first_p first-Holds refl
