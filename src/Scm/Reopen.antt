-- ===== src/Scm/Reopen.antt =====
-- `scm_open`, `scm_close` and `scm_strdup` of project-3/scm.c, and the heap as project-3/avl.c uses
-- it.
use os_cs238p_proj.Common.{
  ℕ, ◌+◌, ◌≤◌, ◌<◌, ◌≡◌, ◌≢◌, ◌⊎◌, inl, inr, refl, ◌==◌, ltb, not, ◌||◌, if◌then◌else◌, Bool,
  Bool-cases, true, some, [], ◌∷◌, ◌++◌, arith, length,
}
use os_cs238p_proj.Common.Bytes.{CString}
use os_cs238p_proj.Common.Outcome.{Outcome, ret, out_of_fuel}
use os_cs238p_proj.Avl.Heap.{Heap, IsHeap}
use os_cs238p_proj.Scm.Chain.{Block, Blocks, Chain, find-ge}
use os_cs238p_proj.Scm.Malloc.{first_block, Holds, extend-Holds}
use os_cs238p_proj.Scm.Allocation.{Live-new, Live-append, Live-le, Allocated}
use os_cs238p_proj.Scm.{
  Scm, write, vm_start, base_addr, size_info_id, scm_mbase, extend, scm_malloc, malloc_new,
  scm_strdup, scm_free, File, scm_open, write_text, loop_fuel, clip, clip_text, mapped_bytes,
}

-- A file that is opened with truncation, or that no earlier run has written, is an empty heap of the
-- file's size.
pub open_empty :
    (file : File) (truncate : Bool)
    → file.regular ≡ true
    → (file.words vm_start ≢ size_info_id) ⊎ (truncate ≡ true)
    → file.st_size < 0x1_0000_0000_0000
    → (s : Scm) × (scm_open (some file) true truncate ≡ some s)
      × (s.size ≡ file.st_size)
      × (s.user_bytes ≡ 0)
      × Holds s []
unfolding scm_open
open_empty file truncate r e b =
    let words = clip file.st_size file.words in
    let n : (not (words vm_start == size_info_id) || truncate) ≡ true = elim e [
      | inl x ↦ ground (arith, x)
      | inr x ↦ ground (arith, x)
    ] in
    (
      record {
        size = file.st_size;
        used_bytes = 0;
        user_bytes = 0;
        mem = write (write (write words vm_start size_info_id) (vm_start + 8) 0) (vm_start + 16) 0;
        text = clip_text file.st_size file.strings;
      },
      rw (r, n, if◌then◌else◌) refl,
      refl,
      refl,
      record {
        chain = refl;
        id_word = ground arith;
        used_word = ground arith;
        user_word = ground arith;
        fits = omega arith;
        words = b;
      },
    )

-- Where the string fits in the file and `scm_strdup` returns, a block of its length and one byte
-- stands at the end of the list and holds the string; all blocks in use still are, none overlaps it,
-- and no other string has changed.
pub strdup-Allocated :
    (s s' : Scm) (bs : Blocks) (t : CString) (p : ℕ)
    → Holds s bs
    → s.used_bytes + (length t + 1) + 16 ≤ s.size
    → scm_strdup t s ≡ ret (p, s')
    → Allocated bs (length t + 1) p (bs ++ record { flag = 1; bytes = length t + 1 } ∷ []) s'
      × (s'.text p ≡ t)
      × ((q : ℕ) → q ≢ p → s'.text q ≡ s.text q)
unfolding scm_strdup extend
strdup-Allocated s s' bs t p h room e =
    elim (Bool-cases
      (ltb (vm_start + mapped_bytes s) (base_addr + s.used_bytes + 16 + length t + 1))) [
        | inl j ↦ absurd (cc (rw (j, if◌then◌else◌) at e))
        | inr j ↦ returned (rw (j, if◌then◌else◌) at e)
      ]
  where
    n : ℕ
    n = length t + 1

    temp : ℕ
    temp = base_addr + s.used_bytes + 16

    new : Block
    new = record { flag = 1; bytes = n }

    written : Scm
    written = record (extend n s) { text = write_text s.text temp t }

    answer : Outcome (ℕ × Scm)
    answer = ret (temp, written)

    returned :
        answer ≡ ret (p, s')
        → Allocated bs n p (bs ++ new ∷ []) s'
          × (s'.text p ≡ t)
          × ((q : ℕ) → q ≢ p → s'.text q ≡ s.text q)
    returned e =
        let at : p ≡ first_block + s.used_bytes = ground (arith, e) in
        let same : s' ≡ written = cc e in
        let done = extend-Holds s bs n h room in
        rw (at, same)
          (
            record {
              holds = record {
                chain = done.chain;
                id_word = done.id_word;
                used_word = done.used_word;
                user_word = done.user_word;
                fits = done.fits;
                words = done.words;
              };
              own = (
                n,
                omega arith,
                Live-new s.mem first_block bs (first_block + s.used_bytes) n h.chain,
              );
              kept = λ q m l. Live-append first_block bs (new ∷ []) q m l;
              apart = λ q m l.
                  let (x, y) =
                    Live-le s.mem first_block bs (first_block + s.used_bytes) q m h.chain l in
                  inl (omega arith);
            },
            ground arith,
            λ q k. ground (arith, k),
          )

-- The heap as project-3/avl.c calls it.
abbrev pub scm_heap : Heap Scm
scm_heap = record { malloc = scm_malloc; strdup = scm_strdup; free = scm_free }

malloc_nonnull : (n : ℕ) (s s' : Scm) (p : ℕ) → scm_malloc n s ≡ ret (p, s') → p ≢ 0
unfolding scm_malloc malloc_new scm_mbase
malloc_nonnull n s s' p e z =
    ground (arith, find-ge (loop_fuel s) s.mem (scm_mbase s) (scm_mbase s + s.used_bytes) n p)

strdup_nonnull : (t : CString) (s s' : Scm) (p : ℕ) → scm_strdup t s ≡ ret (p, s') → p ≢ 0
unfolding scm_strdup
strdup_nonnull t s s' p e z = ground arith

strdup-ends : (t : CString) (s : Scm) → scm_strdup t s ≢ out_of_fuel
unfolding scm_strdup
strdup-ends t s e = ground arith

-- The persistent heap is what the tree needs: they never return NULL, and `scm_strdup` ends.
pub scm_heap-IsHeap : IsHeap scm_heap
scm_heap-IsHeap = record {
  malloc_nonnull = malloc_nonnull;
  strdup_nonnull = strdup_nonnull;
  strdup_ends = strdup-ends;
}
