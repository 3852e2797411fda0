-- ===== src/Tests/Trees.antt =====
-- project-3/avl.c on the heap of project-3/scm.c: a few insertions and deletions.
use os_cs238p_proj.Common.{ℕ, ◌+◌, ◌≤◌, ◌^◌, ◌≡◌, ◌≢◌, refl, arith, [], ◌∷◌, length}
use os_cs238p_proj.Common.Int.{ℤ, pos, ◌+ℤ◌, ◌-ℤ◌}
use os_cs238p_proj.Common.Bytes.{CString, strcmp}
use os_cs238p_proj.Common.Word.{add64, sub64}
use os_cs238p_proj.Common.Outcome.{Outcome, ret, abort, out_of_fuel}
use os_cs238p_proj.Avl.{
  null, delta, balance, depth, set_depth, rotate_right, rotate_left, rotate_left_right,
  rotate_right_left, exists, traverse,
}
use os_cs238p_proj.Avl.Insert.{fix_left, fix_right, refresh, create, update}
use os_cs238p_proj.Avl.Delete.{find_min, set_min_count, rebalance, remove_last, delete}
use os_cs238p_proj.Avl.Api.{Avl, avl_insert, avl_unique, avl_delete, avl_exists}
use os_cs238p_proj.Avl.Balance.{height}
use os_cs238p_proj.Avl.Totals.{size}
use os_cs238p_proj.Avl.Insertion.{IsValid, Inserted, avl_insert-Inserted}
use os_cs238p_proj.Avl.Deletion.{Deleted, avl_delete-Deleted, avl_delete-ends}
use os_cs238p_proj.Avl.Traversal.{Calls, replay, Ascends, count_in, traverse-Ascends}
use os_cs238p_proj.Avl.Depth.{avl_insert-shallow}
use os_cs238p_proj.Scm.{
  Scm, find, find_addr, extend, malloc_new, scm_mbase, scm_malloc, scm_strdup, mapped_bytes,
  scm_free, release, scm_allocated_addr,
}
use os_cs238p_proj.Scm.Reopen.{scm_heap, scm_heap-IsHeap}

-- What a call returned, or `d` where it did not.
abbrev returned : Outcome (ℤ × Avl Scm) → ℤ × Avl Scm → ℤ × Avl Scm
returned (ret r) d = r
returned abort d = d
returned out_of_fuel d = d

insert_run : CString → Avl Scm → Outcome (ℤ × Avl Scm)
unfolding avl_insert update create fix_left fix_right refresh set_depth delta balance depth
    rotate_right rotate_left rotate_left_right rotate_right_left ◌+ℤ◌ ◌-ℤ◌ strcmp add64 scm_malloc
    scm_strdup mapped_bytes malloc_new extend find scm_mbase
insert_run item avl = avl_insert scm_heap item avl

delete_run : CString → Avl Scm → Outcome (ℤ × Avl Scm)
unfolding avl_delete avl_exists exists delete remove_last find_min set_min_count rebalance set_depth
    delta balance depth rotate_right rotate_left rotate_left_right rotate_right_left ◌+ℤ◌ ◌-ℤ◌
    strcmp add64 sub64 scm_strdup mapped_bytes extend scm_free release scm_allocated_addr find_addr
    scm_mbase
delete_run item avl = avl_delete scm_heap item avl

abbrev ant : CString
ant = 97 ∷ 110 ∷ 116 ∷ []

abbrev bee : CString
bee = 98 ∷ 101 ∷ 101 ∷ []

abbrev cat : CString
cat = 99 ∷ 97 ∷ 116 ∷ []

-- A file of 4096 zero bytes.
abbrev blank : Scm
blank = record { size = 4096; used_bytes = 0; user_bytes = 0; mem = λ a. 0; text = λ a. [] }

abbrev empty : Avl Scm
empty = record { store = record { scm = blank; items = 0; unique = 0 }; root = null }

empty-IsValid : IsValid empty
empty-IsValid = record { ordered = tt; balanced = tt; positive = tt; items = refl; unique = refl }

one : ℤ × Avl Scm
unfolding insert_run
one = returned (insert_run ant empty) (pos 0, empty)

two : ℤ × Avl Scm
unfolding insert_run one
two = returned (insert_run bee one.1) (pos 0, empty)

three : ℤ × Avl Scm
unfolding insert_run two
three = returned (insert_run cat two.1) (pos 0, empty)

-- The third item in order makes the tree rotate.
three_height : (height three.1.root ≡ 2) × (size three.1.root ≡ 3) × (three.1.store.items ≡ 3)
unfolding three
three_height = (refl, refl, refl)

one_ret : avl_insert scm_heap ant empty ≡ ret (one.0, one.1)
unfolding insert_run one
one_ret = refl

two_ret : avl_insert scm_heap bee one.1 ≡ ret (two.0, two.1)
unfolding insert_run two
two_ret = refl

three_ret : avl_insert scm_heap cat two.1 ≡ ret (three.0, three.1)
unfolding insert_run three
three_ret = refl

one-IsValid : IsValid one.1
one-IsValid =
    (avl_insert-Inserted scm_heap scm_heap-IsHeap empty one.1 ant one.0 empty-IsValid (omega arith)
      one_ret).valid

two-IsValid : IsValid two.1
unfolding two
two-IsValid =
    (avl_insert-Inserted scm_heap scm_heap-IsHeap one.1 two.1 bee two.0 one-IsValid (omega arith)
      two_ret).valid

-- The theorem on `avl_insert` where the insertion rotates.
avl_insert-Inserted_example : Inserted scm_heap scm_heap-IsHeap two.1 cat three.0 three.1
unfolding three
avl_insert-Inserted_example =
    avl_insert-Inserted scm_heap scm_heap-IsHeap two.1 three.1 cat three.0 two-IsValid (omega arith)
      three_ret

three-IsValid : IsValid three.1
unfolding three
three-IsValid = avl_insert-Inserted_example.valid

fewer : ℤ × Avl Scm
unfolding delete_run three
fewer = returned (delete_run bee three.1) (pos 0, empty)

fewer_ret : avl_delete scm_heap bee three.1 ≡ ret (fewer.0, fewer.1)
unfolding delete_run fewer
fewer_ret = refl

-- The theorem on `avl_delete` where the deleted node has two children.
avl_delete-Deleted_example : Deleted scm_heap scm_heap-IsHeap three.1 bee fewer.0 fewer.1
unfolding three delete_run
avl_delete-Deleted_example =
    avl_delete-Deleted scm_heap scm_heap-IsHeap three.1 fewer.1 bee fewer.0 three-IsValid
      (omega arith) (omega arith) fewer_ret

avl_delete-ends_example : avl_delete scm_heap bee three.1 ≢ out_of_fuel
unfolding three delete_run
avl_delete-ends_example =
    avl_delete-ends scm_heap scm_heap-IsHeap three.1 bee three-IsValid.ordered (omega arith)

traverse-Ascends_example :
    (calls : Calls) × Ascends calls
    × (length calls ≡ size three.1.root)
    × ((q : CString) → count_in q calls ≡ exists three.1.root q)
    × ((fnc : ℕ → CString → ℕ → ℕ) (arg : ℕ) → traverse three.1.root fnc arg ≡ replay calls fnc arg)
traverse-Ascends_example = traverse-Ascends three.1.root three-IsValid.ordered

avl_insert-shallow_example : 2 ^ 1 ≤ avl_unique three.1 + 1
unfolding three
avl_insert-shallow_example =
    avl_insert-shallow scm_heap scm_heap-IsHeap two.1 three.1 cat three.0 1 two-IsValid
      (omega arith) three_ret (omega arith)
