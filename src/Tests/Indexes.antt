-- ===== src/Tests/Indexes.antt =====
-- project-4/index.c: a table of four slots, and the hash of a short key.
use os_cs238p_proj.Common.{ℕ, ◌≡◌, refl, ap, arith, ◌∷◌, [], List}
use os_cs238p_proj.Common.Outcome.{Outcome, ret}
use os_cs238p_proj.Common.Word.{add64}
use os_cs238p_proj.Index.{
  Index, found, store, create, grow, is_loaded, move_all, index_open, index_update, update,
  insert_at, probe, slot, key_of, hash, mix_all, mix, stir, rotate, extend_sign,
}
use os_cs238p_proj.Index.Api.{Stored, index_update-Stored}
use os_cs238p_proj.Index.Grow.{Grown, grow-Grown}
use os_cs238p_proj.Index.Update.{IsIndex, Updated, update-Updated, update-ends}

abbrev empty_table : Index
empty_table = record { size = 0; capacity = 4; keys = λ j. 0; offs = λ j. 0 }

empty-IsIndex : IsIndex empty_table
empty-IsIndex = record { reachable = λ j lt nz. absurd (nz refl) }

table_run : Index → ℕ → Outcome (ℕ × Index)
unfolding update insert_at probe slot add64
table_run index key = update index key

one_key : Index
unfolding insert_at add64
one_key = insert_at 6 2 empty_table

one_key_ret : update empty_table 6 ≡ ret (2, one_key)
unfolding table_run one_key
one_key_ret = refl

update-Updated_example : Updated empty_table 6 2 one_key
update-Updated_example =
    update-Updated empty_table 6 empty-IsIndex (λ e. omega arith) 2 one_key one_key_ret

-- The key 10 belongs in the slot that 6 has taken.
update-ends_example : (j : ℕ) × (index : Index) × (update one_key 10 ≡ ret (j, index))
unfolding slot add64 one_key
update-ends_example = update-ends one_key 10 1 (omega arith) refl

abbrev cat : List ℕ
cat = 99 ∷ 97 ∷ 116 ∷ []

key_run : ℕ
unfolding key_of hash mix_all mix stir rotate extend_sign add64
key_run = key_of cat

update_run : Index → Outcome (ℕ × Index)
unfolding key_run grow is_loaded move_all create update insert_at probe slot index_update
update_run index = index_update index cat

cat_stored : ℕ × Index
unfolding update_run index_open
cat_stored = elim (update_run index_open) [ ret r ↦ r | _ ↦ (0, index_open) ]

cat_ret : index_update index_open cat ≡ ret (cat_stored.0, cat_stored.1)
unfolding cat_stored
cat_ret = refl

open-IsIndex : IsIndex index_open
unfolding index_open
open-IsIndex = record { reachable = λ j lt nz. absurd (nz refl) }

-- A table of 145 slots is made for the key.
index_update-Stored_example : Stored index_open cat 77 cat_stored.0 cat_stored.1
index_update-Stored_example =
    index_update-Stored index_open cat_stored.1 cat 77 cat_stored.0 open-IsIndex cat_ret

-- A table of one slot, which has to grow.
abbrev one_slot : Index
one_slot = record { size = 1; capacity = 1; keys = λ j. 6; offs = λ j. 77 }

one_slot-IsIndex : IsIndex one_slot
unfolding probe slot add64
one_slot-IsIndex = record { reachable = λ j lt nz. let z : 0 ≡ j = omega arith in ap found z }

grow_run : Index → Outcome Index
unfolding grow is_loaded move_all create update insert_at probe slot add64 store
grow_run index = grow index

grown : Index
unfolding grow_run
grown = elim (grow_run one_slot) [ ret t ↦ t | _ ↦ one_slot ]

grown_ret : grow one_slot ≡ ret grown
unfolding grown
grown_ret = refl

grow-Grown_example : Grown one_slot one_slot-IsIndex grown
grow-Grown_example = grow-Grown one_slot one_slot-IsIndex grown grown_ret
