-- ===== src/Index/Api.antt =====
-- `index_update` and `index_lookup` of project-4/index.c.
use os_cs238p_proj.Common.{
  ℕ, ◌≡◌, ◌≢◌, ◌==◌, refl, arith, ap, sym, ◌∙◌, false, if◌then◌else◌, inl, inr, Bool-cases, ==_iff,
  some, List, length,
}
use os_cs238p_proj.Common.Word.{add64}
use os_cs238p_proj.Common.Outcome.{Outcome, ret, abort, out_of_fuel}
use os_cs238p_proj.Index.{
  Index, found, probe_all, update, store, grow, index_update, index_lookup, key_of, hash,
  slot_found,
}
use os_cs238p_proj.Index.Update.{IsIndex, update-Updated, off_of, or_zero}
use os_cs238p_proj.Index.Grow.{grow-Grown, store-IsIndex, off_of-store_self, off_of-store_ne}

pub key_of_nonzero : (buf : List ℕ) → key_of buf ≢ 0
unfolding key_of add64
key_of_nonzero buf h = elim (Bool-cases (hash buf == 0)) [
  | inl e ↦
      let z : hash buf ≡ 0 = (==_iff (hash buf) 0).0 e in
      let g : add64 (hash buf) 1 ≡ 0 = rw (e, if◌then◌else◌) at h in
      let one : ◌≡◌ {A = ℕ} 1 0 = sym (ap (λ x. add64 x 1) z) ∙ g in omega arith
  | inr e ↦
      let g : hash buf ≡ 0 = rw (e, if◌then◌else◌) at h in cc (sym e ∙ (==_iff (hash buf) 0).1 g)
]

index_lookup-store :
    (t : Index) (buf : List ℕ) (v j : ℕ)
    → (length buf == 0) ≡ false
    → probe_all t (key_of buf) ≡ found j
    → index_lookup (store j v t) buf ≡ ret (some j)
unfolding index_lookup store
index_lookup-store t buf v j n h =
    rw (n, index_lookup, if◌then◌else◌) (ap (λ f. ret (slot_found f)) h)

-- A store of `v` through the pointer that `index_update` has returned for `buf`
pub record Stored (index : Index) (buf : List ℕ) (v j : ℕ) (t : Index) : Type 0 where
  pub valid : IsIndex (store j v t)
  pub before : t.offs j ≡ or_zero (off_of index (key_of buf))
  pub found_again : index_lookup (store j v t) buf ≡ ret (some j)
  pub stored : off_of (store j v t) (key_of buf) ≡ some v
  pub others : (k : ℕ) → k ≢ key_of buf → k ≢ 0 → off_of (store j v t) k ≡ off_of index k

-- A well-formed index: `index_update` returns a pointer to the offset of the key, 0 for a new one. What
-- is stored there, `index_lookup` finds, and no other key has changed, whether or not the table has
-- grown.
pub index_update-Stored :
    (index t : Index) (buf : List ℕ) (v j : ℕ)
    → IsIndex index
    → index_update index buf ≡ ret (j, t)
    → Stored index buf v j t
unfolding index_update
index_update-Stored index t buf v j ok h = elim (Bool-cases (length buf == 0)) [
  | inl e ↦ absurd (cc (rw (e, if◌then◌else◌) at h))
  | inr e ↦ after (grow index) refl e (rw (e, if◌then◌else◌) at h)
]
  where
    go_on : Outcome Index → Outcome (ℕ × Index)
    go_on (ret x) = update x (key_of buf)
    go_on abort = abort
    go_on out_of_fuel = out_of_fuel

    after :
        (o : Outcome Index)
        → grow index ≡ o
        → (length buf == 0) ≡ false
        → go_on o ≡ ret (j, t)
        → Stored index buf v j t
    after (ret x) e n g =
        let key = key_of buf in
        let w = grow-Grown index ok x e in
        let z = key_of_nonzero buf in
        let u = update-Updated x key w.valid z j t g in
        record {
          valid = store-IsIndex t key j v u.here u.valid;
          before = u.off ∙ ap or_zero (w.same key z);
          found_again = index_lookup-store t buf v j n u.here;
          stored = off_of-store_self t key j v u.here;
          others = λ k d nz. off_of-store_ne t key j v u.here k d ∙ u.others k d nz ∙ w.same k nz;
        }
    after abort e n g = absurd (cc g)
    after out_of_fuel e n g = absurd (cc g)
