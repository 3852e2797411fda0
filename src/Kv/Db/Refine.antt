-- ===== src/Kv/Db/Refine.antt =====
-- Runs of the operations of project-4/kvdb.c on a new database.
use os_cs238p_proj.Common.{
  ℕ, ◌+◌, ◌<◌, ◌==◌, ◌≡◌, ◌≢◌, inl, inr, refl, ap, sym, ◌∙◌, subst, arith, Bool, true, false, ◌&&◌,
  ◌||◌, Bool-cases, if◌then◌else◌, none, some, List, [], ◌∷◌, length, map,
}
use os_cs238p_proj.Common.Int.{ℤ, pos, negsuc}
use os_cs238p_proj.Common.Outcome.{M, ret, stop, pure, ◌>>=◌, >>=-eq-ret}
use os_cs238p_proj.Kv.Log.{Log, IsLog, log_max}
use os_cs238p_proj.Kv.Raw.Records.{encode_all}
use os_cs238p_proj.Kv.Raw.Records.{Rec}
use os_cs238p_proj.Kv.Db.{
  Kvdb, Reply, mutate_remove, mutate_insert, mutate_update, mutate_replace, bad_key, bad_val,
  mutate, bad_buffer, no_buffer, has_offset, ref_of, val_capacity, kvdb_remove, kvdb_insert,
  kvdb_update, kvdb_replace,
}
use os_cs238p_proj.Kv.Db.History.{written}
use os_cs238p_proj.Kv.Db.Contract.{new_val}
use os_cs238p_proj.Kv.Db.Mutate.{mutate-Mutated}
use os_cs238p_proj.Kv.Db.Api.{
  Op, op_remove, op_insert, op_update, op_replace, op_size, KeyMap, spec_call, view, call, IsDb,
  Refines, mutate-Refines,
}

module _ {S : Type 0} (log : Log S) where
  -- Calls, one after the other
  unfoldable pub calls : List Op → M (Kvdb S) (List Reply)
  calls [] = pure []
  calls (op ∷ ops) = do reply ← call log op; replies ← calls ops; pure (reply ∷ replies)

-- The return values that the map asks for, and the map in the end
unfoldable pub spec_calls : List Op → KeyMap → List ℤ × KeyMap
spec_calls [] m = ([], m)
spec_calls (op ∷ ops) m =
    let kept = spec_calls ops m in
    elim (spec_call op m) [
      | none ↦ (pos 1 ∷ kept.0, kept.1)
      | some m' ↦ let after = spec_calls ops m' in (pos 0 ∷ after.0, after.1)
    ]

abbrev pub NoFailure : List Reply → Type 0
NoFailure [] = Unit
NoFailure (reply ∷ replies) = (reply.code ≢ negsuc 0) × NoFailure replies

abbrev pub ops_size : List Op → ℕ
ops_size [] = 0
ops_size (op ∷ ops) = op_size op + ops_size ops

module _ {S : Type 0} (log : Log S) (ok : IsLog log) where
  checked :
      (bad : Bool) (m : M (Kvdb S) Reply) (db db' : Kvdb S) (reply : Reply)
      → (if bad then stop else m) db ≡ ret (reply, db')
      → (bad ≡ false) × (m db ≡ ret (reply, db'))
  checked true m db db' reply h = absurd (cc h)
  checked false m db db' reply h = (refl, h)

  nonempty_val :
      (key val : List ℕ) → (bad_key key || bad_val val) ≡ false → (length val == 0) ≡ false
  nonempty_val key val h = elim (Bool-cases (bad_key key)) [
    | inl e ↦ absurd (cc (rw e at h))
    | inr e ↦ elim (Bool-cases (length val == 0)) [
      | inl g ↦ absurd (cc (rw (e, g) at h))
      | inr g ↦ g
    ]
  ]

  -- A call that returns gives -1, or what the map asks for: 1 where it refuses the operation, and the
  -- database still stands for the map, or 0, and the database stands for the new map. `size` is the number
  -- of keys in the map, `size + waste` the number of values written. The new log has fewer than 2 ^ 63 bytes.
  pub call-Refines :
      (op : Op) (db db' : Kvdb S) (hist : List Rec) (reply : Reply)
      → IsDb log ok db hist
      → length (encode_all (written hist)) + op_size op < log_max
      → call log op db ≡ ret (reply, db')
      → Refines log ok op hist reply db'
  unfolding call kvdb_remove kvdb_insert kvdb_update kvdb_replace new_val
  call-Refines (op_remove key val_len val) db db' hist reply d room h =
      let (b, g) =
        checked
          (bad_key key
            || bad_buffer val_len val
            || (no_buffer val_len val && has_offset log (ref_of log key db)))
          (mutate log mutate_remove key [] (val_capacity val_len)) db db' reply h in
      mutate-Refines log ok (op_remove key val_len val) db db' hist (0 ∷ []) reply d room refl refl
        (omega arith)
        (mutate-Mutated log ok db db' hist key [] mutate_remove (val_capacity val_len) reply d.valid
          (omega arith) g)
  call-Refines (op_insert key val) db db' hist reply d room h =
      let (b, g) =
        checked (bad_key key || bad_val val) (mutate log mutate_insert key val 0) db db' reply h in
      mutate-Refines log ok (op_insert key val) db db' hist val reply d room
        (nonempty_val key val b) refl (omega arith)
        (mutate-Mutated log ok db db' hist key val mutate_insert 0 reply d.valid (omega arith) g)
  call-Refines (op_update key val) db db' hist reply d room h =
      let (b, g) =
        checked (bad_key key || bad_val val) (mutate log mutate_update key val 0) db db' reply h in
      mutate-Refines log ok (op_update key val) db db' hist val reply d room
        (nonempty_val key val b) refl (omega arith)
        (mutate-Mutated log ok db db' hist key val mutate_update 0 reply d.valid (omega arith) g)
  call-Refines (op_replace key val) db db' hist reply d room h =
      let (b, g) =
        checked (bad_key key || bad_val val) (mutate log mutate_replace key val 0) db db' reply h in
      mutate-Refines log ok (op_replace key val) db db' hist val reply d room
        (nonempty_val key val b) refl (omega arith)
        (mutate-Mutated log ok db db' hist key val mutate_replace 0 reply d.valid (omega arith) g)

  -- Calls in any order that do not fail (-1) return what the map asks for, one after the other, and the
  -- database stands for the map that they lead to. All of them together leave the log below 2 ^ 63 bytes.
  pub calls-Refines :
      (ops : List Op) (db db' : Kvdb S) (hist : List Rec) (replies : List Reply)
      → IsDb log ok db hist
      → length (encode_all (written hist)) + ops_size ops < log_max
      → NoFailure replies
      → calls log ops db ≡ ret (replies, db')
      → (map (λ reply. reply.code) replies ≡ (spec_calls ops (view hist)).0)
        × (hist' : List Rec) × (view hist' ≡ (spec_calls ops (view hist)).1)
        × IsDb log ok db' hist'
  unfolding calls spec_calls
  calls-Refines [] db db' hist replies d room nf h =
      let p : [] ≡ replies = cc h in
      let q : db ≡ db' = cc h in
      (sym (ap (map (λ reply. reply.code)) p), hist, refl, subst (λ x. IsDb log ok x hist) q d)
  calls-Refines (op ∷ ops) db db' hist replies d room nf h =
      let (reply, d1, a, b) =
        >>=-eq-ret (call log op) (λ reply. calls log ops >>= λ replies. pure (reply ∷ replies)) db
          (replies, db') h in
      let (rest, d2, a', b') =
        >>=-eq-ret (calls log ops) (λ replies. pure (reply ∷ replies)) d1 (replies, db') b in
      let p : reply ∷ rest ≡ replies = cc b' in
      let q : d2 ≡ db' = cc b' in
      let nf' = subst NoFailure (sym p) nf in
      let e : calls log ops d1 ≡ ret (rest, db') = a' ∙ ap (λ x. ret (rest, x)) q in
      elim (call-Refines op db d1 hist reply d (omega arith) a) [
        | inl c ↦ absurd (nf'.0 c)
        | inr (inl (c, s, v)) ↦
            let (codes, hist', vw, v') =
              calls-Refines ops d1 db' hist rest v (omega arith) nf'.1 e in
            rw (s, spec_calls)
              (sym (ap (map (λ reply. reply.code)) p) ∙ ap₂_cons c codes, hist', vw, v')
        | inr (inr (c, hist1, s, v, le)) ↦
            let (codes, hist', vw, v') =
              calls-Refines ops d1 db' hist1 rest v (omega arith) nf'.1 e in
            rw (s, spec_calls)
              (sym (ap (map (λ reply. reply.code)) p) ∙ ap₂_cons c codes, hist', vw, v')
      ]
    where
      ap₂_cons : {x y : ℤ} {xs ys : List ℤ} → x ≡ y → xs ≡ ys → x ∷ xs ≡ y ∷ ys
      ap₂_cons p q = λ i. p i ∷ q i
