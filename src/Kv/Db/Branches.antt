-- ===== src/Kv/Db/Branches.antt =====
-- The branches of `mutate` of project-4/kvdb.c for the four modes.
use os_cs238p_proj.Common.{
  ℕ, ◌+◌, ◌<◌, ◌≡◌, inl, inr, refl, ap, sym, ◌∙◌, subst, arith, true, false, Bool-cases,
  if◌then◌else◌, List, length,
}
use os_cs238p_proj.Common.Int.{pos}
use os_cs238p_proj.Common.Outcome.{ret, pure, ◌>>◌}
use os_cs238p_proj.Kv.Log.{Log, IsLog, log_max}
use os_cs238p_proj.Kv.Raw.Records.{Rec, encode_all}
use os_cs238p_proj.Kv.Db.{
  Kvdb, Hit, Mode, mutate_remove, mutate_insert, mutate_update, mutate_replace, Reply, code_only,
  append_at, is_absent, count, up, down, same, mutate_hit,
}
use os_cs238p_proj.Kv.Db.Chain.{find_rec, AnswerOf}
use os_cs238p_proj.Kv.Db.History.{written, is_absent-AnswerOf, IsKvdb, IsReady}
use os_cs238p_proj.Kv.Db.Contract.{permits, next_size, next_waste, new_val, absent, Mutated}
use os_cs238p_proj.Kv.Db.Write.{IsReady-count, append_at-counted}

module _ {S : Type 0} (log : Log S) (ok : IsLog log) where
  module _ (db db' : Kvdb S) (hist : List Rec) (key val : List ℕ) (j : ℕ) (reply : Reply)
      (ready : IsReady log ok db hist key j) where
    refuse :
        (mode : Mode)
        → permits mode (absent key hist) ≡ false
        → pure (code_only (pos 1)) db ≡ ret (reply, db')
        → Mutated log ok mode key val db hist reply db'
    refuse mode p h =
        let q : db ≡ db' = cc h in
        let e : code_only (pos 1) ≡ reply = cc h in
        inr (
          inl (
            sym (ap (λ x. x.code) e),
            record {
              refused = p;
              valid = subst (λ x. IsKvdb log ok x hist) q ready.valid;
              size = sym (ap (λ x. x.size) q);
              waste = sym (ap (λ x. x.waste) q);
            },
          ))

    done :
        (mode : Mode) (reply0 : Reply) (size waste : ℕ → ℕ)
        → length (encode_all (written hist)) + (16 + length key + length (new_val mode val))
          < log_max
        → reply0.code ≡ pos 0
        → permits mode (absent key hist) ≡ true
        → size db.size ≡ next_size mode (absent key hist) db.size
        → waste db.waste ≡ next_waste mode (absent key hist) db.waste
        → (append_at log j key (new_val mode val) >> (count log size waste >> pure reply0)) db
          ≡ ret (reply, db')
        → Mutated log ok mode key val db hist reply db'
    done mode reply0 size waste room c p s w h =
        let (e, v, s', w') =
          append_at-counted log ok hist key (new_val mode val) j room db db' reply0 reply size waste
            ready h in
        inr (
          inr (
            ap (λ x. x.code) e ∙ c,
            db.index.offs j,
            record { permitted = p; valid = v; size = s' ∙ s; waste = w' ∙ w },
          ))

  -- The branches on what the chain has
  pub mutate_hit-Mutated :
      (db db' : Kvdb S) (hist : List Rec) (key val : List ℕ) (j : ℕ) (reply : Reply) (mode : Mode)
      (val_cap : ℕ) (hit : Hit)
      → IsReady log ok db hist key j
      → AnswerOf val_cap (find_rec key hist) hit
      → length (encode_all (written hist)) + (16 + length key + length val) < log_max
      → mutate_hit log mode j key val hit db ≡ ret (reply, db')
      → Mutated log ok mode key val db hist reply db'
  unfolding permits next_size next_waste new_val mutate_hit
  mutate_hit-Mutated db db' hist key val j reply mode val_cap hit r a room h =
      elim (Bool-cases (is_absent hit)) [
        | inl e ↦ gone mode h e (sym (is_absent-AnswerOf val_cap (find_rec key hist) hit a) ∙ e)
        | inr e ↦ there mode h e (sym (is_absent-AnswerOf val_cap (find_rec key hist) hit a) ∙ e)
      ]
    where
      updated :
          (s w : ℕ)
          → s ≡ next_size mutate_update (absent key hist) db.size
          → w ≡ next_waste mutate_update (absent key hist) db.waste
          → (append_at log j key val >> pure (code_only (pos 0)))
              (record db { size = s; waste = w })
            ≡ ret (reply, db')
          → Mutated log ok mutate_update key val db hist reply db'
      updated s w es ew h =
          let d : Kvdb S = record db { size = s; waste = w } in
          let (e, v, s', w') =
            append_at-counted log ok hist key val j room d db' (code_only (pos 0)) reply same same
              (IsReady-count log ok db hist key j s w r) h in
          inr (
            inr (
              ap (λ x. x.code) e,
              db.index.offs j,
              record { permitted = refl; valid = v; size = s' ∙ es; waste = w' ∙ ew },
            ))

      gone :
          (mode : Mode)
          → mutate_hit log mode j key val hit db ≡ ret (reply, db')
          → is_absent hit ≡ true
          → absent key hist ≡ true
          → Mutated log ok mode key val db hist reply db'
      gone mutate_remove h e n =
          refuse db db' hist key val j reply r mutate_remove (rw n refl)
            (rw (e, mutate_hit, if◌then◌else◌) at h)
      gone mutate_insert h e n =
          done db db' hist key val j reply r mutate_insert (code_only (pos 0)) up same room refl n
            refl refl (rw (e, mutate_hit, if◌then◌else◌) at h)
      gone mutate_update h e n =
          updated (up db.size) db.waste (rw (n, if◌then◌else◌) refl) (rw (n, if◌then◌else◌) refl)
            (rw (e, mutate_hit, if◌then◌else◌) at h)
      gone mutate_replace h e n =
          refuse db db' hist key val j reply r mutate_replace (rw n refl)
            (rw (e, mutate_hit, if◌then◌else◌) at h)

      there :
          (mode : Mode)
          → mutate_hit log mode j key val hit db ≡ ret (reply, db')
          → is_absent hit ≡ false
          → absent key hist ≡ false
          → Mutated log ok mode key val db hist reply db'
      there mutate_remove h e n =
          done db db' hist key val j reply r mutate_remove
            (record { code = pos 0; val_len = hit.val_len; val = hit.val }) down up (omega arith)
            refl (rw n refl) refl refl (rw (e, mutate_hit, if◌then◌else◌) at h)
      there mutate_insert h e n =
          refuse db db' hist key val j reply r mutate_insert n
            (rw (e, mutate_hit, if◌then◌else◌) at h)
      there mutate_update h e n =
          updated db.size (up db.waste) (rw (n, if◌then◌else◌) refl) (rw (n, if◌then◌else◌) refl)
            (rw (e, mutate_hit, if◌then◌else◌) at h)
      there mutate_replace h e n =
          done db db' hist key val j reply r mutate_replace (code_only (pos 0)) same up room refl
            (rw n refl) refl refl (rw (e, mutate_hit, if◌then◌else◌) at h)
