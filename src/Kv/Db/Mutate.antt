-- ===== src/Kv/Db/Mutate.antt =====
-- `mutate` of project-4/kvdb.c.
use os_cs238p_proj.Common.{
  ℕ, suc, ◌+◌, ◌<◌, ◌≡◌, inl, inr, refl, ap, sym, ◌∙◌, subst, arith, Option, none, some, List,
  length,
}
use os_cs238p_proj.Common.Int.{negsuc}
use os_cs238p_proj.Common.Outcome.{
  M, Outcome, ret, abort, out_of_fuel, pure, ◌>>=◌, >>=-eq-ret, Gives,
}
use os_cs238p_proj.Index.{Index, key_of, index_update}
use os_cs238p_proj.Kv.Log.{Log, IsLog, log_max}
use os_cs238p_proj.Kv.Raw.{Kvraw}
use os_cs238p_proj.Kv.Raw.Records.{Rec, encode_all}
use os_cs238p_proj.Kv.Raw.Lookup.{HoldsRecs}
use os_cs238p_proj.Kv.Db.{
  Kvdb, Hit, Mode, Reply, code_only, chain_lookup, on_kvraw, ref_of, after_chain, mutate,
}
use os_cs238p_proj.Kv.Db.Chain.{find_rec, Chain, AnswerOf, chain_lookup-Gives}
use os_cs238p_proj.Kv.Db.History.{
  written, bucket, find_rec-bucket, IsKvdb, IsReady, index_update-IsReady,
}
use os_cs238p_proj.Kv.Db.Contract.{next_size, next_waste, absent, Mutated}
use os_cs238p_proj.Kv.Db.Branches.{mutate_hit-Mutated}

module _ {S : Type 0} (log : Log S) (ok : IsLog log) where
  ref_of-IsReady :
      (db db' : Kvdb S) (hist : List Rec) (key : List ℕ) (j : ℕ)
      → IsKvdb log ok db hist
      → ref_of log key db ≡ ret (j, db')
      → IsReady log ok db' hist key j × (db'.size ≡ db.size) × (db'.waste ≡ db.waste)
  unfolding ref_of
  ref_of-IsReady db db' hist key j v h = split (index_update db.index key) refl h
    where
      again : Outcome (ℕ × Index) → Outcome (ℕ × Kvdb S)
      again (ret (i, t)) = ret (i, record db { index = t })
      again abort = abort
      again out_of_fuel = out_of_fuel

      split :
          (x : Outcome (ℕ × Index))
          → index_update db.index key ≡ x
          → again x ≡ ret (j, db')
          → IsReady log ok db' hist key j × (db'.size ≡ db.size) × (db'.waste ≡ db.waste)
      split (ret (i, t)) e g =
          let p : record db { index = t } ≡ db' = cc g in
          let q : i ≡ j = cc g in
          (
            subst (λ x. IsReady log ok x hist key j) p
                (index_update-IsReady log ok db hist key j t v (e ∙ ap (λ x. ret (x, t)) q)),
            sym (ap (λ x. x.size) p),
            sym (ap (λ x. x.waste) p),
          )
      split abort e g = absurd (cc g)
      split out_of_fuel e g = absurd (cc g)

  IsReady-kvraw :
      (db : Kvdb S) (k : Kvraw S) (hist : List Rec) (key : List ℕ) (j : ℕ)
      → IsReady log ok db hist key j
      → HoldsRecs log ok k (written hist)
      → IsReady log ok (record db { kvraw = k }) hist key j
  IsReady-kvraw db k hist key j r h = record {
    valid = record { index = r.valid.index; recs = h; chains = r.valid.chains };
    chain = r.chain;
    index = r.index;
    here = r.here;
    others = r.others;
  }

  -- The chain of a key, searched from its slot
  pub chain-Gives :
      (db : Kvdb S) (hist : List Rec) (key : List ℕ) (o val_cap : ℕ)
      → IsKvdb log ok db hist
      → Chain (written hist) o (bucket (key_of key) hist)
      → Gives ok.Fails (on_kvraw log (chain_lookup log (suc o) key val_cap o)) db (λ hit db'.
        AnswerOf val_cap (find_rec key hist) hit
        × HoldsRecs log ok db'.kvraw (written hist)
        × (db' ≡ record db { kvraw = db'.kvraw }))
  chain-Gives db hist key o val_cap v c =
      elim (chain_lookup-Gives log ok (written hist) key (suc o) val_cap o
        (bucket (key_of key) hist) db.kvraw v.recs c (omega arith)) [
          | inl (f, k, e) ↦ inl (f, record db { kvraw = k }, rw (e, on_kvraw) refl)
          | inr (hit, k, e, (a, w)) ↦ inr (
            hit,
            record db { kvraw = k },
            rw (e, on_kvraw) refl,
            (subst (λ x. AnswerOf val_cap x hit) (find_rec-bucket key hist) a, w, refl),
          )
        ]

  -- An operation that changes the database. It returns 0 exactly on what it permits: then the new record
  -- is the newest of its key (with an empty value, for a removal), and the counters have been
  -- updated. It returns 1 on what it does not permit, and the database is as before. It returns -1 else,
  -- which says nothing of the state. The new log has fewer than 2 ^ 63 bytes.
  pub mutate-Mutated :
      (db db' : Kvdb S) (hist : List Rec) (key val : List ℕ) (mode : Mode) (val_cap : ℕ)
      (reply : Reply)
      → IsKvdb log ok db hist
      → length (encode_all (written hist)) + (16 + length key + length val) < log_max
      → mutate log mode key val val_cap db ≡ ret (reply, db')
      → Mutated log ok mode key val db hist reply db'
  unfolding mutate after_chain
  mutate-Mutated db db' hist key val mode val_cap reply v room h =
      let (j, d, a, b) = >>=-eq-ret (ref_of log key) (λ j. rest j) db (reply, db') h in
      let (r, s, w) = ref_of-IsReady db d hist key j v a in
      let (found, d', a', b') =
        >>=-eq-ret (on_chain j) (after_chain log mode j key val) d (reply, db') b in
      elim (chain-Gives d hist key (d.index.offs j) val_cap r.valid r.chain) [
        | inl (f, t, e) ↦ failed j found d' (sym e ∙ a') b'
        | inr (hit, t, e, (ans, recs, same_db)) ↦
            go_on d d' j r found hit t ans recs same_db s w (sym e ∙ a') b'
      ]
    where
      on_chain : ℕ → M (Kvdb S) (Option Hit)
      on_chain j d =
          on_kvraw log (chain_lookup log (suc (d.index.offs j)) key val_cap (d.index.offs j)) d

      rest : ℕ → M (Kvdb S) Reply
      rest j = on_chain j >>= after_chain log mode j key val

      failed :
          {t : Kvdb S} (j : ℕ) (found : Option Hit) (d' : Kvdb S)
          → ◌≡◌ {A = Outcome (Option Hit × Kvdb S)} (ret (none, t)) (ret (found, d'))
          → after_chain log mode j key val found d' ≡ ret (reply, db')
          → Mutated log ok mode key val db hist reply db'
      failed j found d' e g =
          let q : none ≡ found = cc e in
          let g' : pure (code_only (negsuc 0)) d' ≡ ret (reply, db') =
            ap (λ x. after_chain log mode j key val x d') q ∙ g in
          let p : code_only (negsuc 0) ≡ reply = cc g' in inl (sym (ap (λ x. x.code) p))

      go_on :
          (d d' : Kvdb S) (j : ℕ)
          → IsReady log ok d hist key j
          → (found : Option Hit) (hit : Hit) (t : Kvdb S) → AnswerOf val_cap (find_rec key hist) hit
          → HoldsRecs log ok t.kvraw (written hist)
          → t ≡ record d { kvraw = t.kvraw }
          → d.size ≡ db.size
          → d.waste ≡ db.waste
          → ◌≡◌ {A = Outcome (Option Hit × Kvdb S)} (ret (some hit, t)) (ret (found, d'))
          → after_chain log mode j key val found d' ≡ ret (reply, db')
          → Mutated log ok mode key val db hist reply db'
      go_on d d' j r found hit t ans recs same_db s w e g =
          let q : some hit ≡ found = cc e in
          let p : t ≡ d' = cc e in
          let pd : record d { kvraw = t.kvraw } ≡ d' = sym same_db ∙ p in
          let r' =
            subst (λ x. IsReady log ok x hist key j) pd
              (IsReady-kvraw d t.kvraw hist key j r recs) in
          let m =
            mutate_hit-Mutated log ok d' db' hist key val j reply mode val_cap hit r' ans room
              (ap (λ x. after_chain log mode j key val x d') q ∙ g) in
          let s' : d'.size ≡ db.size = sym (ap (λ x. x.size) pd) ∙ s in
          let w' : d'.waste ≡ db.waste = sym (ap (λ x. x.waste) pd) ∙ w in
          elim m [
            | inl c ↦ inl c
            | inr (inl (c, x)) ↦ inr (
                inl (
                  c,
                  record {
                    refused = x.refused;
                    valid = x.valid;
                    size = x.size ∙ s';
                    waste = x.waste ∙ w';
                  },
                ))
            | inr (inr (c, off, x)) ↦ inr (
                inr (
                  c,
                  off,
                  record {
                    permitted = x.permitted;
                    valid = x.valid;
                    size = x.size ∙ ap (next_size mode (absent key hist)) s';
                    waste = x.waste ∙ ap (next_waste mode (absent key hist)) w';
                  },
                ))
          ]
