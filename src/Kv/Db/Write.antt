-- ===== src/Kv/Db/Write.antt =====
-- What the branches of `mutate` of project-4/kvdb.c do that write a record.
use os_cs238p_proj.Common.{
  ℕ, ◌+◌, ◌<◌, ◌==◌, ◌≡◌, ◌≢◌, inl, inr, refl, ap, sym, ◌∙◌, subst, arith, Bool-cases, ==_iff, List,
  [], ◌∷◌, length,
}
use os_cs238p_proj.Common.Outcome.{Outcome, ret, abort, out_of_fuel, pure, ◌>>◌, >>=-eq-ret}
use os_cs238p_proj.Index.{key_of, store}
use os_cs238p_proj.Index.Update.{off_of, or_zero}
use os_cs238p_proj.Kv.Log.{Log, IsLog, log_max}
use os_cs238p_proj.Kv.Raw.{Kvraw, kvraw_append}
use os_cs238p_proj.Kv.Raw.Records.{Rec, encode_all}
use os_cs238p_proj.Kv.Raw.Append.{kvraw_append-At}
use os_cs238p_proj.Kv.Db.{Kvdb, Reply, append_at, count}
use os_cs238p_proj.Kv.Db.Chain.{Chain, Chain-append}
use os_cs238p_proj.Kv.Db.History.{
  written, bucket, bucket_self, bucket_other, Chain-lt, written-pos, IsKvdb, IsReady,
}

module _ {S : Type 0} (log : Log S) (ok : IsLog log) where
  pub IsReady-count :
      (db : Kvdb S) (hist : List Rec) (key : List ℕ) (j s w : ℕ)
      → IsReady log ok db hist key j
      → IsReady log ok (record db { size = s; waste = w }) hist key j
  IsReady-count db hist key j s w r = record {
    valid = record { index = r.valid.index; recs = r.valid.recs; chains = r.valid.chains };
    chain = r.chain;
    index = r.index;
    here = r.here;
    others = r.others;
  }

  module _ (hist : List Rec) (key val : List ℕ) (j : ℕ)
      (room : length (encode_all (written hist)) + (16 + length key + length val) < log_max) where
    abbrev rec_at : ℕ → Rec
    rec_at off = record { key = key; val = val; off = off }

    append_at-IsKvdb :
        (db db' : Kvdb S)
        → IsReady log ok db hist key j
        → append_at log j key val db ≡ ret (tt, db')
        → IsKvdb log ok db' (rec_at (db.index.offs j) ∷ hist)
          × (db'.size ≡ db.size)
          × (db'.waste ≡ db.waste)
    unfolding append_at written Chain
    append_at-IsKvdb db db' r h = split (kvraw_append log key val off db.kvraw) refl h
      where
        off : ℕ
        off = db.index.offs j

        again : Outcome (ℕ × Kvraw S) → Outcome (Unit {0} × Kvdb S)
        again (ret (o, k)) = ret (tt, record db { kvraw = k; index = store j o db.index })
        again abort = abort
        again out_of_fuel = out_of_fuel

        made :
            (o : ℕ) (k : Kvraw S)
            → kvraw_append log key val off db.kvraw ≡ ret (o, k)
            → IsKvdb log ok
                (record db { kvraw = k; index = store j o db.index })
                (rec_at off ∷ hist)
        made o k e =
            let lt = Chain-lt hist off (bucket (key_of key) hist) r.chain in
            let (recs, at, eq) =
              kvraw_append-At log ok db.kvraw k (written hist) key val off o r.valid.recs
                (omega arith) room e in
            let nz : o ≢ 0 = λ z. omega (arith, z, eq, written-pos hist) in
            let less : off < o = omega (arith, eq, lt) in
            record {
              index = r.index o;
              recs = recs;
              chains = λ h z. elim (Bool-cases (h == key_of key)) [
                | inl g ↦
                    let p = (==_iff h (key_of key)).0 g in
                    let c : Chain (written (rec_at off ∷ hist)) o
                        (rec_at off ∷ bucket (key_of key) hist) =
                      (
                        nz,
                        at,
                        less,
                        Chain-append (written hist) (rec_at off ∷ []) off (bucket (key_of key) hist)
                            r.chain,
                      ) in
                    subst
                      (λ x.
                        Chain (written (rec_at off ∷ hist))
                          (or_zero (off_of (store j o db.index) x)) (bucket x (rec_at off ∷ hist)))
                      (sym p)
                      (subst
                        (λ x.
                          Chain (written (rec_at off ∷ hist)) (or_zero x)
                            (bucket (key_of key) (rec_at off ∷ hist)))
                        (sym (r.here o))
                        (subst (Chain (written (rec_at off ∷ hist)) o)
                          (sym (bucket_self (rec_at off) hist)) c))
                | inr g ↦
                    let n : h ≢ key_of key = λ p. cc (sym g ∙ (==_iff h (key_of key)).1 p) in
                    subst
                      (λ x.
                        Chain (written (rec_at off ∷ hist)) (or_zero x)
                          (bucket h (rec_at off ∷ hist)))
                      (sym (r.others o h n z))
                      (subst (Chain (written (rec_at off ∷ hist)) (or_zero (off_of db.index h)))
                        (sym (bucket_other h (rec_at off) hist n))
                        (Chain-append (written hist) (rec_at off ∷ []) (or_zero (off_of db.index h))
                          (bucket h hist) (r.valid.chains h z)))
              ];
            }

        split :
            (x : Outcome (ℕ × Kvraw S))
            → kvraw_append log key val off db.kvraw ≡ x
            → again x ≡ ret (tt, db')
            → IsKvdb log ok db' (rec_at off ∷ hist) × (db'.size ≡ db.size) × (db'.waste ≡ db.waste)
        split (ret (o, k)) e g =
            let p : record db { kvraw = k; index = store j o db.index } ≡ db' = cc g in
            (
              subst (λ x. IsKvdb log ok x (rec_at off ∷ hist)) p (made o k e),
              sym (ap (λ x. x.size) p),
              sym (ap (λ x. x.waste) p),
            )
        split abort e g = absurd (cc g)
        split out_of_fuel e g = absurd (cc g)

    -- The end of the branches that write
    pub append_at-counted :
        (db db' : Kvdb S) (reply reply' : Reply) (size waste : ℕ → ℕ)
        → IsReady log ok db hist key j
        → (append_at log j key val >> (count log size waste >> pure reply)) db ≡ ret (reply', db')
        → (reply' ≡ reply)
          × IsKvdb log ok db' (rec_at (db.index.offs j) ∷ hist)
          × (db'.size ≡ size db.size)
          × (db'.waste ≡ waste db.waste)
    append_at-counted db db' reply reply' size waste r h =
        let (_, d, a, b) =
          >>=-eq-ret (append_at log j key val) (λ _. count log size waste >> pure reply) db
            (reply', db') h in
        let (v, s, w) = append_at-IsKvdb db d r a in
        let p : record d { size = size d.size; waste = waste d.waste } ≡ db' = cc b in
        (
          cc b,
          subst (λ x. IsKvdb log ok x (rec_at (db.index.offs j) ∷ hist)) p
              (record { index = v.index; recs = v.recs; chains = v.chains }),
          sym (ap (λ x. x.size) p) ∙ ap size s,
          sym (ap (λ x. x.waste) p) ∙ ap waste w,
        )
