-- ===== src/Kv/Db/Open.antt =====
-- `kvdb_open` of project-4/kvdb.c.
use os_cs238p_proj.Common.{
  ℕ, ◌==◌, ◌≡◌, inl, inr, refl, subst, arith, Bool-cases, if◌then◌else◌, Option, none, some, List,
  [], ◌∷◌, length,
}
use os_cs238p_proj.Common.Outcome.{Outcome, ret, abort, out_of_fuel}
use os_cs238p_proj.Index.{index_open, probe}
use os_cs238p_proj.Index.Update.{off_of}
use os_cs238p_proj.Kv.Log.{Log, IsLog}
use os_cs238p_proj.Kv.Raw.{Kvraw, kvraw_append, kvraw_open}
use os_cs238p_proj.Kv.Raw.Records.{encode_all}
use os_cs238p_proj.Kv.Raw.Lookup.{HoldsRecs}
use os_cs238p_proj.Kv.Raw.Append.{kvraw_append-At}
use os_cs238p_proj.Kv.Db.{Kvdb, kvdb_open}
use os_cs238p_proj.Kv.Db.Chain.{Chain}
use os_cs238p_proj.Kv.Db.History.{written, bucket}
use os_cs238p_proj.Kv.Db.Live.{vals, live_beyond}
use os_cs238p_proj.Kv.Db.Api.{IsDb}

module _ {S : Type 0} (log : Log S) (ok : IsLog log) where
  new-IsDb :
      (k : Kvraw S)
      → HoldsRecs log ok k (written [])
      → IsDb log ok (record { size = 0; waste = 0; kvraw = k; index = index_open }) []
  unfolding index_open bucket Chain live_beyond vals probe off_of
  new-IsDb k h = record {
    valid = record {
      index = record { reachable = λ j lt nz. absurd (nz refl) };
      recs = h;
      chains = λ h nz. refl;
    };
    size = refl;
    waste = refl;
  }

module _ {S : Type 0} (log : Log S) (ok : IsLog log) (logfs_open : List ℕ → Option S)
    (path : List ℕ) (empty : (s : S) → logfs_open path ≡ some s → ok.Holds s []) where
  kvraw_open-HoldsRecs :
      (k : Kvraw S)
      → kvraw_open log logfs_open path ≡ ret (some k)
      → HoldsRecs log ok k (written [])
  unfolding kvraw_open written encode_all
  kvraw_open-HoldsRecs k h = elim (Bool-cases (length path == 0)) [
    | inl e ↦ absurd (cc (rw (e, if◌then◌else◌) at h))
    | inr e ↦ opened (logfs_open path) refl (rw (e, if◌then◌else◌) at h)
  ]
    where
      again : Outcome (ℕ × Kvraw S) → Outcome (Option (Kvraw S))
      again (ret (off, k)) = ret (some k)
      again abort = abort
      again out_of_fuel = out_of_fuel

      start : S → Kvraw S
      start s = record { size = 0; logfs = s }

      first : Option S → Outcome (Option (Kvraw S))
      first none = ret none
      first (some s) = again (kvraw_append log (0 ∷ []) (0 ∷ []) 0 (start s))

      appended :
          (s : S) (x : Outcome (ℕ × Kvraw S))
          → ok.Holds s []
          → kvraw_append log (0 ∷ []) (0 ∷ []) 0 (start s) ≡ x
          → again x ≡ ret (some k)
          → HoldsRecs log ok k (written [])
      appended s (ret (o, k1)) z e g =
          let p : k1 ≡ k = cc g in
          let h0 : HoldsRecs log ok (start s) [] = record {
            bytes = z;
            size = refl;
            small = omega arith;
          } in
          let a =
            kvraw_append-At log ok (start s) k1 [] (0 ∷ []) (0 ∷ []) 0 o h0 (omega arith)
              (omega arith) e in
          subst (λ x. HoldsRecs log ok x (written [])) p a.0
      appended s abort z e g = absurd (cc g)
      appended s out_of_fuel z e g = absurd (cc g)

      opened :
          (o : Option S)
          → logfs_open path ≡ o
          → first o ≡ ret (some k)
          → HoldsRecs log ok k (written [])
      opened none e g = absurd (cc g)
      opened (some s) e g =
          appended s (kvraw_append log (0 ∷ []) (0 ∷ []) 0 (start s)) (empty s e) refl g

  -- A new database stands for the map without keys. The log that `logfs_open` gives is empty.
  pub kvdb_open-IsDb :
      (db : Kvdb S) → kvdb_open log logfs_open path ≡ ret (some db) → IsDb log ok db []
  unfolding kvdb_open index_open
  kvdb_open-IsDb db h = split (kvraw_open log logfs_open path) refl h
    where
      made : Kvraw S → Kvdb S
      made k = record { size = 0; waste = 0; kvraw = k; index = index_open }

      again : Outcome (Option (Kvraw S)) → Outcome (Option (Kvdb S))
      again (ret (some k)) = ret (some (made k))
      again (ret none) = ret none
      again abort = abort
      again out_of_fuel = out_of_fuel

      split :
          (x : Outcome (Option (Kvraw S)))
          → kvraw_open log logfs_open path ≡ x
          → again x ≡ ret (some db)
          → IsDb log ok db []
      split (ret (some k)) e g =
          let p : made k ≡ db = cc g in
          subst (λ x. IsDb log ok x []) p (new-IsDb log ok k (kvraw_open-HoldsRecs k e))
      split (ret none) e g = absurd (cc g)
      split abort e g = absurd (cc g)
      split out_of_fuel e g = absurd (cc g)
