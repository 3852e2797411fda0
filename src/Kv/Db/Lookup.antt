-- ===== src/Kv/Db/Lookup.antt =====
-- `kvdb_lookup` and `kvdb_open` of project-4/kvdb.c.
use Prim.Native.Nat.{min}
use os_cs238p_proj.Common.{
  ℕ, suc, ◌==◌, ◌≡◌, ◌⊎◌, inl, inr, refl, ap, sym, ◌∙◌, subst, false, Bool-cases, ==_iff,
  if◌then◌else◌, Option, none, some, List, [], ◌∷◌, length, take,
}
use os_cs238p_proj.Common.Int.{pos, negsuc}
use os_cs238p_proj.Common.Outcome.{Outcome, ret, ◌>>=◌, >>=-ret}
use os_cs238p_proj.Index.{Found, found, vacant, full, key_of, probe_all, slot_found, index_lookup}
use os_cs238p_proj.Index.Update.{off_of, or_zero, off_at}
use os_cs238p_proj.Index.Api.{key_of_nonzero}
use os_cs238p_proj.Kv.Log.{Log, IsLog}
use os_cs238p_proj.Kv.Raw.Records.{Rec}
use os_cs238p_proj.Kv.Db.{
  Kvdb, Hit, Reply, code_only, chain_lookup, on_kvraw, bad_key, reply_hit, lookup_ref, kvdb_lookup,
}
use os_cs238p_proj.Kv.Db.Chain.{find_rec, Chain, AnswerOf}
use os_cs238p_proj.Kv.Db.History.{
  written, bucket, current, val_of, find_rec-bucket, IsKvdb, is_absent-AnswerOf,
}
use os_cs238p_proj.Kv.Db.Mutate.{chain-Gives}

-- The reply of a lookup, for the value of the key: 1 for a key that is not there, else 0, with the length
-- of the value and as much of it as the buffer holds
unfoldable pub reply_for : ℕ → List ℕ → Reply
reply_for val_cap val =
    if length val == 0
    then code_only (pos 1)
    else record { code = pos 0; val_len = length val; val = take (min (length val) val_cap) val }

module _ {S : Type 0} (log : Log S) (ok : IsLog log) where
  reply_hit-eq :
      (db : Kvdb S) (val_cap : ℕ) (o : Option Rec) (hit : Hit)
      → AnswerOf val_cap o hit
      → reply_hit log (some hit) db ≡ ret (reply_for val_cap (val_of o), db)
  unfolding reply_hit reply_for
  reply_hit-eq db val_cap none hit e = rw e refl
  reply_hit-eq db val_cap (some r) hit a = elim (Bool-cases (length r.val == 0)) [
    | inl e ↦ let g = is_absent-AnswerOf val_cap (some r) hit a ∙ e in rw (g, e, if◌then◌else◌) refl
    | inr e ↦
        let g = is_absent-AnswerOf val_cap (some r) hit a ∙ e in
        rw (g, e, if◌then◌else◌)
          (λ i. ret (record { code = pos 0; val_len = a.1 i; val = a.2 i }, db))
  ]

  -- A chain that starts nowhere has no record of the key.
  no_chain :
      (hist : List Rec) (key : List ℕ)
      → Chain (written hist) 0 (bucket (key_of key) hist)
      → current key hist ≡ []
  unfolding Chain find_rec
  no_chain hist key c =
      ap val_of (sym (find_rec-bucket key hist) ∙ none_in (bucket (key_of key) hist) c)
    where
      none_in : (l : List Rec) → Chain (written hist) 0 l → find_rec key l ≡ none
      none_in [] c = refl
      none_in (r ∷ l) c = absurd (c.0 refl)

  -- What a lookup comes to: -1, or the value, and then the database is as before.
  abbrev pub LookedUp : Kvdb S → List Rec → List ℕ → ℕ → Outcome (Reply × Kvdb S) → Type 0
  LookedUp db hist key val_cap o =
      (ok.Fails × (db' : Kvdb S) × (o ≡ ret (code_only (negsuc 0), db')))
      ⊎ ((db' : Kvdb S) × (o ≡ ret (reply_for val_cap (current key hist), db'))
          × IsKvdb log ok db' hist
          × (db' ≡ record db { kvraw = db'.kvraw }))

  module _ (db : Kvdb S) (hist : List Rec) (key : List ℕ) (val_cap : ℕ)
      (v : IsKvdb log ok db hist) where
    absent_reply :
        current key hist ≡ [] → LookedUp db hist key val_cap (ret (code_only (pos 1), db))
    unfolding reply_for
    absent_reply e = inr (db, rw e refl, v, refl)

    from_chain :
        (o : ℕ)
        → Chain (written hist) o (bucket (key_of key) hist)
        → LookedUp db hist key val_cap
            ((on_kvraw log (chain_lookup log (suc o) key val_cap o) >>= reply_hit log) db)
    unfolding reply_hit
    from_chain o c = elim (chain-Gives log ok db hist key o val_cap v c) [
      | inl (f, t, e) ↦ inl (
        f,
        t,
        >>=-ret (on_kvraw log (chain_lookup log (suc o) key val_cap o)) (reply_hit log) db t none e,
      )
      | inr (hit, t, e, (a, recs, same)) ↦ inr (
        t,
        >>=-ret (on_kvraw log (chain_lookup log (suc o) key val_cap o)) (reply_hit log) db t
              (some hit) e
            ∙ reply_hit-eq t val_cap (find_rec key hist) hit a,
        subst (λ x. IsKvdb log ok x hist) (sym same)
            (record { index = v.index; recs = recs; chains = v.chains }),
        same,
      )
    ]

    slot_reply :
        (f : Found)
        → probe_all db.index (key_of key) ≡ f
        → LookedUp db hist key val_cap (lookup_ref log key val_cap (slot_found f) db)
    unfolding lookup_ref off_of
    slot_reply f e = split f (
        subst
          (λ x. Chain (written hist) (or_zero (off_at db.index.offs x)) (bucket (key_of key) hist))
          e (v.chains (key_of key) (key_of_nonzero key)))
      where
        split :
            (f : Found)
            → Chain (written hist) (or_zero (off_at db.index.offs f)) (bucket (key_of key) hist)
            → LookedUp db hist key val_cap (lookup_ref log key val_cap (slot_found f) db)
        split (vacant j) c = absent_reply (no_chain hist key c)
        split full c = absent_reply (no_chain hist key c)
        split (found j) c = elim (Bool-cases (db.index.offs j == 0)) [
          | inl g ↦
              let c0 =
                subst (λ o. Chain (written hist) o (bucket (key_of key) hist))
                  ((==_iff (db.index.offs j) 0).0 g) c in
              rw (g, lookup_ref, if◌then◌else◌) (absent_reply (no_chain hist key c0))
          | inr g ↦ rw (g, lookup_ref, if◌then◌else◌) (from_chain (db.index.offs j) c)
        ]

    -- `kvdb_lookup` returns, for a key of 1 to 65535 bytes: what the newest record of the key asks
    -- for (1 where there is none, or an empty one), and then nothing but the caches below has changed;
    -- or -1, which it does only on a log whose reads can fail.
    pub kvdb_lookup-LookedUp :
        bad_key key ≡ false → LookedUp db hist key val_cap (kvdb_lookup log key val_cap db)
    unfolding kvdb_lookup index_lookup
    kvdb_lookup-LookedUp b =
        let n : (length key == 0) ≡ false = nonempty b in
        rw (b, n, kvdb_lookup, index_lookup, if◌then◌else◌)
          (slot_reply (probe_all db.index (key_of key)) refl)
      where
        nonempty : bad_key key ≡ false → (length key == 0) ≡ false
        nonempty b = elim (Bool-cases (length key == 0)) [
          | inl e ↦ absurd (cc (rw e at b))
          | inr e ↦ e
        ]
