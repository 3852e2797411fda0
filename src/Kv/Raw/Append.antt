-- ===== src/Kv/Raw/Append.antt =====
-- `kvraw_append` and `kvraw_open` of project-4/kvraw.c on a log of records.
use os_cs238p_proj.Common.{
  ℕ, ◌+◌, ◌<◌, ◌==◌, ◌≡◌, inl, inr, refl, ap, sym, ◌∙◌, subst, arith, ltb, ◌||◌, Bool-cases,
  if◌then◌else◌, List, [], ◌∷◌, ◌++◌, length, length-append, append_assoc, append-nil,
}
use os_cs238p_proj.Common.Word.{u64_mod, add64, add64_exact}
use os_cs238p_proj.Common.Outcome.{M, Outcome, ret, abort, out_of_fuel, ◌>>◌, >>=-eq-ret}
use os_cs238p_proj.Kv.Log.{Log, IsLog, log_max}
use os_cs238p_proj.Kv.Meta.{meta_len, encode_meta, length-encode_meta}
use os_cs238p_proj.Kv.Raw.{Kvraw, on_log, count_record, write_record, kvraw_append}
use os_cs238p_proj.Kv.Raw.Records.{
  Rec, rec_size, meta_of, encode, encode_all, encode_all-append, length-encode, At,
}
use os_cs238p_proj.Kv.Raw.Lookup.{HoldsRecs}

module _ {S : Type 0} (log : Log S) (ok : IsLog log) where
  on_log-eq-ret :
      {A : Type 0} (m : M S A) (a : A) (k k' : Kvraw S)
      → on_log log m k ≡ ret (a, k')
      → (m k.logfs ≡ ret (a, k'.logfs)) × (k'.size ≡ k.size)
  on_log-eq-ret {A} m a k k' h = split (m k.logfs) refl h
    where
      again : Outcome (A × S) → Outcome (A × Kvraw S)
      again (ret (x, s)) = ret (x, record k { logfs = s })
      again abort = abort
      again out_of_fuel = out_of_fuel

      split :
          (o : Outcome (A × S))
          → m k.logfs ≡ o
          → again o ≡ ret (a, k')
          → (m k.logfs ≡ ret (a, k'.logfs)) × (k'.size ≡ k.size)
      split (ret (x, s)) e g =
          let p : x ≡ a = cc g in
          let q : record k { logfs = s } ≡ k' = cc g in
          (e ∙ ap (λ y. ret (y, s)) p ∙ ap (λ y. ret (a, y.logfs)) q, sym (ap (λ y. y.size) q))
      split abort e g = absurd (cc g)
      split out_of_fuel e g = absurd (cc g)

  append-Holds :
      (k k' : Kvraw S) (bytes new : List ℕ)
      → ok.Holds k.logfs bytes
      → length (bytes ++ new) < log_max
      → on_log log (log.append new) k ≡ ret (tt, k')
      → ok.Holds k'.logfs (bytes ++ new) × (k'.size ≡ k.size)
  append-Holds k k' bytes new h lt g =
      let (a, b) = on_log-eq-ret (log.append new) tt k k' g in
      (ok.append-Holds k.logfs k'.logfs bytes new h lt a, b)

  write_record-Holds :
      (k k' : Kvraw S) (bytes key val : List ℕ) (off o : ℕ)
      → ok.Holds k.logfs bytes
      → length bytes + (16 + length key + length val) < log_max
      → write_record log key val off k ≡ ret (o, k')
      → ok.Holds k'.logfs (bytes ++ encode (record { key = key; val = val; off = off }))
        × (o ≡ k.size)
        × (k'.size ≡ add64 k.size (add64 (add64 meta_len (length key)) (length val)))
  unfolding write_record
  write_record-Holds k k' bytes key val off o h lt g =
      let m = encode_meta (meta_of (record { key = key; val = val; off = off })) in
      let n = add64 (add64 meta_len (length key)) (length val) in
      let (_, k1, a1, b1) =
        >>=-eq-ret (on_log log (log.append m))
          (λ _.
            on_log log (log.append key)
            >> (on_log log (log.append val) >> count_record log k.size n))
          k (o, k') g in
      let (_, k2, a2, b2) =
        >>=-eq-ret (on_log log (log.append key))
          (λ _. on_log log (log.append val) >> count_record log k.size n) k1 (o, k') b1 in
      let (_, k3, a3, b3) =
        >>=-eq-ret (on_log log (log.append val)) (λ _. count_record log k.size n) k2 (o, k') b2 in
      let lm = length-encode_meta (meta_of (record { key = key; val = val; off = off })) in
      let l1 = length-append bytes m in
      let l2 = length-append (bytes ++ m) key in
      let l3 = length-append (bytes ++ m ++ key) val in
      let (h1, s1) = append-Holds k k1 bytes m h (omega arith) a1 in
      let (h2, s2) = append-Holds k1 k2 (bytes ++ m) key h1 (omega arith) a2 in
      let (h3, s3) = append-Holds k2 k3 (bytes ++ m ++ key) val h2 (omega arith) a3 in
      let p : record k3 { size = add64 k3.size n } ≡ k' = cc b3 in
      let q = append_assoc (bytes ++ m) key val ∙ append_assoc bytes m (key ++ val) in
      (
        subst (λ x. ok.Holds x (bytes ++ (m ++ (key ++ val)))) (ap (λ y. y.logfs) p)
            (subst (ok.Holds k3.logfs) q h3),
        cc b3,
        sym (ap (λ y. y.size) p) ∙ ap (λ x. add64 x n) (s3 ∙ s2 ∙ s1),
      )

  -- An append that returns gives the offset behind the last record, where the new record stands, with
  -- the offset given as the one before it in its chain. The log stays below 2 ^ 63 bytes.
  pub kvraw_append-At :
      (k k' : Kvraw S) (rs : List Rec) (key val : List ℕ) (off o : ℕ)
      → HoldsRecs log ok k rs
      → off < u64_mod
      → length (encode_all rs) + rec_size (record { key = key; val = val; off = off }) < log_max
      → kvraw_append log key val off k ≡ ret (o, k')
      → HoldsRecs log ok k' (rs ++ record { key = key; val = val; off = off } ∷ [])
        × At
            (rs ++ record { key = key; val = val; off = off } ∷ [])
            o
            (record { key = key; val = val; off = off })
        × (o ≡ length (encode_all rs))
  unfolding kvraw_append encode_all
  kvraw_append-At k k' rs key val off o h lo sm g =
      elim (Bool-cases
        (length key == 0 || ltb 0xffff (length key) || ltb 0xffff_ffff (length val))) [
          | inl e ↦ absurd (cc (rw (e, if◌then◌else◌) at g))
          | inr e ↦
              let r : Rec = record { key = key; val = val; off = off } in
              let (a, b, c) =
                write_record-Holds k k' (encode_all rs) key val off o h.bytes sm
                  (rw (e, if◌then◌else◌) at g) in
              let ea = encode_all-append rs (r ∷ []) in
              let en = ap (λ x. encode_all rs ++ x) (append-nil (encode r)) in
              let len = ap length (ea ∙ en) ∙ length-append (encode_all rs) (encode r) in
              let n1 = add64_exact 16 (length key) (omega arith) in
              let n2 = add64_exact (16 + length key) (length val) (omega arith) in
              let n3 =
                add64_exact (length (encode_all rs)) (16 + length key + length val) (omega arith) in
              let sz : k'.size ≡ length (encode_all rs) + (16 + length key + length val) =
                c
                ∙ ap (λ x. add64 k.size (add64 x (length val))) n1
                ∙ ap (add64 k.size) n2
                ∙ ap (λ x. add64 x (16 + length key + length val)) h.size
                ∙ n3 in
              (
                record {
                  bytes = subst (ok.Holds k'.logfs) (sym (ea ∙ en)) a;
                  size = omega (arith, sz, len, length-encode r);
                  small = omega (arith, len, length-encode r);
                },
                record {
                  before = rs;
                  after = [];
                  split = refl;
                  offset = b ∙ h.size;
                  ok = record { key = ground arith; val = ground arith; off = lo };
                },
                b ∙ h.size,
              )
        ]
