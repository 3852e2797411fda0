-- ===== src/Kv/Raw/Lookup.antt =====
-- `kvraw_lookup` and `kvraw_append` of project-4/kvraw.c on a log of records.
use Prim.Native.Nat.{min}
use os_cs238p_proj.Common.{
  ℕ, ◌+◌, ◌<◌, ◌≤◌, ◌≡◌, ◌≢◌, inl, inr, refl, ap, ◌∙◌, arith, false, ltb, ==_of_ne, if◌then◌else◌,
  some, List, length, take, slice,
}
use os_cs238p_proj.Common.Word.{add64, add64_exact}
use os_cs238p_proj.Common.Outcome.{ret, Gives, or_return-Gives, pure}
use os_cs238p_proj.Kv.Log.{Log, IsLog, log_max}
use os_cs238p_proj.Kv.Meta.{Fits, encode_meta, decode_meta, decode_meta-encode_meta}
use os_cs238p_proj.Kv.Raw.{
  Kvraw, Found, on_log, check_meta, read_meta, kvraw_lookup, read_key, read_val,
}
use os_cs238p_proj.Kv.Raw.Records.{
  Rec, meta_of, encode_all, At, slice-meta, slice-key, slice-val, record_end,
}

-- What a lookup with buffers of these lengths gives for a record
abbrev pub found_at : Rec → ℕ → ℕ → Found
found_at r key_len val_len = record {
  key = take (min (length r.key) key_len) r.key;
  val = take (min (length r.val) val_len) r.val;
  key_len = length r.key;
  val_len = length r.val;
  off = r.off;
}

module _ {S : Type 0} (log : Log S) (ok : IsLog log) where
  -- The log holds these records, and their bytes are counted in 64 bits.
  pub record HoldsRecs (k : Kvraw S) (rs : List Rec) : Type 0 where
    pub bytes : ok.Holds k.logfs (encode_all rs)
    pub size : k.size ≡ length (encode_all rs)
    pub small : length (encode_all rs) < log_max

  -- A read of the log
  read-Gives :
      (k : Kvraw S) (rs : List Rec) (off len : ℕ) (expected : List ℕ)
      → HoldsRecs k rs
      → off + len ≤ length (encode_all rs)
      → slice (encode_all rs) off len ≡ expected
      → Gives ok.Fails
          (on_log log (log.read off len))
          k
          (λ got k'. (got ≡ expected) × HoldsRecs k' rs)
  read-Gives k rs off len expected h lt e =
      elim (ok.read-Holds k.logfs (encode_all rs) off len h.bytes h.small lt) [
        | inl (f, t, g) ↦ inl (f, record k { logfs = t }, rw (g, on_log) refl)
        | inr (got, t, g, (q, w)) ↦ inr (
          got,
          record k { logfs = t },
          rw (g, on_log) refl,
          (q ∙ e, record { bytes = w; size = h.size; small = h.small }),
        )
      ]

  module _ (rs : List Rec) (o : ℕ) (r : Rec) (a : At rs o r) where
    check_meta_ok :
        (k : Kvraw S) → HoldsRecs k rs → check_meta log o (meta_of r) k ≡ ret (some (meta_of r), k)
    unfolding check_meta
    check_meta_ok k h =
        let e = record_end rs o r a in
        let s = h.small in
        let a1 = add64_exact o 16 (omega arith) in
        let a2 = add64_exact (o + 16) (length r.key) (omega arith) in
        let a3 = add64_exact (o + 16 + length r.key) (length r.val) (omega arith) in
        let t : ltb k.size (o + 16 + length r.key + length r.val) ≡ false =
          ground (arith, h.size, e) in
        rw (check_meta, a1, a2, a3, t, if◌then◌else◌) refl

    read_meta-Gives :
        (k : Kvraw S)
        → HoldsRecs k rs
        → Gives ok.Fails (read_meta log o) k (λ m k'. (m ≡ meta_of r) × HoldsRecs k' rs)
    unfolding read_meta
    read_meta-Gives k h =
        let e = record_end rs o r a in
        let s = h.small in
        let a1 = add64_exact o 16 (omega arith) in
        let t : ltb k.size (o + 16) ≡ false = ground (arith, h.size, e) in
        let fits : Fits (meta_of r) = record {
          off = a.ok.off;
          key_len = a.ok.key;
          val_len = a.ok.val;
        } in
        let g =
          or_return-Gives (on_log log (log.read o 16))
            (λ bytes. check_meta log o (decode_meta bytes)) k
            (λ got k'. (got ≡ encode_meta (meta_of r)) × HoldsRecs k' rs)
            (λ m k'. (m ≡ meta_of r) × HoldsRecs k' rs)
            (read-Gives k rs o 16 (encode_meta (meta_of r)) h (omega arith) (slice-meta rs o r a))
            (λ got k' (q, w).
              let d = ap decode_meta q ∙ decode_meta-encode_meta (meta_of r) fits in
              inr (
                meta_of r,
                k',
                ap (λ x. check_meta log o x k') d ∙ check_meta_ok k' w,
                (refl, w),
              )) in
        rw (read_meta, a1, t, if◌then◌else◌) g

    -- What is read into buffers of these lengths
    module _ (key_len val_len : ℕ) where
      abbrev nk : ℕ
      nk = min (length r.key) key_len

      abbrev nv : ℕ
      nv = min (length r.val) val_len

      read_val-Gives :
          (k : Kvraw S)
          → HoldsRecs k rs
          → Gives ok.Fails
              (read_val log val_len o (meta_of r) (take nk r.key))
              k
              (λ f k'. (f ≡ found_at r key_len val_len) × HoldsRecs k' rs)
      unfolding read_val
      read_val-Gives k h =
          let e = record_end rs o r a in
          let s = h.small in
          let a1 = add64_exact o 16 (omega arith) in
          let a2 = add64_exact (o + 16) (length r.key) (omega arith) in
          let b : add64 (add64 o 16) (length r.key) ≡ o + 16 + length r.key =
            ap (λ x. add64 x (length r.key)) a1 ∙ a2 in
          let g =
            read-Gives k rs (o + 16 + length r.key) nv (take nv r.val) h (omega arith)
              (slice-val rs o r a nv (omega arith)) in
          or_return-Gives (on_log log (log.read (add64 (add64 o 16) (length r.key)) nv))
            (λ val. pure (some (made val))) k (λ got k'. (got ≡ take nv r.val) × HoldsRecs k' rs)
            (λ f k'. (f ≡ found_at r key_len val_len) × HoldsRecs k' rs) (rw b g)
            (λ val k' (q, w). inr (made val, k', refl, (ap made q, w)))
        where
          made : List ℕ → Found
          made val = record {
            key = take nk r.key;
            val = val;
            key_len = length r.key;
            val_len = length r.val;
            off = r.off;
          }

      read_key-Gives :
          (k : Kvraw S)
          → HoldsRecs k rs
          → Gives ok.Fails
              (read_key log key_len val_len o (meta_of r))
              k
              (λ f k'. (f ≡ found_at r key_len val_len) × HoldsRecs k' rs)
      unfolding read_key
      read_key-Gives k h =
          let e = record_end rs o r a in
          let s = h.small in
          let a1 = add64_exact o 16 (omega arith) in
          let g =
            read-Gives k rs (o + 16) nk (take nk r.key) h (omega arith)
              (slice-key rs o r a nk (omega arith)) in
          or_return-Gives (on_log log (log.read (add64 o 16) nk))
            (read_val log val_len o (meta_of r)) k
            (λ got k'. (got ≡ take nk r.key) × HoldsRecs k' rs)
            (λ f k'. (f ≡ found_at r key_len val_len) × HoldsRecs k' rs) (rw a1 g)
            (λ key k' (q, w). rw q (read_val-Gives k' w))

    -- A lookup at the offset of a record gives as much of its key and value as the buffers hold, their
    -- full lengths, and the offset of the record before it; it returns -1 only on a log whose reads can
    -- fail. `o` is not 0, and the log holds fewer than 2 ^ 63 bytes.
    pub kvraw_lookup-Gives :
        (k : Kvraw S) (key_len val_len : ℕ)
        → HoldsRecs k rs
        → o ≢ 0
        → Gives ok.Fails
            (kvraw_lookup log key_len val_len o)
            k
            (λ f k'. (f ≡ found_at r key_len val_len) × HoldsRecs k' rs)
    unfolding kvraw_lookup
    kvraw_lookup-Gives k key_len val_len h nz =
        rw (==_of_ne o 0 nz, if◌then◌else◌)
          (or_return-Gives (read_meta log o) (read_key log key_len val_len o) k
            (λ m k'. (m ≡ meta_of r) × HoldsRecs k' rs)
            (λ f k'. (f ≡ found_at r key_len val_len) × HoldsRecs k' rs) (read_meta-Gives k h)
            (λ m k' (q, w). rw q (read_key-Gives key_len val_len k' w)))
