-- ===== src/Kv/Raw.antt =====
-- project-4/kvraw.c: records of a key and a value, one behind the other in the log. `malloc` is taken to
-- succeed.
pub mod Records
pub mod Lookup
pub mod Append
use Prim.Native.Nat.{min}
use os_cs238p_proj.Common.{
  ℕ, ◌+◌, ◌==◌, ltb, not, ◌||◌, Option, none, some, List, [], ◌∷◌, length, if◌then◌else◌,
}
use os_cs238p_proj.Common.Word.{add64}
use os_cs238p_proj.Common.Outcome.{
  M, Outcome, ret, abort, out_of_fuel, pure, stop, ◌>>=◌, ◌>>◌, or_return,
}
use os_cs238p_proj.Kv.Log.{Log}
use os_cs238p_proj.Kv.Meta.{Meta, meta_len, encode_meta, decode_meta}

-- `struct kvraw`
pub record Kvraw (S : Type 0) : Type 0 where
  pub size : ℕ
  pub logfs : S

-- What `kvraw_lookup` stores through its pointers: the bytes read, and the fields of the record
pub record Found : Type 0 where
  pub key : List ℕ
  pub val : List ℕ
  pub key_len : ℕ
  pub val_len : ℕ
  pub off : ℕ

-- 'K' and 'V'
abbrev pub mark_k : ℕ
mark_k = 75

abbrev pub mark_v : ℕ
mark_v = 86

module _ {S : Type 0} (log : Log S) where
  abbrev pub on_log : {A : Type 0} → M S A → M (Kvraw S) A
  on_log m k = elim (m k.logfs) [
    | ret (a, s) ↦ ret (a, record k { logfs = s })
    | abort ↦ abort
    | out_of_fuel ↦ out_of_fuel
  ]

  -- The second half of `read_meta`
  unfoldable pub check_meta : ℕ → Meta → M (Kvraw S) (Option Meta)
  check_meta off meta k =
      if not (meta.mark0 == mark_k)
        || not (meta.mark1 == mark_v)
        || ltb k.size (add64 (add64 (add64 off meta_len) meta.key_len) meta.val_len)
      then ret (none, k)
      else ret (some meta, k)

  unfoldable pub read_meta : ℕ → M (Kvraw S) (Option Meta)
  read_meta off k =
      if ltb k.size (add64 off meta_len)
      then ret (none, k)
      else or_return (on_log (log.read off meta_len)) (λ bytes. check_meta off (decode_meta bytes))
          k

  -- The read of the value, and what is stored then
  unfoldable pub read_val : ℕ → ℕ → Meta → List ℕ → M (Kvraw S) (Option Found)
  read_val val_len off meta key =
      or_return
        (on_log (log.read (add64 (add64 off meta_len) meta.key_len) (min meta.val_len val_len)))
        λ val. pure (
          some (record {
            key = key;
            val = val;
            key_len = meta.key_len;
            val_len = meta.val_len;
            off = meta.off;
          }))

  unfoldable pub read_key : ℕ → ℕ → ℕ → Meta → M (Kvraw S) (Option Found)
  read_key key_len val_len off meta =
      or_return (on_log (log.read (add64 off meta_len) (min meta.key_len key_len)))
        (read_val val_len off meta)

  -- `kvraw_lookup` with buffers of the given lengths
  unfoldable pub kvraw_lookup : ℕ → ℕ → ℕ → M (Kvraw S) (Option Found)
  kvraw_lookup key_len val_len off =
      if off == 0 then stop else or_return (read_meta off) (read_key key_len val_len off)

  -- The end of `kvraw_append`
  abbrev pub count_record : ℕ → ℕ → M (Kvraw S) ℕ
  count_record off n k = ret (off, record k { size = add64 k.size n })

  unfoldable pub write_record : List ℕ → List ℕ → ℕ → M (Kvraw S) ℕ
  write_record key val off k =
      (do
        on_log (
            log.append (
              encode_meta (record {
                mark0 = mark_k;
                mark1 = mark_v;
                off = off;
                key_len = length key;
                val_len = length val;
              })))
        on_log (log.append key)
        on_log (log.append val)
        count_record k.size (add64 (add64 meta_len (length key)) (length val)))
        k

  -- The new value of `*off`
  unfoldable pub kvraw_append : List ℕ → List ℕ → ℕ → M (Kvraw S) ℕ
  kvraw_append key val off k =
      if length key == 0 || ltb 0xffff (length key) || ltb 0xffff_ffff (length val)
      then abort
      else write_record key val off k

  -- `kvraw_open`, where `logfs_open` gives the state or NULL for a path
  unfoldable pub kvraw_open : (List ℕ → Option S) → List ℕ → Outcome (Option (Kvraw S))
  kvraw_open logfs_open path = if length path == 0 then abort else elim (logfs_open path) [
    | none ↦ ret none
    | some s ↦ elim (kvraw_append (0 ∷ []) (0 ∷ []) 0 (record { size = 0; logfs = s })) [
      | ret (off, k) ↦ ret (some k)
      | abort ↦ abort
      | out_of_fuel ↦ out_of_fuel
    ]
  ]
