-- ===== src/Kv/Stack.antt =====
-- project-4 as a whole: the database of kvdb.c on the log of logfs.c on a device.
use os_cs238p_proj.Common.{
  ℕ, ◌+◌, ◌^◌, ◌<◌, ◌≡◌, ◌⊎◌, inl, inr, ap, ◌∙◌, false, Option, none, some, List, [], length, map,
}
use os_cs238p_proj.Common.Int.{negsuc}
use os_cs238p_proj.Common.Outcome.{M, Outcome, ret, abort, out_of_fuel}
use os_cs238p_proj.Kv.Log.{log_max}
use os_cs238p_proj.Kv.Device.{Disk, Stat}
use os_cs238p_proj.Kv.Device.Access.{IsDisk}
use os_cs238p_proj.Kv.Logfs.{Logfs, logfs_open}
use os_cs238p_proj.Kv.Logfs.Fill.{DoesRounds}
use os_cs238p_proj.Kv.Logfs.Read.{IsLogfs}
use os_cs238p_proj.Kv.Logfs.Api.{logfs_log, logfs_laws, logfs_open-IsLogfs}
use os_cs238p_proj.Kv.Raw.Records.{encode_all}
use os_cs238p_proj.Kv.Db.{Kvdb, Reply, code_only, bad_key, kvdb_open, kvdb_lookup}
use os_cs238p_proj.Kv.Db.Chain.{find_rec}
use os_cs238p_proj.Kv.Db.History.{written}
use os_cs238p_proj.Kv.Db.Lookup.{reply_for, kvdb_lookup-LookedUp}
use os_cs238p_proj.Kv.Db.Api.{Op, KeyMap}
use os_cs238p_proj.Kv.Db.Refine.{calls, spec_calls, NoFailure, ops_size, calls-Refines}
use os_cs238p_proj.Kv.Db.Open.{kvdb_open-IsDb}

module _ {S : Type 0} (disk : Disk S) (meanwhile : M (Logfs S) (Unit {0}))
    (open_file : List ℕ → Option (ℕ × S)) (fstat : S → Option Stat) (junk : List ℕ) where
  abbrev pub opened_fs : Outcome (Option (Logfs S)) → Option (Logfs S)
  opened_fs (ret fs) = fs
  opened_fs abort = none
  opened_fs out_of_fuel = none

  -- `logfs_open`; it ends the process for the empty path alone, which `kvraw_open` does before.
  unfoldable pub open_log : List ℕ → Option (Logfs S)
  open_log path = opened_fs (logfs_open disk open_file fstat junk path)

  opened_fs-eq :
      (o : Outcome (Option (Logfs S))) (fs : Logfs S) → opened_fs o ≡ some fs → o ≡ ret (some fs)
  opened_fs-eq (ret none) fs e = absurd (cc e)
  opened_fs-eq (ret (some x)) fs e = ap ret e
  opened_fs-eq abort fs e = absurd (cc e)
  opened_fs-eq out_of_fuel fs e = absurd (cc e)

  abbrev no_keys : KeyMap
  no_keys key = []

  -- What a lookup gives for this value, or -1 where `fails`
  abbrev pub Answers : Type 0 → ℕ → List ℕ → Outcome (Reply × Kvdb (Logfs S)) → Type 0
  Answers fails val_cap val o =
      (fails × (db : Kvdb (Logfs S)) × (o ≡ ret (code_only (negsuc 0), db)))
      ⊎ ((db : Kvdb (Logfs S)) × (o ≡ ret (reply_for val_cap val, db)))

  -- A new database on a device, and calls that do not fail (-1), in any order: they return what a map from
  -- keys to values asks for, and a lookup of a key of 1 to 65535 bytes then returns the value that the map
  -- has, or -1, which it does only on a disk whose reads can fail or be short. The disk keeps
  -- what is written, the other thread does rounds, each of them whole, and does not end the process,
  -- blocks have more than 3 bytes, and the log stays below 2 ^ 63 bytes.
  pub database-Refines :
      (ok : IsDisk disk)
      → DoesRounds disk meanwhile
      → ((fs : Logfs S) → (fs' : Logfs S) × (meanwhile fs ≡ ret (tt, fs')))
      → length junk < 2 ^ 32
      → (path : List ℕ)
      → ((fs : Logfs S) → logfs_open disk open_file fstat junk path ≡ ret (some fs) → 3 < fs.blk_sz)
      → (ops : List Op) (db db' : Kvdb (Logfs S)) (replies : List Reply)
      → kvdb_open (logfs_log disk meanwhile) open_log path ≡ ret (some db)
      → length (encode_all (written [])) + ops_size ops < log_max
      → NoFailure replies
      → calls (logfs_log disk meanwhile) ops db ≡ ret (replies, db')
      → (key : List ℕ) (val_cap : ℕ) → bad_key key ≡ false
      → (map (λ reply. reply.code) replies ≡ (spec_calls ops no_keys).0)
        × Answers ok.Fails val_cap
            ((spec_calls ops no_keys).1 key)
            (kvdb_lookup (logfs_log disk meanwhile) key val_cap db')
  unfolding open_log find_rec
  database-Refines ok rounds goes_on few path large ops db db' replies opened room nf h key val_cap
        b =
      let log_ok = logfs_laws disk meanwhile ok rounds goes_on in
      let empty : (fs : Logfs S) → open_log path ≡ some fs → IsLogfs disk ok fs [] = λ fs e.
        let g = opened_fs-eq (logfs_open disk open_file fstat junk path) fs e in
        logfs_open-IsLogfs disk ok open_file fstat junk path few fs g (large fs g) in
      let start = kvdb_open-IsDb (logfs_log disk meanwhile) log_ok open_log path empty db opened in
      let (codes, hist, m, v) =
        calls-Refines (logfs_log disk meanwhile) log_ok ops db db' [] replies start room nf h in
      (
        codes,
        elim (kvdb_lookup-LookedUp (logfs_log disk meanwhile) log_ok db' hist key val_cap v.valid
            b) [
              | inl x ↦ inl x
              | inr (d, e, _, _) ↦ inr (d, e ∙ ap (λ f. ret (reply_for val_cap (f key), d)) m)
            ],
      )
