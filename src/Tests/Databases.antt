-- ===== src/Tests/Databases.antt =====
-- project-4/kvraw.c and project-4/kvdb.c on a log that is a list of bytes.
use os_cs238p_proj.Common.{
  ℕ, ◌+◌, ◌≤◌, ◌<◌, ◌≡◌, refl, ap, arith, inr, true, false, leb, if◌then◌else◌, Option, some, none,
  List, [], ◌∷◌, ◌++◌, length, slice, map,
}
use os_cs238p_proj.Common.Int.{ℤ, pos, negsuc}
use os_cs238p_proj.Common.Outcome.{Outcome, ret, Gives}
use os_cs238p_proj.Common.Word.{add64, sub64}
use os_cs238p_proj.Kv.Log.{Log, IsLog, log_max}
use os_cs238p_proj.Index.{
  index_open, index_update, update, grow, is_loaded, move_all, create, insert_at, probe, slot,
  store, key_of, hash, mix_all, mix, stir, rotate, extend_sign,
}
use os_cs238p_proj.Kv.Meta.{decode_meta-encode_meta, encode_meta, decode_meta, to_bytes, from_bytes}
use os_cs238p_proj.Kv.Raw.{
  Kvraw, kvraw_open, kvraw_append, write_record, kvraw_lookup, read_meta, read_key, read_val,
  check_meta,
}
use os_cs238p_proj.Kv.Raw.Records.{Rec, At, encode_all, rec_size}
use os_cs238p_proj.Kv.Raw.Lookup.{HoldsRecs, found_at, kvraw_lookup-Gives}
use os_cs238p_proj.Kv.Raw.Append.{kvraw_append-At}
use os_cs238p_proj.Kv.Db.History.{dummy, written}
use os_cs238p_proj.Kv.Db.Chain.{Chain, find_rec, AnswerOf, chain_lookup-Gives}
use os_cs238p_proj.Kv.Db.Lookup.{LookedUp, kvdb_lookup-LookedUp}
use os_cs238p_proj.Kv.Db.{
  Kvdb, Reply, kvdb_open, kvdb_insert, kvdb_remove, kvdb_update, kvdb_replace, kvdb_lookup, mutate,
  mutate_hit, after_chain, chain_lookup, compare_key, settle, append_at, ref_of, bytes_eq,
}
use os_cs238p_proj.Kv.Db.Api.{Op, view, op_remove, op_insert, op_update, op_replace, IsDb, call}
use os_cs238p_proj.Kv.Db.Refine.{calls, spec_calls, NoFailure, ops_size, calls-Refines}
use os_cs238p_proj.Kv.Db.Open.{kvdb_open-IsDb}

abbrev list_log : Log (List ℕ)
list_log = record {
  append = λ new bytes. ret (tt, bytes ++ new);
  read = λ off len bytes.
      if leb (off + len) (length bytes)
      then ret (some (slice bytes off len), bytes)
      else ret (none, bytes);
}

list_log-append :
    (s t bytes new : List ℕ) → s ≡ bytes → list_log.append new s ≡ ret (tt, t) → t ≡ bytes ++ new
list_log-append s t bytes new h e = cc (e, h)

list_log-read :
    (s bytes : List ℕ) (off len : ℕ)
    → s ≡ bytes
    → off + len ≤ length bytes
    → Gives ⊥ (list_log.read off len) s (λ got t. (got ≡ slice bytes off len) × (t ≡ bytes))
list_log-read s bytes off len h lt =
    let t : leb (off + len) (length s) ≡ true = ground (arith, ap length h, lt) in
    inr (slice s off len, s, rw (t, if◌then◌else◌) refl, (ap (λ x. slice x off len) h, h))

abbrev list_log-IsLog : IsLog list_log
list_log-IsLog = record {
  Holds = λ s bytes. s ≡ bytes;
  Fails = ⊥;
  append-Holds = λ s t bytes new h lt e. list_log-append s t bytes new h e;
  read-Holds = λ s bytes off len h small lt. list_log-read s bytes off len h lt;
}

abbrev cat : List ℕ
cat = 99 ∷ 97 ∷ 116 ∷ []

-- A key of more than eight bytes
abbrev long_key : List ℕ
long_key = 1 ∷ 2 ∷ 3 ∷ 4 ∷ 5 ∷ 6 ∷ 7 ∷ 8 ∷ 9 ∷ 10 ∷ []

abbrev some_path : List ℕ
some_path = 47 ∷ []

open_run : Outcome (Option (Kvdb (List ℕ)))
unfolding kvdb_open kvraw_open kvraw_append write_record encode_meta to_bytes add64 index_open
open_run = kvdb_open list_log (λ path. some []) some_path

new_db : Kvdb (List ℕ)
unfolding open_run
new_db = elim open_run [
  | ret (some db) ↦ db
  | _ ↦ record { size = 0; waste = 0; kvraw = record { size = 0; logfs = [] }; index = index_open }
]

abbrev some_ops : List Op
some_ops =
    op_insert cat (7 ∷ 8 ∷ [])
    ∷ op_insert cat (9 ∷ [])
    ∷ op_update long_key (5 ∷ [])
    ∷ op_replace long_key (6 ∷ [])
    ∷ op_remove cat (some 9) true
    ∷ op_remove cat none false
    ∷ []

ops_run : Outcome (List Reply × Kvdb (List ℕ))
unfolding open_run new_db calls call kvdb_insert kvdb_remove kvdb_update kvdb_replace mutate
    mutate_hit after_chain chain_lookup compare_key settle append_at ref_of bytes_eq kvraw_lookup
    read_meta read_key read_val check_meta decode_meta from_bytes kvraw_append write_record
    encode_meta to_bytes add64 sub64 index_open index_update update grow is_loaded move_all create
    insert_at probe slot store key_of hash mix_all mix stir rotate extend_sign
ops_run = calls list_log some_ops new_db

codes : Outcome (List Reply × Kvdb (List ℕ)) → List ℤ × (ℕ × ℕ)
codes (ret (rs, db)) = (map (λ r. r.code) rs, (db.size, db.waste))
codes _ = ([], (0, 0))

ops_test : codes ops_run ≡ (pos 0 ∷ pos 1 ∷ pos 0 ∷ pos 0 ∷ pos 0 ∷ pos 1 ∷ [], (1, 2))
unfolding ops_run codes
ops_test = refl

decode_meta-encode_meta_example :
    decode_meta
      (encode_meta (record { mark0 = 75; mark1 = 86; off = 0x1234; key_len = 3; val_len = 2 }))
    ≡ record { mark0 = 75; mark1 = 86; off = 0x1234; key_len = 3; val_len = 2 }
decode_meta-encode_meta_example =
    decode_meta-encode_meta
      (record { mark0 = 75; mark1 = 86; off = 0x1234; key_len = 3; val_len = 2 })
      (record { off = omega arith; key_len = omega arith; val_len = omega arith })

abbrev cat_rec : Rec
cat_rec = record { key = cat; val = 7 ∷ 8 ∷ []; off = 0 }

abbrev two_recs : List Rec
two_recs = dummy ∷ cat_rec ∷ []

raw_at : List Rec → Kvraw (List ℕ)
unfolding encode_all encode_meta to_bytes
raw_at rs = record { size = length (encode_all rs); logfs = encode_all rs }

raw_at-HoldsRecs :
    (rs : List Rec)
    → length (encode_all rs) < log_max
    → HoldsRecs list_log list_log-IsLog (raw_at rs) rs
unfolding raw_at
raw_at-HoldsRecs rs h = record { bytes = refl; size = refl; small = h }

cat_rec-At : At two_recs 18 cat_rec
unfolding encode_all encode_meta to_bytes
cat_rec-At = record {
  before = dummy ∷ [];
  after = [];
  split = refl;
  offset = refl;
  ok = record { key = omega arith; val = omega arith; off = omega arith };
}

short_log : length (encode_all two_recs) < log_max
unfolding encode_all encode_meta to_bytes
short_log = omega arith

kvraw_lookup-Gives_example :
    Gives ⊥
      (kvraw_lookup list_log 256 1 18)
      (raw_at two_recs)
      (λ f k. (f ≡ found_at cat_rec 256 1) × HoldsRecs list_log list_log-IsLog k two_recs)
kvraw_lookup-Gives_example =
    kvraw_lookup-Gives list_log list_log-IsLog two_recs 18 cat_rec cat_rec-At (raw_at two_recs) 256
      1 (raw_at-HoldsRecs two_recs short_log) (λ e. omega arith)

append_run : Outcome (ℕ × Kvraw (List ℕ))
unfolding raw_at kvraw_append write_record encode_all encode_meta to_bytes add64
append_run = kvraw_append list_log cat (7 ∷ 8 ∷ []) 0 (raw_at (dummy ∷ []))

append_ret :
    kvraw_append list_log cat (7 ∷ 8 ∷ []) 0 (raw_at (dummy ∷ [])) ≡ ret (18, raw_at two_recs)
unfolding append_run raw_at
append_ret = refl

one_short : length (encode_all (dummy ∷ [])) < log_max
unfolding encode_all encode_meta to_bytes
one_short = omega arith

room : length (encode_all (dummy ∷ [])) + rec_size cat_rec < log_max
unfolding encode_all encode_meta to_bytes
room = omega arith

ops_room : length (encode_all (written [])) + ops_size some_ops < log_max
unfolding written encode_all encode_meta to_bytes
ops_room = omega arith

kvraw_append-At_example :
    HoldsRecs list_log list_log-IsLog (raw_at two_recs) two_recs
    × At two_recs 18 cat_rec
    × (18 ≡ length (encode_all (dummy ∷ [])))
kvraw_append-At_example =
    kvraw_append-At list_log list_log-IsLog (raw_at (dummy ∷ [])) (raw_at two_recs) (dummy ∷ []) cat
      (7 ∷ 8 ∷ []) 0 18 (raw_at-HoldsRecs (dummy ∷ []) one_short) (omega arith) room append_ret

cat_chain : Chain two_recs 18 (cat_rec ∷ [])
unfolding Chain
cat_chain = ((λ e. omega arith), cat_rec-At, omega arith, refl)

chain_lookup-Gives_example : Gives ⊥ (chain_lookup list_log 19 cat 1 18) (raw_at two_recs) (λ hit k.
    AnswerOf 1 (find_rec cat (cat_rec ∷ [])) hit × HoldsRecs list_log list_log-IsLog k two_recs)
chain_lookup-Gives_example =
    chain_lookup-Gives list_log list_log-IsLog two_recs cat 19 1 18 (cat_rec ∷ []) (raw_at two_recs)
      (raw_at-HoldsRecs two_recs short_log) cat_chain (omega arith)

open_ret : kvdb_open list_log (λ path. some []) some_path ≡ ret (some new_db)
unfolding new_db
open_ret = refl

starts_empty : (s : List ℕ) → some [] ≡ some s → s ≡ []
starts_empty s e = cc e

new_IsDb : IsDb list_log list_log-IsLog new_db []
new_IsDb =
    kvdb_open-IsDb list_log list_log-IsLog (λ path. some []) some_path starts_empty new_db open_ret

kvdb_lookup-LookedUp_example :
    LookedUp list_log list_log-IsLog new_db [] cat 5 (kvdb_lookup list_log cat 5 new_db)
kvdb_lookup-LookedUp_example =
    kvdb_lookup-LookedUp list_log list_log-IsLog new_db [] cat 5 new_IsDb.valid refl

ops_result : List Reply × Kvdb (List ℕ)
unfolding ops_run
ops_result = elim ops_run [ ret r ↦ r | _ ↦ ([], new_db) ]

ops_ret : calls list_log some_ops new_db ≡ ret (ops_result.0, ops_result.1)
unfolding ops_result
ops_ret = refl

no_failure : NoFailure ops_result.0
unfolding ops_result
no_failure = (differ, (differ, (differ, (differ, (differ, (differ, tt))))))
  where
    differ : {n : ℕ} → pos n ≡ negsuc 0 → ⊥
    differ e = cc e

calls-Refines_example :
    (map (λ reply. reply.code) ops_result.0 ≡ (spec_calls some_ops (view [])).0)
    × (hist : List Rec) × (view hist ≡ (spec_calls some_ops (view [])).1)
    × IsDb list_log list_log-IsLog ops_result.1 hist
calls-Refines_example =
    calls-Refines list_log list_log-IsLog some_ops new_db ops_result.1 [] ops_result.0 new_IsDb
      ops_room no_failure ops_ret
