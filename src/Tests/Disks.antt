-- ===== src/Tests/Disks.antt =====
-- project-4 on a disk that is a memory of bytes.
use os_cs238p_proj.Common.{
  ℕ, zero, suc, ◌+◌, ◌-◌, ◌%◌, ◌<◌, ◌≤◌, ◌==◌, ◌≡◌, ◌≢◌, ◌⊎◌, inl, inr, refl, ap, sym, ◌∙◌, subst,
  arith, Bool, true, false, Bool-cases, ==_iff, ==_of_ne, if◌then◌else◌, if_true, if_false, Option,
  some, List, [], ◌∷◌, ◌++◌, length, map, slice, leb, replicate,
}
use os_cs238p_proj.Common.Int.{ℤ, pos, negsuc}
use os_cs238p_proj.Common.Outcome.{M, Outcome, ret, abort, out_of_fuel, Gives, >>=-ret, >>=-abort}
use os_cs238p_proj.Common.Word.{add64, sub64}
use os_cs238p_proj.Kv.Log.{log_max}
use os_cs238p_proj.Kv.Device.{
  Disk, Device, Stat, regular, device_open, device_write, is_outside, geometry, check_geometry,
}
use os_cs238p_proj.Kv.Device.Access.{IsDisk}
use os_cs238p_proj.Kv.Logfs.{
  Block, Logfs, write_to_device, write_block, take_block, logfs_open, logfs_append, logfs_read,
  forget_current, block_start, append_loop, append_block, fill_block, overwrite, write_to_queue,
  try_put, put_block, fresh_block, append_rest, read_loop, read_mem, load_block, check_in_wcache,
  scan,
}
use os_cs238p_proj.Index.{
  index_open, index_update, update, grow, is_loaded, move_all, create, insert_at, probe, slot,
  store, key_of, hash, mix_all, mix, stir, rotate, extend_sign,
}
use os_cs238p_proj.Kv.Meta.{encode_meta, decode_meta, to_bytes, from_bytes}
use os_cs238p_proj.Kv.Raw.{
  kvraw_open, kvraw_append, write_record, kvraw_lookup, read_meta, read_key, read_val, check_meta,
}
use os_cs238p_proj.Kv.Raw.Records.{encode_all}
use os_cs238p_proj.Kv.Db.{
  Kvdb, Reply, kvdb_open, kvdb_insert, kvdb_replace, kvdb_lookup, mutate, mutate_hit, after_chain,
  chain_lookup, compare_key, settle, append_at, ref_of, bytes_eq,
}
use os_cs238p_proj.Kv.Db.History.{written}
use os_cs238p_proj.Kv.Db.Api.{Op, op_insert, op_replace, call}
use os_cs238p_proj.Kv.Db.Refine.{calls, spec_calls, NoFailure, ops_size}
use os_cs238p_proj.Kv.Stack.{open_log, Answers, database-Refines}
use os_cs238p_proj.Kv.Logfs.Read.{IsLogfs}
use os_cs238p_proj.Kv.Logfs.Reading.{logfs_read-Gives}
use os_cs238p_proj.Kv.Logfs.Rounds.{Rounds, none_left, round}
use os_cs238p_proj.Kv.Logfs.Fill.{DoesRounds}
use os_cs238p_proj.Kv.Logfs.Api.{
  logfs_log, AppendsTo, logfs_append-AppendsTo, logfs_append-IsLogfs, logfs_open-IsLogfs,
}

abbrev Memory : Type 0
Memory = ℕ → ℕ

abbrev put_byte : Memory → ℕ → ℕ → Memory
put_byte s off b x = if x == off then b else s x

write_bytes : List ℕ → ℕ → Memory → Memory
write_bytes [] off s = s
write_bytes (b ∷ bs) off s = put_byte (write_bytes bs (off + 1) s) off b

read_bytes : ℕ → ℕ → Memory → List ℕ
read_bytes zero off s = []
read_bytes (suc n) off s = s off ∷ read_bytes n (off + 1) s

length-read_bytes : (n off : ℕ) (s : Memory) → length (read_bytes n off s) ≡ n
unfolding read_bytes
length-read_bytes zero off s = refl
length-read_bytes (suc n) off s = ap suc (length-read_bytes n (off + 1) s)

-- A byte before or behind what is written
write_bytes_apart :
    (bs : List ℕ) (off : ℕ) (s : Memory) (x : ℕ)
    → (x < off) ⊎ (off + length bs ≤ x)
    → write_bytes bs off s x ≡ s x
unfolding write_bytes
write_bytes_apart [] off s x h = refl
write_bytes_apart (b ∷ bs) off s x (inl h) =
    if_false (x == off) _ _ (==_of_ne x off (λ p. omega arith))
    ∙ write_bytes_apart bs (off + 1) s x (inl (omega arith))
write_bytes_apart (b ∷ bs) off s x (inr h) =
    if_false (x == off) _ _ (==_of_ne x off (λ p. omega arith))
    ∙ write_bytes_apart bs (off + 1) s x (inr (omega arith))

read_bytes-same :
    (n off : ℕ) (s t : Memory)
    → ((x : ℕ) → off ≤ x → x < off + n → s x ≡ t x)
    → read_bytes n off s ≡ read_bytes n off t
unfolding read_bytes
read_bytes-same zero off s t h = refl
read_bytes-same (suc n) off s t h = λ i.
    h off (omega arith) (omega arith) i
    ∷ read_bytes-same n (off + 1) s t (λ x le lt. h x (omega arith) (omega arith)) i

read_bytes-write_bytes :
    (bs : List ℕ) (off : ℕ) (s : Memory) → read_bytes (length bs) off (write_bytes bs off s) ≡ bs
unfolding read_bytes write_bytes
read_bytes-write_bytes [] off s = refl
read_bytes-write_bytes (b ∷ bs) off s = λ i.
    if_true (off == off) b (write_bytes bs (off + 1) s off) ((==_iff off off).1 refl) i
    ∷ (read_bytes-same (length bs) (off + 1) (put_byte (write_bytes bs (off + 1) s) off b)
            (write_bytes bs (off + 1) s)
            (λ x le lt. if_false (x == off) _ _ (==_of_ne x off (λ p. omega arith)))
          ∙ read_bytes-write_bytes bs (off + 1) s)
        i

memory_disk : Disk Memory
unfolding read_bytes write_bytes
memory_disk = record {
  pread = λ off len s. ret (some (read_bytes len off s), s);
  pwrite = λ buf off s. ret (some (length buf), write_bytes buf off s);
}

memory_disk-here :
    (s t : Memory) (buf : List ℕ) (off : ℕ)
    → memory_disk.pwrite buf off s ≡ ret (some (length buf), t)
    → read_bytes (length buf) off t ≡ buf
unfolding memory_disk
memory_disk-here s t buf off e =
    let q : write_bytes buf off s ≡ t = cc e in
    ap (read_bytes (length buf) off) (sym q) ∙ read_bytes-write_bytes buf off s

memory_disk-other :
    (s t : Memory) (buf old : List ℕ) (off off' : ℕ) (n : Option ℕ)
    → read_bytes (length old) off' s ≡ old
    → (off' + length old ≤ off) ⊎ (off + length buf ≤ off')
    → memory_disk.pwrite buf off s ≡ ret (n, t)
    → read_bytes (length old) off' t ≡ old
unfolding memory_disk
memory_disk-other s t buf old off off' n a far e =
    let q : write_bytes buf off s ≡ t = cc e in
    ap (read_bytes (length old) off') (sym q)
    ∙ read_bytes-same (length old) off' (write_bytes buf off s) s
        (λ x le lt. write_bytes_apart buf off s x (side far x le lt))
    ∙ a
  where
    side :
        (off' + length old ≤ off) ⊎ (off + length buf ≤ off')
        → (x : ℕ) → off' ≤ x
        → x < off' + length old
        → (x < off) ⊎ (off + length buf ≤ x)
    side (inl h) x le lt = inl (omega arith)
    side (inr h) x le lt = inr (omega arith)

memory_disk-read :
    (s : Memory) (old : List ℕ) (off : ℕ)
    → read_bytes (length old) off s ≡ old
    → Gives ⊥ (memory_disk.pread off (length old)) s (λ got t.
      (length old ≡ length got → got ≡ old)
      × (length old ≢ length got → ⊥)
      × ((off' : ℕ) (old' : List ℕ)
          → read_bytes (length old') off' s ≡ old'
          → read_bytes (length old') off' t ≡ old'))
unfolding memory_disk
memory_disk-read s old off a = inr (
  read_bytes (length old) off s,
  s,
  refl,
  ((λ _. a), (λ ne. ne (sym (length-read_bytes (length old) off s))), (λ off' old' b. b)),
)

abbrev memory_disk-IsDisk : IsDisk memory_disk
memory_disk-IsDisk = record {
  At = λ s off bytes. read_bytes (length bytes) off s ≡ bytes;
  Fails = ⊥;
  pwrite-here = memory_disk-here;
  pwrite-other = memory_disk-other;
  pread-Gives = memory_disk-read;
}

-- The other thread does nothing.
abbrev rests : M (Logfs Memory) (Unit {0})
rests fs = ret (tt, fs)

rests-DoesRounds : DoesRounds memory_disk rests
rests-DoesRounds fs fs' e = let q : fs ≡ fs' = cc e in subst (Rounds memory_disk fs) q none_left

goes_on : (fs : Logfs Memory) → (fs' : Logfs Memory) × (rests fs ≡ ret (tt, fs'))
goes_on fs = (fs, refl)

-- Or it writes a block of the queue, where there is one.
abbrev works : M (Logfs Memory) (Unit {0})
works fs = if fs.active_blks == 0 then ret (tt, fs) else write_to_device memory_disk fs

works-DoesRounds : DoesRounds memory_disk works
works-DoesRounds fs fs' e = elim (Bool-cases (fs.active_blks == 0)) [
  | inl g ↦
      let q : fs ≡ fs' = cc (sym (if_true (fs.active_blks == 0) _ _ g) ∙ e) in
      subst (Rounds memory_disk fs) q none_left
  | inr g ↦ round none_left (sym (if_false (fs.active_blks == 0) _ _ g) ∙ e)
]

-- On this disk a round ends, and leaves one block less.
works-leaves :
    (fs : Logfs Memory)
    → fs.done ≡ false
    → (fs.active_blks == 0) ≡ false
    → (works fs ≡ abort)
      ⊎ ((d : Device Memory) × (works fs
            ≡ ret (
              tt,
              record fs { device = d; tail = (fs.tail + 1) % 32; active_blks = fs.active_blks - 1 },
            )))
unfolding write_to_device take_block write_block device_write memory_disk
works-leaves fs e g = elim (Bool-cases (is_outside memory_disk b.blk (length b.buf) fs.device)) [
  | inl o ↦ inl (to_block ∙ ap after (if_true _ _ _ o))
  | inr o ↦ inr (
    record fs.device { disk = write_bytes b.buf b.blk fs.device.disk },
    to_block
        ∙ ap after (if_false _ _ _ o)
        ∙ ap done ((==_iff (length b.buf) (length b.buf)).1 refl),
  )
]
  where
    b : Block
    b = fs.wcache fs.tail

    fs1 : Logfs Memory
    fs1 = record fs { tail = (fs.tail + 1) % 32; active_blks = fs.active_blks - 1 }

    after : Outcome (Bool × Device Memory) → Outcome (Unit {0} × Logfs Memory)
    after (ret (true, d)) = ret (tt, record fs1 { device = d })
    after (ret (false, d)) = abort
    after abort = abort
    after out_of_fuel = out_of_fuel

    done : Bool → Outcome (Unit {0} × Logfs Memory)
    done x = after (ret (x, record fs.device { disk = write_bytes b.buf b.blk fs.device.disk }))

    to_block : works fs ≡ after (device_write memory_disk b.buf b.blk fs.device)
    to_block =
        if_false (fs.active_blks == 0) _ _ g
        ∙ if_false fs.done _ _ e
        ∙ if_false (fs.active_blks == 0) _ _ g

no_wait :
    (buf : List ℕ) (blk : ℕ) (fs : Logfs Memory)
    → fs.done ≡ false
    → fs.active_blks ≤ 32
    → write_to_queue memory_disk works buf blk fs ≢ out_of_fuel
unfolding write_to_queue
no_wait buf blk fs e le h = elim (Bool-cases (fs.active_blks == 0)) [
  | inl g ↦
      let z = (==_iff fs.active_blks 0).0 g in
      has_space fs (if_true (fs.active_blks == 0) _ _ g) (omega arith)
  | inr g ↦ elim (works-leaves fs e g) [
    | inl a ↦ cc (sym (>>=-abort works (λ _. try_put buf blk) fs a) ∙ h)
    | inr (d, a) ↦
        let nz : fs.active_blks ≢ 0 = λ q. cc (sym g ∙ (==_iff fs.active_blks 0).1 q) in
        has_space _ a (omega (arith, nz))
  ]
]
  where
    has_space : (fs1 : Logfs Memory) → works fs ≡ ret (tt, fs1) → fs1.active_blks < 32 → ⊥
    has_space fs1 a lt =
        let q : leb 32 fs1.active_blks ≡ false = ground arith in
        let p : try_put buf blk fs1 ≡ ret (tt, put_block buf blk fs1) =
          if_false (leb 32 fs1.active_blks) _ _ q in
        cc (sym (>>=-ret works (λ _. try_put buf blk) fs fs1 tt a ∙ p) ∙ h)

abbrev open_any : List ℕ → Option (ℕ × Memory)
open_any path = some (3, λ x. 0)

abbrev stat_any : Memory → Option Stat
stat_any s = some (regular 1000 16)

abbrev some_path : List ℕ
some_path = 47 ∷ []

open_run : Outcome (Option (Logfs Memory))
unfolding logfs_open device_open geometry check_geometry
open_run = logfs_open memory_disk open_any stat_any [] some_path

abbrev opened : Logfs Memory
opened = record {
  device = record { disk = λ x. 0; size = 992; block = 16 };
  done = false;
  cur_blk = replicate 16 0;
  cur_off = 0;
  off = 0;
  blk_sz = 16;
  available = 16;
  head = 0;
  tail = 0;
  active_blks = 0;
  wcache = λ i. record { blk = 3; buf = [] };
  rcache = λ i. record { blk = 3; buf = [] };
}

open_ret : logfs_open memory_disk open_any stat_any [] some_path ≡ ret (some opened)
unfolding open_run logfs_open device_open geometry check_geometry
open_ret = refl

opened-IsLogfs : IsLogfs memory_disk memory_disk-IsDisk opened []
opened-IsLogfs =
    logfs_open-IsLogfs memory_disk memory_disk-IsDisk open_any stat_any [] some_path (omega arith)
      opened open_ret (omega arith)

abbrev twenty : List ℕ
twenty = replicate 10 1 ++ replicate 10 2

-- Two blocks are filled: the first is on the disk when the second is put into the queue.
abbrev forty : List ℕ
forty = replicate 20 1 ++ replicate 20 2

logfs_append-AppendsTo_example :
    AppendsTo memory_disk works memory_disk-IsDisk works-DoesRounds forty
      (logfs_append memory_disk works forty opened)
logfs_append-AppendsTo_example =
    logfs_append-AppendsTo memory_disk works memory_disk-IsDisk works-DoesRounds opened [] forty
      opened-IsLogfs (omega arith) refl no_wait

append_run : Outcome (Unit {0} × Logfs Memory)
unfolding logfs_append forget_current block_start append_loop append_block fill_block overwrite
    write_to_queue put_block fresh_block append_rest add64 sub64
append_run = logfs_append memory_disk rests twenty opened

filled : Logfs Memory
unfolding append_run
filled = elim append_run [ ret (_, fs) ↦ fs | _ ↦ opened ]

append_ret : logfs_append memory_disk rests twenty opened ≡ ret (tt, filled)
unfolding filled append_run
append_ret = refl

filled-IsLogfs : IsLogfs memory_disk memory_disk-IsDisk filled twenty
filled-IsLogfs =
    logfs_append-IsLogfs memory_disk rests memory_disk-IsDisk rests-DoesRounds opened filled []
      twenty opened-IsLogfs (omega arith) append_ret

logfs_read-Gives_example :
    Gives ⊥
      (logfs_read memory_disk rests 8 11)
      filled
      (λ got fs. (got ≡ slice twenty 8 11) × IsLogfs memory_disk memory_disk-IsDisk fs twenty)
logfs_read-Gives_example =
    logfs_read-Gives memory_disk memory_disk-IsDisk rests rests-DoesRounds goes_on filled twenty 8
      11 filled-IsLogfs (omega arith) (omega arith)

db_opened : Outcome (Option (Kvdb (Logfs Memory)))
unfolding open_log logfs_open device_open geometry check_geometry kvdb_open kvraw_open kvraw_append
    write_record encode_meta to_bytes logfs_append forget_current block_start append_loop
    append_block fill_block overwrite write_to_queue put_block fresh_block append_rest add64 sub64
    index_open
db_opened =
    kvdb_open (logfs_log memory_disk rests) (open_log memory_disk rests open_any stat_any [])
      some_path

new_db : Kvdb (Logfs Memory)
unfolding db_opened index_open
new_db = elim db_opened [
  | ret (some db) ↦ db
  | _ ↦ record {
    size = 0;
    waste = 0;
    kvraw = record { size = 0; logfs = opened };
    index = index_open;
  }
]

db_ret :
    kvdb_open
      (logfs_log memory_disk rests)
      (open_log memory_disk rests open_any stat_any [])
      some_path
    ≡ ret (some new_db)
unfolding db_opened new_db
db_ret = refl

abbrev dog : List ℕ
dog = 100 ∷ 111 ∷ 103 ∷ []

abbrev some_ops : List Op
some_ops =
    op_insert dog (1 ∷ 2 ∷ 3 ∷ []) ∷ op_insert dog (4 ∷ []) ∷ op_replace dog (5 ∷ 6 ∷ []) ∷ []

ops_run : Outcome (List Reply × Kvdb (Logfs Memory))
unfolding new_db calls call kvdb_insert kvdb_replace mutate mutate_hit after_chain chain_lookup
    compare_key settle append_at ref_of bytes_eq kvraw_lookup read_meta read_key read_val check_meta
    decode_meta from_bytes kvraw_append write_record encode_meta to_bytes logfs_append
    forget_current block_start append_loop append_block fill_block overwrite write_to_queue
    put_block fresh_block append_rest logfs_read read_loop read_mem load_block check_in_wcache scan
    add64 sub64 index_open index_update update grow is_loaded move_all create insert_at probe slot
    store key_of hash mix_all mix stir rotate extend_sign
ops_run = calls (logfs_log memory_disk rests) some_ops new_db

codes : Outcome (List Reply × Kvdb (Logfs Memory)) → List ℤ
codes (ret (rs, db)) = map (λ r. r.code) rs
codes _ = []

codes_test : codes ops_run ≡ pos 0 ∷ pos 1 ∷ pos 0 ∷ []
unfolding codes ops_run
codes_test = refl

ops_result : List Reply × Kvdb (Logfs Memory)
unfolding ops_run
ops_result = elim ops_run [ ret r ↦ r | _ ↦ ([], new_db) ]

ops_ret : calls (logfs_log memory_disk rests) some_ops new_db ≡ ret (ops_result.0, ops_result.1)
unfolding ops_result
ops_ret = refl

no_failure : NoFailure ops_result.0
unfolding ops_result
no_failure = (differ, (differ, (differ, tt)))
  where
    differ : {n : ℕ} → pos n ≡ negsuc 0 → ⊥
    differ e = cc e

ops_room : length (encode_all (written [])) + ops_size some_ops < log_max
unfolding written encode_all encode_meta to_bytes
ops_room = omega arith

blocks_of_16 :
    (fs : Logfs Memory)
    → logfs_open memory_disk open_any stat_any [] some_path ≡ ret (some fs)
    → 3 < fs.blk_sz
blocks_of_16 fs e =
    let q : opened ≡ fs = cc (sym open_ret ∙ e) in subst (λ x. 3 < x.blk_sz) q (omega arith)

database-Refines_example :
    (map (λ reply. reply.code) ops_result.0 ≡ (spec_calls some_ops (λ key. [])).0)
    × Answers memory_disk rests open_any stat_any [] ⊥ 9
        ((spec_calls some_ops (λ key. [])).1 dog)
        (kvdb_lookup (logfs_log memory_disk rests) dog 9 ops_result.1)
database-Refines_example =
    database-Refines memory_disk rests open_any stat_any [] memory_disk-IsDisk rests-DoesRounds
      goes_on (omega arith) some_path blocks_of_16 some_ops new_db ops_result.1 ops_result.0 db_ret
      ops_room no_failure ops_ret dog 9 refl
