-- ===== src/Kv/Db.antt =====
-- project-4/kvdb.c: the database over the record log and the index. `val_cap` stands for `val_len ?
-- *val_len : 0`, the length of the caller's buffer. `malloc` is taken to succeed.
pub mod Chain
pub mod History
pub mod Contract
pub mod Write
pub mod Branches
pub mod Mutate
pub mod Lookup
pub mod Live
pub mod Api
pub mod Refine
pub mod Open
use Prim.Native.Nat.{min}
use os_cs238p_proj.Common.{
  ℕ, zero, suc, ◌==◌, ltb, Bool, true, false, not, ◌&&◌, ◌||◌, Option, none, some, List, [], ◌∷◌,
  length, take, if◌then◌else◌,
}
use os_cs238p_proj.Common.Int.{ℤ, pos, negsuc}
use os_cs238p_proj.Common.Word.{add64, sub64}
use os_cs238p_proj.Common.Outcome.{
  M, Outcome, ret, abort, out_of_fuel, pure, stop, modify, ◌>>=◌, ◌>>◌, or_return,
}
use os_cs238p_proj.Index.{Index, index_open, index_update, index_lookup, store}
use os_cs238p_proj.Kv.Log.{Log}
use os_cs238p_proj.Kv.Raw.{Kvraw, Found, kvraw_lookup, kvraw_append, kvraw_open}

-- `struct kvdb`
pub record Kvdb (S : Type 0) : Type 0 where
  pub size : ℕ
  pub waste : ℕ
  pub kvraw : Kvraw S
  pub index : Index

-- What `chain_lookup` leaves in `*off`, `*val_len` and the caller's buffer
pub record Hit : Type 0 where
  pub off : ℕ
  pub val_len : ℕ
  pub val : List ℕ

-- `!memcmp(a, b, n)` of blocks of the same length
unfoldable pub bytes_eq : List ℕ → List ℕ → Bool
bytes_eq [] [] = true
bytes_eq (x ∷ xs) (y ∷ ys) = (x == y) && bytes_eq xs ys
bytes_eq _ _ = false

-- The MUTATE_ constants
pub data Mode : Type 0 where
  mutate_remove : Mode
  mutate_insert : Mode
  mutate_update : Mode
  mutate_replace : Mode

-- The return value of an operation, with what it gives for `*val_len` and the buffer
pub record Reply : Type 0 where
  pub code : ℤ
  pub val_len : ℕ
  pub val : List ℕ

abbrev pub code_only : ℤ → Reply
code_only code = record { code = code; val_len = 0; val = [] }

-- `!off || !val_len_`
abbrev pub is_absent : Hit → Bool
is_absent hit = hit.off == 0 || hit.val_len == 0

abbrev pub up : ℕ → ℕ
up n = add64 n 1

abbrev pub down : ℕ → ℕ
down n = sub64 n 1

abbrev pub same : ℕ → ℕ
same n = n

-- The assertions on the length of the key
abbrev pub bad_key : List ℕ → Bool
bad_key key = length key == 0 || ltb 0xffff (length key)

abbrev pub bad_val : List ℕ → Bool
bad_val val = length val == 0 || ltb 0xffff_ffff (length val)

-- The last assertion of `kvdb_remove`: a length of 0 needs a buffer all the same.
abbrev pub bad_buffer : Option ℕ → Bool → Bool
bad_buffer none val = false
bad_buffer (some val_len) val = val_len == 0 && not val

-- `kvraw_lookup`, which the loop of `chain_lookup` starts with, asserts that there is a buffer for a
-- length that is not 0.
abbrev pub no_buffer : Option ℕ → Bool → Bool
no_buffer none val = false
no_buffer (some val_len) val = not (val_len == 0) && not val

-- `val_len_` at the start of `mutate`
abbrev pub val_capacity : Option ℕ → ℕ
val_capacity none = 0
val_capacity (some val_len) = val_len

module _ {S : Type 0} (log : Log S) where
  -- The last test of a round of `chain_lookup`, with the next round as an argument
  unfoldable pub settle :
      (ℕ → M (Kvraw S) (Option Hit)) → List ℕ → ℕ → List ℕ → Found → M (Kvraw S) (Option Hit)
  settle next key off val f = elim (bytes_eq f.key key) [
    | true ↦ pure (some (record { off = off; val_len = f.val_len; val = val }))
    | false ↦ next f.off
  ]

  -- The first tests, and the second read for a key of more than `sizeof (key_)` bytes
  unfoldable pub compare_key :
      (ℕ → M (Kvraw S) (Option Hit)) → List ℕ → ℕ → Found → M (Kvraw S) (Option Hit)
  compare_key next key off f =
      let n = min (length key) 8 in
      elim (not (f.key_len == length key) || not (bytes_eq (take n f.key) (take n key))) [
        | true ↦ next f.off
        | false ↦ elim (ltb 8 f.key_len) [
          | true ↦ or_return (kvraw_lookup log f.key_len 0 off) (settle next key off f.val)
          | false ↦ settle next key off f.val f
        ]
      ]

  -- Each round takes a unit of fuel.
  unfoldable pub chain_lookup : ℕ → List ℕ → ℕ → ℕ → M (Kvraw S) (Option Hit)
  chain_lookup zero key val_cap off = λ k. out_of_fuel
  chain_lookup (suc fuel) key val_cap zero =
      pure (some (record { off = 0; val_len = val_cap; val = [] }))
  chain_lookup (suc fuel) key val_cap (suc off) =
      or_return (kvraw_lookup log (min (length key) 256) val_cap (suc off))
        (compare_key (chain_lookup fuel key val_cap) key (suc off))

  abbrev pub on_kvraw : {A : Type 0} → M (Kvraw S) A → M (Kvdb S) A
  on_kvraw m db = elim (m db.kvraw) [
    | ret (a, k) ↦ ret (a, record db { kvraw = k })
    | abort ↦ abort
    | out_of_fuel ↦ out_of_fuel
  ]

  -- `ref = index_update(...)`
  unfoldable pub ref_of : List ℕ → M (Kvdb S) ℕ
  ref_of key db = elim (index_update db.index key) [
    | ret (j, index) ↦ ret (j, record db { index = index })
    | abort ↦ abort
    | out_of_fuel ↦ out_of_fuel
  ]

  -- `kvraw_append(..., ref)`
  unfoldable pub append_at : ℕ → List ℕ → List ℕ → M (Kvdb S) (Unit {0})
  append_at j key val db = elim (kvraw_append log key val (db.index.offs j) db.kvraw) [
    | ret (off, k) ↦ ret (tt, record db { kvraw = k; index = store j off db.index })
    | abort ↦ abort
    | out_of_fuel ↦ out_of_fuel
  ]

  abbrev pub count : (ℕ → ℕ) → (ℕ → ℕ) → M (Kvdb S) (Unit {0})
  count size waste = modify λ db. record db { size = size db.size; waste = waste db.waste }

  -- The branches of `mutate` for the four modes
  unfoldable pub mutate_hit : Mode → ℕ → List ℕ → List ℕ → Hit → M (Kvdb S) Reply
  mutate_hit mutate_remove j key val hit = if is_absent hit then pure (code_only (pos 1)) else (do
    append_at j key []
    count down up
    pure (record { code = pos 0; val_len = hit.val_len; val = hit.val }))
  mutate_hit mutate_insert j key val hit =
      if not (is_absent hit)
      then pure (code_only (pos 1))
      else (do append_at j key val; count up same; pure (code_only (pos 0)))
  mutate_hit mutate_update j key val hit = do
    if is_absent hit then count up same else count same up
    append_at j key val
    pure (code_only (pos 0))
  mutate_hit mutate_replace j key val hit =
      if is_absent hit
      then pure (code_only (pos 1))
      else (do append_at j key val; count same up; pure (code_only (pos 0)))

  unfoldable pub after_chain : Mode → ℕ → List ℕ → List ℕ → Option Hit → M (Kvdb S) Reply
  after_chain mode j key val none = pure (code_only (negsuc 0))
  after_chain mode j key val (some hit) = mutate_hit mode j key val hit

  -- The offset of the chain goes down in each round.
  unfoldable pub mutate : Mode → List ℕ → List ℕ → ℕ → M (Kvdb S) Reply
  mutate mode key val val_cap = do
    j ← ref_of key
    hit ← λ db. on_kvraw (chain_lookup (suc (db.index.offs j)) key val_cap (db.index.offs j)) db
    after_chain mode j key val hit

  -- Whether the loop of `chain_lookup` is entered after this
  abbrev pub has_offset : Outcome (ℕ × Kvdb S) → Bool
  has_offset (ret (j, db)) = not (db.index.offs j == 0)
  has_offset _ = false

  -- The arguments after the key: the number behind `val_len`, unless that is NULL, and whether `val` is a
  -- buffer
  unfoldable pub kvdb_remove : List ℕ → Option ℕ → Bool → M (Kvdb S) Reply
  kvdb_remove key val_len val db =
      (if bad_key key
            || bad_buffer val_len val
            || (no_buffer val_len val && has_offset (ref_of key db))
          then stop
          else mutate mutate_remove key [] (val_capacity val_len))
        db

  unfoldable pub kvdb_insert : List ℕ → List ℕ → M (Kvdb S) Reply
  kvdb_insert key val = if bad_key key || bad_val val then stop else mutate mutate_insert key val 0

  unfoldable pub kvdb_update : List ℕ → List ℕ → M (Kvdb S) Reply
  kvdb_update key val = if bad_key key || bad_val val then stop else mutate mutate_update key val 0

  unfoldable pub kvdb_replace : List ℕ → List ℕ → M (Kvdb S) Reply
  kvdb_replace key val =
      if bad_key key || bad_val val then stop else mutate mutate_replace key val 0

  unfoldable pub reply_hit : Option Hit → M (Kvdb S) Reply
  reply_hit none = pure (code_only (negsuc 0))
  reply_hit (some hit) =
      if is_absent hit
      then pure (code_only (pos 1))
      else pure (record { code = pos 0; val_len = hit.val_len; val = hit.val })

  -- `kvdb_lookup` from the test of `ref` on
  unfoldable pub lookup_ref : List ℕ → ℕ → Option ℕ → M (Kvdb S) Reply
  lookup_ref key val_cap none = pure (code_only (pos 1))
  lookup_ref key val_cap (some j) = λ db.
      if db.index.offs j == 0
      then ret (code_only (pos 1), db)
      else (on_kvraw (chain_lookup (suc (db.index.offs j)) key val_cap (db.index.offs j))
            >>= reply_hit)
          db

  unfoldable pub kvdb_lookup : List ℕ → ℕ → M (Kvdb S) Reply
  kvdb_lookup key val_cap db = if bad_key key then abort else elim (index_lookup db.index key) [
    | ret ref ↦ lookup_ref key val_cap ref db
    | abort ↦ abort
    | out_of_fuel ↦ out_of_fuel
  ]

  unfoldable pub kvdb_size : Kvdb S → ℕ
  kvdb_size db = db.size

  unfoldable pub kvdb_waste : Kvdb S → ℕ
  kvdb_waste db = db.waste

  -- The empty path fails the assertion of `kvraw_open`, which is the same as here.
  unfoldable pub kvdb_open : (List ℕ → Option S) → List ℕ → Outcome (Option (Kvdb S))
  kvdb_open logfs_open path = elim (kvraw_open log logfs_open path) [
    | ret (some k) ↦ ret (some (record { size = 0; waste = 0; kvraw = k; index = index_open }))
    | ret none ↦ ret none
    | abort ↦ abort
    | out_of_fuel ↦ out_of_fuel
  ]
