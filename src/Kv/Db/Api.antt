-- ===== src/Kv/Db/Api.antt =====
-- The operations of project-4/kvdb.c that change a database, against a map from keys to values.
use os_cs238p_proj.Common.{
  ℕ, ◌+◌, ◌<◌, ◌≤◌, ◌==◌, ◌≡◌, ◌⊎◌, inl, inr, refl, ap, ◌∙◌, arith, Bool, true, false, Bool-cases,
  if◌then◌else◌, Option, none, some, List, [], ◌∷◌, length, length-append,
}
use os_cs238p_proj.Common.Int.{pos, negsuc}
use os_cs238p_proj.Common.Outcome.{M}
use os_cs238p_proj.Kv.Log.{Log, IsLog, log_max}
use os_cs238p_proj.Kv.Raw.Records.{Rec, encode, encode_all, encode_all-append, length-encode}
use os_cs238p_proj.Kv.Db.{
  Kvdb, Mode, mutate_remove, mutate_insert, mutate_update, mutate_replace, Reply, bytes_eq,
  kvdb_remove, kvdb_insert, kvdb_update, kvdb_replace,
}
use os_cs238p_proj.Kv.Db.Chain.{find_rec}
use os_cs238p_proj.Kv.Db.History.{written, current, IsKvdb}
use os_cs238p_proj.Kv.Db.Contract.{permits, new_val, next_size, Mutated}
use os_cs238p_proj.Kv.Db.Live.{live, vals, live-counters, vals-le}

-- A call of one of the operations
pub data Op : Type 0 where
  op_remove : List ℕ → Option ℕ → Bool → Op
  op_insert : List ℕ → List ℕ → Op
  op_update : List ℕ → List ℕ → Op
  op_replace : List ℕ → List ℕ → Op

abbrev pub mode_of : Op → Mode
mode_of (op_remove key val_len val) = mutate_remove
mode_of (op_insert key val) = mutate_insert
mode_of (op_update key val) = mutate_update
mode_of (op_replace key val) = mutate_replace

abbrev pub op_key : Op → List ℕ
op_key (op_remove key val_len val) = key
op_key (op_insert key val) = key
op_key (op_update key val) = key
op_key (op_replace key val) = key

abbrev pub op_val : Op → List ℕ
op_val (op_remove key val_len val) = []
op_val (op_insert key val) = val
op_val (op_update key val) = val
op_val (op_replace key val) = val

-- The bytes that it adds to the log at most
abbrev pub op_size : Op → ℕ
op_size op = 16 + length (op_key op) + length (op_val op)

-- A map from keys to values, empty for a key that is not in it
abbrev pub KeyMap : Type 0
KeyMap = List ℕ → List ℕ

abbrev pub set_key : List ℕ → List ℕ → KeyMap → KeyMap
set_key key val m x = if bytes_eq key x then val else m x

-- What the operation does to the map, none where it is refused
unfoldable pub spec_call : Op → KeyMap → Option KeyMap
spec_call op m =
    if permits (mode_of op) (length (m (op_key op)) == 0)
    then some (set_key (op_key op) (new_val (mode_of op) (op_val op)) m)
    else none

abbrev pub view : List Rec → KeyMap
view hist key = current key hist

view-cons :
    (key val : List ℕ) (off : ℕ) (hist : List Rec)
    → set_key key val (view hist) ≡ view (record { key = key; val = val; off = off } ∷ hist)
unfolding find_rec
view-cons key val off hist = λ i x. at_key x (Bool-cases (bytes_eq key x)) i
  where
    at_key :
        (x : List ℕ)
        → (bytes_eq key x ≡ true) ⊎ (bytes_eq key x ≡ false)
        → set_key key val (view hist) x ≡ view (record { key = key; val = val; off = off } ∷ hist) x
    at_key x (inl e) = rw (e, if◌then◌else◌) refl
    at_key x (inr e) = rw (e, if◌then◌else◌) refl

module _ {S : Type 0} (log : Log S) where
  unfoldable pub call : Op → M (Kvdb S) Reply
  call (op_remove key val_len val) = kvdb_remove log key val_len val
  call (op_insert key val) = kvdb_insert log key val
  call (op_update key val) = kvdb_update log key val
  call (op_replace key val) = kvdb_replace log key val

module _ {S : Type 0} (log : Log S) (ok : IsLog log) where
  -- The whole state: the log, the index and the counters
  pub record IsDb (db : Kvdb S) (hist : List Rec) : Type 0 where
    pub valid : IsKvdb log ok db hist
    pub size : db.size ≡ live hist
    pub waste : db.size + db.waste ≡ vals hist

  -- What a call comes to, seen as an operation on the map
  abbrev pub Refines : Op → List Rec → Reply → Kvdb S → Type 0
  Refines op hist reply db' =
      (reply.code ≡ negsuc 0)
      ⊎ ((reply.code ≡ pos 1) × (spec_call op (view hist) ≡ none) × IsDb db' hist)
      ⊎ ((reply.code ≡ pos 0)
          × (hist' : List Rec) × (spec_call op (view hist) ≡ some (view hist'))
          × IsDb db' hist'
          × (length (encode_all (written hist')) ≤ length (encode_all (written hist)) + op_size op))

  pub mutate-Refines :
      (op : Op) (db db' : Kvdb S) (hist : List Rec) (val : List ℕ) (reply : Reply)
      → IsDb db hist
      → length (encode_all (written hist)) + op_size op < log_max
      → (length val == 0) ≡ false
      → new_val (mode_of op) val ≡ new_val (mode_of op) (op_val op)
      → length (new_val (mode_of op) (op_val op)) ≤ length (op_val op)
      → Mutated log ok (mode_of op) (op_key op) (op_val op) db hist reply db'
      → Refines op hist reply db'
  unfolding spec_call written encode_all
  mutate-Refines op db db' hist val reply ok_db room nz same_val le (inl e) = inl e
  mutate-Refines op db db' hist val reply ok_db room nz same_val le (inr (inl (e, x))) = inr (
      inl (
        e,
        rw (x.refused, if◌then◌else◌) refl,
        record {
          valid = x.valid;
          size = x.size ∙ ok_db.size;
          waste = ap (λ n. n + db'.waste) x.size ∙ ap (λ n. db.size + n) x.waste ∙ ok_db.waste;
        },
      ))
  mutate-Refines op db db' hist val reply ok_db room nz same_val le (inr (inr (e, off, x))) =
      let v = new_val (mode_of op) (op_val op) in
      let r : Rec = record { key = op_key op; val = v; off = off } in
      let (s, w) =
        live-counters (mode_of op) hist (op_key op) val off db.size db.waste nz x.permitted
          ok_db.size ok_db.waste (omega (arith, vals-le hist)) in
      let q : record { key = op_key op; val = new_val (mode_of op) val; off = off } ≡ r =
        λ i. record { key = op_key op; val = same_val i; off = off } in
      inr (
        inr (
          e,
          r ∷ hist,
          rw (x.permitted, if◌then◌else◌) (ap (λ m. some m) (view-cons (op_key op) v off hist)),
          record {
            valid = x.valid;
            size = x.size ∙ s ∙ ap (λ y. live (y ∷ hist)) q;
            waste =
                ap (λ n. n + db'.waste) x.size
                ∙ ap
                    (λ n.
                      next_size (mode_of op) (length (current (op_key op) hist) == 0) db.size + n)
                    x.waste
                ∙ w
                ∙ ap (λ y. vals (y ∷ hist)) q;
          },
          omega (
            arith,
            ap length (encode_all-append (written hist) (r ∷ [])),
            length-append (encode_all (written hist)) (encode_all (r ∷ [])),
            length-append (encode r) [],
            length-encode r,
            le,
          ),
        ))
