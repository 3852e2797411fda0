-- ===== src/Index.antt =====
-- The hash index of project-4/index.c: a table with linear probing, from the hash of a key to the
-- offset of its record. A pointer to an offset is the number of its slot. `malloc` is taken to succeed.
pub mod Probe
pub mod Update
pub mod Grow
pub mod Api
use Prim.Native.Nat.{bit_xor}
use os_cs238p_proj.Common.{
  ℕ, zero, suc, ◌+◌, ◌-◌, ◌*◌, ◌/◌, ◌%◌, ◌^◌, ◌==◌, ltb, Bool, true, false, Option, some, none,
  List, [], ◌∷◌, length, if◌then◌else◌,
}
use os_cs238p_proj.Common.Word.{u64_mod, add64}
use os_cs238p_proj.Common.Outcome.{Outcome, ret, abort, out_of_fuel}

-- `struct index`; the key 0 marks a slot that is free
pub record Index : Type 0 where
  pub size : ℕ
  pub capacity : ℕ
  pub keys : ℕ → ℕ
  pub offs : ℕ → ℕ

-- A store into one of the columns of `maps`
abbrev pub put : (ℕ → ℕ) → ℕ → ℕ → ℕ → ℕ
put column j v x = if x == j then v else column x

-- The four state variables of `hash`
pub record Mix : Type 0 where
  pub a : ℕ
  pub b : ℕ
  pub c : ℕ
  pub d : ℕ

abbrev pub mul64 : ℕ → ℕ → ℕ
mul64 x y = x * y % u64_mod

-- `(x << r) | (x >> (64 - r))`
unfoldable pub rotate : ℕ → ℕ → ℕ
rotate r x = add64 (mul64 x (2 ^ r)) (x / 2 ^ (64 - r))

-- `(uint64_t)p[i]`, where `char` is signed
unfoldable pub extend_sign : ℕ → ℕ
extend_sign byte = if ltb byte 128 then byte else u64_mod - 256 + byte

-- `x ^= y; y = rotate(y); x += y;` on the pair of `x` and `y`
unfoldable pub stir : ℕ → ℕ × ℕ → ℕ × ℕ
stir r s = let y = rotate r s.1 in (add64 (bit_xor s.0 s.1) y, y)

abbrev pub stir_dc : ℕ → Mix → Mix
stir_dc r m = let s = stir r (m.d, m.c) in record m { d = s.0; c = s.1 }

abbrev pub stir_ad : ℕ → Mix → Mix
stir_ad r m = let s = stir r (m.a, m.d) in record m { a = s.0; d = s.1 }

abbrev pub stir_ba : ℕ → Mix → Mix
stir_ba r m = let s = stir r (m.b, m.a) in record m { b = s.0; a = s.1 }

abbrev pub stir_cb : ℕ → Mix → Mix
stir_cb r m = let s = stir r (m.c, m.b) in record m { c = s.0; b = s.1 }

-- A round of the loop in `hash`
unfoldable pub mix : ℕ → Mix → Mix
mix byte m =
    let x = extend_sign byte in
    let m1 : Mix = record {
      a = add64 m.a (mul64 x 592821132889);
      b = add64 m.b (mul64 x 963726515729);
      c = add64 m.c (mul64 x 1765037224331);
      d = add64 m.d (mul64 x 2428095424619);
    } in
    let m2 = stir_cb 51 (stir_ba 26 (stir_ad 52 (stir_dc 15 m1))) in
    let m3 = stir_cb 54 (stir_ba 47 (stir_ad 9 (stir_dc 28 m2))) in
    stir_ba 63 (stir_ad 25 (stir_dc 32 m3))

unfoldable pub mix_all : List ℕ → Mix → Mix
mix_all [] m = m
mix_all (byte ∷ bytes) m = mix_all bytes (mix byte m)

unfoldable pub hash : List ℕ → ℕ
hash buf =
    let n = mul64 (length buf) 414507281407 in
    let m = mix_all buf (record { a = n; b = n; c = n; d = n }) in
    add64 (add64 (add64 m.a m.b) m.c) m.d

-- `key ? key : (key + 1)`
unfoldable pub key_of : List ℕ → ℕ
key_of buf = let key = hash buf in if key == 0 then add64 key 1 else key

-- What the loop over the slots comes to: a free slot, the slot of the key, or neither
pub data Found : Type 0 where
  vacant : ℕ → Found
  found : ℕ → Found
  full : Found

-- `(key + i) % index->capacity`
unfoldable pub slot : ℕ → ℕ → ℕ → ℕ
slot capacity key i = add64 key i % capacity

-- The loop of `update` and of `index_lookup`, with `n` slots left to try from the `i`th on
unfoldable pub probe : (ℕ → ℕ) → ℕ → ℕ → ℕ → ℕ → Found
probe keys capacity key zero i = full
probe keys capacity key (suc n) i =
    let rest = probe keys capacity key n (i + 1) in
    if keys (slot capacity key i) == 0
    then vacant (slot capacity key i)
    else (if keys (slot capacity key i) == key then found (slot capacity key i) else rest)

abbrev pub probe_all : Index → ℕ → Found
probe_all index key = probe index.keys index.capacity key index.capacity 0

unfoldable pub insert_at : ℕ → ℕ → Index → Index
insert_at key j index = record index {
  size = add64 index.size 1;
  keys = put index.keys j key;
  offs = put index.offs j 0;
}

unfoldable pub update : Index → ℕ → Outcome (ℕ × Index)
update index key = elim (probe_all index key) [
  | vacant j ↦ ret (j, insert_at key j index)
  | found j ↦ ret (j, record index { keys = put index.keys j key })
  | full ↦ abort
]

unfoldable pub create : ℕ → Index
create capacity = record { size = 0; capacity = capacity; keys = λ j. 0; offs = λ j. 0 }

-- The store through the pointer that `update` returns
unfoldable pub store : ℕ → ℕ → Index → Index
store j off index = record index { offs = put index.offs j off }

-- The loop of `grow`: the `n` slots from `i` on are moved to another index.
unfoldable pub move_all : Index → ℕ → ℕ → Index → Outcome Index
move_all index zero i index' = ret index'
move_all index (suc n) i index' = elim (index.keys i == 0) [
  | true ↦ move_all index n (i + 1) index'
  | false ↦ elim (update index' (index.keys i)) [
    | ret (j, t) ↦ move_all index n (i + 1) (store j (index.offs i) t)
    | abort ↦ abort
    | out_of_fuel ↦ out_of_fuel
  ]
]

-- `LOAD < load`, where the quotient of the sizes is taken as exact
unfoldable pub is_loaded : Index → Bool
is_loaded index = if index.capacity == 0 then true else ltb (7 * index.capacity) (10 * index.size)

unfoldable pub grow : Index → Outcome Index
grow index =
    if is_loaded index
    then move_all index index.capacity 0 (create (mul64 (add64 index.capacity 97) 3 / 2))
    else ret index

unfoldable pub index_open : Index
index_open = record { size = 0; capacity = 0; keys = λ j. 0; offs = λ j. 0 }

-- The key must not be empty.
unfoldable pub index_update : Index → List ℕ → Outcome (ℕ × Index)
index_update index key = if length key == 0 then abort else elim (grow index) [
  | ret t ↦ update t (key_of key)
  | abort ↦ abort
  | out_of_fuel ↦ out_of_fuel
]

abbrev pub slot_found : Found → Option ℕ
slot_found (found j) = some j
slot_found _ = none

-- The slot, or NULL
unfoldable pub index_lookup : Index → List ℕ → Outcome (Option ℕ)
index_lookup index key =
    if length key == 0 then abort else ret (slot_found (probe_all index (key_of key)))
