-- ===== src/Kv/Db/History.antt =====
-- The state of project-4/kvdb.c, and the records that were written to it.
use os_cs238p_proj.Common.{
  ℕ, ◌<◌, ◌==◌, ◌≡◌, ◌≢◌, inl, inr, refl, ap, sym, ◌∙◌, subst, arith, Bool-cases, ==_of_ne, ==_iff,
  if◌then◌else◌, Option, none, some, List, [], ◌∷◌, ◌++◌, length, length-append,
}
use os_cs238p_proj.Common.Outcome.{ret}
use os_cs238p_proj.Index.{Index, key_of, index_update, store}
use os_cs238p_proj.Index.Update.{IsIndex, off_of, or_zero, put_same}
use os_cs238p_proj.Index.Api.{Stored, index_update-Stored, key_of_nonzero}
use os_cs238p_proj.Kv.Log.{Log, IsLog}
use os_cs238p_proj.Kv.Raw.Records.{
  Rec, encode, encode_all, encode_all-append, length-encode, record_end,
}
use os_cs238p_proj.Kv.Raw.Lookup.{HoldsRecs}
use os_cs238p_proj.Kv.Db.{Kvdb, Hit, bytes_eq, is_absent}
use os_cs238p_proj.Kv.Db.Chain.{eq_of_bytes_eq, find_rec, Chain, AnswerOf}

-- The record that `kvraw_open` writes
abbrev pub dummy : Rec
dummy = record { key = 0 ∷ []; val = 0 ∷ []; off = 0 }

-- The log, for the records written from the newest on
unfoldable pub written : List Rec → List Rec
written [] = dummy ∷ []
written (r ∷ hist) = written hist ++ r ∷ []

-- The records with the hash `h`
unfoldable pub bucket : ℕ → List Rec → List Rec
bucket h [] = []
bucket h (r ∷ hist) = let rest = bucket h hist in if key_of r.key == h then r ∷ rest else rest

abbrev pub val_of : Option Rec → List ℕ
val_of none = []
val_of (some r) = r.val

-- The value of a key, empty for a key that is not in the database
abbrev pub current : List ℕ → List Rec → List ℕ
current key hist = val_of (find_rec key hist)

pub bucket_self :
    (r : Rec) (hist : List Rec) → bucket (key_of r.key) (r ∷ hist) ≡ r ∷ bucket (key_of r.key) hist
unfolding bucket
bucket_self r hist = rw ((==_iff (key_of r.key) (key_of r.key)).1 refl, if◌then◌else◌) refl

pub bucket_other :
    (h : ℕ) (r : Rec) (hist : List Rec) → h ≢ key_of r.key → bucket h (r ∷ hist) ≡ bucket h hist
unfolding bucket
bucket_other h r hist n = rw (==_of_ne (key_of r.key) h (λ e. n (sym e)), if◌then◌else◌) refl

-- The newest record of a key is the newest one among those of its hash.
pub find_rec-bucket :
    (key : List ℕ) (hist : List Rec) → find_rec key (bucket (key_of key) hist) ≡ find_rec key hist
unfolding find_rec bucket
find_rec-bucket key [] = refl
find_rec-bucket key (r ∷ hist) = elim (Bool-cases (bytes_eq r.key key)) [
  | inl e ↦
      let p = ap key_of (eq_of_bytes_eq r.key key e) in
      rw ((==_iff (key_of r.key) (key_of key)).1 p, e, if◌then◌else◌) refl
  | inr e ↦ elim (Bool-cases (key_of r.key == key_of key)) [
    | inl g ↦ rw (g, e, if◌then◌else◌) (find_rec-bucket key hist)
    | inr g ↦ rw (g, e, if◌then◌else◌) (find_rec-bucket key hist)
  ]
]

-- The log is not empty.
pub written-pos : (hist : List Rec) → 0 < length (encode_all (written hist))
unfolding written encode_all
written-pos [] = omega (arith, length-append (encode dummy) [], length-encode dummy)
written-pos (r ∷ hist) = omega (
  arith,
  written-pos hist,
  ap length (encode_all-append (written hist) (r ∷ [])),
  length-append (encode_all (written hist)) (encode_all (r ∷ [])),
)

-- A chain starts within the log.
pub Chain-lt :
    (hist : List Rec) (o : ℕ) (l : List Rec)
    → Chain (written hist) o l
    → o < length (encode_all (written hist))
unfolding Chain
Chain-lt hist o [] c = omega (arith, c, written-pos hist)
Chain-lt hist o (r ∷ l) (nz, a, lt, c) = omega (arith, record_end (written hist) o r a)

-- Whether a lookup has found a value
pub is_absent-AnswerOf :
    (val_cap : ℕ) (o : Option Rec) (hit : Hit)
    → AnswerOf val_cap o hit
    → is_absent hit ≡ (length (val_of o) == 0)
is_absent-AnswerOf val_cap none hit e = rw e refl
is_absent-AnswerOf val_cap (some r) hit (nz, e, v) = rw (==_of_ne hit.off 0 nz, e) refl

module _ {S : Type 0} (log : Log S) (ok : IsLog log) where
  -- The records written are in the log, those of one hash in a chain that starts where the index says.
  pub record IsKvdb (db : Kvdb S) (hist : List Rec) : Type 0 where
    pub index : IsIndex db.index
    pub recs : HoldsRecs log ok db.kvraw (written hist)
    pub chains :
        (h : ℕ) → h ≢ 0 → Chain (written hist) (or_zero (off_of db.index h)) (bucket h hist)

  -- The state where `index_update` has given the slot `j` for the key
  pub record IsReady (db : Kvdb S) (hist : List Rec) (key : List ℕ) (j : ℕ) : Type 0 where
    pub valid : IsKvdb db hist
    pub chain : Chain (written hist) (db.index.offs j) (bucket (key_of key) hist)
    pub index : (v : ℕ) → IsIndex (store j v db.index)
    pub here : (v : ℕ) → off_of (store j v db.index) (key_of key) ≡ some v
    pub others :
        (v h : ℕ) → h ≢ key_of key → h ≢ 0 → off_of (store j v db.index) h ≡ off_of db.index h

  store_same : (t : Index) (j : ℕ) → store j (t.offs j) t ≡ t
  unfolding store
  store_same t j = λ i. record t { offs = λ x. put_same t.offs j (t.offs j) x refl i }

  pub index_update-IsReady :
      (db : Kvdb S) (hist : List Rec) (key : List ℕ) (j : ℕ) (t : Index)
      → IsKvdb db hist
      → index_update db.index key ≡ ret (j, t)
      → IsReady (record db { index = t }) hist key j
  index_update-IsReady db hist key j t v e =
      let s : (x : ℕ) → Stored db.index key x j t =
        λ x. index_update-Stored db.index t key x j v.index e in
      let s0 = s (t.offs j) in
      let q = store_same t j in
      let others : (h : ℕ) → h ≢ key_of key → h ≢ 0 → off_of t h ≡ off_of db.index h =
        λ h n z. ap (λ y. off_of y h) (sym q) ∙ s0.others h n z in
      let c : Chain (written hist) (t.offs j) (bucket (key_of key) hist) =
        subst (λ o. Chain (written hist) o (bucket (key_of key) hist)) (sym s0.before)
          (v.chains (key_of key) (key_of_nonzero key)) in
      record {
        valid = record {
          index = subst IsIndex q s0.valid;
          recs = v.recs;
          chains = λ h z. elim (Bool-cases (h == key_of key)) [
            | inl g ↦
                let p = (==_iff h (key_of key)).0 g in
                let here : off_of t h ≡ some (t.offs j) =
                  ap (off_of t) p ∙ ap (λ y. off_of y (key_of key)) (sym q) ∙ s0.stored in
                subst (λ o. Chain (written hist) (or_zero o) (bucket h hist)) (sym here)
                  (subst (λ x. Chain (written hist) (t.offs j) (bucket x hist)) (sym p) c)
            | inr g ↦
                subst (λ o. Chain (written hist) (or_zero o) (bucket h hist))
                  (sym (others h (λ p. cc (sym g ∙ (==_iff h (key_of key)).1 p)) z)) (v.chains h z)
          ];
        };
        chain = c;
        index = λ x. (s x).valid;
        here = λ x. (s x).stored;
        others = λ x h n z. (s x).others h n z ∙ sym (others h n z);
      }
