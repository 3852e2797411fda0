-- ===== src/Kv/Raw/Records.antt =====
-- The records in the log of project-4/kvraw.c: what an append adds, a lookup finds.
use os_cs238p_proj.Common.{
  ℕ, ◌+◌, ◌<◌, ◌≤◌, ◌^◌, ◌≡◌, refl, ap, sym, ◌∙◌, arith, List, [], ◌∷◌, ◌++◌, length, take,
  length-append, append_assoc, slice, slice-append, take_all,
}
use os_cs238p_proj.Kv.Meta.{Meta, encode_meta, length-encode_meta}
use os_cs238p_proj.Kv.Raw.{mark_k, mark_v}

-- A record, with the offset of the one before it in its chain
pub record Rec : Type 0 where
  pub key : List ℕ
  pub val : List ℕ
  pub off : ℕ

pub record IsRec (r : Rec) : Type 0 where
  pub key : length r.key < 2 ^ 16
  pub val : length r.val < 2 ^ 32
  pub off : r.off < 2 ^ 64

abbrev pub meta_of : Rec → Meta
meta_of r = record {
  mark0 = mark_k;
  mark1 = mark_v;
  off = r.off;
  key_len = length r.key;
  val_len = length r.val;
}

abbrev pub encode : Rec → List ℕ
encode r = encode_meta (meta_of r) ++ (r.key ++ r.val)

unfoldable pub encode_all : List Rec → List ℕ
encode_all [] = []
encode_all (r ∷ rs) = encode r ++ encode_all rs

abbrev pub rec_size : Rec → ℕ
rec_size r = 16 + length r.key + length r.val

pub length-encode : (r : Rec) → length (encode r) ≡ rec_size r
length-encode r = omega (
  arith,
  length-append (encode_meta (meta_of r)) (r.key ++ r.val),
  length-append r.key r.val,
  length-encode_meta (meta_of r),
)

pub encode_all-append : (rs ss : List Rec) → encode_all (rs ++ ss) ≡ encode_all rs ++ encode_all ss
unfolding encode_all
encode_all-append [] ss = refl
encode_all-append (r ∷ rs) ss =
    ap (λ x. encode r ++ x) (encode_all-append rs ss)
    ∙ sym (append_assoc (encode r) (encode_all rs) (encode_all ss))

-- The record `r` stands at the offset `o`.
pub record At (rs : List Rec) (o : ℕ) (r : Rec) : Type 0 where
  pub before : List Rec
  pub after : List Rec
  pub split : rs ≡ before ++ r ∷ after
  pub offset : o ≡ length (encode_all before)
  pub ok : IsRec r

pub At-append : (rs ss : List Rec) (o : ℕ) (r : Rec) → At rs o r → At (rs ++ ss) o r
At-append rs ss o r a = record {
  before = a.before;
  after = a.after ++ ss;
  split = ap (λ x. x ++ ss) a.split ∙ append_assoc a.before (r ∷ a.after) ss;
  offset = a.offset;
  ok = a.ok;
}

-- The bytes around a record
pub At-bytes :
    (rs : List Rec) (o : ℕ) (r : Rec) (a : At rs o r)
    → encode_all rs
      ≡ encode_all a.before ++ (encode_meta (meta_of r) ++ (r.key ++ (r.val ++ encode_all a.after)))
unfolding encode_all
At-bytes rs o r a =
    ap encode_all a.split
    ∙ encode_all-append a.before (r ∷ a.after)
    ∙ ap (λ x. encode_all a.before ++ x)
        (append_assoc (encode_meta (meta_of r)) (r.key ++ r.val) (encode_all a.after)
          ∙ ap (λ x. encode_meta (meta_of r) ++ x) (append_assoc r.key r.val (encode_all a.after)))

module _ (rs : List Rec) (o : ℕ) (r : Rec) (a : At rs o r) where
  abbrev m : List ℕ
  m = encode_meta (meta_of r)

  abbrev rest : List ℕ
  rest = encode_all a.after

  pub slice-meta : slice (encode_all rs) o 16 ≡ m
  slice-meta =
      ap (λ x. slice x o 16) (At-bytes rs o r a)
      ∙ slice-append (encode_all a.before) m (r.key ++ (r.val ++ rest)) o 16 a.offset
          (omega (arith, length-encode_meta (meta_of r)))
      ∙ take_all m 16 (omega (arith, length-encode_meta (meta_of r)))

  pub slice-key : (n : ℕ) → n ≤ length r.key → slice (encode_all rs) (o + 16) n ≡ take n r.key
  slice-key n h =
      let e = append_assoc (encode_all a.before) m (r.key ++ (r.val ++ rest)) in
      ap (λ x. slice x (o + 16) n) (At-bytes rs o r a ∙ sym e)
      ∙ slice-append (encode_all a.before ++ m) r.key (r.val ++ rest) (o + 16) n
          (omega (
            arith,
            length-append (encode_all a.before) m,
            length-encode_meta (meta_of r),
            a.offset,
          ))
          h

  pub slice-val :
      (n : ℕ) → n ≤ length r.val → slice (encode_all rs) (o + 16 + length r.key) n ≡ take n r.val
  slice-val n h =
      let e = append_assoc (encode_all a.before) m (r.key ++ (r.val ++ rest)) in
      let f = append_assoc (encode_all a.before ++ m) r.key (r.val ++ rest) in
      ap (λ x. slice x (o + 16 + length r.key) n) (At-bytes rs o r a ∙ sym e ∙ sym f)
      ∙ slice-append ((encode_all a.before ++ m) ++ r.key) r.val rest (o + 16 + length r.key) n
          (omega (
            arith,
            length-append (encode_all a.before ++ m) r.key,
            length-append (encode_all a.before) m,
            length-encode_meta (meta_of r),
            a.offset,
          ))
          h

  -- A record ends within the log.
  pub record_end : o + 16 + length r.key + length r.val ≤ length (encode_all rs)
  record_end = omega (
    arith,
    ap length (At-bytes rs o r a),
    length-append (encode_all a.before) (m ++ (r.key ++ (r.val ++ rest))),
    length-append m (r.key ++ (r.val ++ rest)),
    length-append r.key (r.val ++ rest),
    length-append r.val rest,
    length-encode_meta (meta_of r),
    a.offset,
  )
