-- ===== src/Kv/Db/Chain.antt =====
-- `chain_lookup` of project-4/kvdb.c on the records of a chain.
use Prim.Native.Nat.{min}
use os_cs238p_proj.Common.{
  ℕ, zero, suc, ◌<◌, ◌≤◌, ◌==◌, ◌≡◌, ◌≢◌, inl, inr, refl, ap, sym, ◌∙◌, arith, Bool, true, false,
  ltb, not, ◌||◌, Bool-cases, ==_iff, if◌then◌else◌, Option, none, some, List, [], ◌∷◌, ◌++◌,
  length, take, take_all,
}
use os_cs238p_proj.Common.Outcome.{M, Gives, or_return-Gives}
use os_cs238p_proj.Kv.Log.{Log, IsLog}
use os_cs238p_proj.Kv.Raw.{Kvraw, Found, kvraw_lookup}
use os_cs238p_proj.Kv.Raw.Records.{Rec, At, At-append}
use os_cs238p_proj.Kv.Raw.Lookup.{HoldsRecs, found_at, kvraw_lookup-Gives}
use os_cs238p_proj.Kv.Db.{Hit, bytes_eq, settle, compare_key, chain_lookup}

pub bytes_eq_refl : (xs : List ℕ) → bytes_eq xs xs ≡ true
unfolding bytes_eq
bytes_eq_refl [] = refl
bytes_eq_refl (x ∷ xs) = rw ((==_iff x x).1 refl, bytes_eq_refl xs) refl

pub eq_of_bytes_eq : (xs ys : List ℕ) → bytes_eq xs ys ≡ true → xs ≡ ys
unfolding bytes_eq
eq_of_bytes_eq [] [] h = refl
eq_of_bytes_eq [] (y ∷ ys) h = absurd (cc h)
eq_of_bytes_eq (x ∷ xs) [] h = absurd (cc h)
eq_of_bytes_eq (x ∷ xs) (y ∷ ys) h = elim (Bool-cases (x == y)) [
  | inl e ↦
      let p = (==_iff x y).0 e in
      let q = eq_of_bytes_eq xs ys (rw e at h) in ap (λ z. z ∷ xs) p ∙ ap (◌∷◌ y) q
  | inr e ↦ absurd (cc (rw e at h))
]

take-take : (m n : ℕ) (xs : List ℕ) → n ≤ m → take n (take m xs) ≡ take n xs
take-take m zero xs h = refl
take-take zero (suc n) xs h = absurd (omega arith)
take-take (suc m) (suc n) [] h = refl
take-take (suc m) (suc n) (x ∷ xs) h = ap (◌∷◌ x) (take-take m n xs (omega arith))

-- The newest record of a key, in a list of records from the newest on
unfoldable pub find_rec : List ℕ → List Rec → Option Rec
find_rec key [] = none
find_rec key (r ∷ rs) = let rest = find_rec key rs in if bytes_eq r.key key then some r else rest

-- The chain of records that starts at the offset `o`
unfoldable pub Chain : List Rec → ℕ → List Rec → Type 0
Chain rs o [] = o ≡ 0
Chain rs o (r ∷ l) = (o ≢ 0) × At rs o r × (r.off < o) × Chain rs r.off l

pub Chain-append : (rs ss : List Rec) (o : ℕ) (l : List Rec) → Chain rs o l → Chain (rs ++ ss) o l
unfolding Chain
Chain-append rs ss o [] c = c
Chain-append rs ss o (r ∷ l) (nz, a, lt, c) =
    (nz, At-append rs ss o r a, lt, Chain-append rs ss r.off l c)

-- What a lookup of the newest record of a key leaves for its caller
abbrev pub AnswerOf : ℕ → Option Rec → Hit → Type 0
AnswerOf val_cap none hit = hit.off ≡ 0
AnswerOf val_cap (some r) hit =
    (hit.off ≢ 0)
    × (hit.val_len ≡ length r.val)
    × (hit.val ≡ take (min (length r.val) val_cap) r.val)

-- The first tests of a round
abbrev differs : List ℕ → Found → Bool
differs key f =
    not (f.key_len == length key)
    || not (bytes_eq (take (min (length key) 8) f.key) (take (min (length key) 8) key))

module _ {S : Type 0} (log : Log S) (ok : IsLog log) (rs : List Rec) (key : List ℕ) where
  module _ (o : ℕ) (r : Rec) (a : At rs o r) (val_cap : ℕ) where
    abbrev first_read : Found
    first_read = found_at r (min (length key) 256) val_cap

    differs-eq : bytes_eq r.key key ≡ true → differs key first_read ≡ false
    differs-eq e =
        let p = eq_of_bytes_eq r.key key e in
        let n = min (length key) 8 in
        let q : length r.key ≡ length key = ap length p in
        let m = min (length r.key) (min (length key) 256) in
        let t : take n (take m r.key) ≡ take n key =
          take-take m n r.key (omega arith) ∙ ap (take n) p in
        let u : bytes_eq (take n (take m r.key)) (take n key) ≡ true =
          ap (λ x. bytes_eq x (take n key)) t ∙ bytes_eq_refl (take n key) in
        rw ((==_iff (length r.key) (length key)).1 q, u) refl

    module _ (next : ℕ → M (Kvraw S) (Option Hit)) (P : Hit → Kvraw S → Type 0)
        (hit : (k : Kvraw S)
          → HoldsRecs log ok k rs
          → bytes_eq r.key key ≡ true
          → P (record { off = o; val_len = length r.val; val = first_read.val }) k)
        (miss : (k : Kvraw S)
          → HoldsRecs log ok k rs
          → bytes_eq r.key key ≡ false
          → Gives ok.Fails (next r.off) k P) where
      settle-Gives :
          (k : Kvraw S) (key_len val_len : ℕ)
          → HoldsRecs log ok k rs
          → length r.key ≤ key_len
          → Gives ok.Fails (settle log next key o first_read.val (found_at r key_len val_len)) k P
      unfolding settle
      settle-Gives k key_len val_len h le =
          let t : take (min (length r.key) key_len) r.key ≡ r.key =
            take_all r.key (min (length r.key) key_len) (omega arith) in
          elim (Bool-cases (bytes_eq r.key key)) [
            | inl e ↦
                let g = ap (λ x. bytes_eq x key) t ∙ e in
                rw (g, settle)
                  (inr (
                    record { off = o; val_len = length r.val; val = first_read.val },
                    k,
                    refl,
                    hit k h e,
                  ))
            | inr e ↦ let g = ap (λ x. bytes_eq x key) t ∙ e in rw (g, settle) (miss k h e)
          ]

      compare_key-Gives :
          (k : Kvraw S)
          → HoldsRecs log ok k rs
          → o ≢ 0
          → Gives ok.Fails (compare_key log next key o first_read) k P
      unfolding compare_key
      compare_key-Gives k h nz = elim (Bool-cases (differs key first_read)) [
        | inl t ↦ elim (Bool-cases (bytes_eq r.key key)) [
          | inl e ↦ absurd (cc (sym t ∙ differs-eq e))
          | inr e ↦ rw (t, compare_key) (miss k h e)
        ]
        | inr t ↦
            rw (t, compare_key)
              (elim (Bool-cases (ltb 8 (length r.key))) [
                | inl u ↦ rw u (
                    or_return-Gives (kvraw_lookup log (length r.key) 0 o)
                      (settle log next key o first_read.val) k
                      (λ f k'. (f ≡ found_at r (length r.key) 0) × HoldsRecs log ok k' rs) P
                      (kvraw_lookup-Gives log ok rs o r a k (length r.key) 0 h nz)
                      (λ f k' (q, w). rw q (settle-Gives k' (length r.key) 0 w (omega arith))))
                | inr u ↦ rw u (settle-Gives k (min (length key) 256) val_cap h (short t u))
              ])
      ]
        where
          short :
              differs key first_read ≡ false
              → ltb 8 (length r.key) ≡ false
              → length r.key ≤ min (length key) 256
          short t u = elim (Bool-cases (length r.key == length key)) [
            | inl e ↦
                let q = (==_iff (length r.key) (length key)).0 e in
                let v : length r.key ≤ 8 = ground (arith, u) in omega (arith, q, v)
            | inr e ↦ absurd (cc (rw e at t))
          ]

  -- `chain_lookup` from the start of a chain finds the newest record of the key in it, with the length of
  -- its value and as much of the value as the buffer holds, or leaves the offset 0. It
  -- returns -1 only on a log whose reads can fail. The loop ends after at most as many rounds as the
  -- first offset counts.
  pub chain_lookup-Gives :
      (fuel val_cap o : ℕ) (l : List Rec) (k : Kvraw S)
      → HoldsRecs log ok k rs
      → Chain rs o l
      → o < fuel
      → Gives ok.Fails
          (chain_lookup log fuel key val_cap o)
          k
          (λ hit k'. AnswerOf val_cap (find_rec key l) hit × HoldsRecs log ok k' rs)
  unfolding chain_lookup find_rec Chain
  chain_lookup-Gives zero val_cap o l k h c lt = absurd (omega arith)
  chain_lookup-Gives (suc fuel) val_cap zero [] k h c lt =
      inr (record { off = 0; val_len = val_cap; val = [] }, k, refl, (refl, h))
  chain_lookup-Gives (suc fuel) val_cap (suc o) [] k h c lt = absurd (omega arith)
  chain_lookup-Gives (suc fuel) val_cap zero (r ∷ l) k h c lt = absurd (c.0 refl)
  chain_lookup-Gives (suc fuel) val_cap (suc o) (r ∷ l) k h (nz, a, lt', c) lt =
      or_return-Gives (kvraw_lookup log (min (length key) 256) val_cap (suc o))
        (compare_key log (chain_lookup log fuel key val_cap) key (suc o)) k
        (λ f k'. (f ≡ first_read (suc o) r a val_cap) × HoldsRecs log ok k' rs)
        (λ hit k'. AnswerOf val_cap (find_rec key (r ∷ l)) hit × HoldsRecs log ok k' rs)
        (kvraw_lookup-Gives log ok rs (suc o) r a k (min (length key) 256) val_cap h nz)
        (λ f k' (q, w). rw q (
          compare_key-Gives (suc o) r a val_cap (chain_lookup log fuel key val_cap)
            (λ hit k''. AnswerOf val_cap (find_rec key (r ∷ l)) hit × HoldsRecs log ok k'' rs)
            (λ k'' w' e. rw (e, if◌then◌else◌) ((nz, refl, refl), w'))
            (λ k'' w' e.
              rw (e, if◌then◌else◌)
                (chain_lookup-Gives fuel val_cap r.off l k'' w' c (omega arith)))
            k' w nz))
