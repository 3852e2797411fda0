-- ===== src/Kv/Db/Live.antt =====
-- What the counters `size` and `waste` of project-4/kvdb.c count.
use os_cs238p_proj.Common.{
  ℕ, ◌+◌, ◌-◌, ◌<◌, ◌≤◌, ◌==◌, ◌≡◌, inl, inr, refl, ap, sym, ◌∙◌, arith, Bool, true, false, ◌||◌,
  Bool-cases, if◌then◌else◌, List, [], ◌∷◌, length, length-append,
}
use os_cs238p_proj.Common.Word.{u64_mod, add64, sub64, add64_exact, sub64_exact}
use os_cs238p_proj.Kv.Raw.Records.{Rec, encode, encode_all, encode_all-append, length-encode}
use os_cs238p_proj.Kv.Db.{
  Mode, mutate_remove, mutate_insert, mutate_update, mutate_replace, bytes_eq,
}
use os_cs238p_proj.Kv.Db.Chain.{find_rec, eq_of_bytes_eq, bytes_eq_refl}
use os_cs238p_proj.Kv.Db.History.{written, current, written-pos}
use os_cs238p_proj.Kv.Db.Contract.{permits, next_size, next_waste, new_val, absent}

-- 1 for a value, 0 for the empty one of a removal
unfoldable pub present : List ℕ → ℕ
present [] = 0
present (x ∷ xs) = 1

abbrev pub with_key : List ℕ → (List ℕ → Bool) → List ℕ → Bool
with_key key seen x = bytes_eq key x || seen x

-- The keys with a value, other than those seen before
unfoldable pub live_beyond : (List ℕ → Bool) → List Rec → ℕ
live_beyond seen [] = 0
live_beyond seen (r ∷ hist) =
    let rest = live_beyond (with_key r.key seen) hist in
    if seen r.key then rest else present r.val + rest

-- The number of keys that have a value
abbrev pub live : List Rec → ℕ
live hist = live_beyond (λ x. false) hist

-- The number of values that were written
unfoldable pub vals : List Rec → ℕ
vals [] = 0
vals (r ∷ hist) = present r.val + vals hist

present_of : Bool → List ℕ → ℕ
present_of seen val = if seen then 0 else present val

bytes_eq-false : (xs ys : List ℕ) → bytes_eq xs ys ≡ false → bytes_eq ys xs ≡ false
bytes_eq-false xs ys h = elim (Bool-cases (bytes_eq ys xs)) [
  | inl e ↦
      let p = eq_of_bytes_eq ys xs e in absurd (cc (sym h ∙ ap (bytes_eq xs) p ∙ bytes_eq_refl xs))
  | inr e ↦ e
]

or_swap : (a b c : Bool) → (a || (b || c)) ≡ (b || (a || c))
or_swap true true c = refl
or_swap true false c = refl
or_swap false b c = refl

or_twice : (a b : Bool) → (a || (a || b)) ≡ (a || b)
or_twice true b = refl
or_twice false b = refl

-- A key more that was seen is at most one key less to count.
live_beyond-with_key :
    (key : List ℕ) (hist : List Rec) (seen : List ℕ → Bool)
    → live_beyond seen hist
      ≡ live_beyond (with_key key seen) hist + present_of (seen key) (current key hist)
unfolding live_beyond present_of find_rec present
live_beyond-with_key key [] seen = elim (Bool-cases (seen key)) [
  | inl e ↦ rw (e, if◌then◌else◌) refl
  | inr e ↦ rw (e, if◌then◌else◌) refl
]
live_beyond-with_key key (r ∷ hist) seen = elim (Bool-cases (bytes_eq r.key key)) [
  | inl e ↦
      let p = eq_of_bytes_eq r.key key e in
      let t : with_key r.key (with_key key seen) ≡ with_key r.key seen = λ i x.
        (ap (λ k. bytes_eq r.key x || (bytes_eq k x || seen x)) (sym p)
            ∙ or_twice (bytes_eq r.key x) (seen x))
          i in
      let m : (bytes_eq key r.key || seen r.key) ≡ true =
        rw (ap (bytes_eq key) p ∙ bytes_eq_refl key) refl in
      let q : seen r.key ≡ seen key = ap seen p in
      elim (Bool-cases (seen key)) [
        | inl g ↦ rw (m, e, q ∙ g, g, t, if◌then◌else◌) (omega arith)
        | inr g ↦ rw (m, e, q ∙ g, g, t, if◌then◌else◌) (omega arith)
      ]
  | inr e ↦
      let t : with_key r.key (with_key key seen) ≡ with_key key (with_key r.key seen) =
        λ i x. or_swap (bytes_eq r.key x) (bytes_eq key x) (seen x) i in
      let m : (bytes_eq key r.key || seen r.key) ≡ seen r.key =
        rw (bytes_eq-false r.key key e) refl in
      let w : (bytes_eq r.key key || seen key) ≡ seen key = rw e refl in
      let ih = live_beyond-with_key key hist (with_key r.key seen) in
      let ih' : live_beyond (with_key r.key seen) hist
          ≡ live_beyond (with_key r.key (with_key key seen)) hist
            + present_of (seen key) (current key hist) =
        ih
        ∙ ap
            (λ s.
              live_beyond s hist + present_of (bytes_eq r.key key || seen key) (current key hist))
            (sym t)
        ∙ ap
            (λ b.
              live_beyond (with_key r.key (with_key key seen)) hist
              + present_of b (current key hist))
            w in
      elim (Bool-cases (seen r.key)) [
        | inl g ↦ rw (m, e, g, if◌then◌else◌) ih'
        | inr g ↦ rw (m, e, g, if◌then◌else◌) (omega (arith, ih'))
      ]
]

present-zero : (xs : List ℕ) → (length xs == 0) ≡ true → present xs ≡ 0
unfolding present
present-zero [] h = refl
present-zero (x ∷ xs) h = absurd (ground arith)

present-one : (xs : List ℕ) → (length xs == 0) ≡ false → present xs ≡ 1
unfolding present
present-one [] h = absurd (cc h)
present-one (x ∷ xs) h = refl

-- A write of `val`, or of the empty value, where the mode permits it, changes the two counters the way
-- `mutate` does.
pub live-counters :
    (mode : Mode) (hist : List Rec) (key val : List ℕ) (off n w : ℕ)
    → (length val == 0) ≡ false
    → permits mode (absent key hist) ≡ true
    → n ≡ live hist
    → n + w ≡ vals hist
    → vals hist + 1 < u64_mod
    → (next_size mode (absent key hist) n
        ≡ live (record { key = key; val = new_val mode val; off = off } ∷ hist))
      × (next_size mode (absent key hist) n + next_waste mode (absent key hist) w
          ≡ vals (record { key = key; val = new_val mode val; off = off } ∷ hist))
unfolding permits next_size next_waste new_val live_beyond vals present present_of
live-counters mode hist key val off n w v p e s lt = elim (Bool-cases (absent key hist)) [
  | inl a ↦
      gone mode a (live_beyond-with_key key hist (λ x. false)) (present-zero (current key hist) a) p
  | inr a ↦
      there mode a (live_beyond-with_key key hist (λ x. false)) (present-one (current key hist) a) p
]
  where
    rest : ℕ
    rest = live_beyond (with_key key (λ x. false)) hist

    Goal : Mode → Type 0
    Goal mode =
        (next_size mode (absent key hist) n
          ≡ live (record { key = key; val = new_val mode val; off = off } ∷ hist))
        × (next_size mode (absent key hist) n + next_waste mode (absent key hist) w
            ≡ vals (record { key = key; val = new_val mode val; off = off } ∷ hist))

    up1 : add64 n 1 ≡ n + 1
    up1 = add64_exact n 1 (omega arith)

    upw : add64 w 1 ≡ w + 1
    upw = add64_exact w 1 (omega arith)

    pv : present val ≡ 1
    pv = present-one val v

    gone :
        (mode : Mode)
        → absent key hist ≡ true
        → live hist ≡ rest + present (current key hist)
        → present (current key hist) ≡ 0
        → permits mode (absent key hist) ≡ true
        → Goal mode
    gone mutate_remove a l z p = absurd (cc (rw a at p))
    gone mutate_insert a l z p = (omega (arith, up1, pv, e, l, z), omega (arith, up1, pv, s))
    gone mutate_update a l z p =
        rw (a, if◌then◌else◌) (omega (arith, up1, pv, e, l, z), omega (arith, up1, pv, s))
    gone mutate_replace a l z p = absurd (cc (rw a at p))

    there :
        (mode : Mode)
        → absent key hist ≡ false
        → live hist ≡ rest + present (current key hist)
        → present (current key hist) ≡ 1
        → permits mode (absent key hist) ≡ true
        → Goal mode
    there mutate_remove a l z p =
        let down1 : sub64 n 1 ≡ n - 1 = sub64_exact n 1 (omega arith) (omega arith) in
        (omega (arith, down1, e, l, z), omega (arith, down1, upw, s, e, l, z))
    there mutate_insert a l z p = absurd (cc (sym a ∙ p))
    there mutate_update a l z p =
        rw (a, if◌then◌else◌) (omega (arith, pv, e, l, z), omega (arith, upw, pv, s))
    there mutate_replace a l z p = (omega (arith, pv, e, l, z), omega (arith, upw, pv, s))

-- There are no more values than bytes in the log.
pub vals-le : (hist : List Rec) → vals hist + 1 ≤ length (encode_all (written hist))
unfolding vals written present encode_all
vals-le [] = omega (arith, written-pos [])
vals-le (r ∷ hist) = omega (
  arith,
  vals-le hist,
  ap length (encode_all-append (written hist) (r ∷ [])),
  length-append (encode_all (written hist)) (encode_all (r ∷ [])),
  length-append (encode r) [],
  length-encode r,
  present_le r.val,
)
  where
    present_le : (xs : List ℕ) → present xs ≤ 1
    present_le [] = omega arith
    present_le (x ∷ xs) = omega arith
