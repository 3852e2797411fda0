-- ===== src/Kv/Logfs/Blocks.antt =====
-- Bytes cut into blocks, for project-4/logfs.c.
use Prim.Native.Nat.{compare}
use native.Mathlib.Nat.{
  add-mul, mul-le-mul_right, mul-mod_left, mul-add-mod_self_right, mod-eq_of_lt, mul-div_cancel,
}
use os_cs238p_proj.Common.{
  ℕ, zero, suc, ◌+◌, ◌-◌, ◌*◌, ◌/◌, ◌%◌, ◌<◌, ◌≤◌, ◌≡◌, ◌⊎◌, inl, inr, refl, ap, sym, ◌∙◌, arith,
  List, [], ◌∷◌, ◌++◌, length, take, drop, slice, length-append, length-take, length-drop,
  take-append, take_all, drop-add, Ordering-cases, append_assoc,
}
use os_cs238p_proj.Kv.Logfs.{overwrite}

-- A multiple of the size of a block
abbrev pub Aligned : ℕ → ℕ → Type 0
Aligned n o = (k : ℕ) × (o ≡ k * n)

aligned_lt : (n k l : ℕ) → k < l → k * n + n ≤ l * n
aligned_lt n k l lt =
    let h : (k + 1) * n ≤ l * n = mul-le-mul_right n (omega arith) in
    omega (arith, h, add-mul k 1 n)

-- Two blocks are the same, or one is before the other.
pub Aligned-apart :
    (n o o' : ℕ) → Aligned n o → Aligned n o' → (o ≡ o') ⊎ (o + n ≤ o') ⊎ (o' + n ≤ o)
Aligned-apart n o o' (k, e) (l, f) = elim (Ordering-cases (compare k l)) [
  | inl h ↦ inr (inl (omega (arith, e, f, aligned_lt n k l (ground (arith, h)))))
  | inr (inl h) ↦ let q : k ≡ l = ground (arith, h) in inl (e ∙ ap (λ x. x * n) q ∙ sym f)
  | inr (inr h) ↦ inr (inr (omega (arith, e, f, aligned_lt n l k (ground (arith, h)))))
]

pub Aligned-mod : (n o : ℕ) → Aligned n o → o % n ≡ 0
Aligned-mod n o (k, e) = ap (λ x. x % n) e ∙ mul-mod_left k n

-- The start of the block that an offset is in
pub Aligned-add-mod : (n o x : ℕ) → Aligned n o → x < n → (o + x) % n ≡ x
Aligned-add-mod n o x (k, e) lt =
    ap (λ y. (y + x) % n) e ∙ mul-add-mod_self_right k n x ∙ mod-eq_of_lt lt

pub aligned-div : (n k : ℕ) → 0 < n → k * n / n ≡ k
aligned-div n k h = mul-div_cancel k h

-- The block at an offset
abbrev pub part : List ℕ → ℕ → ℕ → List ℕ
part bytes n o = slice bytes o n

pub drop-append_le : (o : ℕ) (xs ys : List ℕ) → o ≤ length xs → drop o (xs ++ ys) ≡ drop o xs ++ ys
drop-append_le zero xs ys h = refl
drop-append_le (suc o) [] ys h = absurd (omega arith)
drop-append_le (suc o) (x ∷ xs) ys h = drop-append_le o xs ys (omega arith)

pub part-append :
    (bytes more : List ℕ) (n o : ℕ)
    → o + n ≤ length bytes
    → part (bytes ++ more) n o ≡ part bytes n o
part-append bytes more n o h =
    ap (take n) (drop-append_le o bytes more (omega arith))
    ∙ take-append (drop o bytes) more n (omega (arith, length-drop o bytes))

pub length-part : (bytes : List ℕ) (n o : ℕ) → o + n ≤ length bytes → length (part bytes n o) ≡ n
length-part bytes n o h = omega (arith, length-take n (drop o bytes), length-drop o bytes)

slice-take : (m j len : ℕ) (xs : List ℕ) → j + len ≤ m → slice (take m xs) j len ≡ slice xs j len
slice-take m zero len xs h = take-take_le len m xs (omega arith)
  where
    take-take_le : (a b : ℕ) (xs : List ℕ) → a ≤ b → take a (take b xs) ≡ take a xs
    take-take_le zero b xs h = refl
    take-take_le (suc a) zero xs h = absurd (omega arith)
    take-take_le (suc a) (suc b) [] h = refl
    take-take_le (suc a) (suc b) (x ∷ xs) h = ap (◌∷◌ x) (take-take_le a b xs (omega arith))
slice-take zero (suc j) len xs h = absurd (omega arith)
slice-take (suc m) (suc j) len [] h = refl
slice-take (suc m) (suc j) len (x ∷ xs) h = slice-take m j len xs (omega arith)

-- A buffer that has the bytes of the block at `o`, as far as there are any
abbrev pub Good : ℕ → List ℕ → List ℕ → ℕ → Type 0
Good n bytes buf o =
    (length buf ≤ n) × (o ≤ length bytes) × (take (length bytes - o) buf ≡ part bytes n o)

pub Good-slice :
    (n : ℕ) (bytes buf : List ℕ) (o x len : ℕ)
    → Good n bytes buf o
    → o ≤ x
    → x + len ≤ o + n
    → x + len ≤ length bytes
    → slice buf (x - o) len ≡ slice bytes x len
Good-slice n bytes buf o x len (a, b, e) h k l =
    let q : o + (x - o) ≡ x = omega arith in
    sym (slice-take (length bytes - o) (x - o) len buf (omega arith))
    ∙ ap (λ y. slice y (x - o) len) e
    ∙ slice-take n (x - o) len (drop o bytes) (omega arith)
    ∙ ap (take len) (sym (drop-add o (x - o) bytes))
    ∙ ap (λ y. slice bytes y len) q

pub Good-full :
    (n : ℕ) (bytes buf : List ℕ) (o : ℕ)
    → Good n bytes buf o
    → o + n ≤ length bytes
    → buf ≡ part bytes n o
Good-full n bytes buf o (a, b, e) h = sym (take_all buf (length bytes - o) (omega arith)) ∙ e

pub full-Good :
    (n : ℕ) (bytes buf : List ℕ) (o : ℕ)
    → o + n ≤ length bytes
    → buf ≡ part bytes n o
    → Good n bytes buf o
full-Good n bytes buf o h e =
    let l : length buf ≡ n = ap length e ∙ length-part bytes n o h in
    (omega (arith, l), omega arith, take_all buf (length bytes - o) (omega (arith, l)) ∙ e)

pub drop_all : (n : ℕ) (xs : List ℕ) → length xs ≤ n → drop n xs ≡ []
drop_all zero [] h = refl
drop_all zero (x ∷ xs) h = absurd (omega arith)
drop_all (suc n) [] h = refl
drop_all (suc n) (x ∷ xs) h = drop_all n xs (omega arith)

pub take_prefix : (n : ℕ) (xs ys : List ℕ) → n ≡ length xs → take n (xs ++ ys) ≡ xs
take_prefix n xs ys e = take-append xs ys n (omega (arith, e)) ∙ take_all xs n (omega (arith, e))

module _ (xs ys : List ℕ) (i : ℕ) (h : i + length ys ≤ length xs) where
  length_front : length (take i xs) ≡ i
  length_front = omega (arith, length-take i xs)

  pub length-overwrite : length (overwrite xs i ys) ≡ length xs
  unfolding overwrite
  length-overwrite = omega (
    arith,
    length-append (take i xs) (ys ++ drop (i + length ys) xs),
    length-append ys (drop (i + length ys) xs),
    length-drop (i + length ys) xs,
    length_front,
  )

  -- The bytes up to the end of what was written
  pub take-overwrite : take (i + length ys) (overwrite xs i ys) ≡ take i xs ++ ys
  unfolding overwrite
  take-overwrite =
      ap (take (i + length ys)) (sym (append_assoc (take i xs) ys (drop (i + length ys) xs)))
      ∙ take_prefix (i + length ys) (take i xs ++ ys) (drop (i + length ys) xs)
          (omega (arith, length-append (take i xs) ys, length_front))
