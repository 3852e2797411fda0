-- ===== src/Common/Bytes.antt =====
-- C strings as the lists of their bytes, the final NUL left out, and `strcmp` of string.h.
use Prim.Native.Nat.{ℕ, compare, Ordering}
use Prim.Native.Nat.Ordering.{lt, eq, gt}
use mathlib.Core.Path.{◌≡◌, refl}
use mathlib.Core.List.{List, [], ◌∷◌}
use native.Mathlib.Omega.{arith}

abbrev pub CString : Type 0
CString = List ℕ

-- The sign of `strcmp`: C says no more of its value.
unfoldable pub strcmp : CString → CString → Ordering
strcmp [] [] = eq
strcmp [] (y ∷ ys) = lt
strcmp (x ∷ xs) [] = gt
strcmp (x ∷ xs) (y ∷ ys) = elim (compare x y) [ lt ↦ lt | eq ↦ strcmp xs ys | gt ↦ gt ]

pub strcmp_refl : (a : CString) → strcmp a a ≡ eq
unfolding strcmp
strcmp_refl [] = refl
strcmp_refl (x ∷ xs) = ground (arith, strcmp_refl xs)

pub eq_of_strcmp : (a b : CString) → strcmp a b ≡ eq → a ≡ b
unfolding strcmp
eq_of_strcmp [] [] h = refl
eq_of_strcmp [] (y ∷ ys) h = ground arith
eq_of_strcmp (x ∷ xs) [] h = ground arith
eq_of_strcmp (x ∷ xs) (y ∷ ys) h = ground (arith, eq_of_strcmp xs ys)

pub lt_of_gt : (a b : CString) → strcmp a b ≡ gt → strcmp b a ≡ lt
unfolding strcmp
lt_of_gt [] [] h = ground arith
lt_of_gt [] (y ∷ ys) h = ground arith
lt_of_gt (x ∷ xs) [] h = refl
lt_of_gt (x ∷ xs) (y ∷ ys) h = ground (arith, lt_of_gt xs ys)

pub gt_of_lt : (a b : CString) → strcmp a b ≡ lt → strcmp b a ≡ gt
unfolding strcmp
gt_of_lt [] [] h = ground arith
gt_of_lt [] (y ∷ ys) h = refl
gt_of_lt (x ∷ xs) [] h = ground arith
gt_of_lt (x ∷ xs) (y ∷ ys) h = ground (arith, gt_of_lt xs ys)

pub strcmp_trans : (a b c : CString) → strcmp a b ≡ lt → strcmp b c ≡ lt → strcmp a c ≡ lt
unfolding strcmp
strcmp_trans [] [] c h k = ground arith
strcmp_trans [] (y ∷ ys) [] h k = ground arith
strcmp_trans [] (y ∷ ys) (z ∷ zs) h k = refl
strcmp_trans (x ∷ xs) [] c h k = ground arith
strcmp_trans (x ∷ xs) (y ∷ ys) [] h k = ground arith
strcmp_trans (x ∷ xs) (y ∷ ys) (z ∷ zs) h k = ground (arith, strcmp_trans xs ys zs)
