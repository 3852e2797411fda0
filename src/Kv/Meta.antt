-- ===== src/Kv/Meta.antt =====
-- `struct meta` of project-4/kvraw.c: the 16 packed bytes in front of each record, numbers with the
-- least byte first.
use os_cs238p_proj.Common.{
  ℕ, zero, suc, ◌+◌, ◌*◌, ◌/◌, ◌%◌, ◌^◌, ◌<◌, ◌≡◌, refl, arith, List, [], ◌∷◌, ◌++◌, length, get_or,
  slice,
}

pub record Meta : Type 0 where
  pub mark0 : ℕ
  pub mark1 : ℕ
  pub off : ℕ
  pub key_len : ℕ
  pub val_len : ℕ

-- `META_LEN`
abbrev pub meta_len : ℕ
meta_len = 16

-- An unsigned number in `n` bytes
unfoldable pub to_bytes : ℕ → ℕ → List ℕ
to_bytes zero x = []
to_bytes (suc n) x = (x % 256) ∷ to_bytes n (x / 256)

unfoldable pub from_bytes : List ℕ → ℕ
from_bytes [] = 0
from_bytes (b ∷ bs) = b + 256 * from_bytes bs

unfoldable pub encode_meta : Meta → List ℕ
encode_meta m =
    m.mark0 ∷ m.mark1 ∷ (to_bytes 8 m.off ++ (to_bytes 2 m.key_len ++ to_bytes 4 m.val_len))

unfoldable pub decode_meta : List ℕ → Meta
decode_meta bytes = record {
  mark0 = get_or bytes 0 0;
  mark1 = get_or bytes 1 0;
  off = from_bytes (slice bytes 2 8);
  key_len = from_bytes (slice bytes 10 2);
  val_len = from_bytes (slice bytes 12 4);
}

pub record Fits (m : Meta) : Type 0 where
  pub off : m.off < 2 ^ 64
  pub key_len : m.key_len < 2 ^ 16
  pub val_len : m.val_len < 2 ^ 32

pub length-encode_meta : (m : Meta) → length (encode_meta m) ≡ meta_len
unfolding encode_meta to_bytes
length-encode_meta m = refl

-- The header of a record is read back from its 16 bytes, where its numbers fit into their fields: an
-- offset of 64 bits, and lengths of 16 and 32 bits.
pub decode_meta-encode_meta : (m : Meta) → Fits m → decode_meta (encode_meta m) ≡ m
unfolding decode_meta encode_meta to_bytes from_bytes
decode_meta-encode_meta m f = λ i. record {
  mark0 = m.mark0;
  mark1 = m.mark1;
  off = word8 m.off f.off i;
  key_len = word2 m.key_len f.key_len i;
  val_len = word4 m.val_len f.val_len i;
}
  where
    word2 : (x : ℕ) → x < 2 ^ 16 → from_bytes (to_bytes 2 x) ≡ x
    word2 x h = omega arith

    word4 : (x : ℕ) → x < 2 ^ 32 → from_bytes (to_bytes 4 x) ≡ x
    word4 x h = omega arith

    word8 : (x : ℕ) → x < 2 ^ 64 → from_bytes (to_bytes 8 x) ≡ x
    word8 x h = omega arith
