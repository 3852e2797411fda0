-- ===== src/Calc/Position.antt =====
-- Where the parser of project-1/parser.c stands in its tokens, and its functions branch by branch.
use os_cs238p_proj.Common.{
  ℕ, zero, suc, ◌+◌, ◌<◌, ◌≡◌, ◌≢◌, ◌==◌, ==_iff, refl, ap, sym, ◌∙◌, arith, true, false, some,
  none, List, [], ◌∷◌, length, get_elem?, get_or, drop, lt→ltb, if◌then◌else◌,
}
use os_cs238p_proj.Common.Outcome.{M, ret, out_of_fuel, ◌>>=◌}
use os_cs238p_proj.Calc.{
  LexerTokenOp, LexerToken, token, token_op, token_op_number, token_val, op_end, op_val, op_add,
  op_sub, op_mul, op_div, op_open, op_close, ParserDagOp, ParserDag, null,
}
use os_cs238p_proj.Calc.Parser.{
  Parser, Kind, binary_op, next, forward, matches, expr_primary, expr_unary, loop, mk_val, close,
  or_fail, negate, after_operand,
}

-- The token at the head of what is left is the one at the index.
drop-cons :
    {A : Type 0} (xs : List A) (i : ℕ) (t : A) (ts : List A)
    → drop i xs ≡ t ∷ ts
    → (get_elem? xs i ≡ some t) × (i < length xs) × (drop (suc i) xs ≡ ts)
drop-cons [] zero t ts h = absurd (ground arith)
drop-cons [] (suc i) t ts h = absurd (ground arith)
drop-cons (x ∷ xs) zero t ts h = (grind arith, omega arith, grind arith)
drop-cons (x ∷ xs) (suc i) t ts h = let r = drop-cons xs i t ts h in (r.0, omega (arith, r.1), r.2)

drop-nil : {A : Type 0} (xs : List A) (i : ℕ) → drop i xs ≡ [] → get_elem? xs i ≡ none
drop-nil [] zero h = refl
drop-nil [] (suc i) h = refl
drop-nil (x ∷ xs) zero h = absurd (ground arith)
drop-nil (x ∷ xs) (suc i) h = drop-nil xs i h

from_number : ℕ → LexerTokenOp
from_number n =
    get_or (op_end ∷ op_val ∷ op_add ∷ op_sub ∷ op_mul ∷ op_div ∷ op_open ∷ op_close ∷ []) n op_end

from_number-token_op_number : (o : LexerTokenOp) → from_number (token_op_number o) ≡ o
unfolding from_number
from_number-token_op_number op_end = refl
from_number-token_op_number op_val = refl
from_number-token_op_number op_add = refl
from_number-token_op_number op_sub = refl
from_number-token_op_number op_mul = refl
from_number-token_op_number op_div = refl
from_number-token_op_number op_open = refl
from_number-token_op_number op_close = refl

module _ {D : Type 0} (zero_val : D) (tokens : List (LexerToken D)) where
  -- What is left to read
  abbrev pub rest : Parser → List (LexerToken D)
  rest p = drop p.i tokens

  pub next-cons :
      (p : Parser) (t : LexerToken D) (ts : List (LexerToken D))
      → rest p ≡ t ∷ ts
      → next zero_val tokens p ≡ t
  unfolding next
  next-cons p t ts h = rw ((drop-cons tokens p.i t ts h).0, next)

  pub next-nil : (p : Parser) → rest p ≡ [] → next zero_val tokens p ≡ token op_end zero_val
  unfolding next
  next-nil p h = rw (drop-nil tokens p.i h, next)

  pub forward-cons :
      (p : Parser) (t : LexerToken D) (ts : List (LexerToken D))
      → rest p ≡ t ∷ ts
      → rest (forward zero_val tokens p) ≡ ts
  unfolding forward
  forward-cons p t ts h =
      let r = drop-cons tokens p.i t ts h in
      let n : p.i + 1 ≡ suc p.i = omega arith in
      rw (lt→ltb p.i (length tokens) r.1, forward, if◌then◌else◌, n, r.2)

  -- `match` succeeds on the operator of the next token only.
  pub matches-true :
      (p : Parser) (o : LexerTokenOp)
      → matches zero_val tokens p o ≡ true
      → token_op (next zero_val tokens p) ≡ o
  unfolding matches
  matches-true p o h =
      sym (from_number-token_op_number (token_op (next zero_val tokens p)))
      ∙ ap from_number (
          sym (
            (==_iff (token_op_number o) (token_op_number (token_op (next zero_val tokens p)))).0 h))
      ∙ from_number-token_op_number o

  pub next_token :
      (p : Parser) (o : LexerTokenOp)
      → token_op (next zero_val tokens p) ≡ o
      → o ≢ op_end
      → (v : D) × (ts : List (LexerToken D)) × (rest p ≡ token o v ∷ ts)
        × (rest (forward zero_val tokens p) ≡ ts)
        × (token_val (next zero_val tokens p) ≡ v)
  next_token p o h ne = split (rest p) refl
    where
      split :
          (ts' : List (LexerToken D))
          → rest p ≡ ts'
          → (v : D) × (ts : List (LexerToken D)) × (rest p ≡ token o v ∷ ts)
            × (rest (forward zero_val tokens p) ≡ ts)
            × (token_val (next zero_val tokens p) ≡ v)
      split [] e = absurd (ne (sym h ∙ ap token_op (next-nil p e)))
      split (token o' v ∷ ts) e =
          let n = next-cons p (token o' v) ts e in
          let k : o' ≡ o = sym (ap token_op n) ∙ h in
          (v, ts, e ∙ ap (λ x. token x v ∷ ts) k, forward-cons p (token o' v) ts e, ap token_val n)

  pub forward-length :
      (p : Parser) (o : LexerTokenOp)
      → token_op (next zero_val tokens p) ≡ o
      → o ≢ op_end
      → length (rest p) ≡ suc (length (rest (forward zero_val tokens p)))
  forward-length p o h ne =
      let (v, ts, a, b, c) = next_token p o h ne in ap length a ∙ ap (λ x. suc (length x)) (sym b)

  pub matches-cons :
      (p : Parser) (o o' : LexerTokenOp) (v : D) (ts : List (LexerToken D))
      → rest p ≡ token o v ∷ ts
      → matches zero_val tokens p o' ≡ (token_op_number o' == token_op_number o)
  unfolding matches
  matches-cons p o o' v ts h = rw (next-cons p (token o v) ts h, matches)

  module _ (expr : M Parser (ParserDag D)) (p : Parser) where
    pub expr_primary-val :
        matches zero_val tokens p op_val ≡ true
        → expr_primary zero_val tokens expr p
          ≡ ret (mk_val zero_val (token_val (next zero_val tokens p)), forward zero_val tokens p)
    unfolding expr_primary
    expr_primary-val h = rw (h, expr_primary)

    pub expr_primary-open :
        matches zero_val tokens p op_val ≡ false
        → matches zero_val tokens p op_open ≡ true
        → expr_primary zero_val tokens expr p
          ≡ (expr >>= close zero_val tokens) (forward zero_val tokens p)
    unfolding expr_primary
    expr_primary-open h k = rw (h, k, expr_primary)

    pub expr_primary-other :
        matches zero_val tokens p op_val ≡ false
        → matches zero_val tokens p op_open ≡ false
        → expr_primary zero_val tokens expr p ≡ ret (null, p)
    unfolding expr_primary
    expr_primary-other h k = rw (h, k, expr_primary)

    pub expr_unary-zero : expr_unary zero_val tokens expr zero p ≡ out_of_fuel
    unfolding expr_unary
    expr_unary-zero = refl

    pub expr_unary-add :
        (fuel : ℕ)
        → matches zero_val tokens p op_add ≡ true
        → expr_unary zero_val tokens expr (suc fuel) p
          ≡ (expr_unary zero_val tokens expr fuel >>= or_fail zero_val) (forward zero_val tokens p)
    unfolding expr_unary
    expr_unary-add fuel h = rw (h, expr_unary)

    pub expr_unary-sub :
        (fuel : ℕ)
        → matches zero_val tokens p op_add ≡ false
        → matches zero_val tokens p op_sub ≡ true
        → expr_unary zero_val tokens expr (suc fuel) p
          ≡ (expr_unary zero_val tokens expr fuel >>= negate zero_val) (forward zero_val tokens p)
    unfolding expr_unary
    expr_unary-sub fuel h k = rw (h, k, expr_unary)

    pub expr_unary-other :
        (fuel : ℕ)
        → matches zero_val tokens p op_add ≡ false
        → matches zero_val tokens p op_sub ≡ false
        → expr_unary zero_val tokens expr (suc fuel) p ≡ expr_primary zero_val tokens expr p
    unfolding expr_unary
    expr_unary-other fuel h k = rw (h, k, expr_unary)

  module _ (k : Kind) (operand : ℕ → M Parser (ParserDag D)) (fuel : ℕ) (left d : ParserDag D)
      (p : Parser) where
    pub loop-zero : loop zero_val tokens k operand zero left d p ≡ out_of_fuel
    unfolding loop
    loop-zero = refl

    pub loop-none :
        binary_op k (token_op (next zero_val tokens p)) ≡ none
        → loop zero_val tokens k operand (suc fuel) left d p ≡ ret (d, p)
    unfolding loop
    loop-none h = rw (h, loop)

    pub loop-some :
        (o : ParserDagOp)
        → binary_op k (token_op (next zero_val tokens p)) ≡ some o
        → loop zero_val tokens k operand (suc fuel) left d p
          ≡ (operand fuel
                >>= after_operand zero_val tokens (loop zero_val tokens k operand fuel) k o left)
              (forward zero_val tokens p)
    unfolding loop
    loop-some o h = rw (h, loop)
