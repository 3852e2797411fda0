-- ===== src/Calc/Missing.antt =====
-- A `+` or `-` without its right operand, in project-1/parser.c.
use os_cs238p_proj.Common.{
  ℕ, suc, ◌+◌, ◌-◌, ◌≡◌, refl, ap, subst, ◌∙◌, arith, some, List, [], ◌∷◌, length, ◌==◌,
  if◌then◌else◌, ==_of_ne,
}
use os_cs238p_proj.Common.Outcome.{M, ret, abort, >>=-ret, >>=-abort}
use os_cs238p_proj.Calc.{
  LexerTokenOp, LexerToken, token, token_op_number, op_end, op_val, op_add, op_sub, op_mul, op_div,
  op_open, op_close, ParserDagOp, dag_add, dag_sub, ParserDag, null,
}
use os_cs238p_proj.Calc.Parser.{
  Parser, multiplicative, additive, binary_op, forward, matches, operand_error, after_operand,
  after_first, expr_unary, loop, chain, expr_multiplicative, expr_additive, expr, trailing, top,
  parse, parsed,
}
use os_cs238p_proj.Calc.Grammar.{Derives, Derives_longer, Derives-IsDag, level}
use os_cs238p_proj.Calc.Position.{
  rest, next-nil, forward-cons, expr_primary-other, expr_unary-other, loop-some,
}
use os_cs238p_proj.Calc.Reads.{additive_only, after_first_reads, next-head_op}
use os_cs238p_proj.Calc.Complete.{complete}
use os_cs238p_proj.Calc.Parsing.{start}

module _ {D : Type 0} (zero_val : D) (tokens : List (LexerToken D)) where
  -- No token matches at the end.
  matches_end :
      (p : Parser) (o : LexerTokenOp)
      → rest zero_val tokens p ≡ []
      → matches zero_val tokens p o ≡ (token_op_number o == 0)
  unfolding matches
  matches_end p o h = rw (next-nil zero_val tokens p h, matches)

  operand_end :
      (e : M Parser (ParserDag D)) (f : ℕ) (p : Parser)
      → rest zero_val tokens p ≡ []
      → expr_multiplicative zero_val tokens e (suc f) p ≡ ret (null, p)
  unfolding expr_multiplicative chain after_first
  operand_end e f p h =
      let u =
        expr_unary-other zero_val tokens e p f (matches_end p op_add h) (matches_end p op_sub h)
        ∙ expr_primary-other zero_val tokens e p (matches_end p op_val h)
            (matches_end p op_open h) in
      >>=-ret (expr_unary zero_val tokens e (suc f))
        (after_first zero_val tokens
          (λ l. loop zero_val tokens multiplicative (expr_unary zero_val tokens e) (suc f) l l))
        p p null u

  operand_error_additive :
      (b : ParserDagOp) (o : LexerTokenOp) (p : Parser)
      → binary_op additive o ≡ some b
      → operand_error {D = D} zero_val additive b p ≡ abort
  unfolding operand_error binary_op
  operand_error_additive b op_end p h = absurd (cc h)
  operand_error_additive b op_val p h = absurd (cc h)
  operand_error_additive b op_add p h =
      let e : dag_add ≡ b = cc h in
      subst (λ x. operand_error {D = D} zero_val additive x p ≡ abort) e refl
  operand_error_additive b op_sub p h =
      let e : dag_sub ≡ b = cc h in
      subst (λ x. operand_error {D = D} zero_val additive x p ≡ abort) e refl
  operand_error_additive b op_mul p h = absurd (cc h)
  operand_error_additive b op_div p h = absurd (cc h)
  operand_error_additive b op_open p h = absurd (cc h)
  operand_error_additive b op_close p h = absurd (cc h)

  -- The loop at the operator
  loop_missing :
      (e : M Parser (ParserDag D)) (f : ℕ) (l : ParserDag D) (o : LexerTokenOp) (b : ParserDagOp)
      (v : D) (p : Parser)
      → binary_op additive o ≡ some b
      → rest zero_val tokens p ≡ token o v ∷ []
      → loop zero_val tokens additive (expr_multiplicative zero_val tokens e) (suc (suc f)) l l p
        ≡ abort
  unfolding after_operand
  loop_missing e f l o b v p s h =
      let m = expr_multiplicative zero_val tokens e in
      let x =
        after_operand zero_val tokens (loop zero_val tokens additive m (suc f)) additive b l in
      let q = forward zero_val tokens p in
      loop-some zero_val tokens additive m (suc f) l l p b
        (ap (binary_op additive) (next-head_op zero_val tokens p (token o v ∷ []) h) ∙ s)
      ∙ >>=-ret (m (suc f)) x q q null
          (operand_end e f q (forward-cons zero_val tokens p (token o v) [] h))
      ∙ operand_error_additive b o q s

  top_missing :
      (m : ℕ) (d : ParserDag D) (o : LexerTokenOp) (b : ParserDagOp) (v : D)
      → length tokens ≡ suc m
      → binary_op additive o ≡ some b
      → Derives zero_val (level multiplicative) tokens (token o v ∷ []) d
      → top zero_val tokens (start zero_val tokens) ≡ abort
  unfolding top expr expr_additive chain after_first
  top_missing m d o b v n s h =
      let p = start zero_val tokens in
      let f = suc (suc m) in
      let e = expr zero_val tokens f in
      let k = expr_multiplicative zero_val tokens e in
      let g = λ (l : ParserDag D). loop zero_val tokens additive k f l l in
      let (q, a, r) =
        complete zero_val tokens (level multiplicative) tokens (token o v ∷ []) d f f p h refl
          (additive_only o b s) tt (omega arith) (omega arith) in
      let i = Derives-IsDag zero_val (level multiplicative) tokens (token o v ∷ []) d h tt in
      let z : expr zero_val tokens (suc f) p ≡ abort =
        >>=-ret (k f) (after_first zero_val tokens g) p q d a
        ∙ after_first_reads zero_val tokens g d q i
        ∙ loop_missing e m d o b v q s r in
      let c : length tokens + 2 ≡ suc f = omega arith in
      >>=-abort (expr zero_val tokens (length tokens + 2)) (trailing zero_val tokens) p (rw c z)

  -- A product followed by `+` or `-` and nothing else makes the parser read beyond the table of
  -- operators, for the message about the missing operand.
  pub parse_missing :
      (d : ParserDag D) (o : LexerTokenOp) (b : ParserDagOp) (v : D)
      → binary_op additive o ≡ some b
      → Derives zero_val (level multiplicative) tokens (token o v ∷ []) d
      → parse zero_val tokens ≡ abort
  unfolding parse
  parse_missing d o b v s h =
      let n = Derives_longer zero_val (level multiplicative) tokens (token o v ∷ []) d h in
      let z = top_missing (length tokens - 1) d o b v (omega arith) s h in
      rw (==_of_ne (length tokens) 0 (λ e. omega arith), if◌then◌else◌) (ap (parsed zero_val) z)
