-- ===== src/Calc/Parser.antt =====
-- project-1/parser.c. `malloc` is taken to succeed; the messages of TRACE are left out, and the flag
-- `stop` that belongs to them is kept.
use os_cs238p_proj.Common.{
  ℕ, zero, suc, ◌+◌, ◌-◌, ◌==◌, ltb, Bool, true, false, if◌then◌else◌, Option, none, some, List, [],
  ◌∷◌, length, get_elem?,
}
use os_cs238p_proj.Common.Outcome.{Outcome, M, ret, abort, out_of_fuel, pure, ◌>>=◌}
use os_cs238p_proj.Calc.{
  LexerTokenOp, LexerToken, token, token_op, token_op_number, token_val, op_end, op_val, op_add,
  op_sub, op_mul, op_div, op_open, op_close, ParserDagOp, dag_val, dag_neg, dag_mul, dag_div,
  dag_add, dag_sub, dag_op_number, ParserDag, null, dag,
}

-- The fields of `struct parser` that change while it runs
pub record Parser : Type 0 where
  pub stop : Bool
  pub i : ℕ

-- Which of the two loops over binary operators is meant
pub data Kind : Type 0 where
  multiplicative : Kind
  additive : Kind

-- The operators that `expr_multiplicative_` and `expr_additive_` go on with
unfoldable pub binary_op : Kind → LexerTokenOp → Option ParserDagOp
binary_op multiplicative op_mul = some dag_mul
binary_op multiplicative op_div = some dag_div
binary_op additive op_add = some dag_add
binary_op additive op_sub = some dag_sub
binary_op _ _ = none

-- `TBL`, as character codes
abbrev pub table : Kind → List ℕ
table multiplicative = 42 ∷ 47 ∷ []
table additive = 43 ∷ 45 ∷ []

unfoldable pub trace_once : Parser → Parser
trace_once p = record p { stop = true }

module _ {D : Type 0} (zero_val : D) where
  -- The nodes that MKD makes and its callers fill
  abbrev pub mk_val : D → ParserDag D
  mk_val v = dag dag_val v null null

  abbrev pub mk_neg : ParserDag D → ParserDag D
  mk_neg r = dag dag_neg zero_val null r

  abbrev pub mk_binary : ParserDagOp → ParserDag D → ParserDag D → ParserDag D
  mk_binary o l r = dag o zero_val l r

  -- `TRACE_ONCE(parser, ...); return NULL;`
  unfoldable pub fail : M Parser (ParserDag D)
  fail p = ret (null, trace_once p)

  abbrev pub or_fail : ParserDag D → M Parser (ParserDag D)
  or_fail null = fail
  or_fail (dag o v l r) = pure (dag o v l r)

  abbrev pub negate : ParserDag D → M Parser (ParserDag D)
  negate null = fail
  negate (dag o v l r) = pure (mk_neg (dag o v l r))

  -- The message about a missing operand reads `TBL[dag->op - PARSER_DAG_MUL]`; a read beyond the
  -- table is undefined behaviour, for which `abort` stands here.
  unfoldable pub operand_error : Kind → ParserDagOp → M Parser (ParserDag D)
  operand_error k o p = elim (get_elem? (table k) (dag_op_number o - dag_op_number dag_mul)) [
    | some c ↦ fail p
    | none ↦ abort
  ]

  -- `parser->dag` after the call
  abbrev pub parsed : Outcome (ParserDag D × Parser) → Outcome (ParserDag D)
  parsed (ret (d, p)) = ret d
  parsed abort = abort
  parsed out_of_fuel = out_of_fuel

  module _ (tokens : List (LexerToken D)) where
    unfoldable pub next : Parser → LexerToken D
    next p = elim (get_elem? tokens p.i) [ some t ↦ t | none ↦ token op_end zero_val ]

    unfoldable pub forward : Parser → Parser
    forward p = if ltb p.i (length tokens) then record p { i = p.i + 1 } else p

    -- `match`
    unfoldable pub matches : Parser → LexerTokenOp → Bool
    matches p o = token_op_number o == token_op_number (token_op (next p))

    -- `match(parser, LEXER_OP_CLOSE)` and what follows it
    unfoldable pub close : ParserDag D → M Parser (ParserDag D)
    close null p = fail p
    close (dag o v l r) p = if matches p op_close then ret (dag o v l r, forward p) else fail p

    -- The recursive call of `expr` is an argument.
    unfoldable pub expr_primary : M Parser (ParserDag D) → M Parser (ParserDag D)
    expr_primary expr p = elim (matches p op_val) [
      | true ↦ ret (mk_val (token_val (next p)), forward p)
      | false ↦ elim (matches p op_open) [
        | true ↦ (expr >>= close) (forward p)
        | false ↦ ret (null, p)
      ]
    ]

    unfoldable pub expr_unary : M Parser (ParserDag D) → ℕ → M Parser (ParserDag D)
    expr_unary expr zero p = out_of_fuel
    expr_unary expr (suc fuel) p = elim (matches p op_add) [
      | true ↦ (expr_unary expr fuel >>= or_fail) (forward p)
      | false ↦ elim (matches p op_sub) [
        | true ↦ (expr_unary expr fuel >>= negate) (forward p)
        | false ↦ expr_primary expr p
      ]
    ]

    -- The end of a round: the rest of the chain, then the next round.
    unfoldable pub again :
        (ParserDag D → M Parser (ParserDag D)) → ParserDag D → M Parser (ParserDag D)
    again loop null = fail
    again loop (dag o v l r) = loop (dag o v l r)

    -- After the operand of operator `o`
    unfoldable pub after_operand :
        (ParserDag D → ParserDag D → M Parser (ParserDag D))
        → Kind
        → ParserDagOp
        → ParserDag D
        → ParserDag D
        → M Parser (ParserDag D)
    after_operand loop k o left null = operand_error k o
    after_operand loop k o left (dag o' v l r) =
        loop (mk_binary o left (dag o' v l r)) (mk_binary o left (dag o' v l r))
        >>= again (loop left)

    -- The `for` loop of `expr_multiplicative_` and of `expr_additive_`, which differ in the operators
    -- and in the operand. Called with `left` for `dag`, it is those functions.
    unfoldable pub loop :
        Kind → (ℕ → M Parser (ParserDag D)) → ℕ → ParserDag D → ParserDag D → M Parser (ParserDag D)
    loop k operand zero left d p = out_of_fuel
    loop k operand (suc fuel) left d p = elim (binary_op k (token_op (next p))) [
      | none ↦ ret (d, p)
      | some o ↦ (operand fuel >>= after_operand (loop k operand fuel) k o left) (forward p)
    ]

    unfoldable pub after_first :
        (ParserDag D → M Parser (ParserDag D)) → ParserDag D → M Parser (ParserDag D)
    after_first rest null = pure null
    after_first rest (dag o v l r) = rest (dag o v l r)

    -- `expr_multiplicative` and `expr_additive`
    unfoldable pub chain : Kind → (ℕ → M Parser (ParserDag D)) → ℕ → M Parser (ParserDag D)
    chain k operand fuel = operand fuel >>= after_first λ d. loop k operand fuel d d

    unfoldable pub expr_multiplicative : M Parser (ParserDag D) → ℕ → M Parser (ParserDag D)
    expr_multiplicative expr = chain multiplicative (expr_unary expr)

    unfoldable pub expr_additive : M Parser (ParserDag D) → ℕ → M Parser (ParserDag D)
    expr_additive expr = chain additive (expr_multiplicative expr)

    unfoldable pub expr : ℕ → M Parser (ParserDag D)
    expr zero p = out_of_fuel
    expr (suc fuel) p = expr_additive (expr fuel) fuel p

    unfoldable pub trailing : ParserDag D → M Parser (ParserDag D)
    trailing null p = fail p
    trailing (dag o v l r) p = if matches p op_end then ret (dag o v l r, p) else fail p

    -- Every call takes a token or goes to the next level of the grammar.
    unfoldable pub top : M Parser (ParserDag D)
    top = expr (length tokens + 2) >>= trailing

    -- `parser_open`, from the tokens on
    unfoldable pub parse : Outcome (ParserDag D)
    parse = if length tokens == 0 then ret null else parsed (top (record { stop = false; i = 0 }))
