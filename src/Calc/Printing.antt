-- ===== src/Calc/Printing.antt =====
-- The trees that project-1/parser.c makes, and tokens for each of them.
use os_cs238p_proj.Common.{◌≡◌, List, [], ◌∷◌}
use os_cs238p_proj.Common.Outcome.{ret}
use os_cs238p_proj.Calc.{
  LexerTokenOp, LexerToken, token, op_val, op_add, op_sub, op_mul, op_div, op_open, op_close,
  ParserDagOp, dag_none, dag_val, dag_neg, dag_mul, dag_div, dag_add, dag_sub, ParserDag, null, dag,
}
use os_cs238p_proj.Calc.Parser.{Kind, multiplicative, additive, parse, mk_val, mk_neg, mk_binary}
use os_cs238p_proj.Calc.Grammar.{
  Operator, times, divided, added, subtracted, Level, primary, unary, level, tail, Derives, value,
  paren, simple, plus, minus, operands, done, more,
}
use os_cs238p_proj.Calc.Parsing.{Derives-NoEnd, parse-Derives}

abbrev pub IsBinary : ParserDagOp → Type 0
IsBinary dag_mul = Unit
IsBinary dag_div = Unit
IsBinary dag_add = Unit
IsBinary dag_sub = Unit
IsBinary _ = ⊥

Operator-IsBinary : (k : Kind) (o : LexerTokenOp) (b : ParserDagOp) → Operator k o b → IsBinary b
Operator-IsBinary k o b times = tt
Operator-IsBinary k o b divided = tt
Operator-IsBinary k o b added = tt
Operator-IsBinary k o b subtracted = tt

module _ {D : Type 0} (zero_val : D) where
  -- A tree of values, negations and binary operators
  pub data Expression : ParserDag D → Type 0 where
    literal : (v : D) → Expression (mk_val zero_val v)
    negation : (r : ParserDag D) → Expression r → Expression (mk_neg zero_val r)
    operation :
        (o : ParserDagOp) (l r : ParserDag D)
        → IsBinary o
        → Expression l
        → Expression r
        → Expression (mk_binary zero_val o l r)

  -- A tail makes an expression of one.
  abbrev Before : Level D → Type 0
  Before (tail k l) = Expression l
  Before _ = Unit

  pub Derives-Expression :
      (n : Level D) (ts us : List (LexerToken D)) (d : ParserDag D)
      → Derives zero_val n ts us d
      → Before n
      → Expression d
  Derives-Expression n ts us d (value v _) x = literal v
  Derives-Expression n ts us d (paren v w ts' _ _ h) x =
      Derives-Expression (level additive) ts' (token op_close w ∷ us) d h tt
  Derives-Expression n ts us d (simple _ _ _ h) x = Derives-Expression primary ts us d h tt
  Derives-Expression n ts us d (plus v ts' _ _ h) x = Derives-Expression unary ts' us d h tt
  Derives-Expression n ts us d (minus v ts' _ e h) x =
      negation e (Derives-Expression unary ts' us e h tt)
  Derives-Expression n ts us d (operands multiplicative _ ws _ l _ h g) x =
      Derives-Expression (tail multiplicative l) ws us d g (Derives-Expression unary ts ws l h tt)
  Derives-Expression n ts us d (operands additive _ ws _ l _ h g) x =
      Derives-Expression (tail additive l) ws us d g
        (Derives-Expression (level multiplicative) ts ws l h tt)
  Derives-Expression n ts us d (done k _ _) x = x
  Derives-Expression n ts us d (more multiplicative o b v ts' ws _ l e _ q h g) x =
      Derives-Expression (tail multiplicative (mk_binary zero_val b l e)) ws us d g (
        operation b l e (Operator-IsBinary multiplicative o b q) x
          (Derives-Expression unary ts' ws e h tt))
  Derives-Expression n ts us d (more additive o b v ts' ws _ l e _ q h g) x =
      Derives-Expression (tail additive (mk_binary zero_val b l e)) ws us d g (
        operation b l e (Operator-IsBinary additive o b q) x
          (Derives-Expression (level multiplicative) ts' ws e h tt))

  abbrev operator : ParserDagOp → LexerTokenOp
  operator dag_mul = op_mul
  operator dag_div = op_div
  operator dag_sub = op_sub
  operator _ = op_add

  -- The tokens of a tree, with brackets around every operation, in front of others
  unfoldable pub print : ParserDag D → List (LexerToken D) → List (LexerToken D)
  print null us = us
  print (dag dag_val v l r) us = token op_val v ∷ us
  print (dag dag_neg v l r) us =
      token op_open zero_val ∷ token op_sub zero_val ∷ print r (token op_close zero_val ∷ us)
  print (dag o v l r) us =
      token op_open zero_val
      ∷ print l (token (operator o) zero_val ∷ print r (token op_close zero_val ∷ us))

  from_unary :
      (k : Kind) (ts us : List (LexerToken D)) (d : ParserDag D)
      → Derives zero_val unary ts us d
      → Derives zero_val (level k) ts us d
  from_unary multiplicative ts us d h =
      operands multiplicative ts us us d d h (done multiplicative us d)
  from_unary additive ts us d h =
      operands additive ts us us d d
        (operands multiplicative ts us us d d h (done multiplicative us d)) (done additive us d)

  -- One operation between two primaries
  one_operation :
      (o : ParserDagOp) (ts ws us : List (LexerToken D)) (l r : ParserDag D)
      → IsBinary o
      → Derives zero_val primary ts (token (operator o) zero_val ∷ ws) l
      → Derives zero_val primary ws us r
      → Derives zero_val (level additive) ts us (mk_binary zero_val o l r)
  one_operation o ts ws us l r i h g = split o i h
    where
      high :
          (o : ParserDagOp) (t : LexerTokenOp)
          → Operator multiplicative t o
          → Derives zero_val primary ts (token t zero_val ∷ ws) l
          → Derives zero_val (level additive) ts us (mk_binary zero_val o l r)
      high o t e h =
          let m = mk_binary zero_val o l r in
          operands additive ts us us m m
            (operands multiplicative ts (token t zero_val ∷ ws) us l m
              (simple ts (token t zero_val ∷ ws) l h)
              (more multiplicative t o zero_val ws us us l r m e (simple ws us r g)
                (done multiplicative us m)))
            (done additive us m)

      low :
          (o : ParserDagOp) (t : LexerTokenOp)
          → Operator additive t o
          → Derives zero_val primary ts (token t zero_val ∷ ws) l
          → Derives zero_val (level additive) ts us (mk_binary zero_val o l r)
      low o t e h =
          let m = mk_binary zero_val o l r in
          operands additive ts (token t zero_val ∷ ws) us l m
            (from_unary multiplicative ts (token t zero_val ∷ ws) l
              (simple ts (token t zero_val ∷ ws) l h))
            (more additive t o zero_val ws us us l r m e
              (from_unary multiplicative ws us r (simple ws us r g)) (done additive us m))

      split :
          (o : ParserDagOp)
          → IsBinary o
          → Derives zero_val primary ts (token (operator o) zero_val ∷ ws) l
          → Derives zero_val (level additive) ts us (mk_binary zero_val o l r)
      split dag_none i h = absurd i
      split dag_val i h = absurd i
      split dag_neg i h = absurd i
      split dag_mul i h = high dag_mul op_mul times h
      split dag_div i h = high dag_div op_div divided h
      split dag_add i h = low dag_add op_add added h
      split dag_sub i h = low dag_sub op_sub subtracted h

  print_primary :
      (d : ParserDag D) (us : List (LexerToken D))
      → Expression d
      → Derives zero_val primary (print d us) us d
  unfolding print
  print_primary d us (literal v) = value v us
  print_primary d us (negation r x) =
      let ws = token op_close zero_val ∷ us in
      let m = mk_neg zero_val r in
      paren zero_val zero_val (token op_sub zero_val ∷ print r ws) us m (
        from_unary additive (token op_sub zero_val ∷ print r ws) ws m
          (minus zero_val (print r ws) ws r (simple (print r ws) ws r (print_primary r ws x))))
  print_primary d us (operation o l r i x y) =
      let ws = token op_close zero_val ∷ us in
      let vs = token (operator o) zero_val ∷ print r ws in
      let p = paren zero_val zero_val (print l vs) us (mk_binary zero_val o l r) (
        one_operation o (print l vs) (print r ws) ws l r i (print_primary l vs x)
          (print_primary r ws y)) in
      split o i p
    where
      split :
          (o : ParserDagOp)
          → IsBinary o
          → Derives zero_val primary
              (token op_open zero_val
                ∷ print l (token (operator o) zero_val ∷ print r (token op_close zero_val ∷ us)))
              us
              (mk_binary zero_val o l r)
          → Derives zero_val primary
              (print (mk_binary zero_val o l r) us)
              us
              (mk_binary zero_val o l r)
      split dag_none i p = absurd i
      split dag_val i p = absurd i
      split dag_neg i p = absurd i
      split dag_mul i p = p
      split dag_div i p = p
      split dag_add i p = p
      split dag_sub i p = p

  -- The parser gives a tree back from the tokens printed for it.
  pub parse-print : (d : ParserDag D) → Expression d → parse zero_val (print d []) ≡ ret d
  parse-print d x =
      let h =
        from_unary additive (print d []) [] d (simple (print d []) [] d (print_primary d [] x)) in
      ((parse-Derives zero_val (print d []) d
          (Derives-NoEnd zero_val (level additive) (print d []) [] d h tt)).1
        h).0
