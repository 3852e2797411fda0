-- ===== src/Calc/Grammar.antt =====
-- The grammar in the comments of project-1/parser.c, with the node that each phrase stands for.
use os_cs238p_proj.Common.{ℕ, ◌+◌, ◌≤◌, ◌≡◌, refl, subst, arith, some, List, ◌∷◌, length}
use os_cs238p_proj.Calc.{
  LexerTokenOp, LexerToken, token, op_end, op_val, op_add, op_sub, op_mul, op_div, op_open,
  op_close, ParserDagOp, dag_mul, dag_div, dag_add, dag_sub, ParserDag, IsDag,
}
use os_cs238p_proj.Calc.Parser.{
  Kind, multiplicative, additive, binary_op, mk_val, mk_neg, mk_binary,
}

-- The binary operators of each loop: the token, and the node that it makes.
pub data Operator : Kind → LexerTokenOp → ParserDagOp → Type 0 where
  times : Operator multiplicative op_mul dag_mul
  divided : Operator multiplicative op_div dag_div
  added : Operator additive op_add dag_add
  subtracted : Operator additive op_sub dag_sub

-- The parser goes on with these operators, and with no others.
pub binary_op-Operator :
    (k : Kind) (o : LexerTokenOp) (b : ParserDagOp) → binary_op k o ≡ some b → Operator k o b
unfolding binary_op
binary_op-Operator multiplicative op_end b h = absurd (cc h)
binary_op-Operator multiplicative op_val b h = absurd (cc h)
binary_op-Operator multiplicative op_add b h = absurd (cc h)
binary_op-Operator multiplicative op_sub b h = absurd (cc h)
binary_op-Operator multiplicative op_mul b h =
    let e : dag_mul ≡ b = cc h in subst (Operator multiplicative op_mul) e times
binary_op-Operator multiplicative op_div b h =
    let e : dag_div ≡ b = cc h in subst (Operator multiplicative op_div) e divided
binary_op-Operator multiplicative op_open b h = absurd (cc h)
binary_op-Operator multiplicative op_close b h = absurd (cc h)
binary_op-Operator additive op_end b h = absurd (cc h)
binary_op-Operator additive op_val b h = absurd (cc h)
binary_op-Operator additive op_add b h =
    let e : dag_add ≡ b = cc h in subst (Operator additive op_add) e added
binary_op-Operator additive op_sub b h =
    let e : dag_sub ≡ b = cc h in subst (Operator additive op_sub) e subtracted
binary_op-Operator additive op_mul b h = absurd (cc h)
binary_op-Operator additive op_div b h = absurd (cc h)
binary_op-Operator additive op_open b h = absurd (cc h)
binary_op-Operator additive op_close b h = absurd (cc h)

pub Operator-binary_op :
    (k : Kind) (o : LexerTokenOp) (b : ParserDagOp) → Operator k o b → binary_op k o ≡ some b
unfolding binary_op
Operator-binary_op k o b times = refl
Operator-binary_op k o b divided = refl
Operator-binary_op k o b added = refl
Operator-binary_op k o b subtracted = refl

-- The nonterminals. `tail k l` is `expr_multiplicative_` or `expr_additive_` behind the operand `l`.
pub data Level (D : Type 0) : Type 0 where
  primary : Level D
  unary : Level D
  level : Kind → Level D
  tail : Kind → ParserDag D → Level D

abbrev pub below : {D : Type 0} → Kind → Level D
below multiplicative = unary
below additive = level multiplicative

abbrev pub Tokens : Type 0 → Type 0
Tokens D = List (LexerToken D)

module _ {D : Type 0} (zero_val : D) where
  -- `Derives n ts us d`: the nonterminal `n` produces the tokens of `ts` that stand before `us`, and
  -- they mean `d`.
  pub data Derives : Level D → Tokens D → Tokens D → ParserDag D → Type 0 where
    value : (v : D) (us : Tokens D) → Derives primary (token op_val v ∷ us) us (mk_val zero_val v)
    paren :
        (v w : D) (ts us : Tokens D) (d : ParserDag D)
        → Derives (level additive) ts (token op_close w ∷ us) d
        → Derives primary (token op_open v ∷ ts) us d
    simple : (ts us : Tokens D) (d : ParserDag D) → Derives primary ts us d → Derives unary ts us d
    plus :
        (v : D) (ts us : Tokens D) (d : ParserDag D)
        → Derives unary ts us d
        → Derives unary (token op_add v ∷ ts) us d
    minus :
        (v : D) (ts us : Tokens D) (d : ParserDag D)
        → Derives unary ts us d
        → Derives unary (token op_sub v ∷ ts) us (mk_neg zero_val d)
    operands :
        (k : Kind) (ts ws us : Tokens D) (l d : ParserDag D)
        → Derives (below k) ts ws l
        → Derives (tail k l) ws us d
        → Derives (level k) ts us d
    done : (k : Kind) (us : Tokens D) (l : ParserDag D) → Derives (tail k l) us us l
    more :
        (k : Kind) (o : LexerTokenOp) (b : ParserDagOp) (v : D) (ts ws us : List (LexerToken D))
        (l e d : ParserDag D)
        → Operator k o b
        → Derives (below k) ts ws e
        → Derives (tail k (mk_binary zero_val b l e)) ws us d
        → Derives (tail k l) (token o v ∷ ts) us d

  -- Every phrase but a tail has a token.
  abbrev pub least : Level D → ℕ
  least (tail k l) = 0
  least _ = 1

  least-below : (k : Kind) → least (below k) ≡ 1
  least-below multiplicative = refl
  least-below additive = refl

  pub Derives_longer :
      (n : Level D) (ts us : Tokens D) (d : ParserDag D)
      → Derives n ts us d
      → least n + length us ≤ length ts
  Derives_longer n ts us d (value v _) = omega arith
  Derives_longer n ts us d (paren v w ts' _ _ h) =
      omega (arith, Derives_longer (level additive) ts' (token op_close w ∷ us) d h)
  Derives_longer n ts us d (simple _ _ _ h) = Derives_longer primary ts us d h
  Derives_longer n ts us d (plus v ts' _ _ h) = omega (arith, Derives_longer unary ts' us d h)
  Derives_longer n ts us d (minus v ts' _ e h) = omega (arith, Derives_longer unary ts' us e h)
  Derives_longer n ts us d (operands k _ ws _ l _ h g) = omega (
    arith,
    Derives_longer (below k) ts ws l h,
    Derives_longer (tail k l) ws us d g,
    least-below k,
  )
  Derives_longer n ts us d (done k _ _) = omega arith
  Derives_longer n ts us d (more k o b v ts' ws _ l e _ q h g) = omega (
    arith,
    Derives_longer (below k) ts' ws e h,
    Derives_longer (tail k (mk_binary zero_val b l e)) ws us d g,
  )

  -- A phrase is no longer than the tokens it is taken from.
  pub Derives-length :
      (n : Level D) (ts us : Tokens D) (d : ParserDag D) → Derives n ts us d → length us ≤ length ts
  Derives-length n ts us d h = omega (arith, Derives_longer n ts us d h)

  -- A tail behind a node stands for a node.
  abbrev pub Proper : Level D → Type 0
  Proper (tail k l) = IsDag l
  Proper _ = Unit

  pub Derives-IsDag :
      (n : Level D) (ts us : Tokens D) (d : ParserDag D) → Derives n ts us d → Proper n → IsDag d
  Derives-IsDag n ts us d (value v _) p = tt
  Derives-IsDag n ts us d (paren v w ts' _ _ h) p =
      Derives-IsDag (level additive) ts' (token op_close w ∷ us) d h tt
  Derives-IsDag n ts us d (simple _ _ _ h) p = Derives-IsDag primary ts us d h tt
  Derives-IsDag n ts us d (plus v ts' _ _ h) p = Derives-IsDag unary ts' us d h tt
  Derives-IsDag n ts us d (minus v ts' _ e h) p = tt
  Derives-IsDag n ts us d (operands multiplicative _ ws _ l _ h g) p =
      Derives-IsDag (tail multiplicative l) ws us d g (Derives-IsDag unary ts ws l h tt)
  Derives-IsDag n ts us d (operands additive _ ws _ l _ h g) p =
      Derives-IsDag (tail additive l) ws us d g (Derives-IsDag (level multiplicative) ts ws l h tt)
  Derives-IsDag n ts us d (done k _ _) p = p
  Derives-IsDag n ts us d (more k o b v ts' ws _ l e _ q h g) p =
      Derives-IsDag (tail k (mk_binary zero_val b l e)) ws us d g tt
