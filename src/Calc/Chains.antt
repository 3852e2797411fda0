-- ===== src/Calc/Chains.antt =====
-- The loops of project-1/parser.c over binary operators, and `expr`, read as the grammar says.
use os_cs238p_proj.Common.{
  ℕ, zero, suc, ◌≡◌, ◌≢◌, refl, subst, inl, inr, some, none, List, Option-cases, get_elem?, ◌-◌,
}
use os_cs238p_proj.Common.Outcome.{M, ret, >>=-eq-ret}
use os_cs238p_proj.Calc.{
  LexerTokenOp, LexerToken, token_op, op_end, ParserDagOp, ParserDag, null, dag, IsDag,
  dag_op_number, dag_mul,
}
use os_cs238p_proj.Calc.Parser.{
  Parser, trace_once, Kind, multiplicative, additive, table, binary_op, next, forward,
  after_operand, again, after_first, fail, expr_unary, loop, chain, expr_multiplicative,
  expr_additive, expr, mk_binary, operand_error,
}
use os_cs238p_proj.Calc.Grammar.{
  level, tail, below, Derives, operands, done, more, binary_op-Operator,
}
use os_cs238p_proj.Calc.Position.{rest, loop-zero, loop-none, loop-some}
use os_cs238p_proj.Calc.Sound.{Sound, no_dag, moved, step, expr_unary-Sound}

-- A binary operator is not the end of the tokens.
pub binary_op_end :
    (k : Kind) (o : LexerTokenOp) (b : ParserDagOp) → binary_op k o ≡ some b → o ≢ op_end
unfolding binary_op
binary_op_end multiplicative o b h e = absurd (cc (rw e at h))
binary_op_end additive o b h e = absurd (cc (rw e at h))

module _ {D : Type 0} (zero_val : D) (tokens : List (LexerToken D)) where
  operand_error_null :
      (k : Kind) (o : ParserDagOp) (p q : Parser) (d : ParserDag D)
      → operand_error zero_val k o p ≡ ret (d, q)
      → IsDag d
      → ⊥
  unfolding operand_error fail
  operand_error_null k o p q d h i =
      elim (Option-cases (get_elem? (table k) (dag_op_number o - dag_op_number dag_mul))) [
        | inl e ↦ absurd (cc (rw (e, operand_error) at h))
        | inr (c, e) ↦ no_dag zero_val tokens (trace_once p) q d (rw (e, operand_error) at h) i
      ]

  -- Where no operator comes next, the loop is over.
  loop_stopped :
      (k : Kind) (operand : ℕ → M Parser (ParserDag D)) (fuel : ℕ) (l d e : ParserDag D)
      (p q : Parser)
      → binary_op k (token_op (next zero_val tokens p)) ≡ none
      → loop zero_val tokens k operand fuel l d p ≡ ret (e, q)
      → (d ≡ e) × (p ≡ q)
  loop_stopped k operand zero l d e p q n h =
      absurd (cc (rw (loop-zero zero_val tokens k operand zero l d p) at h))
  loop_stopped k operand (suc fuel) l d e p q n h =
      let g = rw (loop-none zero_val tokens k operand fuel l d p n) at h in (cc g, cc g)

  module _ (k : Kind) (operand : ℕ → M Parser (ParserDag D))
      (operand-Sound : (f : ℕ) → Sound zero_val tokens (below k) (operand f)) where
    -- What a round of the loop that returns has gone through
    record Round (fuel : ℕ) (o : ParserDagOp) (l : ParserDag D) (p q : Parser) (e : ParserDag D)
        : Type 0 where
      pub right : ParserDag D
      pub right_at : Parser
      pub right_dag : IsDag right
      pub right_ret : operand fuel (forward zero_val tokens p) ≡ ret (right, right_at)
      pub again_at : Parser
      pub last : ParserDag D
      pub last_dag : IsDag last
      pub chain_ret :
          loop zero_val tokens k operand fuel
            (mk_binary zero_val o l right)
            (mk_binary zero_val o l right)
            right_at
          ≡ ret (last, again_at)
      pub last_ret : loop zero_val tokens k operand fuel l last again_at ≡ ret (e, q)

    round :
        (fuel : ℕ) (o : ParserDagOp) (l d e : ParserDag D) (p q : Parser)
        → binary_op k (token_op (next zero_val tokens p)) ≡ some o
        → loop zero_val tokens k operand (suc fuel) l d p ≡ ret (e, q)
        → IsDag e
        → Round fuel o l p q e
    unfolding again fail after_operand
    round fuel o l d e p q s h i =
        let g = rw (loop-some zero_val tokens k operand fuel l d p o s) at h in
        let (x, t, c, r) =
          >>=-eq-ret (operand fuel)
            (after_operand zero_val tokens (loop zero_val tokens k operand fuel) k o l)
            (forward zero_val tokens p) (e, q) g in
        after x t c r
      where
        last_round :
            (x : ParserDag D) (t : Parser)
            → IsDag x
            → operand fuel (forward zero_val tokens p) ≡ ret (x, t)
            → (y : ParserDag D) (u : Parser)
            → loop zero_val tokens k operand fuel
                (mk_binary zero_val o l x)
                (mk_binary zero_val o l x)
                t
              ≡ ret (y, u)
            → again zero_val tokens (loop zero_val tokens k operand fuel l) y u ≡ ret (e, q)
            → Round fuel o l p q e
        last_round x t j c null u b r = absurd (no_dag zero_val tokens (trace_once u) q e r i)
        last_round x t j c (dag y v z w) u b r = record {
          right = x;
          right_at = t;
          right_dag = j;
          right_ret = c;
          again_at = u;
          last = dag y v z w;
          last_dag = tt;
          chain_ret = b;
          last_ret = r;
        }

        after :
            (x : ParserDag D) (t : Parser)
            → operand fuel (forward zero_val tokens p) ≡ ret (x, t)
            → after_operand zero_val tokens (loop zero_val tokens k operand fuel) k o l x t
              ≡ ret (e, q)
            → Round fuel o l p q e
        after null t c r = absurd (operand_error_null k o t q e r i)
        after (dag x v z w) t c r =
            let m = mk_binary zero_val o l (dag x v z w) in
            let (y, u, b, s) =
              >>=-eq-ret (loop zero_val tokens k operand fuel m m)
                (again zero_val tokens (loop zero_val tokens k operand fuel l)) t (e, q) r in
            last_round (dag x v z w) t tt c y u b s

    -- A loop that returns a node returns where no operator comes next.
    loop_stops :
        (fuel : ℕ) (l d e : ParserDag D) (p q : Parser)
        → loop zero_val tokens k operand fuel l d p ≡ ret (e, q)
        → IsDag e
        → binary_op k (token_op (next zero_val tokens q)) ≡ none
    loop_stops zero l d e p q h i =
        absurd (cc (rw (loop-zero zero_val tokens k operand zero l d p) at h))
    loop_stops (suc fuel) l d e p q h i =
        elim (Option-cases (binary_op k (token_op (next zero_val tokens p)))) [
          | inl n ↦
              let (a, b) = loop_stopped k operand (suc fuel) l d e p q n h in
              subst (λ z. binary_op k (token_op (next zero_val tokens z)) ≡ none) b n
          | inr (o, s) ↦
              let r = round fuel o l d e p q s h i in
              loop_stops fuel l r.last e r.again_at q r.last_ret i
        ]

    pub loop-Sound :
        (fuel : ℕ) (l : ParserDag D)
        → Sound zero_val tokens (tail k l) (loop zero_val tokens k operand fuel l l)
    loop-Sound zero l p q e h i =
        absurd (cc (rw (loop-zero zero_val tokens k operand zero l l p) at h))
    loop-Sound (suc fuel) l p q e h i =
        elim (Option-cases (binary_op k (token_op (next zero_val tokens p)))) [
          | inl n ↦
              let (a, b) = loop_stopped k operand (suc fuel) l l e p q n h in
              moved zero_val tokens (tail k l) (rest zero_val tokens p) p q l e b a
                (done k (rest zero_val tokens p) l)
          | inr (o, s) ↦
              let r = round fuel o l l e p q s h i in
              let m = mk_binary zero_val o l r.right in
              let n = loop_stops fuel m m r.last r.right_at r.again_at r.chain_ret r.last_dag in
              let (a, b) = loop_stopped k operand fuel l r.last e r.again_at q n r.last_ret in
              let t = loop-Sound fuel m r.right_at r.again_at r.last r.chain_ret r.last_dag in
              let t' =
                moved zero_val tokens (tail k m) (rest zero_val tokens r.right_at) r.again_at q
                  r.last e b a t in
              step zero_val tokens (below k) (tail k l) p (rest zero_val tokens r.right_at)
                (rest zero_val tokens q) r.right e (token_op (next zero_val tokens p)) refl
                (binary_op_end k (token_op (next zero_val tokens p)) o s)
                (λ v ts z.
                  more k (token_op (next zero_val tokens p)) o v ts _ _ l r.right e
                    (binary_op-Operator k (token_op (next zero_val tokens p)) o s) z t')
                (operand-Sound fuel (forward zero_val tokens p) r.right_at r.right r.right_ret
                  r.right_dag)
        ]

    pub chain-Sound :
        (fuel : ℕ) → Sound zero_val tokens (level k) (chain zero_val tokens k operand fuel)
    unfolding chain after_first
    chain-Sound fuel p q d h i =
        let (x, t, c, r) =
          >>=-eq-ret (operand fuel)
            (after_first zero_val tokens (λ l. loop zero_val tokens k operand fuel l l)) p (d, q)
            h in
        after x t c r
      where
        after :
            (x : ParserDag D) (t : Parser)
            → operand fuel p ≡ ret (x, t)
            → after_first zero_val tokens (λ l. loop zero_val tokens k operand fuel l l) x t
              ≡ ret (d, q)
            → Derives zero_val (level k) (rest zero_val tokens p) (rest zero_val tokens q) d
        after null t c r = absurd (no_dag zero_val tokens t q d r i)
        after (dag o v z w) t c r =
            operands k _ _ _ (dag o v z w) d (operand-Sound fuel p t (dag o v z w) c tt)
              (loop-Sound fuel (dag o v z w) t q d r i)

  pub expr-Sound : (fuel : ℕ) → Sound zero_val tokens (level additive) (expr zero_val tokens fuel)
  unfolding expr expr_additive expr_multiplicative
  expr-Sound zero p q d h i = absurd (cc h)
  expr-Sound (suc fuel) p q d h i =
      chain-Sound additive (expr_multiplicative zero_val tokens (expr zero_val tokens fuel))
        (λ f.
          chain-Sound multiplicative (expr_unary zero_val tokens (expr zero_val tokens fuel))
            (expr_unary-Sound zero_val tokens (expr zero_val tokens fuel) (expr-Sound fuel)) f)
        fuel p q d h i
