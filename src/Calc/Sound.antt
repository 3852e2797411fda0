-- ===== src/Calc/Sound.antt =====
-- What the functions of project-1/parser.c return, they have read as the grammar says.
use os_cs238p_proj.Common.{
  ℕ, zero, suc, ◌≡◌, ◌≢◌, ap, sym, ◌∙◌, subst, inl, inr, List, ◌∷◌, Bool-cases, if◌then◌else◌,
}
use os_cs238p_proj.Common.Outcome.{M, Outcome, ret, >>=-eq-ret}
use os_cs238p_proj.Calc.{
  LexerTokenOp, LexerToken, token, token_op, op_end, op_val, op_add, op_sub, op_open, op_close,
  ParserDag, null, dag, IsDag,
}
use os_cs238p_proj.Calc.Parser.{
  Parser, trace_once, additive, next, forward, matches, close, or_fail, negate, fail, mk_val,
  mk_neg, expr_primary, expr_unary,
}
use os_cs238p_proj.Calc.Grammar.{
  Level, primary, unary, level, Derives, value, paren, simple, plus, minus,
}
use os_cs238p_proj.Calc.Position.{
  rest, next_token, matches-true, expr_primary-val, expr_primary-open, expr_primary-other,
  expr_unary-zero, expr_unary-add, expr_unary-sub, expr_unary-other,
}

module _ {D : Type 0} (zero_val : D) (tokens : List (LexerToken D)) where
  -- A node that a call returns is what the tokens it has read stand for.
  abbrev pub Sound : Level D → M Parser (ParserDag D) → Type 0
  Sound n m =
      (p q : Parser) (d : ParserDag D)
      → m p ≡ ret (d, q)
      → IsDag d
      → Derives zero_val n (rest zero_val tokens p) (rest zero_val tokens q) d

  -- The node of a return
  abbrev result : Outcome (ParserDag D × Parser) → ParserDag D
  result (ret (d, p)) = d
  result _ = null

  pub no_dag :
      (p q : Parser) (d : ParserDag D)
      → ◌≡◌ {A = Outcome (ParserDag D × Parser)} (ret (null, p)) (ret (d, q))
      → IsDag d
      → ⊥
  no_dag p q d h i = subst IsDag (sym (ap result h)) i

  -- The first token of a phrase is put back in front of it.
  pub step :
      (n m : Level D) (p : Parser) (us us' : List (LexerToken D)) (d e : ParserDag D)
      (o : LexerTokenOp)
      → token_op (next zero_val tokens p) ≡ o
      → o ≢ op_end
      → ((v : D) (ts : List (LexerToken D))
          → Derives zero_val n ts us d
          → Derives zero_val m (token o v ∷ ts) us' e)
      → Derives zero_val n (rest zero_val tokens (forward zero_val tokens p)) us d
      → Derives zero_val m (rest zero_val tokens p) us' e
  step n m p us us' d e o h ne f g =
      let (v, ts, a, b, c) = next_token zero_val tokens p o h ne in
      subst (λ x. Derives zero_val m x us' e) (sym a)
        (f v ts (subst (λ x. Derives zero_val n x us d) b g))

  value_at :
      (ts us ws : List (LexerToken D)) (v w : D)
      → ts ≡ token op_val v ∷ us
      → ws ≡ us
      → w ≡ v
      → Derives zero_val primary ts ws (mk_val zero_val w)
  value_at ts us ws v w a b c = rw (a, b, c) (value v us)

  close-Sound :
      (x : ParserDag D) (p q : Parser) (d : ParserDag D)
      → close zero_val tokens x p ≡ ret (d, q)
      → IsDag d
      → IsDag x
        × (x ≡ d)
        × (w : D) × (rest zero_val tokens p ≡ token op_close w ∷ rest zero_val tokens q)
  unfolding close fail
  close-Sound null p q d h i = absurd (no_dag (trace_once p) q d h i)
  close-Sound (dag o v l r) p q d h i = elim (Bool-cases (matches zero_val tokens p op_close)) [
    | inl e ↦
        let g = rw (e, if◌then◌else◌) at h in
        let (w, ts, a, b, _) =
          next_token zero_val tokens p op_close (matches-true zero_val tokens p op_close e)
            (λ x. cc x) in
        let m : forward zero_val tokens p ≡ q = cc g in
        (tt, cc g, w, a ∙ ap (◌∷◌ (token op_close w)) (sym b ∙ ap (rest zero_val tokens) m))
    | inr e ↦ absurd (no_dag (trace_once p) q d (rw (e, if◌then◌else◌) at h) i)
  ]

  pub moved :
      (n : Level D) (ts : List (LexerToken D)) (p q : Parser) (x d : ParserDag D)
      → p ≡ q
      → x ≡ d
      → Derives zero_val n ts (rest zero_val tokens p) x
      → Derives zero_val n ts (rest zero_val tokens q) d
  moved n ts p q x d m e g =
      subst (λ z. Derives zero_val n ts (rest zero_val tokens z) d) m
        (subst (λ z. Derives zero_val n ts (rest zero_val tokens p) z) e g)

  -- What a return carries
  carry :
      (n : Level D) (ts : List (LexerToken D)) (x d : ParserDag D) (p q : Parser)
      → ◌≡◌ {A = Outcome (ParserDag D × Parser)} (ret (x, p)) (ret (d, q))
      → Derives zero_val n ts (rest zero_val tokens p) x
      → Derives zero_val n ts (rest zero_val tokens q) d
  carry n ts x d p q h g = moved n ts p q x d (cc h) (cc h) g

  module _ (expr : M Parser (ParserDag D)) (expr-Sound : Sound (level additive) expr) where
    expr_primary-Sound : Sound primary (expr_primary zero_val tokens expr)
    expr_primary-Sound p q d h i = elim (Bool-cases (matches zero_val tokens p op_val)) [
      | inl e ↦
          let g = rw (expr_primary-val zero_val tokens expr p e) at h in
          let (v, ts, a, b, c) =
            next_token zero_val tokens p op_val (matches-true zero_val tokens p op_val e)
              (λ x. cc x) in
          carry primary (rest zero_val tokens p) _ d (forward zero_val tokens p) q g
            (value_at _ ts _ v _ a b c)
      | inr e ↦ elim (Bool-cases (matches zero_val tokens p op_open)) [
        | inl k ↦
            let g = rw (expr_primary-open zero_val tokens expr p e k) at h in
            let (x, t, c, r) =
              >>=-eq-ret expr (close zero_val tokens) (forward zero_val tokens p) (d, q) g in
            let (j, y, w, u) = close-Sound x t q d r i in
            let s = expr-Sound (forward zero_val tokens p) t x c j in
            step (level additive) primary p (rest zero_val tokens t) (rest zero_val tokens q) x d
              op_open (matches-true zero_val tokens p op_open k) (λ z. cc z)
              (λ v ts z.
                subst (Derives zero_val primary (token op_open v ∷ ts) (rest zero_val tokens q)) y (
                  paren v w ts (rest zero_val tokens q) x
                    (subst (λ us. Derives zero_val (level additive) ts us x) u z)))
              s
        | inr k ↦ absurd (no_dag p q d (rw (expr_primary-other zero_val tokens expr p e k) at h) i)
      ]
    ]

  or_fail-Sound :
      (x : ParserDag D) (t q : Parser) (d : ParserDag D)
      → or_fail zero_val x t ≡ ret (d, q)
      → IsDag d
      → IsDag x × (x ≡ d) × (t ≡ q)
  unfolding fail
  or_fail-Sound null t q d h i = absurd (no_dag (trace_once t) q d h i)
  or_fail-Sound (dag o v l r) t q d h i = (tt, cc h, cc h)

  negate-Sound :
      (x : ParserDag D) (t q : Parser) (d : ParserDag D)
      → negate zero_val x t ≡ ret (d, q)
      → IsDag d
      → IsDag x × (mk_neg zero_val x ≡ d) × (t ≡ q)
  unfolding fail
  negate-Sound null t q d h i = absurd (no_dag (trace_once t) q d h i)
  negate-Sound (dag o v l r) t q d h i = (tt, cc h, cc h)

  module _ (expr : M Parser (ParserDag D)) (expr-Sound : Sound (level additive) expr) where
    pub expr_unary-Sound : (fuel : ℕ) → Sound unary (expr_unary zero_val tokens expr fuel)
    expr_unary-Sound zero p q d h i = absurd (cc (rw (expr_unary-zero zero_val tokens expr p) at h))
    expr_unary-Sound (suc fuel) p q d h i = elim (Bool-cases (matches zero_val tokens p op_add)) [
      | inl e ↦
          let g = rw (expr_unary-add zero_val tokens expr p fuel e) at h in
          let (x, t, c, r) =
            >>=-eq-ret (expr_unary zero_val tokens expr fuel) (or_fail zero_val)
              (forward zero_val tokens p) (d, q) g in
          let (j, y, m) = or_fail-Sound x t q d r i in
          step unary unary p (rest zero_val tokens t) (rest zero_val tokens q) x d op_add
            (matches-true zero_val tokens p op_add e) (λ z. cc z)
            (λ v ts z. plus v ts _ d (moved unary ts t q x d m y z))
            (expr_unary-Sound fuel (forward zero_val tokens p) t x c j)
      | inr e ↦ elim (Bool-cases (matches zero_val tokens p op_sub)) [
        | inl k ↦
            let g = rw (expr_unary-sub zero_val tokens expr p fuel e k) at h in
            let (x, t, c, r) =
              >>=-eq-ret (expr_unary zero_val tokens expr fuel) (negate zero_val)
                (forward zero_val tokens p) (d, q) g in
            let (j, y, m) = negate-Sound x t q d r i in
            step unary unary p (rest zero_val tokens t) (rest zero_val tokens q) x d op_sub
              (matches-true zero_val tokens p op_sub k) (λ z. cc z)
              (λ v ts z.
                moved unary (token op_sub v ∷ ts) t q (mk_neg zero_val x) d m y (minus v ts _ x z))
              (expr_unary-Sound fuel (forward zero_val tokens p) t x c j)
        | inr k ↦ simple _ _ d (
            expr_primary-Sound expr expr-Sound p q d
              (rw (expr_unary-other zero_val tokens expr p fuel e k) at h) i)
      ]
    ]
