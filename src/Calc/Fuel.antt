-- ===== src/Calc/Fuel.antt =====
-- The recursion of project-1/parser.c ends: every call below another has fewer tokens to read.
use os_cs238p_proj.Common.{
  ℕ, zero, suc, ◌+◌, ◌<◌, ◌≤◌, ◌≡◌, ◌≢◌, refl, inl, inr, arith, false, List, Bool-cases,
  Option-cases, if◌then◌else◌, get_elem?, ◌-◌, length, ◌==◌,
}
use os_cs238p_proj.Common.Outcome.{M, Outcome, ret, abort, out_of_fuel, >>=-ends, >>=-ends_after}
use os_cs238p_proj.Calc.{
  LexerToken, token_op, op_end, op_val, op_add, op_sub, op_open, op_close, ParserDagOp, ParserDag,
  null, dag, IsDag, dag_op_number, dag_mul,
}
use os_cs238p_proj.Calc.Parser.{
  Parser, Kind, multiplicative, additive, table, binary_op, next, forward, matches, close, or_fail,
  negate, after_operand, again, after_first, fail, expr_primary, expr_unary, loop, chain,
  expr_multiplicative, expr_additive, expr, mk_binary, operand_error, trailing, top, parse, parsed,
}
use os_cs238p_proj.Calc.Grammar.{Level, tail, below, Derives-length}
use os_cs238p_proj.Calc.Position.{
  rest, loop-none, loop-some, forward-length, matches-true, expr_primary-val, expr_primary-open,
  expr_primary-other, expr_unary-add, expr_unary-sub, expr_unary-other,
}
use os_cs238p_proj.Calc.Sound.{Sound, expr_unary-Sound}
use os_cs238p_proj.Calc.Chains.{binary_op_end, loop-Sound, chain-Sound, expr-Sound}

module _ {D : Type 0} (zero_val : D) (tokens : List (LexerToken D)) where
  abbrev left : Parser → ℕ
  left p = length (rest zero_val tokens p)

  fail-ends : (p : Parser) → fail {D = D} zero_val p ≢ out_of_fuel
  unfolding fail
  fail-ends p e = cc e

  operand_error-ends :
      (k : Kind) (o : ParserDagOp) (p : Parser) → operand_error {D = D} zero_val k o p ≢ out_of_fuel
  unfolding operand_error fail
  operand_error-ends k o p h =
      elim (Option-cases (get_elem? (table k) (dag_op_number o - dag_op_number dag_mul))) [
        | inl e ↦ cc (rw (e, operand_error) at h)
        | inr (c, e) ↦ cc (rw (e, operand_error) at h)
      ]

  close-ends : (d : ParserDag D) (p : Parser) → close zero_val tokens d p ≢ out_of_fuel
  unfolding close
  close-ends null p e = fail-ends p e
  close-ends (dag o v l r) p h = elim (Bool-cases (matches zero_val tokens p op_close)) [
    | inl e ↦ cc (rw (e, if◌then◌else◌) at h)
    | inr e ↦ fail-ends p (rw (e, if◌then◌else◌) at h)
  ]

  or_fail-ends : (d : ParserDag D) (p : Parser) → or_fail zero_val d p ≢ out_of_fuel
  or_fail-ends null p e = fail-ends p e
  or_fail-ends (dag o v l r) p e = cc e

  negate-ends : (d : ParserDag D) (p : Parser) → negate zero_val d p ≢ out_of_fuel
  negate-ends null p e = fail-ends p e
  negate-ends (dag o v l r) p e = cc e

  -- A call ends where it has fuel for each token that is left, and no more than `b` are left.
  abbrev Ends : ℕ → (ℕ → M Parser (ParserDag D)) → Type 0
  Ends b g = (f : ℕ) (p : Parser) → left p < f → left p < suc b → g f p ≢ out_of_fuel

  module _ (b : ℕ) (e : M Parser (ParserDag D))
      (e-ends : (p : Parser) → left p < b → e p ≢ out_of_fuel) where
    expr_primary-ends :
        (p : Parser) → left p < suc b → expr_primary zero_val tokens e p ≢ out_of_fuel
    expr_primary-ends p h g = elim (Bool-cases (matches zero_val tokens p op_val)) [
      | inl x ↦ cc (rw (expr_primary-val zero_val tokens e p x) at g)
      | inr x ↦ elim (Bool-cases (matches zero_val tokens p op_open)) [
        | inl y ↦
            let n =
              forward-length zero_val tokens p op_open (matches-true zero_val tokens p op_open y)
                (λ z. cc z) in
            >>=-ends e (close zero_val tokens) (forward zero_val tokens p)
              (e-ends (forward zero_val tokens p) (omega arith)) close-ends
              (rw (expr_primary-open zero_val tokens e p x y) at g)
        | inr y ↦ cc (rw (expr_primary-other zero_val tokens e p x y) at g)
      ]
    ]

    expr_unary-Ends : Ends b (expr_unary zero_val tokens e)
    expr_unary-Ends zero p h k g = absurd (omega arith)
    expr_unary-Ends (suc f) p h k g = elim (Bool-cases (matches zero_val tokens p op_add)) [
      | inl x ↦
          let n =
            forward-length zero_val tokens p op_add (matches-true zero_val tokens p op_add x)
              (λ z. cc z) in
          >>=-ends (expr_unary zero_val tokens e f) (or_fail zero_val) (forward zero_val tokens p)
            (expr_unary-Ends f (forward zero_val tokens p) (omega arith) (omega arith)) or_fail-ends
            (rw (expr_unary-add zero_val tokens e p f x) at g)
      | inr x ↦ elim (Bool-cases (matches zero_val tokens p op_sub)) [
        | inl y ↦
            let n =
              forward-length zero_val tokens p op_sub (matches-true zero_val tokens p op_sub y)
                (λ z. cc z) in
            >>=-ends (expr_unary zero_val tokens e f) (negate zero_val) (forward zero_val tokens p)
              (expr_unary-Ends f (forward zero_val tokens p) (omega arith) (omega arith))
              negate-ends (rw (expr_unary-sub zero_val tokens e p f x y) at g)
        | inr y ↦ expr_primary-ends p k (rw (expr_unary-other zero_val tokens e p f x y) at g)
      ]
    ]

  module _ (b : ℕ) (k : Kind) (operand : ℕ → M Parser (ParserDag D))
      (operand-Sound : (f : ℕ) → Sound zero_val tokens (below k) (operand f))
      (operand-ends : Ends b operand) where
    -- A call that returns a node has taken tokens, if any.
    taken :
        (n : Level D) (m : M Parser (ParserDag D)) (p q : Parser) (d : ParserDag D)
        → Sound zero_val tokens n m
        → m p ≡ ret (d, q)
        → IsDag d
        → left q ≤ left p
    taken n m p q d s h i =
        Derives-length zero_val n (rest zero_val tokens p) (rest zero_val tokens q) d (s p q d h i)

    abbrev LoopEnds : ℕ → Type 0
    LoopEnds f =
        (l d : ParserDag D) (p : Parser)
        → left p < f
        → left p < suc b
        → loop zero_val tokens k operand f l d p ≢ out_of_fuel

    again-ends :
        (f : ℕ) (l d : ParserDag D) (p : Parser)
        → LoopEnds f
        → (IsDag d → left p < f)
        → (IsDag d → left p < suc b)
        → again zero_val tokens (loop zero_val tokens k operand f l) d p ≢ out_of_fuel
    unfolding again
    again-ends f l null p h x y = fail-ends p
    again-ends f l (dag o v z w) p h x y = h l (dag o v z w) p (x tt) (y tt)

    after_operand-ends :
        (f : ℕ) (o : ParserDagOp) (l d : ParserDag D) (p : Parser)
        → LoopEnds f
        → (IsDag d → left p < f)
        → (IsDag d → left p < suc b)
        → after_operand zero_val tokens (loop zero_val tokens k operand f) k o l d p ≢ out_of_fuel
    unfolding after_operand
    after_operand-ends f o l null p h x y = operand_error-ends k o p
    after_operand-ends f o l (dag o' v z w) p h x y =
        let m = mk_binary zero_val o l (dag o' v z w) in
        let s = loop-Sound zero_val tokens k operand operand-Sound f m in
        let move : (q : Parser) (e : ParserDag D)
            → loop zero_val tokens k operand f m m p ≡ ret (e, q)
            → IsDag e
            → left q ≤ left p =
          λ q e r. taken (tail k m) (loop zero_val tokens k operand f m m) p q e s r in
        >>=-ends_after (loop zero_val tokens k operand f m m)
          (again zero_val tokens (loop zero_val tokens k operand f l)) p (h m m p (x tt) (y tt))
          (λ e q r.
            again-ends f l e q h (λ i. omega (arith, move q e r i, x tt))
              (λ i. omega (arith, move q e r i, y tt)))

    loop-ends : (f : ℕ) → LoopEnds f
    loop-ends zero l d p h j = absurd (omega arith)
    loop-ends (suc f) l d p h j =
        elim (Option-cases (binary_op k (token_op (next zero_val tokens p)))) [
          | inl n ↦ λ g. cc (rw (loop-none zero_val tokens k operand f l d p n) at g)
          | inr (o, s) ↦
              let n =
                forward-length zero_val tokens p (token_op (next zero_val tokens p)) refl
                  (binary_op_end k (token_op (next zero_val tokens p)) o s) in
              let move : (q : Parser) (e : ParserDag D)
                  → operand f (forward zero_val tokens p) ≡ ret (e, q)
                  → IsDag e
                  → left q ≤ left (forward zero_val tokens p) =
                λ q e r.
                  taken (below k) (operand f) (forward zero_val tokens p) q e (operand-Sound f) r in
              rw (loop-some zero_val tokens k operand f l d p o s) (
                >>=-ends_after (operand f)
                  (after_operand zero_val tokens (loop zero_val tokens k operand f) k o l)
                  (forward zero_val tokens p)
                  (operand-ends f (forward zero_val tokens p) (omega arith) (omega arith))
                  (λ e q r.
                    after_operand-ends f o l e q (loop-ends f) (λ i. omega (arith, move q e r i))
                      (λ i. omega (arith, move q e r i))))
        ]

    after_first-ends :
        (f : ℕ) (d : ParserDag D) (p : Parser)
        → (IsDag d → left p < f)
        → (IsDag d → left p < suc b)
        → after_first zero_val tokens (λ l. loop zero_val tokens k operand f l l) d p ≢ out_of_fuel
    unfolding after_first
    after_first-ends f null p x y = λ e. cc e
    after_first-ends f (dag o v z w) p x y = loop-ends f (dag o v z w) (dag o v z w) p (x tt) (y tt)

    chain-Ends : Ends b (chain zero_val tokens k operand)
    unfolding chain
    chain-Ends f p h j =
        let move : (q : Parser) (e : ParserDag D)
            → operand f p ≡ ret (e, q)
            → IsDag e
            → left q ≤ left p =
          λ q e r. taken (below k) (operand f) p q e (operand-Sound f) r in
        >>=-ends_after (operand f)
          (after_first zero_val tokens (λ l. loop zero_val tokens k operand f l l)) p
          (operand-ends f p h j)
          (λ e q r.
            after_first-ends f e q (λ i. omega (arith, move q e r i))
              (λ i. omega (arith, move q e r i)))

  pub expr-ends : (f : ℕ) (p : Parser) → left p + 1 < f → expr zero_val tokens f p ≢ out_of_fuel
  unfolding expr expr_additive expr_multiplicative
  expr-ends zero p h = absurd (omega arith)
  expr-ends (suc zero) p h = absurd (omega arith)
  expr-ends (suc (suc b)) p h =
      let e = expr zero_val tokens (suc b) in
      let s = expr_unary-Sound zero_val tokens e (expr-Sound zero_val tokens (suc b)) in
      let u = expr_unary-Ends b e (λ q j. expr-ends (suc b) q (omega arith)) in
      chain-Ends b additive (expr_multiplicative zero_val tokens e)
        (chain-Sound zero_val tokens multiplicative (expr_unary zero_val tokens e) s)
        (chain-Ends b multiplicative (expr_unary zero_val tokens e) s u) (suc b) p (omega arith)
        (omega arith)

  trailing-ends : (d : ParserDag D) (p : Parser) → trailing zero_val tokens d p ≢ out_of_fuel
  unfolding trailing
  trailing-ends null p e = fail-ends p e
  trailing-ends (dag o v l r) p h = elim (Bool-cases (matches zero_val tokens p op_end)) [
    | inl e ↦ cc (rw (e, if◌then◌else◌) at h)
    | inr e ↦ fail-ends p (rw (e, if◌then◌else◌) at h)
  ]

  top-ends : (p : Parser) → p.i ≡ 0 → top zero_val tokens p ≢ out_of_fuel
  unfolding top
  top-ends p h =
      let n : left p ≡ length tokens = rw h in
      >>=-ends (expr zero_val tokens (length tokens + 2)) (trailing zero_val tokens) p
        (expr-ends (length tokens + 2) p (omega arith)) trailing-ends

  parsed-ends :
      (o : Outcome (ParserDag D × Parser)) → o ≢ out_of_fuel → parsed zero_val o ≢ out_of_fuel
  parsed-ends (ret (d, p)) h e = cc e
  parsed-ends abort h e = cc e
  parsed-ends out_of_fuel h e = h refl

  -- The recursion of the parser is given enough fuel, whatever the tokens are: it returns a tree or
  -- NULL, or reads beyond the table of operators for its message.
  pub parse-ends : parse zero_val tokens ≢ out_of_fuel
  unfolding parse
  parse-ends h = elim (Bool-cases (length tokens == 0)) [
    | inl e ↦ cc (rw (e, if◌then◌else◌) at h)
    | inr e ↦
        parsed-ends (top zero_val tokens (record { stop = false; i = 0 }))
          (top-ends (record { stop = false; i = 0 }) refl) (rw (e, if◌then◌else◌) at h)
  ]
