-- ===== src/Calc/Complete.antt =====
-- What the grammar of project-1/parser.c derives, its functions return.
use os_cs238p_proj.Common.{ℕ, zero, suc, ◌<◌, ◌≡◌, refl, ap, ◌∙◌, arith, List, ◌∷◌, length}
use os_cs238p_proj.Common.Outcome.{ret, ◌>>=◌}
use os_cs238p_proj.Calc.{
  LexerToken, token, token_val, op_val, op_add, op_sub, op_open, op_close, ParserDag,
}
use os_cs238p_proj.Calc.Parser.{
  Parser, multiplicative, additive, binary_op, forward, close, or_fail, negate, mk_neg, mk_val,
  expr_primary, expr_unary, expr_multiplicative, expr_additive, expr, mk_binary,
}
use os_cs238p_proj.Calc.Grammar.{
  Level, primary, unary, level, tail, Operator-binary_op, Derives, Derives-length, Derives-IsDag,
  Proper, value, paren, simple, plus, minus, operands, done, more,
}
use os_cs238p_proj.Calc.Position.{
  rest, next-cons, forward-cons, matches-cons, expr_primary-val, expr_primary-open, expr_unary-add,
  expr_unary-sub, expr_unary-other,
}
use os_cs238p_proj.Calc.Reads.{
  Follow, run, Reads, Follow-below, primary_start, close-Reads, or_fail_reads, negate_reads,
  then-Reads, Reads-eq, stop-Reads, chain-Reads, round-Reads,
}

module _ {D : Type 0} (zero_val : D) (tokens : List (LexerToken D)) where
  pub complete :
      (n : Level D) (ts us : List (LexerToken D)) (d : ParserDag D) (fuel f : ℕ) (p : Parser)
      → Derives zero_val n ts us d
      → rest zero_val tokens p ≡ ts
      → Follow n us
      → Proper zero_val n
      → length ts < f
      → length ts < fuel
      → Reads zero_val tokens (run zero_val tokens (expr zero_val tokens fuel) n f) p us d
  unfolding expr expr_multiplicative expr_additive binary_op
  complete n ts us d fuel f p (value v _) h w r x y =
      let n = next-cons zero_val tokens p (token op_val v) us h in
      (
        forward zero_val tokens p,
        expr_primary-val zero_val tokens (expr zero_val tokens fuel) p
              (matches-cons zero_val tokens p op_val op_val v us h)
            ∙ ap (λ t. ret (mk_val zero_val (token_val t), forward zero_val tokens p)) n,
        forward-cons zero_val tokens p (token op_val v) us h,
      )
  complete n ts us d zero f p (paren v w ts' _ _ g) h s r x y = absurd (omega arith)
  complete n ts us d (suc fuel) f p (paren v w ts' _ _ g) h s r x y =
      let e = expr zero_val tokens (suc fuel) in
      Reads-eq zero_val tokens (expr_primary zero_val tokens e) (e >>= close zero_val tokens) p
        (forward zero_val tokens p) us d
        (expr_primary-open zero_val tokens e p
          (matches-cons zero_val tokens p op_open op_val v ts' h)
          (matches-cons zero_val tokens p op_open op_open v ts' h))
        (then-Reads zero_val tokens e (close zero_val tokens) (forward zero_val tokens p)
          (token op_close w ∷ us) us d d
          (complete (level additive) ts' (token op_close w ∷ us) d fuel fuel
            (forward zero_val tokens p) g (forward-cons zero_val tokens p (token op_open v) ts' h)
            (refl, refl) tt (omega arith) (omega arith))
          (λ q t.
            close-Reads zero_val tokens d w us q
              (Derives-IsDag zero_val (level additive) ts' (token op_close w ∷ us) d g tt) t))
  complete n ts us d fuel zero p (simple _ _ _ g) h s r x y = absurd (omega arith)
  complete n ts us d fuel (suc f) p (simple _ _ _ g) h s r x y =
      let e = expr zero_val tokens fuel in
      let (a, b) = primary_start zero_val tokens ts us d p g h in
      Reads-eq zero_val tokens (expr_unary zero_val tokens e (suc f))
        (expr_primary zero_val tokens e) p p us d (expr_unary-other zero_val tokens e p f a b)
        (complete primary ts us d fuel (suc f) p g h tt tt x y)
  complete n ts us d fuel zero p (plus v ts' _ _ g) h s r x y = absurd (omega arith)
  complete n ts us d fuel (suc f) p (plus v ts' _ _ g) h s r x y =
      let e = expr zero_val tokens fuel in
      Reads-eq zero_val tokens (expr_unary zero_val tokens e (suc f))
        (expr_unary zero_val tokens e f >>= or_fail zero_val) p (forward zero_val tokens p) us d
        (expr_unary-add zero_val tokens e p f
          (matches-cons zero_val tokens p op_add op_add v ts' h))
        (then-Reads zero_val tokens (expr_unary zero_val tokens e f) (or_fail zero_val)
          (forward zero_val tokens p) us us d d
          (complete unary ts' us d fuel f (forward zero_val tokens p) g
            (forward-cons zero_val tokens p (token op_add v) ts' h) tt tt (omega arith)
            (omega arith))
          (λ q t.
            (q, or_fail_reads zero_val tokens d q (Derives-IsDag zero_val unary ts' us d g tt), t)))
  complete n ts us d fuel zero p (minus v ts' _ d' g) h s r x y = absurd (omega arith)
  complete n ts us d fuel (suc f) p (minus v ts' _ d' g) h s r x y =
      let e = expr zero_val tokens fuel in
      Reads-eq zero_val tokens (expr_unary zero_val tokens e (suc f))
        (expr_unary zero_val tokens e f >>= negate zero_val) p (forward zero_val tokens p) us
        (mk_neg zero_val d')
        (expr_unary-sub zero_val tokens e p f (matches-cons zero_val tokens p op_sub op_add v ts' h)
          (matches-cons zero_val tokens p op_sub op_sub v ts' h))
        (then-Reads zero_val tokens (expr_unary zero_val tokens e f) (negate zero_val)
          (forward zero_val tokens p) us us d' (mk_neg zero_val d')
          (complete unary ts' us d' fuel f (forward zero_val tokens p) g
            (forward-cons zero_val tokens p (token op_sub v) ts' h) tt tt (omega arith)
            (omega arith))
          (λ q t. (
            q,
            negate_reads zero_val tokens d' q (Derives-IsDag zero_val unary ts' us d' g tt),
            t,
          )))
  complete n ts us d fuel f p (operands multiplicative _ ws _ l _ g k) h s r x y =
      let e = expr zero_val tokens fuel in
      chain-Reads zero_val tokens multiplicative (expr_unary zero_val tokens e) f l d p ws us
        (Derives-IsDag zero_val unary ts ws l g tt) (complete unary ts ws l fuel f p g h tt tt x y)
        (λ q t.
          complete (tail multiplicative l) ws us d fuel f q k t s
            (Derives-IsDag zero_val unary ts ws l g tt)
            (omega (arith, Derives-length zero_val unary ts ws l g))
            (omega (arith, Derives-length zero_val unary ts ws l g)))
  complete n ts us d fuel f p (operands additive _ ws _ l _ g k) h s r x y =
      let e = expr zero_val tokens fuel in
      let i = Derives-IsDag zero_val (level multiplicative) ts ws l g tt in
      let j = Derives-length zero_val (level multiplicative) ts ws l g in
      chain-Reads zero_val tokens additive (expr_multiplicative zero_val tokens e) f l d p ws us i
        (complete (level multiplicative) ts ws l fuel f p g h
          (Follow-below zero_val tokens additive ws us l d k s) tt x y)
        (λ q t. complete (tail additive l) ws us d fuel f q k t s i (omega arith) (omega arith))
  complete n ts us d fuel zero p (done multiplicative _ _) h s r x y = absurd (omega arith)
  complete n ts us d fuel (suc f) p (done multiplicative _ _) h s r x y =
      stop-Reads zero_val tokens multiplicative
        (expr_unary zero_val tokens (expr zero_val tokens fuel)) f d d p us h s
  complete n ts us d fuel zero p (more multiplicative o b v ts' ws _ l e _ q g k) h s r x y =
      absurd (omega arith)
  complete n ts us d fuel (suc zero) p (more multiplicative o b v ts' ws _ l e _ q g k) h s r x y =
      absurd (omega arith)
  complete n ts us d fuel (suc (suc f)) p (more multiplicative o b v ts' ws _ l e _ q g k) h s r x
        y =
      let m = mk_binary zero_val b l e in
      let i = Derives-IsDag zero_val unary ts' ws e g tt in
      let j = Derives-length zero_val unary ts' ws e g in
      round-Reads zero_val tokens multiplicative
        (expr_unary zero_val tokens (expr zero_val tokens fuel)) f o b v l e d p ts' ws us
        (Operator-binary_op multiplicative o b q) h i
        (Derives-IsDag zero_val (tail multiplicative m) ws us d k tt) s
        (complete unary ts' ws e fuel (suc f) (forward zero_val tokens p) g
          (forward-cons zero_val tokens p (token o v) ts' h) tt tt (omega arith) (omega arith))
        (λ z t.
          complete (tail multiplicative m) ws us d fuel (suc f) z k t s tt (omega arith)
            (omega arith))
  complete n ts us d fuel zero p (done additive _ _) h s r x y = absurd (omega arith)
  complete n ts us d fuel (suc f) p (done additive _ _) h s r x y =
      stop-Reads zero_val tokens additive
        (expr_multiplicative zero_val tokens (expr zero_val tokens fuel)) f d d p us h s
  complete n ts us d fuel zero p (more additive o b v ts' ws _ l e _ q g k) h s r x y =
      absurd (omega arith)
  complete n ts us d fuel (suc zero) p (more additive o b v ts' ws _ l e _ q g k) h s r x y =
      absurd (omega arith)
  complete n ts us d fuel (suc (suc f)) p (more additive o b v ts' ws _ l e _ q g k) h s r x y =
      let m = mk_binary zero_val b l e in
      let i = Derives-IsDag zero_val (level multiplicative) ts' ws e g tt in
      let j = Derives-length zero_val (level multiplicative) ts' ws e g in
      round-Reads zero_val tokens additive
        (expr_multiplicative zero_val tokens (expr zero_val tokens fuel)) f o b v l e d p ts' ws us
        (Operator-binary_op additive o b q) h i
        (Derives-IsDag zero_val (tail additive m) ws us d k tt) s
        (complete (level multiplicative) ts' ws e fuel (suc f) (forward zero_val tokens p) g
          (forward-cons zero_val tokens p (token o v) ts' h)
          (Follow-below zero_val tokens additive ws us (mk_binary zero_val b l e) d k s) tt
          (omega arith) (omega arith))
        (λ z t.
          complete (tail additive m) ws us d fuel (suc f) z k t s tt (omega arith) (omega arith))
