-- ===== src/Calc/Parsing.antt =====
-- `parser_open` of project-1/parser.c against the grammar, and back from a tree to its tokens.
use os_cs238p_proj.Common.{
  ℕ, zero, suc, ◌+◌, ◌≡◌, ◌≢◌, ◌↔◌, refl, ap, sym, ◌∙◌, subst, inl, inr, arith, false, List, [],
  ◌∷◌, length, drop, ◌==◌, if◌then◌else◌, Bool-cases, ==_of_ne,
}
use os_cs238p_proj.Common.Outcome.{Outcome, ret, abort, out_of_fuel, >>=-ret, >>=-eq-ret}
use os_cs238p_proj.Calc.{LexerToken, token, token_op, op_end, op_close, ParserDag, null, dag, IsDag}
use os_cs238p_proj.Calc.Parser.{
  Parser, additive, binary_op, next, matches, fail, trace_once, trailing, top, parse, parsed, expr,
  mk_binary,
}
use os_cs238p_proj.Calc.Grammar.{
  Level, primary, unary, level, tail, below, Derives, Operator-binary_op, Derives_longer,
  Derives-IsDag, value, paren, simple, plus, minus, operands, done, more,
}
use os_cs238p_proj.Calc.Position.{rest, matches-true, next-cons, next-nil}
use os_cs238p_proj.Calc.Sound.{no_dag}
use os_cs238p_proj.Calc.Chains.{binary_op_end, expr-Sound}
use os_cs238p_proj.Calc.Complete.{complete}

-- The lexer makes no token of the operator that marks the end.
abbrev pub NoEnd : {D : Type 0} → List (LexerToken D) → Type 0
NoEnd [] = Unit
NoEnd (t ∷ ts) = (token_op t ≢ op_end) × NoEnd ts

module _ {D : Type 0} (zero_val : D) where
  pub Derives-NoEnd :
      (n : Level D) (ts us : List (LexerToken D)) (d : ParserDag D)
      → Derives zero_val n ts us d
      → NoEnd us
      → NoEnd ts
  Derives-NoEnd n ts us d (value v _) x = (λ e. cc e, x)
  Derives-NoEnd n ts us d (paren v w ts' _ _ h) x =
      (λ e. cc e, Derives-NoEnd (level additive) ts' (token op_close w ∷ us) d h (λ e. cc e, x))
  Derives-NoEnd n ts us d (simple _ _ _ h) x = Derives-NoEnd primary ts us d h x
  Derives-NoEnd n ts us d (plus v ts' _ _ h) x = (λ e. cc e, Derives-NoEnd unary ts' us d h x)
  Derives-NoEnd n ts us d (minus v ts' _ e h) x = (λ e. cc e, Derives-NoEnd unary ts' us e h x)
  Derives-NoEnd n ts us d (operands k _ ws _ l _ h g) x =
      Derives-NoEnd (below k) ts ws l h (Derives-NoEnd (tail k l) ws us d g x)
  Derives-NoEnd n ts us d (done k _ _) x = x
  Derives-NoEnd n ts us d (more k o b v ts' ws _ l e _ q h g) x = (
    binary_op_end k o b (Operator-binary_op k o b q),
    Derives-NoEnd (below k) ts' ws e h
        (Derives-NoEnd (tail k (mk_binary zero_val b l e)) ws us d g x),
  )

module _ {D : Type 0} (zero_val : D) (tokens : List (LexerToken D)) where
  abbrev pub start : Parser
  start = record { stop = false; i = 0 }

  NoEnd-rest : (ts : List (LexerToken D)) (i : ℕ) → NoEnd ts → NoEnd (drop i ts)
  NoEnd-rest ts zero h = h
  NoEnd-rest [] (suc i) h = tt
  NoEnd-rest (t ∷ ts) (suc i) h = NoEnd-rest ts i h.1

  -- The end marker comes next at the end only.
  at_end :
      (p : Parser) (us : List (LexerToken D))
      → rest zero_val tokens p ≡ us
      → NoEnd us
      → token_op (next zero_val tokens p) ≡ op_end
      → us ≡ []
  at_end p [] h e n = refl
  at_end p (t ∷ us) h e n =
      absurd (e.0 (sym (ap token_op (next-cons zero_val tokens p t us h)) ∙ n))

  trailing-eq-ret :
      (x d : ParserDag D) (p q : Parser)
      → trailing zero_val tokens x p ≡ ret (d, q)
      → IsDag d
      → IsDag x × (x ≡ d) × (token_op (next zero_val tokens p) ≡ op_end)
  unfolding trailing fail
  trailing-eq-ret null d p q h i = absurd (no_dag zero_val tokens (trace_once p) q d h i)
  trailing-eq-ret (dag o v l r) d p q h i = elim (Bool-cases (matches zero_val tokens p op_end)) [
    | inl e ↦
        let g = rw (e, if◌then◌else◌) at h in (tt, cc g, matches-true zero_val tokens p op_end e)
    | inr e ↦ absurd (no_dag zero_val tokens (trace_once p) q d (rw (e, if◌then◌else◌) at h) i)
  ]

  top-Derives :
      (d : ParserDag D) (q : Parser)
      → NoEnd tokens
      → top zero_val tokens start ≡ ret (d, q)
      → IsDag d
      → Derives zero_val (level additive) tokens [] d
  unfolding top
  top-Derives d q e h i =
      let (x, t, a, b) =
        >>=-eq-ret (expr zero_val tokens (length tokens + 2)) (trailing zero_val tokens) start
          (d, q) h in
      let (j, y, n) = trailing-eq-ret x d t q b i in
      let s = expr-Sound zero_val tokens (length tokens + 2) start t x a j in
      let z = at_end t (rest zero_val tokens t) refl (NoEnd-rest tokens t.i e) n in
      subst (λ us. Derives zero_val (level additive) tokens us d) z
        (subst (Derives zero_val (level additive) tokens (rest zero_val tokens t)) y s)

  trailing_end :
      (d : ParserDag D) (p : Parser)
      → IsDag d
      → rest zero_val tokens p ≡ []
      → trailing zero_val tokens d p ≡ ret (d, p)
  unfolding trailing matches
  trailing_end null p i h = absurd i
  trailing_end (dag o v l r) p i h =
      rw (next-nil zero_val tokens p h, trailing, matches, if◌then◌else◌)

  top_complete :
      (d : ParserDag D)
      → Derives zero_val (level additive) tokens [] d
      → (q : Parser) × (top zero_val tokens start ≡ ret (d, q))
  unfolding top expr binary_op
  top_complete d h =
      let f = length tokens + 1 in
      let n : length tokens + 2 ≡ suc f = omega arith in
      let (q, a, b) =
        complete zero_val tokens (level additive) tokens [] d f f start h refl (refl, refl) tt
          (omega arith) (omega arith) in
      let i = Derives-IsDag zero_val (level additive) tokens [] d h tt in
      (
        q,
        >>=-ret (expr zero_val tokens (length tokens + 2)) (trailing zero_val tokens) start q d
              (rw n a)
            ∙ trailing_end d q i b,
      )

  -- An expression has a token.
  Derives_nonempty :
      (d : ParserDag D) → Derives zero_val (level additive) tokens [] d → length tokens ≢ 0
  Derives_nonempty d h e = omega (arith, Derives_longer zero_val (level additive) tokens [] d h)

  parsed-eq-ret :
      (o : Outcome (ParserDag D × Parser)) (d : ParserDag D)
      → parsed zero_val o ≡ ret d
      → (q : Parser) × (o ≡ ret (d, q))
  parsed-eq-ret (ret (x, p)) d h = let e : x ≡ d = cc h in (p, ap (λ z. ret (z, p)) e)
  parsed-eq-ret abort d h = absurd (cc h)
  parsed-eq-ret out_of_fuel d h = absurd (cc h)

  -- The parser returns a tree exactly for the expressions of the grammar, and the tree is the one that
  -- the grammar gives: `*` and `/` before `+` and `-`, chains from the left. The lists of tokens are
  -- those without the end marker.
  pub parse-Derives :
      (d : ParserDag D)
      → NoEnd tokens
      → ((parse zero_val tokens ≡ ret d) × IsDag d) ↔ Derives zero_val (level additive) tokens [] d
  unfolding parse
  parse-Derives d e = (sound, complete_tree)
    where
      sound :
          (parse zero_val tokens ≡ ret d) × IsDag d → Derives zero_val (level additive) tokens [] d
      sound (h, i) = elim (Bool-cases (length tokens == 0)) [
        | inl z ↦
            let g : null ≡ d = cc (rw (z, if◌then◌else◌) at h) in absurd (subst IsDag (sym g) i)
        | inr z ↦
            let (q, g) = parsed-eq-ret (top zero_val tokens start) d (rw (z, if◌then◌else◌) at h) in
            top-Derives d q e g i
      ]

      complete_tree :
          Derives zero_val (level additive) tokens [] d → (parse zero_val tokens ≡ ret d) × IsDag d
      complete_tree h =
          let (q, g) = top_complete d h in
          (
            rw (==_of_ne (length tokens) 0 (Derives_nonempty d h), if◌then◌else◌)
                (ap (parsed zero_val) g),
            Derives-IsDag zero_val (level additive) tokens [] d h tt,
          )
