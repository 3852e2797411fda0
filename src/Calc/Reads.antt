-- ===== src/Calc/Reads.antt =====
-- Calls in project-1/parser.c that return a tree and stop in front of given tokens.
use os_cs238p_proj.Common.{
  ℕ, suc, ◌≡◌, refl, ap, ◌∙◌, false, some, none, List, [], ◌∷◌, if◌then◌else◌,
}
use os_cs238p_proj.Common.Outcome.{M, ret, ◌>>=◌, >>=-ret}
use os_cs238p_proj.Calc.{
  LexerTokenOp, LexerToken, token, token_op, op_end, op_val, op_add, op_sub, op_mul, op_div,
  op_open, op_close, ParserDagOp, ParserDag, null, dag, IsDag,
}
use os_cs238p_proj.Calc.Parser.{
  Parser, Kind, multiplicative, additive, binary_op, next, forward, matches, close, or_fail, negate,
  mk_neg, after_operand, again, after_first, expr_primary, expr_unary, loop, chain,
  expr_multiplicative, expr_additive, mk_binary,
}
use os_cs238p_proj.Calc.Grammar.{
  Operator-binary_op, Level, primary, unary, level, tail, below, Derives, value, paren, done, more,
}
use os_cs238p_proj.Calc.Position.{
  rest, loop-none, loop-some, next-nil, next-cons, forward-cons, matches-cons,
}

abbrev pub head_op : {D : Type 0} → List (LexerToken D) → LexerTokenOp
head_op [] = op_end
head_op (token o v ∷ ts) = o

-- The operators that would make a longer phrase do not come next.
abbrev pub Stops : {D : Type 0} → Kind → List (LexerToken D) → Type 0
Stops multiplicative us = binary_op multiplicative (head_op us) ≡ none
Stops additive us =
    (binary_op multiplicative (head_op us) ≡ none) × (binary_op additive (head_op us) ≡ none)

abbrev pub Follow : {D : Type 0} → Level D → List (LexerToken D) → Type 0
Follow (level k) us = Stops k us
Follow (tail k l) us = Stops k us
Follow _ us = Unit

Stops-binary_op :
    {D : Type 0} (k : Kind) (us : List (LexerToken D))
    → Stops k us
    → binary_op k (head_op us) ≡ none
Stops-binary_op multiplicative us h = h
Stops-binary_op additive us h = h.1

pub additive_only :
    (o : LexerTokenOp) (b : ParserDagOp)
    → binary_op additive o ≡ some b
    → binary_op multiplicative o ≡ none
unfolding binary_op
additive_only op_end b h = refl
additive_only op_val b h = refl
additive_only op_add b h = refl
additive_only op_sub b h = refl
additive_only op_mul b h = absurd (cc h)
additive_only op_div b h = absurd (cc h)
additive_only op_open b h = refl
additive_only op_close b h = refl

module _ {D : Type 0} (zero_val : D) (tokens : List (LexerToken D)) where
  -- The function for each nonterminal
  abbrev pub run : M Parser (ParserDag D) → Level D → ℕ → M Parser (ParserDag D)
  run e primary f = expr_primary zero_val tokens e
  run e unary f = expr_unary zero_val tokens e f
  run e (level multiplicative) f = expr_multiplicative zero_val tokens e f
  run e (level additive) f = expr_additive zero_val tokens e f
  run e (tail multiplicative l) f =
      loop zero_val tokens multiplicative (expr_unary zero_val tokens e) f l l
  run e (tail additive l) f =
      loop zero_val tokens additive (expr_multiplicative zero_val tokens e) f l l

  abbrev pub operand : M Parser (ParserDag D) → Kind → ℕ → M Parser (ParserDag D)
  operand e multiplicative = expr_unary zero_val tokens e
  operand e additive = expr_multiplicative zero_val tokens e

  -- A call returns `d` and stops in front of `us`.
  abbrev pub Reads : M Parser (ParserDag D) → Parser → List (LexerToken D) → ParserDag D → Type 0
  Reads m p us d = (q : Parser) × (m p ≡ ret (d, q)) × (rest zero_val tokens q ≡ us)

  pub next-head_op :
      (p : Parser) (us : List (LexerToken D))
      → rest zero_val tokens p ≡ us
      → token_op (next zero_val tokens p) ≡ head_op us
  next-head_op p [] h = ap token_op (next-nil zero_val tokens p h)
  next-head_op p (token o v ∷ us) h = ap token_op (next-cons zero_val tokens p (token o v) us h)

  -- An operand is followed by what follows the tail behind it.
  pub Follow-below :
      (k : Kind) (ws us : List (LexerToken D)) (l d : ParserDag D)
      → Derives zero_val (tail k l) ws us d
      → Stops k us
      → Follow (below {D = D} k) ws
  Follow-below multiplicative ws us l d h s = tt
  Follow-below additive ws us l d (done _ _ _) s = s.0
  Follow-below additive ws us l d (more _ o b v ts _ _ _ e _ q h g) s =
      additive_only o b (Operator-binary_op additive o b q)

  pub primary_start :
      (ts us : List (LexerToken D)) (d : ParserDag D) (p : Parser)
      → Derives zero_val primary ts us d
      → rest zero_val tokens p ≡ ts
      → (matches zero_val tokens p op_add ≡ false) × (matches zero_val tokens p op_sub ≡ false)
  primary_start ts us d p (value v _) h = (
    matches-cons zero_val tokens p op_val op_add v us h,
    matches-cons zero_val tokens p op_val op_sub v us h,
  )
  primary_start ts us d p (paren v w ts' _ _ g) h = (
    matches-cons zero_val tokens p op_open op_add v ts' h,
    matches-cons zero_val tokens p op_open op_sub v ts' h,
  )

  pub close-Reads :
      (d : ParserDag D) (w : D) (us : List (LexerToken D)) (p : Parser)
      → IsDag d
      → rest zero_val tokens p ≡ token op_close w ∷ us
      → Reads (close zero_val tokens d) p us d
  unfolding close
  close-Reads null w us p i h = absurd i
  close-Reads (dag o v l r) w us p i h = (
    forward zero_val tokens p,
    rw (matches-cons zero_val tokens p op_close op_close w us h, close, if◌then◌else◌),
    forward-cons zero_val tokens p (token op_close w) us h,
  )

  pub or_fail_reads : (d : ParserDag D) (p : Parser) → IsDag d → or_fail zero_val d p ≡ ret (d, p)
  or_fail_reads null p i = absurd i
  or_fail_reads (dag o v l r) p i = refl

  pub negate_reads :
      (d : ParserDag D) (p : Parser) → IsDag d → negate zero_val d p ≡ ret (mk_neg zero_val d, p)
  negate_reads null p i = absurd i
  negate_reads (dag o v l r) p i = refl

  pub after_first_reads :
      (g : ParserDag D → M Parser (ParserDag D)) (d : ParserDag D) (p : Parser)
      → IsDag d
      → after_first zero_val tokens g d p ≡ g d p
  unfolding after_first
  after_first_reads g null p i = absurd i
  after_first_reads g (dag o v l r) p i = refl

  pub again_reads :
      (g : ParserDag D → M Parser (ParserDag D)) (d : ParserDag D) (p : Parser)
      → IsDag d
      → again zero_val tokens g d p ≡ g d p
  unfolding again
  again_reads g null p i = absurd i
  again_reads g (dag o v l r) p i = refl

  pub after_operand_reads :
      (g : ParserDag D → ParserDag D → M Parser (ParserDag D)) (k : Kind) (o : ParserDagOp)
      (l d : ParserDag D) (p : Parser)
      → IsDag d
      → after_operand zero_val tokens g k o l d p
        ≡ (g (mk_binary zero_val o l d) (mk_binary zero_val o l d) >>= again zero_val tokens (g l))
            p
  unfolding after_operand
  after_operand_reads g k o l null p i = absurd i
  after_operand_reads g k o l (dag o' v z w) p i = refl

  -- What a first call reads, its continuation goes on with.
  pub then-Reads :
      (m : M Parser (ParserDag D)) (g : ParserDag D → M Parser (ParserDag D)) (p : Parser)
      (us ws : List (LexerToken D)) (d e : ParserDag D)
      → Reads m p us d
      → ((q : Parser) → rest zero_val tokens q ≡ us → Reads (g d) q ws e)
      → Reads (m >>= g) p ws e
  then-Reads m g p us ws d e (q, h, r) k = let (t, a, b) = k q r in (t, >>=-ret m g p q d h ∙ a, b)

  pub Reads-eq :
      (m n : M Parser (ParserDag D)) (p q : Parser) (us : List (LexerToken D)) (d : ParserDag D)
      → m p ≡ n q
      → Reads n q us d
      → Reads m p us d
  Reads-eq m n p q us d h (t, a, b) = (t, h ∙ a, b)

  module _ (k : Kind) (opd : ℕ → M Parser (ParserDag D)) (f : ℕ) where
    pub stop-Reads :
        (l d : ParserDag D) (p : Parser) (us : List (LexerToken D))
        → rest zero_val tokens p ≡ us
        → Stops k us
        → Reads (loop zero_val tokens k opd (suc f) l d) p us d
    stop-Reads l d p us h s = (
      p,
      loop-none zero_val tokens k opd f l d p
          (ap (binary_op k) (next-head_op p us h) ∙ Stops-binary_op k us s),
      h,
    )

    pub chain-Reads :
        (l d : ParserDag D) (p : Parser) (ws us : List (LexerToken D))
        → IsDag l
        → Reads (opd f) p ws l
        → ((q : Parser)
            → rest zero_val tokens q ≡ ws
            → Reads (loop zero_val tokens k opd f l l) q us d)
        → Reads (chain zero_val tokens k opd f) p us d
    unfolding chain
    chain-Reads l d p ws us i a c =
        let g = λ (x : ParserDag D). loop zero_val tokens k opd f x x in
        then-Reads (opd f) (after_first zero_val tokens g) p ws us l d a (λ q h.
          Reads-eq (after_first zero_val tokens g l) (g l) q q us d (after_first_reads g l q i)
            (c q h))

  pub round-Reads :
      (k : Kind) (opd : ℕ → M Parser (ParserDag D)) (f : ℕ) (o : LexerTokenOp) (b : ParserDagOp)
      (v : D) (l e d : ParserDag D) (p : Parser) (ts ws us : List (LexerToken D))
      → binary_op k o ≡ some b
      → rest zero_val tokens p ≡ token o v ∷ ts
      → IsDag e
      → IsDag d
      → Stops k us
      → Reads (opd (suc f)) (forward zero_val tokens p) ws e
      → ((q : Parser)
          → rest zero_val tokens q ≡ ws
          → Reads
              (loop zero_val tokens k opd
                (suc f)
                (mk_binary zero_val b l e)
                (mk_binary zero_val b l e))
              q
              us
              d)
      → Reads (loop zero_val tokens k opd (suc (suc f)) l l) p us d
  round-Reads k opd f o b v l e d p ts ws us s h i j stops a c =
      let lp = loop zero_val tokens k opd (suc f) in
      let m = mk_binary zero_val b l e in
      let n = ap (binary_op k) (next-head_op p (token o v ∷ ts) h) ∙ s in
      Reads-eq (loop zero_val tokens k opd (suc (suc f)) l l)
        (opd (suc f) >>= after_operand zero_val tokens lp k b l) p (forward zero_val tokens p) us d
        (loop-some zero_val tokens k opd (suc f) l l p b n)
        (then-Reads (opd (suc f)) (after_operand zero_val tokens lp k b l)
          (forward zero_val tokens p) ws us e d a
          (λ q r.
            Reads-eq (after_operand zero_val tokens lp k b l e)
              (lp m m >>= again zero_val tokens (lp l)) q q us d
              (after_operand_reads lp k b l e q i)
              (then-Reads (lp m m) (again zero_val tokens (lp l)) q us us d d (c q r) (λ t u.
                Reads-eq (again zero_val tokens (lp l) d) (lp l d) t t us d
                  (again_reads (lp l) d t j) (stop-Reads k opd f l d t us u stops)))))
