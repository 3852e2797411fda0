-- ===== src/Calc/Calculate.antt =====
-- From the text to the result, as `main` of project-1/main.c calls the lexer, the parser and the code
-- generator.
use os_cs238p_proj.Common.{
  ℕ, zero, suc, ◌==◌, ◌≡◌, ◌≢◌, refl, ap, sym, ◌∙◌, subst, arith, Bool, Option, none, some, List,
  [], ◌∷◌, ◌++◌, length, if◌then◌else◌, inl, inr, Bool-cases, Option-cases,
}
use os_cs238p_proj.Common.Bytes.{CString}
use os_cs238p_proj.Common.Outcome.{Outcome, ret, abort, out_of_fuel}
use os_cs238p_proj.Calc.{LexerToken, token, token_op, op_end, op_val, ParserDag, null, dag, IsDag}
use os_cs238p_proj.Calc.Lexer.{operator_of, tokenize, lexer_open}
use os_cs238p_proj.Calc.Lexing.{tokenize-op, tokenize-space, tokenize-stuck, tokenize-val}
use os_cs238p_proj.Calc.Parser.{additive, parse}
use os_cs238p_proj.Calc.Grammar.{Derives, level}
use os_cs238p_proj.Calc.Generate.{generate}
use os_cs238p_proj.Calc.Evaluate.{Arithmetic, apply, evaluate, value_of_dag}
use os_cs238p_proj.Calc.Compile.{compile-Derives}
use os_cs238p_proj.Calc.Parsing.{NoEnd, parse-Derives}

operator_of_end : (ch : ℕ) → operator_of ch ≢ some op_end
unfolding operator_of
operator_of_end ch h = ground arith

NoEnd-snoc :
    {D : Type 0} (ts : List (LexerToken D)) (t : LexerToken D)
    → NoEnd ts
    → token_op t ≢ op_end
    → NoEnd (ts ++ t ∷ [])
NoEnd-snoc [] t h k = (k, tt)
NoEnd-snoc (x ∷ ts) t h k = (h.0, NoEnd-snoc ts t h.1 k)

module _ {D : Type 0} (c : Arithmetic D) (strtod : CString → D × CString) (isspace : ℕ → Bool) where
  tokenize-NoEnd :
      (fuel : ℕ) (acc ts : List (LexerToken D)) (s : CString)
      → NoEnd acc
      → tokenize c.zero_val strtod isspace fuel acc s ≡ ret (some ts)
      → NoEnd ts
  unfolding tokenize
  tokenize-NoEnd zero acc ts s n h = absurd (cc h)
  tokenize-NoEnd (suc fuel) acc ts [] n h = let e : acc ≡ ts = cc h in subst NoEnd e n
  tokenize-NoEnd (suc fuel) acc ts (ch ∷ s) n h = elim (Option-cases (operator_of ch)) [
    | inr (o, e) ↦
        tokenize-NoEnd fuel (acc ++ token o c.zero_val ∷ []) ts s
          (NoEnd-snoc acc (token o c.zero_val) n (λ x. operator_of_end ch (e ∙ ap (λ y. some y) x)))
          (rw (tokenize-op c.zero_val strtod isspace fuel acc ch s o e) at h)
    | inl e ↦ elim (Bool-cases (isspace ch)) [
      | inl k ↦
          tokenize-NoEnd fuel acc ts s n
            (rw (tokenize-space c.zero_val strtod isspace fuel acc ch s e k) at h)
      | inr k ↦ elim (Bool-cases (length (strtod (ch ∷ s)).1 == length (ch ∷ s))) [
        | inl j ↦
            absurd (cc (rw (tokenize-stuck c.zero_val strtod isspace fuel acc ch s e k j) at h))
        | inr j ↦
            tokenize-NoEnd fuel (acc ++ token op_val (strtod (ch ∷ s)).0 ∷ []) ts
              (strtod (ch ∷ s)).1 (NoEnd-snoc acc (token op_val (strtod (ch ∷ s)).0) n (λ x. cc x))
              (rw (tokenize-val c.zero_val strtod isspace fuel acc ch s e k j) at h)
      ]
    ]
  ]

  lexer_open-NoEnd :
      (s : CString) (ts : List (LexerToken D))
      → lexer_open c.zero_val strtod isspace s ≡ ret (some ts)
      → NoEnd ts
  unfolding lexer_open
  lexer_open-NoEnd s ts h = elim (Bool-cases (length s == 0)) [
    | inl e ↦ absurd (cc (rw (e, if◌then◌else◌) at h))
    | inr e ↦ tokenize-NoEnd (suc (length s)) [] ts s tt (rw (e, if◌then◌else◌) at h)
  ]

  -- What `main` prints: the value of the generated function, for a tree that is not NULL
  abbrev generated : (D → D) → ParserDag D → Option D
  generated f null = none
  generated f (dag o v l r) = evaluate c (generate (dag o v l r)) f

  abbrev of_tree : (D → D) → Outcome (ParserDag D) → Outcome (Option D)
  of_tree f (ret d) = ret (generated f d)
  of_tree f abort = abort
  of_tree f out_of_fuel = out_of_fuel

  abbrev of_tokens : (D → D) → Outcome (Option (List (LexerToken D))) → Outcome (Option D)
  of_tokens f (ret none) = ret none
  of_tokens f (ret (some ts)) = of_tree f (parse c.zero_val ts)
  of_tokens f abort = abort
  of_tokens f out_of_fuel = out_of_fuel

  -- `main`, where the files are written and the loader succeeds; none also where the compiler refuses
  -- what was generated
  unfoldable pub calculate : (D → D) → CString → Outcome (Option D)
  calculate f s = of_tokens f (lexer_open c.zero_val strtod isspace s)

  -- The text is that of tokens which the grammar derives, and `x` is the callback's of the tree's value.
  abbrev pub Calculated : (D → D) → CString → D → Type 0
  Calculated f s x =
      (ts : List (LexerToken D)) × (d : ParserDag D) × (lexer_open c.zero_val strtod isspace s
        ≡ ret (some ts))
      × Derives c.zero_val (level additive) ts [] d
      × (apply c f (value_of_dag c d) ≡ some x)

  some-generated :
      (f : D → D) (d : ParserDag D) (x : D)
      → generated f d ≡ some x
      → IsDag d × (evaluate c (generate d) f ≡ some x)
  some-generated f null x h = absurd (cc h)
  some-generated f (dag o v l r) x h = (tt, h)

  generated_some :
      (f : D → D) (d : ParserDag D) → IsDag d → generated f d ≡ evaluate c (generate d) f
  generated_some f null i = absurd i
  generated_some f (dag o v l r) i = refl

  -- Where the calculator prints a number, the text was that of tokens which the grammar derives, and
  -- the tree has a value, and the number is the callback's of that value.
  pub calculate-Derives :
      (f : D → D) (s : CString) (x : D) → calculate f s ≡ ret (some x) → Calculated f s x
  unfolding calculate
  calculate-Derives f s x h = of (lexer_open c.zero_val strtod isspace s) refl h
    where
      parsed :
          (ts : List (LexerToken D))
          → lexer_open c.zero_val strtod isspace s ≡ ret (some ts)
          → (o : Outcome (ParserDag D)) → parse c.zero_val ts ≡ o
          → of_tree f o ≡ ret (some x)
          → Calculated f s x
      parsed ts e (ret d) k g =
          let (i, u) = some-generated f d x (cc g) in
          let t = (parse-Derives c.zero_val ts d (lexer_open-NoEnd s ts e)).0 (k, i) in
          let w = (compile-Derives c ts d f t).1 in (ts, d, e, t, sym w ∙ u)
      parsed ts e abort k g = absurd (cc g)
      parsed ts e out_of_fuel k g = absurd (cc g)

      of :
          (o : Outcome (Option (List (LexerToken D))))
          → lexer_open c.zero_val strtod isspace s ≡ o
          → of_tokens f o ≡ ret (some x)
          → Calculated f s x
      of (ret none) e g = absurd (cc g)
      of (ret (some ts)) e g = parsed ts e (parse c.zero_val ts) refl g
      of abort e g = absurd (cc g)
      of out_of_fuel e g = absurd (cc g)
