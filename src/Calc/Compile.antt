-- ===== src/Calc/Compile.antt =====
-- The C function that project-1/main.c writes computes the value of the tree.
use os_cs238p_proj.Common.{
  ℕ, zero, suc, ◌+◌, ◌==◌, ◌≡◌, refl, ap, sym, ◌∙◌, subst, arith, true, Option, none, some, List,
  [], ◌∷◌, ◌++◌, length, length-append, get_elem?, if◌then◌else◌,
}
use os_cs238p_proj.Common.Int.{ℤ, pos, negsuc}
use os_cs238p_proj.Common.Outcome.{ret}
use os_cs238p_proj.Calc.{
  LexerToken, ParserDagOp, dag_none, dag_val, dag_neg, dag_mul, dag_div, dag_add, dag_sub,
  ParserDag, null, dag,
}
use os_cs238p_proj.Calc.Parser.{additive, parse}
use os_cs238p_proj.Calc.Grammar.{Derives, level}
use os_cs238p_proj.Calc.Parsing.{Derives-NoEnd, parse-Derives}
use os_cs238p_proj.Calc.Printing.{
  Expression, literal, negation, operation, IsBinary, Derives-Expression,
}
use os_cs238p_proj.Calc.Generate.{
  Line, literal_line, negative_line, product_line, quotient_line, sum_line, difference_line, Output,
  emit, gen_node, gen_func_body_from_dag, generate,
}
use os_cs238p_proj.Calc.Evaluate.{
  Arithmetic, read, declare, quotient, then_run, run_line, run_lines, apply, call_back, evaluate,
  binary_value, both, value_of, value_of_dag,
}

get_elem?-append_left :
    {A : Type 0} (xs ys : List A) (i : ℕ) (x : A)
    → get_elem? xs i ≡ some x
    → get_elem? (xs ++ ys) i ≡ some x
get_elem?-append_left [] ys i x h = absurd (cc h)
get_elem?-append_left (y ∷ xs) ys zero x h = h
get_elem?-append_left (y ∷ xs) ys (suc i) x h = get_elem?-append_left xs ys i x h

get_elem?-length :
    {A : Type 0} (xs : List A) (x : A) → get_elem? (xs ++ x ∷ []) (length xs) ≡ some x
get_elem?-length [] x = refl
get_elem?-length (y ∷ xs) x = get_elem?-length xs x

module _ {D : Type 0} (c : Arithmetic D) where
  run_lines-append :
      (ls : List (Line D)) (line : Line D) (env env' : List D)
      → run_lines c ls env ≡ some env'
      → run_lines c (ls ++ line ∷ []) env ≡ run_line c line env'
  unfolding run_lines
  run_lines-append [] line env env' h = one (run_line c line env) ∙ ap (run_line c line) (cc h)
    where
      one : (o : Option (List D)) → then_run c some o ≡ o
      one none = refl
      one (some x) = refl
  run_lines-append (l ∷ ls) line env env' h =
      next_line (run_line c l env) (λ e. run_lines-append ls line e env') h
    where
      next_line :
          (o : Option (List D))
          → ((e : List D)
              → run_lines c ls e ≡ some env'
              → run_lines c (ls ++ line ∷ []) e ≡ run_line c line env')
          → then_run c (run_lines c ls) o ≡ some env'
          → then_run c (run_lines c (ls ++ line ∷ [])) o ≡ run_line c line env'
      next_line none k g = absurd (cc g)
      next_line (some e) k g = k e g

  -- After a part of the function: its lines run, and each has declared the next variable.
  record Runs (s : Output D) (env : List D) : Type 0 where
    pub runs : run_lines c s.lines [] ≡ some env
    pub count : length env ≡ s.var_id

  -- The variable that a call has returned holds `x`, and the older ones are as they were.
  record Made (a : ℤ × Output D) (env : List D) (x : D) : Type 0 where
    pub after : List D
    pub good : Runs a.1 after
    pub holds : read c a.0 after ≡ some x
    pub kept : (i : ℤ) (y : D) → read c i env ≡ some y → read c i after ≡ some y

  read-append :
      (env ys : List D) (i : ℤ) (y : D) → read c i env ≡ some y → read c i (env ++ ys) ≡ some y
  read-append env ys (pos n) y h = get_elem?-append_left env ys n y h
  read-append env ys (negsuc n) y h = h

  declare_next :
      (s : Output D) (env : List D) (x : D)
      → Runs s env
      → declare c (pos s.var_id) x env ≡ some (env ++ x ∷ [])
  declare_next s env x r =
      let e : (s.var_id == length env) ≡ true = grind (arith, r.count) in rw (e, if◌then◌else◌)

  emit-Made :
      (s : Output D) (env : List D) (line : Line D) (x : D)
      → Runs s env
      → run_line c line env ≡ declare c (pos s.var_id) x env
      → Made (emit line s) env x
  unfolding emit
  emit-Made s env line x r h = record {
    after = env ++ x ∷ [];
    good = record {
      runs = run_lines-append s.lines line [] env r.runs ∙ h ∙ declare_next s env x r;
      count = length-append env (x ∷ []) ∙ ap (λ n. n + 1) r.count;
    };
    holds = subst (λ n. get_elem? (env ++ x ∷ []) n ≡ some x) r.count (get_elem?-length env x);
    kept = λ i y g. read-append env (x ∷ []) i y g;
  }

  -- A node whose operands are in variables
  gen_node-Made :
      (o : ParserDagOp) (v x y : D) (i j : ℤ) (s : Output D) (env : List D)
      → IsBinary o
      → Runs s env
      → read c i env ≡ some x
      → read c j env ≡ some y
      → Made (gen_node o v i j s) env (binary_value c o x y)
  unfolding gen_node run_line
  gen_node-Made dag_none v x y i j s env b r h k = absurd b
  gen_node-Made dag_val v x y i j s env b r h k = absurd b
  gen_node-Made dag_neg v x y i j s env b r h k = absurd b
  gen_node-Made dag_mul v x y i j s env b r h k =
      emit-Made s env (product_line (pos s.var_id) i j) (c.mul x y) r (rw (run_line, h, k))
  gen_node-Made dag_div v x y i j s env b r h k =
      emit-Made s env (quotient_line (pos s.var_id) j i j) (quotient c x y) r (rw (run_line, h, k))
  gen_node-Made dag_add v x y i j s env b r h k =
      emit-Made s env (sum_line (pos s.var_id) i j) (c.add x y) r (rw (run_line, h, k))
  gen_node-Made dag_sub v x y i j s env b r h k =
      emit-Made s env (difference_line (pos s.var_id) i j) (c.sub x y) r (rw (run_line, h, k))

  value_of-binary :
      (o : ParserDagOp) (x y : Option D)
      → IsBinary o
      → value_of c o c.zero_val x y ≡ both c (binary_value c o) x y
  value_of-binary dag_none x y b = absurd b
  value_of-binary dag_val x y b = absurd b
  value_of-binary dag_neg x y b = absurd b
  value_of-binary dag_mul x y b = refl
  value_of-binary dag_div x y b = refl
  value_of-binary dag_add x y b = refl
  value_of-binary dag_sub x y b = refl

  -- The lines up to here are not well-formed: nor are they with others behind them.
  abbrev Stuck : Output D → Type 0
  Stuck s = run_lines c s.lines [] ≡ none

  run_lines-stuck :
      (ls : List (Line D)) (line : Line D) (env : List D)
      → run_lines c ls env ≡ none
      → run_lines c (ls ++ line ∷ []) env ≡ none
  unfolding run_lines
  run_lines-stuck [] line env h = absurd (cc h)
  run_lines-stuck (l ∷ ls) line env h =
      next_line (run_line c l env) (λ e. run_lines-stuck ls line e) h
    where
      next_line :
          (o : Option (List D))
          → ((e : List D) → run_lines c ls e ≡ none → run_lines c (ls ++ line ∷ []) e ≡ none)
          → then_run c (run_lines c ls) o ≡ none
          → then_run c (run_lines c (ls ++ line ∷ [])) o ≡ none
      next_line none k g = refl
      next_line (some e) k g = k e g

  gen_node-Stuck :
      (o : ParserDagOp) (v : D) (i j : ℤ) (s : Output D) → Stuck s → Stuck (gen_node o v i j s).1
  unfolding gen_node emit
  gen_node-Stuck dag_none v i j s h = h
  gen_node-Stuck dag_val v i j s h = run_lines-stuck s.lines (literal_line (pos s.var_id) v) [] h
  gen_node-Stuck dag_neg v i j s h = run_lines-stuck s.lines (negative_line (pos s.var_id) j) [] h
  gen_node-Stuck dag_mul v i j s h = run_lines-stuck s.lines (product_line (pos s.var_id) i j) [] h
  gen_node-Stuck dag_div v i j s h =
      run_lines-stuck s.lines (quotient_line (pos s.var_id) j i j) [] h
  gen_node-Stuck dag_add v i j s h = run_lines-stuck s.lines (sum_line (pos s.var_id) i j) [] h
  gen_node-Stuck dag_sub v i j s h =
      run_lines-stuck s.lines (difference_line (pos s.var_id) i j) [] h

  gen-Stuck : (d : ParserDag D) (s : Output D) → Stuck s → Stuck (gen_func_body_from_dag d s).1
  unfolding gen_func_body_from_dag
  gen-Stuck null s h = h
  gen-Stuck (dag o v l r) s h =
      let a = gen_func_body_from_dag l s in
      let b = gen_func_body_from_dag r a.1 in
      gen_node-Stuck o v a.0 b.0 b.1 (gen-Stuck r a.1 (gen-Stuck l s h))

  -- What the lines written for a tree do: they make a variable with its value, or are not well-formed.
  abbrev Computes : Option D → ℤ × Output D → List D → Type 0
  Computes (some x) a env = Made a env x
  Computes none a env = Stuck a.1

  gen-Computes :
      (d : ParserDag D) (s : Output D) (env : List D)
      → Expression c.zero_val d
      → Runs s env
      → Computes (value_of_dag c d) (gen_func_body_from_dag d s) env
  unfolding gen_func_body_from_dag value_of_dag gen_node run_line
  gen-Computes d s env (literal v) r = split (c.printed v) refl
    where
      split :
          (o : Option D) → c.printed v ≡ o → Computes o (emit (literal_line (pos s.var_id) v) s) env
      split (some x) e =
          emit-Made s env (literal_line (pos s.var_id) v) x r
            (ap (then_run c (λ z. declare c (pos s.var_id) z env)) e)
      split none e =
          unfold emit in
          run_lines-append s.lines (literal_line (pos s.var_id) v) [] env r.runs
          ∙ ap (then_run c (λ z. declare c (pos s.var_id) z env)) e
  gen-Computes d s env (negation e x) r = split (value_of_dag c e) (gen-Computes e s env x r)
    where
      a : ℤ × Output D
      a = gen_func_body_from_dag e s

      split :
          (o : Option D)
          → Computes o a env
          → Computes
              (then_run c (λ z. some (c.mul c.minus_one z)) o)
              (gen_node dag_neg c.zero_val (negsuc 0) a.0 a.1)
              env
      split none h = gen_node-Stuck dag_neg c.zero_val (negsuc 0) a.0 a.1 h
      split (some y) m =
          let n =
            emit-Made a.1 m.after (negative_line (pos a.1.var_id) a.0) (c.mul c.minus_one y) m.good
              (rw (run_line, m.holds)) in
          record {
            after = n.after;
            good = n.good;
            holds = n.holds;
            kept = λ i z g. n.kept i z (m.kept i z g);
          }
  gen-Computes d s env (operation o l e b x y) r =
      subst (λ w. Computes w (gen_node o c.zero_val a.0 f.0 f.1) env)
        (sym (value_of-binary o (value_of_dag c l) (value_of_dag c e) b))
        (left (value_of_dag c l) (gen-Computes l s env x r) (λ env'. gen-Computes e a.1 env' y))
    where
      a : ℤ × Output D
      a = gen_func_body_from_dag l s

      f : ℤ × Output D
      f = gen_func_body_from_dag e a.1

      right :
          (u : D) (w : Option D)
          → (m : Made a env u) → Computes w f m.after
          → Computes (both c (binary_value c o) (some u) w) (gen_node o c.zero_val a.0 f.0 f.1) env
      right u none m h = gen_node-Stuck o c.zero_val a.0 f.0 f.1 h
      right u (some z) m n =
          let k =
            gen_node-Made o c.zero_val u z a.0 f.0 f.1 n.after b n.good (n.kept a.0 u m.holds)
              n.holds in
          record {
            after = k.after;
            good = k.good;
            holds = k.holds;
            kept = λ i z g. k.kept i z (n.kept i z (m.kept i z g));
          }

      left :
          (w : Option D)
          → Computes w a env
          → ((env' : List D) → Runs a.1 env' → Computes (value_of_dag c e) f env')
          → Computes
              (both c (binary_value c o) w (value_of_dag c e))
              (gen_node o c.zero_val a.0 f.0 f.1)
              env
      left none h k = gen_node-Stuck o c.zero_val a.0 f.0 f.1 (gen-Stuck e a.1 h)
      left (some u) m k = right u (value_of_dag c e) m (k m.after m.good)

  -- The function that is written for an expression calls back with the value of the expression, and is
  -- not well-formed where the expression has none.
  pub generate-evaluate :
      (d : ParserDag D) (callback : D → D)
      → Expression c.zero_val d
      → evaluate c (generate d) callback ≡ apply c callback (value_of_dag c d)
  unfolding generate evaluate run_lines
  generate-evaluate d callback x =
      split (value_of_dag c d) (gen-Computes d start [] x (record { runs = refl; count = refl }))
    where
      start : Output D
      start = record { lines = []; var_id = 0 }

      a : ℤ × Output D
      a = gen_func_body_from_dag d start

      split :
          (o : Option D)
          → Computes o a []
          → call_back c callback a.0 (run_lines c a.1.lines []) ≡ apply c callback o
      split none h = ap (call_back c callback a.0) h
      split (some z) m = ap (call_back c callback a.0) m.good.runs ∙ ap (apply c callback) m.holds

  -- For tokens that the grammar derives, the parser returns the tree of the derivation, and the C
  -- function that is written for it calls back with the value of that tree: it declares its variables
  -- in order, and reads only those declared before. The value is that of the operators on what `%f`
  -- prints of the literals; a tree has none where this is no constant of C (`inf`, `nan`), and then the
  -- function is not well-formed.
  pub compile-Derives :
      (tokens : List (LexerToken D)) (d : ParserDag D) (callback : D → D)
      → Derives c.zero_val (level additive) tokens [] d
      → (parse c.zero_val tokens ≡ ret d)
        × (evaluate c (generate d) callback ≡ apply c callback (value_of_dag c d))
  compile-Derives tokens d callback h =
      let e = Derives-NoEnd c.zero_val (level additive) tokens [] d h tt in
      (
        ((parse-Derives c.zero_val tokens d e).1 h).0,
        generate-evaluate d callback
            (Derives-Expression c.zero_val (level additive) tokens [] d h tt),
      )
