-- ===== src/Tests/Calculations.antt =====
-- project-1: numbers stand for `double`, and `strtod` reads one digit.
use os_cs238p_proj.Common.{
  ℕ, suc, Option, ◌+◌, ◌-◌, ◌*◌, ◌/◌, ◌<◌, ◌≤◌, ◌==◌, ◌≡◌, ◌≢◌, ◌↔◌, refl, ap, ==_of_ne, arith, leb,
  ◌&&◌, Bool, true, some, List, [], ◌∷◌, length, if◌then◌else◌, Bool-cases, inl, inr,
}
use os_cs238p_proj.Common.Bytes.{CString}
use os_cs238p_proj.Common.Outcome.{Outcome, ret, abort, out_of_fuel}
use os_cs238p_proj.Calc.{
  LexerToken, token, op_val, op_sub, op_mul, dag_mul, dag_sub, ParserDag, IsDag,
}
use os_cs238p_proj.Calc.Lexer.{lexer_open, operator_of, tokenize}
use os_cs238p_proj.Calc.Parser.{
  top, expr, expr_additive, expr_multiplicative, chain, after_first, loop, expr_unary, expr_primary,
  matches, next, forward, fail, trace_once, after_operand, again, trailing, multiplicative,
  additive, binary_op, parse, mk_val, mk_binary,
}
use os_cs238p_proj.Calc.Grammar.{
  times, subtracted, Derives, level, unary, value, simple, operands, done, more,
}
use os_cs238p_proj.Calc.Fuel.{parse-ends}
use os_cs238p_proj.Calc.Parsing.{NoEnd, parse-Derives}
use os_cs238p_proj.Calc.Printing.{Expression, literal, operation, print, parse-print}
use os_cs238p_proj.Calc.Generate.{generate, gen_func_body_from_dag, gen_node, emit}
use os_cs238p_proj.Calc.Evaluate.{Arithmetic, apply, evaluate, value_of_dag, run_lines, run_line}
use os_cs238p_proj.Calc.Compile.{compile-Derives}
use os_cs238p_proj.Calc.Lexing.{lexer_open-ends}
use os_cs238p_proj.Calc.Spelling.{IsNumeral, spell, lexer_open-spell}
use os_cs238p_proj.Calc.Missing.{parse_missing}
use os_cs238p_proj.Calc.Calculate.{calculate, Calculated, calculate-Derives}

-- 8 - 2 * 3
abbrev calc_tokens : List (LexerToken ℕ)
calc_tokens =
    token op_val 8 ∷ token op_sub 0 ∷ token op_val 2 ∷ token op_mul 0 ∷ token op_val 3 ∷ []

abbrev calc_product : ParserDag ℕ
calc_product = mk_binary 0 dag_mul (mk_val 0 2) (mk_val 0 3)

abbrev calc_dag : ParserDag ℕ
calc_dag = mk_binary 0 dag_sub (mk_val 0 8) calc_product

factor : (n : ℕ) (us : List (LexerToken ℕ)) → Derives 0 unary (token op_val n ∷ us) us (mk_val 0 n)
factor n us = simple (token op_val n ∷ us) us (mk_val 0 n) (value n us)

calc_derived : Derives 0 (level additive) calc_tokens [] calc_dag
calc_derived =
    let us = token op_val 2 ∷ token op_mul 0 ∷ token op_val 3 ∷ [] in
    let ws = token op_sub 0 ∷ us in
    operands additive calc_tokens ws [] (mk_val 0 8) calc_dag
      (operands multiplicative calc_tokens ws ws (mk_val 0 8) (mk_val 0 8) (factor 8 ws)
        (done multiplicative ws (mk_val 0 8)))
      (more additive op_sub dag_sub 0 us [] [] (mk_val 0 8) calc_product calc_dag subtracted
        (operands multiplicative us (token op_mul 0 ∷ token op_val 3 ∷ []) [] (mk_val 0 2)
          calc_product (factor 2 (token op_mul 0 ∷ token op_val 3 ∷ []))
          (more multiplicative op_mul dag_mul 0 (token op_val 3 ∷ []) [] [] (mk_val 0 2)
            (mk_val 0 3) calc_product times (factor 3 []) (done multiplicative [] calc_product)))
        (done additive [] calc_dag))

calc_NoEnd : NoEnd calc_tokens
calc_NoEnd = (λ e. cc e, (λ e. cc e, (λ e. cc e, (λ e. cc e, (λ e. cc e, tt)))))

parse-Derives_example :
    ((parse 0 calc_tokens ≡ ret calc_dag) × IsDag calc_dag)
    ↔ Derives 0 (level additive) calc_tokens [] calc_dag
parse-Derives_example = parse-Derives 0 calc_tokens calc_dag calc_NoEnd

parse-ends_example : parse 0 calc_tokens ≢ out_of_fuel
parse-ends_example = parse-ends 0 calc_tokens

calc-Expression : Expression 0 calc_dag
calc-Expression =
    operation dag_sub (mk_val 0 8) calc_product tt (literal 8)
      (operation dag_mul (mk_val 0 2) (mk_val 0 3) tt (literal 2) (literal 3))

parse-print_example : parse 0 (print 0 calc_dag []) ≡ ret calc_dag
parse-print_example = parse-print 0 calc_dag calc-Expression

abbrev naturals : Arithmetic ℕ
naturals = record {
  zero_val = 0;
  minus_one = 1;
  add = λ x y. x + y;
  sub = λ x y. x - y;
  mul = λ x y. x * y;
  div = λ x y. x / y;
  is_zero = λ x. x == 0;
  printed = λ x. some x;
}

compile-Derives_example :
    (parse 0 calc_tokens ≡ ret calc_dag)
    × (evaluate naturals (generate calc_dag) suc
        ≡ apply naturals suc (value_of_dag naturals calc_dag))
compile-Derives_example = compile-Derives naturals calc_tokens calc_dag suc calc_derived

-- The value is 2, and the callback adds 1.
calc_value : evaluate naturals (generate calc_dag) suc ≡ some 3
unfolding value_of_dag
calc_value = compile-Derives_example.1

parse_missing_example : parse {D = ℕ} 0 (token op_val 8 ∷ token op_sub 0 ∷ []) ≡ abort
unfolding binary_op
parse_missing_example =
    let us : List (LexerToken ℕ) = token op_sub 0 ∷ [] in
    parse_missing 0 (token op_val 8 ∷ us) (mk_val 0 8) op_sub dag_sub 0 refl (
      operands multiplicative (token op_val 8 ∷ us) us us (mk_val 0 8) (mk_val 0 8) (factor 8 us)
        (done multiplicative us (mk_val 0 8)))

abbrev is_digit : ℕ → Bool
is_digit c = leb 48 c && leb c 57

abbrev read_digit : CString → ℕ × CString
read_digit [] = (0, [])
read_digit (c ∷ s) = if is_digit c then (c - 48, s) else (0, c ∷ s)

abbrev is_blank : ℕ → Bool
is_blank c = c == 32

read_digit-Within : (s : CString) → length (read_digit s).1 ≤ length s
read_digit-Within [] = omega arith
read_digit-Within (c ∷ s) = elim (Bool-cases (is_digit c)) [
  | inl e ↦ rw (e, if◌then◌else◌) (omega arith)
  | inr e ↦ rw (e, if◌then◌else◌) (omega arith)
]

abbrev calc_text : CString
calc_text = 56 ∷ 45 ∷ 50 ∷ 42 ∷ 51 ∷ []

lexer_open-ends_example : lexer_open 0 read_digit is_blank calc_text ≢ out_of_fuel
lexer_open-ends_example = lexer_open-ends 0 read_digit is_blank read_digit-Within calc_text

abbrev digit : ℕ → CString
digit v = (48 + v) ∷ []

digit-IsNumeral : IsNumeral read_digit is_blank digit (λ v. v < 10)
unfolding operator_of
digit-IsNumeral = record {
  reads = λ v s r.
      let e : is_digit (48 + v) ≡ true = ground arith in
      let n : 48 + v - 48 ≡ v = omega arith in rw (e, if◌then◌else◌) (ap (λ x. (x, 32 ∷ s)) n);
  head = λ v r. 48 + v;
  tail = λ v r. [];
  shape = λ v r. refl;
  no_operator = λ v r. ground arith;
  no_space = λ v r. ==_of_ne (48 + v) 32 (λ e. omega arith);
  space = refl;
}

lexer_open-spell_example :
    lexer_open 0 read_digit is_blank (spell digit calc_tokens) ≡ ret (some calc_tokens)
lexer_open-spell_example =
    lexer_open-spell 0 read_digit is_blank digit (λ v. v < 10) digit-IsNumeral calc_tokens
      (omega arith, (refl, (omega arith, (refl, (omega arith, tt))))) (λ e. cc e)

calc_run : CString → Outcome (Option ℕ)
unfolding calculate lexer_open tokenize operator_of parse top expr expr_additive expr_multiplicative
    chain after_first loop binary_op expr_unary expr_primary matches next forward fail trace_once
    after_operand again trailing generate gen_func_body_from_dag gen_node emit evaluate run_lines
    run_line
calc_run s = calculate naturals read_digit is_blank suc s

calc_ret : calculate naturals read_digit is_blank suc calc_text ≡ ret (some 3)
unfolding calc_run
calc_ret = refl

calculate-Derives_example : Calculated naturals read_digit is_blank suc calc_text 3
calculate-Derives_example = calculate-Derives naturals read_digit is_blank suc calc_text 3 calc_ret
