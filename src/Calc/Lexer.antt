-- ===== src/Calc/Lexer.antt =====
-- project-1/lexer.c. `strtod` and `isspace` are the C library's and arguments of the model; a call of
-- `strtod` returns the value and the rest of the string.
use os_cs238p_proj.Common.{
  ℕ, zero, suc, ◌==◌, Bool, true, false, Option, none, some, List, [], ◌∷◌, ◌++◌, length,
  if◌then◌else◌,
}
use os_cs238p_proj.Common.Bytes.{CString}
use os_cs238p_proj.Common.Outcome.{Outcome, ret, abort, out_of_fuel}
use os_cs238p_proj.Calc.{
  LexerTokenOp, LexerToken, token, op_val, op_add, op_sub, op_mul, op_div, op_open, op_close,
}

-- The loop over OPERATORS = "+-*/()": LEXER_OP_ADD + i, if the character is one of them.
unfoldable pub operator_of : ℕ → Option LexerTokenOp
operator_of c =
    if c == 43
    then some op_add
    else (if c == 45
        then some op_sub
        else (if c == 42
            then some op_mul
            else (if c == 47
                then some op_div
                else (if c == 40
                    then some op_open
                    else (if c == 41 then some op_close else none)))))

module _ {D : Type 0} (zero_val : D) (strtod : CString → D × CString) (isspace : ℕ → Bool) where
  -- The `while` loop of `tokenize`, with the tokens so far; `none` is the return of -1.
  unfoldable pub tokenize :
      ℕ → List (LexerToken D) → CString → Outcome (Option (List (LexerToken D)))
  tokenize zero tokens s = out_of_fuel
  tokenize (suc fuel) tokens [] = ret (some tokens)
  tokenize (suc fuel) tokens (c ∷ s) = elim (operator_of c) [
    | some o ↦ tokenize fuel (tokens ++ token o zero_val ∷ []) s
    | none ↦ elim (isspace c) [
      | true ↦ tokenize fuel tokens s
      | false ↦ elim (length (strtod (c ∷ s)).1 == length (c ∷ s)) [
        | true ↦ ret none
        | false ↦ tokenize fuel (tokens ++ token op_val (strtod (c ∷ s)).0 ∷ []) (strtod (c ∷ s)).1
      ]
    ]
  ]

  -- `lexer_open`: every round takes a character or more.
  unfoldable pub lexer_open : CString → Outcome (Option (List (LexerToken D)))
  lexer_open s = if length s == 0 then abort else tokenize (suc (length s)) [] s
