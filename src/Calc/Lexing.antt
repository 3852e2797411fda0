-- ===== src/Calc/Lexing.antt =====
-- `tokenize` and `lexer_open` of project-1/lexer.c: they end, and they read back what is written.
use os_cs238p_proj.Common.{
  ℕ, zero, suc, ◌<◌, ◌≤◌, ◌==◌, ◌≡◌, ◌≢◌, arith, Bool, true, false, none, some, List, [], ◌∷◌, ◌++◌,
  length, if◌then◌else◌, inl, inr, Bool-cases, Option-cases,
}
use os_cs238p_proj.Common.Bytes.{CString}
use os_cs238p_proj.Common.Outcome.{ret, out_of_fuel}
use os_cs238p_proj.Calc.{LexerTokenOp, LexerToken, token, op_val}
use os_cs238p_proj.Calc.Lexer.{operator_of, tokenize, lexer_open}

module _ {D : Type 0} (zero_val : D) (strtod : CString → D × CString) (isspace : ℕ → Bool) where
  pub tokenize-op :
      (fuel : ℕ) (acc : List (LexerToken D)) (ch : ℕ) (s : CString) (o : LexerTokenOp)
      → operator_of ch ≡ some o
      → tokenize zero_val strtod isspace (suc fuel) acc (ch ∷ s)
        ≡ tokenize zero_val strtod isspace fuel (acc ++ token o zero_val ∷ []) s
  unfolding tokenize
  tokenize-op fuel acc ch s o h = rw (h, tokenize)

  pub tokenize-space :
      (fuel : ℕ) (acc : List (LexerToken D)) (ch : ℕ) (s : CString)
      → operator_of ch ≡ none
      → isspace ch ≡ true
      → tokenize zero_val strtod isspace (suc fuel) acc (ch ∷ s)
        ≡ tokenize zero_val strtod isspace fuel acc s
  unfolding tokenize
  tokenize-space fuel acc ch s h k = rw (h, k, tokenize)

  pub tokenize-stuck :
      (fuel : ℕ) (acc : List (LexerToken D)) (ch : ℕ) (s : CString)
      → operator_of ch ≡ none
      → isspace ch ≡ false
      → (length (strtod (ch ∷ s)).1 == length (ch ∷ s)) ≡ true
      → tokenize zero_val strtod isspace (suc fuel) acc (ch ∷ s) ≡ ret none
  unfolding tokenize
  tokenize-stuck fuel acc ch s h k j = rw (h, k, j, tokenize)

  pub tokenize-val :
      (fuel : ℕ) (acc : List (LexerToken D)) (ch : ℕ) (s : CString)
      → operator_of ch ≡ none
      → isspace ch ≡ false
      → (length (strtod (ch ∷ s)).1 == length (ch ∷ s)) ≡ false
      → tokenize zero_val strtod isspace (suc fuel) acc (ch ∷ s)
        ≡ tokenize zero_val strtod isspace fuel
            (acc ++ token op_val (strtod (ch ∷ s)).0 ∷ [])
            (strtod (ch ∷ s)).1
  unfolding tokenize
  tokenize-val fuel acc ch s h k j = rw (h, k, j, tokenize)

  -- `strtod` sets its end pointer within the string.
  abbrev pub Within : Type 0
  Within = (s : CString) → length (strtod s).1 ≤ length s

  tokenize-ends :
      (within : Within) (fuel : ℕ) (acc : List (LexerToken D)) (s : CString)
      → length s < fuel
      → tokenize zero_val strtod isspace fuel acc s ≢ out_of_fuel
  unfolding tokenize
  tokenize-ends w zero acc s h = absurd (omega arith)
  tokenize-ends w (suc fuel) acc [] h = λ e. cc e
  tokenize-ends w (suc fuel) acc (ch ∷ s) h = elim (Option-cases (operator_of ch)) [
    | inr (o, e) ↦
        rw (tokenize-op fuel acc ch s o e)
          (tokenize-ends w fuel (acc ++ token o zero_val ∷ []) s (omega arith))
    | inl e ↦ elim (Bool-cases (isspace ch)) [
      | inl k ↦ rw (tokenize-space fuel acc ch s e k) (tokenize-ends w fuel acc s (omega arith))
      | inr k ↦ elim (Bool-cases (length (strtod (ch ∷ s)).1 == length (ch ∷ s))) [
        | inl j ↦ rw (tokenize-stuck fuel acc ch s e k j) (λ x. cc x)
        | inr j ↦
            let b = w (ch ∷ s) in
            let lt : length (strtod (ch ∷ s)).1 < length (ch ∷ s) = ground (arith, b, j) in
            rw (tokenize-val fuel acc ch s e k j) (
              tokenize-ends w fuel (acc ++ token op_val (strtod (ch ∷ s)).0 ∷ [])
                (strtod (ch ∷ s)).1 (omega arith))
      ]
    ]
  ]

  -- The loop of the lexer ends: it returns, with an error or with tokens, unless the string is empty,
  -- which fails an assertion. `strtod` must not read beyond the string.
  pub lexer_open-ends :
      (within : Within) (s : CString) → lexer_open zero_val strtod isspace s ≢ out_of_fuel
  unfolding lexer_open
  lexer_open-ends w s = elim (Bool-cases (length s == 0)) [
    | inl e ↦ rw (e, lexer_open, if◌then◌else◌) (λ x. cc x)
    | inr e ↦
        rw (e, lexer_open, if◌then◌else◌) (tokenize-ends w (suc (length s)) [] s (omega arith))
  ]
