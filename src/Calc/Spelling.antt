-- ===== src/Calc/Spelling.antt =====
-- Text that the lexer of project-1/lexer.c reads back as the tokens it was written for.
use os_cs238p_proj.Common.{
  append-nil, ℕ, zero, suc, ◌<◌, ◌==◌, ◌≡◌, ◌≢◌, refl, ap, sym, ◌∙◌, subst, arith, Bool, true,
  false, none, some, List, [], ◌∷◌, ◌++◌, length, length-append, if◌then◌else◌, inl, inr,
  Bool-cases, ==_of_ne,
}
use os_cs238p_proj.Common.Bytes.{CString}
use os_cs238p_proj.Common.Outcome.{ret}
use os_cs238p_proj.Calc.{
  LexerTokenOp, LexerToken, token, op_end, op_val, op_add, op_sub, op_mul, op_div, op_open,
  op_close,
}
use os_cs238p_proj.Calc.Lexer.{operator_of, tokenize, lexer_open}
use os_cs238p_proj.Calc.Lexing.{tokenize-op, tokenize-space, tokenize-val}

-- The numerals that `strtod` reads up to a space that follows; the lexer reads no sign as theirs.
pub record IsNumeral {D : Type 0} (strtod : CString → D × CString) (isspace : ℕ → Bool)
    (numeral : D → CString) (Readable : D → Type 0) : Type 0 where
  pub reads : (v : D) (s : CString) → Readable v → strtod (numeral v ++ 32 ∷ s) ≡ (v, 32 ∷ s)
  pub head : (v : D) → Readable v → ℕ
  pub tail : (v : D) → Readable v → CString
  pub shape : (v : D) (r : Readable v) → numeral v ≡ head v r ∷ tail v r
  pub no_operator : (v : D) (r : Readable v) → operator_of (head v r) ≡ none
  pub no_space : (v : D) (r : Readable v) → isspace (head v r) ≡ false
  pub space : isspace 32 ≡ true

abbrev pub character : LexerTokenOp → ℕ
character op_add = 43
character op_sub = 45
character op_mul = 42
character op_div = 47
character op_open = 40
character _ = 41

abbrev pub spell : {D : Type 0} → (D → CString) → List (LexerToken D) → CString
spell numeral [] = []
spell numeral (token op_val v ∷ ts) = numeral v ++ 32 ∷ spell numeral ts
spell numeral (token o v ∷ ts) = character o ∷ spell numeral ts

-- Tokens as the lexer makes them: values are readable, and only values have one
abbrev pub IsPlain : {D : Type 0} → D → (D → Type 0) → List (LexerToken D) → Type 0
IsPlain zero_val Readable [] = Unit
IsPlain zero_val Readable (token op_val v ∷ ts) = Readable v × IsPlain zero_val Readable ts
IsPlain zero_val Readable (token op_end v ∷ ts) = ⊥
IsPlain zero_val Readable (token o v ∷ ts) = (v ≡ zero_val) × IsPlain zero_val Readable ts

empty : (s : CString) → (length s == 0) ≡ true → s ≡ []
empty [] h = refl
empty (ch ∷ s) h = absurd (ground arith)

append-snoc : {A : Type 0} (xs ys : List A) (x : A) → (xs ++ x ∷ []) ++ ys ≡ xs ++ x ∷ ys
append-snoc [] ys x = refl
append-snoc (y ∷ xs) ys x = ap (◌∷◌ y) (append-snoc xs ys x)

module _ {D : Type 0} (zero_val : D) (strtod : CString → D × CString) (isspace : ℕ → Bool)
    (numeral : D → CString) (Readable : D → Type 0)
    (ok : IsNumeral strtod isspace numeral Readable) where
  value_step :
      (fuel : ℕ) (acc : List (LexerToken D)) (v : D) (s : CString)
      → Readable v
      → tokenize zero_val strtod isspace (suc (suc fuel)) acc (numeral v ++ 32 ∷ s)
        ≡ tokenize zero_val strtod isspace fuel (acc ++ token op_val v ∷ []) s
  unfolding operator_of
  value_step fuel acc v s r =
      let e = ok.shape v r in
      let u = ok.tail v r ++ 32 ∷ s in
      let w : strtod (ok.head v r ∷ u) ≡ (v, 32 ∷ s) =
        subst (λ x. strtod (x ++ 32 ∷ s) ≡ (v, 32 ∷ s)) e (ok.reads v s r) in
      let n : length (strtod (ok.head v r ∷ u)).1 ≡ suc (length s) = ap (λ x. length x.1) w in
      let m = length-append (ok.tail v r) (32 ∷ s) in
      let ne =
        ==_of_ne (length (strtod (ok.head v r ∷ u)).1) (length (ok.head v r ∷ u))
          (λ x. omega arith) in
      ap (λ x. tokenize zero_val strtod isspace (suc (suc fuel)) acc (x ++ 32 ∷ s)) e
      ∙ tokenize-val zero_val strtod isspace (suc fuel) acc (ok.head v r) u (ok.no_operator v r)
          (ok.no_space v r) ne
      ∙ ap (λ x. tokenize zero_val strtod isspace (suc fuel) (acc ++ token op_val x.0 ∷ []) x.1) w
      ∙ tokenize-space zero_val strtod isspace fuel (acc ++ token op_val v ∷ []) 32 s refl ok.space

  op_step :
      (o : LexerTokenOp) (ts : List (LexerToken D)) (v : D) (fuel : ℕ) (acc : List (LexerToken D))
      → operator_of (character o) ≡ some o
      → v ≡ zero_val
      → ((acc' : List (LexerToken D))
          → tokenize zero_val strtod isspace fuel acc' (spell numeral ts) ≡ ret (some (acc' ++ ts)))
      → tokenize zero_val strtod isspace (suc fuel) acc (character o ∷ spell numeral ts)
        ≡ ret (some (acc ++ token o v ∷ ts))
  op_step o ts v fuel acc e z h =
      tokenize-op zero_val strtod isspace fuel acc (character o) (spell numeral ts) o e
      ∙ h (acc ++ token o zero_val ∷ [])
      ∙ ap (λ x. ret (some x)) (append-snoc acc ts (token o zero_val))
      ∙ ap (λ x. ret (some (acc ++ token o x ∷ ts))) (sym z)

  tokenize-spell :
      (ts : List (LexerToken D)) (fuel : ℕ) (acc : List (LexerToken D))
      → IsPlain zero_val Readable ts
      → length (spell numeral ts) < fuel
      → tokenize zero_val strtod isspace fuel acc (spell numeral ts) ≡ ret (some (acc ++ ts))
  unfolding tokenize operator_of
  tokenize-spell [] zero acc p h = absurd (omega arith)
  tokenize-spell [] (suc fuel) acc p h = ap (λ x. ret (some x)) (sym (append-nil acc))
  tokenize-spell (token o v ∷ ts) zero acc p h = absurd (omega arith)
  tokenize-spell (token op_end v ∷ ts) (suc fuel) acc p h = absurd p
  tokenize-spell (token op_val v ∷ ts) (suc zero) acc p h =
      absurd (
        omega
          (arith, length-append (numeral v) (32 ∷ spell numeral ts), ap length (ok.shape v p.0)))
  tokenize-spell (token op_val v ∷ ts) (suc (suc fuel)) acc p h =
      value_step fuel acc v (spell numeral ts) p.0
      ∙ tokenize-spell ts fuel (acc ++ token op_val v ∷ []) p.1 (
          omega
            (arith, length-append (numeral v) (32 ∷ spell numeral ts), ap length (ok.shape v p.0)))
      ∙ ap (λ x. ret (some x)) (append-snoc acc ts (token op_val v))
  tokenize-spell (token op_add v ∷ ts) (suc fuel) acc p h =
      op_step op_add ts v fuel acc refl p.0 (λ a. tokenize-spell ts fuel a p.1 (omega arith))
  tokenize-spell (token op_sub v ∷ ts) (suc fuel) acc p h =
      op_step op_sub ts v fuel acc refl p.0 (λ a. tokenize-spell ts fuel a p.1 (omega arith))
  tokenize-spell (token op_mul v ∷ ts) (suc fuel) acc p h =
      op_step op_mul ts v fuel acc refl p.0 (λ a. tokenize-spell ts fuel a p.1 (omega arith))
  tokenize-spell (token op_div v ∷ ts) (suc fuel) acc p h =
      op_step op_div ts v fuel acc refl p.0 (λ a. tokenize-spell ts fuel a p.1 (omega arith))
  tokenize-spell (token op_open v ∷ ts) (suc fuel) acc p h =
      op_step op_open ts v fuel acc refl p.0 (λ a. tokenize-spell ts fuel a p.1 (omega arith))
  tokenize-spell (token op_close v ∷ ts) (suc fuel) acc p h =
      op_step op_close ts v fuel acc refl p.0 (λ a. tokenize-spell ts fuel a p.1 (omega arith))

  tokenize_nil : tokenize zero_val strtod isspace 1 [] [] ≡ ret (some [])
  unfolding tokenize
  tokenize_nil = refl

  -- The lexer reads back tokens that are written with a space behind each number. At least one token
  -- is written, only numbers have a value, and `strtod` reads their numerals.
  pub lexer_open-spell :
      (ts : List (LexerToken D))
      → IsPlain zero_val Readable ts
      → ts ≢ []
      → lexer_open zero_val strtod isspace (spell numeral ts) ≡ ret (some ts)
  unfolding lexer_open
  lexer_open-spell ts p ne = elim (Bool-cases (length (spell numeral ts) == 0)) [
    | inl e ↦
        let s = empty (spell numeral ts) e in
        let h = tokenize-spell ts 1 [] p (omega (arith, ap length s)) in
        let g : tokenize zero_val strtod isspace 1 [] [] ≡ ret (some ts) =
          subst (λ x. tokenize zero_val strtod isspace 1 [] x ≡ ret (some ts)) s h in
        absurd (ne (cc (rw tokenize_nil at g)))
    | inr e ↦
        rw (e, lexer_open, if◌then◌else◌)
          (tokenize-spell ts (suc (length (spell numeral ts))) [] p (omega arith))
  ]
