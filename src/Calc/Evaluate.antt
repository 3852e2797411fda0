-- ===== src/Calc/Evaluate.antt =====
-- The meaning of the C that project-1/main.c writes, and the value of a tree.
use os_cs238p_proj.Common.{
  ◌==◌, Bool, Option, none, some, List, [], ◌∷◌, ◌++◌, length, get_elem?, if◌then◌else◌,
}
use os_cs238p_proj.Common.Int.{ℤ, pos, negsuc}
use os_cs238p_proj.Calc.{
  ParserDagOp, dag_none, dag_val, dag_neg, dag_mul, dag_div, dag_add, dag_sub, ParserDag, null, dag,
}
use os_cs238p_proj.Calc.Generate.{
  Line, literal_line, negative_line, product_line, quotient_line, sum_line, difference_line,
}

-- The arithmetic of `double`; `printed v` is the value of the text that `%f` prints for `v`, none where
-- that text is no constant of C (`inf`, `nan`).
pub record Arithmetic (D : Type 0) : Type 0 where
  pub zero_val : D
  pub minus_one : D
  pub add : D → D → D
  pub sub : D → D → D
  pub mul : D → D → D
  pub div : D → D → D
  pub is_zero : D → Bool
  pub printed : D → Option D

module _ {D : Type 0} (c : Arithmetic D) where
  -- The values of the variables declared so far: `t0` is the first.
  abbrev pub read : ℤ → List D → Option D
  read (pos n) env = get_elem? env n
  read (negsuc n) env = none

  -- A declaration; the next number is the only one that is new and leaves no gap.
  abbrev pub declare : ℤ → D → List D → Option (List D)
  declare (pos n) x env = if n == length env then some (env ++ x ∷ []) else none
  declare (negsuc n) x env = none

  abbrev pub declare_by : ℤ → (D → D → D) → Option D → Option D → List D → Option (List D)
  declare_by i f (some x) (some y) env = declare i (f x y) env
  declare_by i f _ _ env = none

  -- `t%d ? (t%d / t%d) : 0.0`
  abbrev pub quotient : D → D → D
  quotient x y = if c.is_zero y then c.zero_val else c.div x y

  -- What comes after a part that may fail
  abbrev pub then_run {κ μ} : {A : Type κ} {B : Type μ} → (A → Option B) → Option A → Option B
  then_run f none = none
  then_run f (some x) = f x

  unfoldable pub run_line : Line D → List D → Option (List D)
  run_line (literal_line i v) env = then_run (λ x. declare i x env) (c.printed v)
  run_line (negative_line i j) env =
      then_run (λ x. declare i (c.mul c.minus_one x) env) (read j env)
  run_line (product_line i j k) env = declare_by i c.mul (read j env) (read k env) env
  run_line (quotient_line i t j k) env =
      then_run
        (λ z.
          declare_by i (λ x y. if c.is_zero z then c.zero_val else c.div x y) (read j env)
            (read k env) env)
        (read t env)
  run_line (sum_line i j k) env = declare_by i c.add (read j env) (read k env) env
  run_line (difference_line i j k) env = declare_by i c.sub (read j env) (read k env) env

  unfoldable pub run_lines : List (Line D) → List D → Option (List D)
  run_lines [] env = some env
  run_lines (line ∷ lines) env = then_run (run_lines lines) (run_line line env)

  abbrev pub apply : (D → D) → Option D → Option D
  apply f none = none
  apply f (some x) = some (f x)

  abbrev pub call_back : (D → D) → ℤ → Option (List D) → Option D
  call_back f i none = none
  call_back f i (some env) = apply f (read i env)

  -- The value of `evaluate(callback)`, none where the function is not well-formed C
  unfoldable pub evaluate : List (Line D) × ℤ → (D → D) → Option D
  evaluate g callback = call_back callback g.1 (run_lines g.0 [])

  -- A binary operator on its operands
  abbrev pub binary_value : ParserDagOp → D → D → D
  binary_value dag_mul x y = c.mul x y
  binary_value dag_div x y = quotient x y
  binary_value dag_add x y = c.add x y
  binary_value dag_sub x y = c.sub x y
  binary_value _ x y = c.zero_val

  abbrev pub both : (D → D → D) → Option D → Option D → Option D
  both f (some x) (some y) = some (f x y)
  both f _ _ = none

  abbrev pub value_of : ParserDagOp → D → Option D → Option D → Option D
  value_of dag_none v x y = none
  value_of dag_val v x y = c.printed v
  value_of dag_neg v x y = then_run (λ z. some (c.mul c.minus_one z)) y
  value_of o v x y = both (binary_value o) x y

  -- The value of a tree, none where a literal of it has none
  unfoldable pub value_of_dag : ParserDag D → Option D
  value_of_dag null = none
  value_of_dag (dag o v l r) = value_of o v (value_of_dag l) (value_of_dag r)
