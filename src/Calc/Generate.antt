-- ===== src/Calc/Generate.antt =====
-- `genFuncBodyFromDag` and `generate` of project-1/main.c. The text of the C function is a list of
-- lines, one for each `fprintf`; what the lines mean is C's.
use os_cs238p_proj.Common.{ℕ, ◌+◌, List, [], ◌∷◌, ◌++◌}
use os_cs238p_proj.Common.Int.{ℤ, pos, negsuc}
use os_cs238p_proj.Calc.{
  ParserDagOp, dag_none, dag_val, dag_neg, dag_mul, dag_div, dag_add, dag_sub, ParserDag, null, dag,
}

-- `double t%d = ...;` for each of the formats, the number of the variable first
pub data Line (D : Type 0) : Type 0 where
  literal_line : ℤ → D → Line D
  negative_line : ℤ → ℤ → Line D
  product_line : ℤ → ℤ → ℤ → Line D
  quotient_line : ℤ → ℤ → ℤ → ℤ → Line D
  sum_line : ℤ → ℤ → ℤ → Line D
  difference_line : ℤ → ℤ → ℤ → Line D

-- The file written so far, and the global `varId`
pub record Output (D : Type 0) : Type 0 where
  pub lines : List (Line D)
  pub var_id : ℕ

module _ {D : Type 0} where
  -- A `fprintf`, then `varId++; return (varId - 1);`
  unfoldable pub emit : Line D → Output D → ℤ × Output D
  emit line s = (pos s.var_id, record { lines = s.lines ++ line ∷ []; var_id = s.var_id + 1 })

  -- The `switch`
  unfoldable pub gen_node : ParserDagOp → D → ℤ → ℤ → Output D → ℤ × Output D
  gen_node dag_none v left right s = (negsuc 0, s)
  gen_node dag_val v left right s = emit (literal_line (pos s.var_id) v) s
  gen_node dag_neg v left right s = emit (negative_line (pos s.var_id) right) s
  gen_node dag_mul v left right s = emit (product_line (pos s.var_id) left right) s
  gen_node dag_div v left right s = emit (quotient_line (pos s.var_id) right left right) s
  gen_node dag_add v left right s = emit (sum_line (pos s.var_id) left right) s
  gen_node dag_sub v left right s = emit (difference_line (pos s.var_id) left right) s

  unfoldable pub gen_func_body_from_dag : ParserDag D → Output D → ℤ × Output D
  gen_func_body_from_dag null s = (negsuc 0, s)
  gen_func_body_from_dag (dag op v l r) s =
      let a = gen_func_body_from_dag l s in
      let b = gen_func_body_from_dag r a.1 in gen_node op v a.0 b.0 b.1

  -- The function `evaluate` that is written: its lines, and the variable of `return callback(t%d);`
  unfoldable pub generate : ParserDag D → List (Line D) × ℤ
  generate d =
      let a = gen_func_body_from_dag d (record { lines = []; var_id = 0 }) in (a.1.lines, a.0)
