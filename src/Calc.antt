-- ===== src/Calc.antt =====
-- The calculator of project-1: lexer.c, parser.c and the code generator of main.c. A `double` is a
-- value of an abstract type `D`.
pub mod Lexer
pub mod Parser
pub mod Grammar
pub mod Position
pub mod Sound
pub mod Chains
pub mod Fuel
pub mod Reads
pub mod Complete
pub mod Parsing
pub mod Printing
pub mod Generate
pub mod Evaluate
pub mod Compile
pub mod Lexing
pub mod Spelling
pub mod Missing
pub mod Calculate
use os_cs238p_proj.Common.{ℕ}

-- `enum lexer_token_op`, where `op_end` is LEXER_OP_
pub data LexerTokenOp : Type 0 where
  op_end : LexerTokenOp
  op_val : LexerTokenOp
  op_add : LexerTokenOp
  op_sub : LexerTokenOp
  op_mul : LexerTokenOp
  op_div : LexerTokenOp
  op_open : LexerTokenOp
  op_close : LexerTokenOp

-- `struct lexer_token`
pub data LexerToken (D : Type 0) : Type 0 where
  token : LexerTokenOp → D → LexerToken D

-- The number of a token's operator in its `enum`
abbrev pub token_op_number : LexerTokenOp → ℕ
token_op_number op_end = 0
token_op_number op_val = 1
token_op_number op_add = 2
token_op_number op_sub = 3
token_op_number op_mul = 4
token_op_number op_div = 5
token_op_number op_open = 6
token_op_number op_close = 7

abbrev pub token_op : {D : Type 0} → LexerToken D → LexerTokenOp
token_op (token o v) = o

abbrev pub token_val : {D : Type 0} → LexerToken D → D
token_val (token o v) = v

-- `enum parser_dag_op`
pub data ParserDagOp : Type 0 where
  dag_none : ParserDagOp
  dag_val : ParserDagOp
  dag_neg : ParserDagOp
  dag_mul : ParserDagOp
  dag_div : ParserDagOp
  dag_add : ParserDagOp
  dag_sub : ParserDagOp

-- The number of an operator in its `enum`
abbrev pub dag_op_number : ParserDagOp → ℕ
dag_op_number dag_none = 0
dag_op_number dag_val = 1
dag_op_number dag_neg = 2
dag_op_number dag_mul = 3
dag_op_number dag_div = 4
dag_op_number dag_add = 5
dag_op_number dag_sub = 6

-- `struct parser_dag *`, NULL included
pub data ParserDag (D : Type 0) : Type 0 where
  null : ParserDag D
  dag : ParserDagOp → D → ParserDag D → ParserDag D → ParserDag D

abbrev pub IsDag : {D : Type 0} → ParserDag D → Type 0
IsDag null = ⊥
IsDag (dag o v l r) = Unit
