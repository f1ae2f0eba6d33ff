-- ===== src/Parser/Grammar.antt =====
-- src/parser.rs: the recursion of the grammar. Where a parser calls back one that stands above it,
-- the fuel goes down by one; before each such call a token is taken, so a unit of fuel for each
-- token there is, is enough.
use jwc_lang.Prelude.{ℕ, zero, suc, List, [], length}
use jwc_lang.Token.{Token, Span}
use jwc_lang.Ast.Tree.{Node, Expr, Block, stmt, type_ref}
use jwc_lang.Parser.Action.{Parser, Action, spent}
use jwc_lang.Parser.Names.{Parsers}
use jwc_lang.Parser.Query.Shape.{parse_object_shape}
use jwc_lang.Parser.Expr.Operators.{parse_unary, parse_not, parse_ternary}
use jwc_lang.Parser.Expr.Whole
use jwc_lang.Parser.Types
use jwc_lang.Parser.Stmt.Block

unfoldable pub parsers : ℕ → Parsers
parsers zero = record {
  expr = spent;
  ternary = spent;
  not_expr = spent;
  unary = spent;
  shape = spent;
  type_of = spent;
  block = spent;
  statement = spent;
}
parsers (suc n) = record {
  expr = Whole.parse_expr (parsers n);
  ternary = parse_ternary (parsers n);
  not_expr = parse_not (parsers n);
  unary = parse_unary (parsers n);
  shape = parse_object_shape (parsers n);
  type_of = Types.parse_type (parsers n);
  block = Block.parse_block (parsers n);
  statement = Block.parse_stmt (parsers n);
}

-- each parser with the fuel that its tokens ask for
unfoldable pub with_fuel : {A : Type 0} → (Parsers → Action A) → Action A
unfolding parsers
with_fuel m s = m (parsers (length s.toks)) s

unfoldable pub parse_expr : Action Expr
unfolding with_fuel
parse_expr = with_fuel Whole.parse_expr

unfoldable pub parse_type : Action (Node type_ref)
unfolding with_fuel
parse_type = with_fuel Types.parse_type

unfoldable pub parse_stmt : Action (Node stmt)
unfolding with_fuel
parse_stmt = with_fuel Block.parse_stmt

unfoldable pub parse_block : Action (Block × Span)
unfolding with_fuel
parse_block = with_fuel Block.parse_block

-- the parser of a text's tokens, at the first of them
abbrev pub parser_of : List Token → Parser
parser_of toks = record { toks = toks; i = 0; query_depth = 0; diags = [] }
