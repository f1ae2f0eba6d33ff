-- ===== src/Parser/Progress/Expr/Whole.antt =====
-- src/parser.rs: a whole expression takes tokens.
use jwc_lang.Prelude.{ℕ, suc}
use jwc_lang.Ast.Tree.{Expr}
use jwc_lang.Parser.Names.{Parsers}
use jwc_lang.Parser.Progress.{Keeps, Eats, EatsHere, Turns}
use jwc_lang.Parser.Progress.Rules.{Keeps-looping}
use jwc_lang.Parser.Progress.Expect.{before, after, turning, Keeps-after}
use jwc_lang.Parser.Progress.Names.{names, Calls}
use jwc_lang.Parser.Expr.Whole
use jwc_lang.Parser.Progress.Objects.{Eats-parse_object_entries}
use jwc_lang.Parser.Progress.Expr.Operators.{Eats-parse_coalesce, Keeps-of_Eats}

module _ (b : ℕ) (self : Parsers) (calls : Calls b self) where
  pub Keeps-parse_throw_args : Keeps b (Whole.parse_throw_args self)
  unfolding Whole.parse_throw_args
  Keeps-parse_throw_args = search names depth 12

  Keeps-parse_or_throw : (e : Expr) → Keeps b (Whole.parse_or_throw self e)
  unfolding Whole.parse_or_throw
  Keeps-parse_or_throw e = search (after, Keeps-parse_throw_args) depth 12

  Keeps-parse_catch : (e : Expr) → Keeps b (Whole.parse_catch self e)
  unfolding Whole.parse_catch
  Keeps-parse_catch e = search after depth 12

  Keeps-parse_with : (e : Expr) → Keeps b (Whole.parse_with self e)
  unfolding Whole.parse_with
  Keeps-parse_with e = search (after, Keeps-of_Eats, Eats-parse_object_entries) depth 12

  EatsHere-parse_cookie : (e : Expr) → EatsHere (suc b) (Whole.parse_cookie self e)
  unfolding Whole.parse_cookie
  EatsHere-parse_cookie e = search (before, names) depth 12

  Turns-next_cookie : (e : Expr) → Turns (suc b) (Whole.next_cookie self e)
  unfolding Whole.next_cookie
  Turns-next_cookie e = search (turning, before, after, EatsHere-parse_cookie) depth 12

  pub Eats-parse_expr : Eats (suc b) (Whole.parse_expr self)
  unfolding Whole.parse_expr
  Eats-parse_expr =
      search
        (
          before,
          after,
          Eats-parse_coalesce,
          Keeps-parse_or_throw,
          Keeps-parse_catch,
          Keeps-parse_with,
          Keeps-after b,
          Keeps-looping,
          Turns-next_cookie,
        )
        depth 12
