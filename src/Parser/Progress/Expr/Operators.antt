-- ===== src/Parser/Progress/Expr/Operators.antt =====
-- src/parser.rs: the operators take tokens.
use jwc_lang.Prelude.{ℕ, suc, Bool, Option, none, some}
use jwc_lang.Token.{Span}
use jwc_lang.Ast.Tree.{Expr}
use jwc_lang.Parser.Action.{Action, Test}
use jwc_lang.Parser.Names.{Parsers}
use jwc_lang.Parser.Progress.{Keeps, Eats, EatsHere, Turns}
use jwc_lang.Parser.Progress.Rules.{Keeps-looping, Keeps-Eats}
use jwc_lang.Parser.Progress.Expect.{before, after, turning, Keeps-after, Eats-after}
use jwc_lang.Parser.Progress.Names.{names, Calls}
use jwc_lang.Prelude.Loop.{Flow}
use jwc_lang.Ast.{BinOp}
use jwc_lang.Parser.Expr.Operators
use jwc_lang.Parser.Progress.{Solid}
use jwc_lang.Parser.Progress.Expr.Primary.{Eats-parse_postfix}

-- What takes a token with `b + 1` tokens may stay in place with `b`.
pub Keeps-of_Eats : {A : Type 0} (b : ℕ) (m : Action A) → Eats (suc b) m → Keeps b m
Keeps-of_Eats b m e = Keeps-Eats b m (Eats-after b m e)

Turns-next_binary :
    (b : ℕ) (t : Test) (op : BinOp) (level : Action Expr) (other : Action (Flow Expr Expr))
    (lhs : Expr)
    → Solid t
    → Keeps b level
    → Turns (suc b) other
    → Turns (suc b) (Operators.next_binary t op level other lhs)
unfolding Operators.next_binary
Turns-next_binary b t op level other lhs s k o = search (turning, before, after) depth 12

module _ (b : ℕ) (self : Parsers) (calls : Calls b self) where
  pub Eats-parse_unary : Eats (suc b) (Operators.parse_unary self)
  unfolding Operators.parse_unary
  Eats-parse_unary = search (before, after, Eats-parse_postfix) depth 12

  Turns-next_multiplicative : (lhs : Expr) → Turns (suc b) (Operators.next_multiplicative self lhs)
  unfolding Operators.next_multiplicative
  Turns-next_multiplicative lhs =
      search (turning, before, Turns-next_binary, Keeps-of_Eats, Eats-parse_unary) depth 12

  Eats-parse_multiplicative : Eats (suc b) (Operators.parse_multiplicative self)
  unfolding Operators.parse_multiplicative
  Eats-parse_multiplicative =
      search
        (before, after, Eats-parse_unary, Keeps-after b, Keeps-looping, Turns-next_multiplicative)
        depth 12

  Turns-next_additive : (lhs : Expr) → Turns (suc b) (Operators.next_additive self lhs)
  unfolding Operators.next_additive
  Turns-next_additive lhs =
      search (turning, before, Turns-next_binary, Keeps-of_Eats, Eats-parse_multiplicative) depth 12

  Eats-parse_additive : Eats (suc b) (Operators.parse_additive self)
  unfolding Operators.parse_additive
  Eats-parse_additive =
      search
        (
          before,
          after,
          Eats-parse_multiplicative,
          Keeps-after b,
          Keeps-looping,
          Turns-next_additive,
        )
        depth 12

  Keeps-parse_in : (n : Bool) (lhs : Expr) → Keeps b (Operators.parse_in self n lhs)
  unfolding Operators.parse_in
  Keeps-parse_in n lhs = search names depth 12

  Keeps-parse_rhs : (op : Option BinOp) (lhs : Expr) → Keeps b (Operators.parse_rhs self op lhs)
  unfolding Operators.parse_rhs
  Keeps-parse_rhs none lhs = search after
  Keeps-parse_rhs (some op) lhs = search (after, Keeps-of_Eats, Eats-parse_additive)

  Eats-parse_compare : Eats (suc b) (Operators.parse_compare self)
  unfolding Operators.parse_compare
  Eats-parse_compare =
      search (before, after, Eats-parse_additive, Keeps-parse_in, Keeps-parse_rhs) depth 12

  EatsHere-parse_exists :
      (n : Bool) (start : Span) → EatsHere (suc b) (Operators.parse_exists self n start)
  unfolding Operators.parse_exists
  EatsHere-parse_exists n start = search (before, after) depth 12

  Keeps-parse_exists : (n : Bool) (start : Span) → Keeps b (Operators.parse_exists self n start)
  unfolding Operators.parse_exists
  Keeps-parse_exists n start = search after depth 12

  EatsHere-parse_negated : (start : Span) → EatsHere (suc b) (Operators.parse_negated self start)
  unfolding Operators.parse_negated
  EatsHere-parse_negated start = search (before, after) depth 12

  pub Eats-parse_not : Eats (suc b) (Operators.parse_not self)
  unfolding Operators.parse_not
  Eats-parse_not =
      search
        (
          before, after, EatsHere-parse_negated, EatsHere-parse_exists, Keeps-parse_exists,
          Eats-parse_compare,
        )
        depth 16

  Turns-next_and : (lhs : Expr) → Turns (suc b) (Operators.next_and self lhs)
  unfolding Operators.next_and
  Turns-next_and lhs =
      search (turning, before, Turns-next_binary, Keeps-of_Eats, Eats-parse_not) depth 12

  Eats-parse_and : Eats (suc b) (Operators.parse_and self)
  unfolding Operators.parse_and
  Eats-parse_and =
      search (before, after, Eats-parse_not, Keeps-after b, Keeps-looping, Turns-next_and) depth 12

  Turns-next_or : (lhs : Expr) → Turns (suc b) (Operators.next_or self lhs)
  unfolding Operators.next_or
  Turns-next_or lhs =
      search (turning, before, Turns-next_binary, Keeps-of_Eats, Eats-parse_and) depth 12

  Eats-parse_or : Eats (suc b) (Operators.parse_or self)
  unfolding Operators.parse_or
  Eats-parse_or =
      search (before, after, Eats-parse_and, Keeps-after b, Keeps-looping, Turns-next_or) depth 12

  Keeps-parse_branches : (cond : Expr) → Keeps b (Operators.parse_branches self cond)
  unfolding Operators.parse_branches
  Keeps-parse_branches cond = search after depth 12

  pub Eats-parse_ternary : Eats (suc b) (Operators.parse_ternary self)
  unfolding Operators.parse_ternary
  Eats-parse_ternary = search (before, after, Eats-parse_or, Keeps-parse_branches) depth 12

  Turns-next_coalesce : (lhs : Expr) → Turns (suc b) (Operators.next_coalesce self lhs)
  unfolding Operators.next_coalesce
  Turns-next_coalesce lhs =
      search (turning, before, after, Keeps-of_Eats, Eats-parse_ternary) depth 12

  pub Eats-parse_coalesce : Eats (suc b) (Operators.parse_coalesce self)
  unfolding Operators.parse_coalesce
  Eats-parse_coalesce =
      search (before, after, Eats-parse_ternary, Keeps-after b, Keeps-looping, Turns-next_coalesce)
        depth 12
