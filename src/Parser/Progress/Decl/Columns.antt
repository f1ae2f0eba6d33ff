-- ===== src/Parser/Progress/Decl/Columns.antt =====
-- src/parser.rs: the members of a table take tokens.
use jwc_lang.Prelude.{ℕ, suc, List, Bytes}
use jwc_lang.Token.{Span}
use jwc_lang.Ast.Tree.{Expr, Attached}
use jwc_lang.Parser.Names.{Parsers}
use jwc_lang.Parser.Progress.{Keeps, Eats, EatsHere, Turns}
use jwc_lang.Parser.Progress.Rules.{Keeps-looping}
use jwc_lang.Parser.Progress.Expect.{before, after, turning, Keeps-after}
use jwc_lang.Parser.Progress.Names.{names, Calls}
use jwc_lang.Ast.Tree.{Expr}
use jwc_lang.Ast.Decl.{ColumnModifier}
use jwc_lang.Parser.Decl.Columns
use jwc_lang.Parser.Decl.Columns.{Actions}
use jwc_lang.Parser.Progress.Rules.{Turns-until}
use jwc_lang.Parser.Progress.Decl.Schema.{Keeps-parse_message}

module _ (b : ℕ) where
  Keeps-parse_set_action : Keeps b Columns.parse_set_action
  unfolding Columns.parse_set_action
  Keeps-parse_set_action = search after

  Keeps-parse_ref_action : Keeps b Columns.parse_ref_action
  unfolding Columns.parse_ref_action
  Keeps-parse_ref_action = search (after, Keeps-parse_set_action) depth 12

  Turns-next_action : (x : Actions) → Turns (suc b) (Columns.next_action x)
  unfolding Columns.next_action
  Turns-next_action x = search (turning, before, after, Keeps-parse_ref_action) depth 12

  Keeps-parse_index_column : Keeps b Columns.parse_index_column
  unfolding Columns.parse_index_column
  Keeps-parse_index_column = search names depth 12

  module _ (leading : Attached) (start : Span) where
    pub Keeps-parse_pk_constraint : Keeps b (Columns.parse_pk_constraint leading start)
    unfolding Columns.parse_pk_constraint
    Keeps-parse_pk_constraint = search names depth 12

    pub Keeps-parse_fk_constraint : Keeps b (Columns.parse_fk_constraint leading start)
    unfolding Columns.parse_fk_constraint
    Keeps-parse_fk_constraint =
        search (names, Keeps-after b, Keeps-looping, Turns-next_action) depth 20

module _ (b : ℕ) (self : Parsers) (calls : Calls b self) where
  Keeps-parse_predicate : Keeps b (Columns.parse_predicate self)
  unfolding Columns.parse_predicate
  Keeps-parse_predicate = search after depth 12

  module _ (leading : Attached) (start : Span) where
    pub Keeps-parse_uq_constraint : Keeps b (Columns.parse_uq_constraint self leading start)
    unfolding Columns.parse_uq_constraint
    Keeps-parse_uq_constraint = search (names, Keeps-parse_predicate, Keeps-parse_message) depth 12

    pub Keeps-parse_check_constraint : Keeps b (Columns.parse_check_constraint self leading start)
    unfolding Columns.parse_check_constraint
    Keeps-parse_check_constraint = search (after, Keeps-parse_message) depth 20

    pub Keeps-parse_index : Keeps b (Columns.parse_index self leading start)
    unfolding Columns.parse_index
    Keeps-parse_index = search (names, Keeps-parse_index_column, Keeps-parse_predicate) depth 20

  Keeps-parse_rule_args : (s : Span) → Keeps b (Columns.parse_rule_args self s)
  unfolding Columns.parse_rule_args
  Keeps-parse_rule_args s = search names depth 12

  pub Eats-parse_rule_call : Eats (suc b) (Columns.parse_rule_call self)
  unfolding Columns.parse_rule_call
  Eats-parse_rule_call = search (before, after, Keeps-parse_rule_args, Keeps-parse_message) depth 12

  EatsHere-parse_mark :
      (kind : Span → ColumnModifier) → EatsHere (suc b) (Columns.parse_mark self kind)
  unfolding Columns.parse_mark
  EatsHere-parse_mark kind = search (before, after)

  Keeps-parse_valued :
      (kind : Expr → Span → ColumnModifier) (start : Span)
      → Keeps b (Columns.parse_valued self kind start)
  unfolding Columns.parse_valued
  Keeps-parse_valued kind start = search after

  EatsHere-parse_spelled :
      (kind : Bytes → Span → ColumnModifier) (start : Span)
      → EatsHere (suc b) (Columns.parse_spelled self kind start)
  unfolding Columns.parse_spelled
  EatsHere-parse_spelled kind start = search (before, after) depth 12

  Eats-parse_column_modifier : Eats (suc b) (Columns.parse_column_modifier self)
  unfolding Columns.parse_column_modifier
  Eats-parse_column_modifier =
      search
        (
          before, after, EatsHere-parse_mark, EatsHere-parse_spelled, Keeps-parse_valued,
          Keeps-parse_message, Eats-parse_rule_call,
        )
        depth 20

  Turns-next_modifier : (out : List ColumnModifier) → Turns (suc b) (Columns.next_modifier self out)
  unfolding Columns.next_modifier
  Turns-next_modifier out =
      search (turning, Turns-until, before, after, Eats-parse_column_modifier) depth 12

  pub Keeps-parse_column :
      (leading : Attached) (start : Span) → Keeps b (Columns.parse_column self leading start)
  unfolding Columns.parse_column
  Keeps-parse_column leading start =
      search (after, Keeps-after b, Keeps-looping, Turns-next_modifier) depth 12
