-- ===== src/Parser/Progress/Decl/Table.antt =====
-- src/parser.rs: tables, enums, views, classes and errors take tokens.
use jwc_lang.Prelude.{ℕ, suc, Bool, true, false, List, Option, none, some}
use jwc_lang.Token.{Span, Tok}
use jwc_lang.Ast.Tree.{Ident, Attached}
use jwc_lang.Parser.Names.{Parsers}
use jwc_lang.Parser.Progress.{Keeps, EatsHere, Turns}
use jwc_lang.Parser.Progress.Rules.{Keeps-looping, Keeps-Eats}
use jwc_lang.Parser.Progress.Expect.{before, after, turning, Keeps-after, Eats-after}
use jwc_lang.Parser.Progress.Names.{names, Calls}
use jwc_lang.Token.{int}
use jwc_lang.Ast.Decl.{RuleCall}
use jwc_lang.Parser.Decl.Table
use jwc_lang.Parser.Action.{looping}
use jwc_lang.Parser.Query.Select
use jwc_lang.Parser.Decl.Table.{Members}
use jwc_lang.Parser.Progress.Rules.{Turns-until, Turns-break, EatsHere-bind}
use jwc_lang.Parser.Progress.Expect.{Keeps-check_removed_keyword}
use jwc_lang.Parser.Progress.Recover.{
  EatsHere-stepping, Keeps-skip_to_semi_or_rbrace, Turns-next_member,
}
use jwc_lang.Parser.Progress.Query.Select.{Eats-parse_select}
use jwc_lang.Parser.Progress.Decl.Schema.{
  Keeps-parse_qualified_schema, Keeps-parse_as_string, Keeps-parse_was_string, Keeps-parse_message,
}
use jwc_lang.Parser.Progress.Decl.Columns.{
  Keeps-parse_pk_constraint, Keeps-parse_fk_constraint, Keeps-parse_uq_constraint,
  Keeps-parse_check_constraint, Keeps-parse_index, Keeps-parse_column, Eats-parse_rule_call,
}

module _ (b : ℕ) where
  Turns-next_enum_member : (out : List Ident) → Turns (suc b) (Table.next_enum_member out)
  unfolding Table.next_enum_member
  Turns-next_enum_member out = search (turning, before, after) depth 12

  Keeps-enum_members : (out : List Ident) → Keeps b (looping Table.next_enum_member out)
  Keeps-enum_members out = search (Keeps-after b, Keeps-looping, Turns-next_enum_member)

  pub EatsHere-parse_enum :
      (leading : Attached) (start : Span) → EatsHere (suc b) (Table.parse_enum leading start)
  unfolding Table.parse_enum
  EatsHere-parse_enum leading start =
      search
        (before, after, Keeps-parse_qualified_schema, Keeps-parse_as_string, Keeps-enum_members)
        depth 20

  Keeps-status_or_refuse : (t : Tok) → Keeps b (Table.status_or_refuse t)
  unfolding Table.status_or_refuse
  Keeps-status_or_refuse (int n) = search after
  Keeps-status_or_refuse _ = search after

  Keeps-check_status : (n : ℕ) (s : Span) → Keeps b (Table.check_status n s)
  unfolding Table.check_status
  Keeps-check_status n s = search after

  Keeps-keep_or : {A : Type 0} (old : A) (r : Option A) → Keeps b (Table.keep_or old r)
  unfolding Table.keep_or
  Keeps-keep_or old (some new) = search after
  Keeps-keep_or old none = search (after, Keeps-skip_to_semi_or_rbrace)

module _ (b : ℕ) (self : Parsers) (calls : Calls b self) where
  Keeps-parse_member : (x : Members) → Keeps b (Table.parse_member self x)
  unfolding Table.parse_member
  Keeps-parse_member x =
      search
        (
          after, Keeps-parse_pk_constraint, Keeps-parse_fk_constraint, Keeps-parse_uq_constraint,
          Keeps-parse_check_constraint, Keeps-parse_index, Keeps-parse_column,
        )
        depth 20

  Keeps-member_or_skip : (x : Members) (r : Bool) → Keeps b (Table.member_or_skip self x r)
  unfolding Table.member_or_skip
  Keeps-member_or_skip x true = search (after, Keeps-skip_to_semi_or_rbrace)
  Keeps-member_or_skip x false = search (after, Keeps-parse_member, Keeps-keep_or)

  Turns-next_table_member : (x : Members) → Turns b (Table.next_table_member self x)
  unfolding Table.next_table_member
  Turns-next_table_member x = search (
    Turns-until, Turns-break, EatsHere-bind, after, EatsHere-stepping, Keeps-check_removed_keyword,
    Keeps-member_or_skip,
  )

  Keeps-members : (x : Members) → Keeps b (looping (Table.next_table_member self) x)
  Keeps-members x = Keeps-looping b _ x Turns-next_table_member

  pub EatsHere-parse_table :
      (leading : Attached) (start : Span) → EatsHere (suc b) (Table.parse_table self leading start)
  unfolding Table.parse_table
  EatsHere-parse_table leading start =
      search
        (
          before, after, Keeps-parse_qualified_schema, Keeps-parse_as_string,
          Keeps-parse_was_string, Keeps-members,
        )
        depth 20

  Keeps-parse_select : Keeps b (Select.parse_select self)
  Keeps-parse_select = Keeps-Eats b _ (Eats-after b _ (Eats-parse_select b self calls))

  pub EatsHere-parse_view :
      (leading : Attached) (start : Span) → EatsHere (suc b) (Table.parse_view self leading start)
  unfolding Table.parse_view
  EatsHere-parse_view leading start =
      search
        (before, after, Keeps-parse_qualified_schema, Keeps-parse_as_string, Keeps-parse_select)
        depth 20

  Turns-next_rule : (x : List RuleCall × Bool) → Turns (suc b) (Table.next_rule self x)
  unfolding Table.next_rule
  Turns-next_rule x = search (turning, Turns-until, before, after, Eats-parse_rule_call) depth 12

  Keeps-parse_class_field : Keeps b (Table.parse_class_field self)
  unfolding Table.parse_class_field
  Keeps-parse_class_field = search (after, Keeps-after b, Keeps-looping, Turns-next_rule) depth 12

  pub EatsHere-parse_class :
      (leading : Attached) (start : Span) → EatsHere (suc b) (Table.parse_class self leading start)
  unfolding Table.parse_class
  EatsHere-parse_class leading start =
      search (before, after, Keeps-looping, Turns-next_member, Keeps-parse_class_field) depth 20

  Keeps-parse_param : Keeps b (Table.parse_param self)
  unfolding Table.parse_param
  Keeps-parse_param = search after depth 12

  pub Keeps-parse_params : Keeps b (Table.parse_params self)
  unfolding Table.parse_params
  Keeps-parse_params = search (names, Keeps-parse_param) depth 12

  pub EatsHere-parse_error_decl :
      (leading : Attached) (start : Span)
      → EatsHere (suc b) (Table.parse_error_decl self leading start)
  unfolding Table.parse_error_decl
  EatsHere-parse_error_decl leading start =
      search
        (
          before, after, Keeps-parse_params, Keeps-status_or_refuse, Keeps-check_status,
          Keeps-parse_message,
        )
        depth 20
