-- ===== src/Parser/Tests.antt =====
-- src/parser.rs: runs on short lists of tokens, and the theorems at them.
use jwc_lang.Prelude.{
  ℕ, ◌<◌, ◌≡◌, refl, String, Bytes, codes, true, Option, none, some, List, [], ◌∷◌, map, arith,
  encode_utf8,
}
use jwc_lang.Token
use jwc_lang.Token.{Token, Tok, Span}
use jwc_lang.Token.Keywords
use jwc_lang.Ast
use jwc_lang.Ast.Tree
use jwc_lang.Ast.Tree.{Node, Expr, expr_at, Ident}
use jwc_lang.Diag.{Diagnostic}
use jwc_lang.Parser.Action.{Parser, Outcome, done, failed, exhausted, ◌>>=◌}
use jwc_lang.Parser.Grammar.{parser_of}
use jwc_lang.Lexer.Tokenize.{Tokens, tokenize}
use jwc_lang.Parser.Progress.{WellFormed}
use jwc_lang.Parser.Correct.{
  EachParser, Ends, Ahead, Tells, SameInput, Always, parsers_return, parsers_report,
  parsers_restore,
}
use jwc_lang.Parser.Lexed.{parsers_return_lexed}
use jwc_lang.Parser.Action
use jwc_lang.Parser.Cursor
use jwc_lang.Parser.Names
use jwc_lang.Parser.Objects
use jwc_lang.Parser.Recover
use jwc_lang.Parser.Types
use jwc_lang.Parser.Query.Shape
use jwc_lang.Parser.Query.Join
use jwc_lang.Parser.Query.Select
use jwc_lang.Parser.Query.Write
use jwc_lang.Parser.Expr.Primary
use jwc_lang.Parser.Expr.Operators
use jwc_lang.Parser.Expr.Whole
use jwc_lang.Parser.Stmt.Control
use jwc_lang.Parser.Stmt.Assign
use jwc_lang.Parser.Stmt.Block
use jwc_lang.Parser.Grammar

abbrev at_zero : Tok → Token
at_zero t = record { tok = t; span = record { start = 0; stop = 0 }; leading = [] }

-- the tokens with `eof` behind them
abbrev tokens : List Tok → List Token
tokens [] = at_zero Tok.eof ∷ []
tokens (t ∷ ts) = at_zero t ∷ tokens ts

-- the codes of the diagnostics of an error
abbrev error_codes : {A : Type 0} → Outcome A → List String
error_codes (done a s) = []
error_codes (failed s) = map (λ (d : Diagnostic). d.code) s.diags
error_codes exhausted = []

unfoldable expr_of : List Tok → Outcome Expr
unfolding Action.pure Action.stop Action.spent Action.gets Action.branch Action.settled
    Action.attempt Action.shallower Action.in_query ◌>>=◌ Action.push_diag Action.rounds
    Action.looping Action.both Action.either Action.fails Cursor.token_at Cursor.peek_at Cursor.peek
    Cursor.at_eof Cursor.kind_number Cursor.same_tok Cursor.at Cursor.next_is Cursor.at_word
    Cursor.word_at Cursor.ident_at Cursor.at_ident Cursor.advance Cursor.bump Cursor.eat
    Cursor.eat_word Cursor.span Cursor.looking Cursor.at_old_comment Cursor.old_comment Cursor.err
    Cursor.err_note Cursor.refuse Cursor.refuse_note Cursor.unexpected Cursor.find_word
    Cursor.removed Cursor.removed_message Cursor.report_removed Cursor.check_removed_keyword
    Cursor.refuse_removed Cursor.expect Cursor.expect_word Cursor.take_ident Cursor.ident_or_refuse
    Cursor.expect_ident Cursor.string_or_refuse Cursor.expect_string Cursor.add_trivia
    Cursor.attached Names.next_item Names.more_items Names.some_items Names.items_before
    Names.parse_flag Names.parse_qualified_table Names.parse_ident_list_parens Names.nulls_word
    Names.parse_nulls_order Names.table_text Names.write_note Names.unbound_write Names.bound_or
    Names.spread_or_refuse Names.parse_spread_source Names.parse_except_list Names.key_or_refuse
    Names.expect_ident_or_string_key Objects.last_span Objects.parse_spread_entry
    Objects.parse_key_sign Objects.parse_field_entry Objects.parse_entry Objects.next_entry
    Objects.parse_object_entries Recover.next_skipped Recover.skip_to_semi_or_rbrace
    Recover.stepping Recover.keep_or_skip Recover.next_member Types.scalars Types.is_among
    Types.digits_value Types.unsigned_value Types.u32_or_zero Types.u32_of Types.type_arg_or_refuse
    Types.parse_type_arg Types.parse_type_args Types.next_part Types.parse_parts
    Types.parse_named_type Types.last_end Types.next_suffix Types.parse_record_field
    Types.parse_record_type Types.parse_type_kind Types.parse_type Shape.parse_column_field
    Shape.parse_direction Shape.span_or Shape.parse_alias_field Shape.parse_proj_field
    Shape.next_proj_field Shape.parse_object_shape Shape.parse_sort_key Shape.parse_order_by
    Shape.parse_clause Shape.parse_page Shape.last_sort_span Join.parse_join_kind Join.at_binder
    Join.parse_join_binder Join.parse_cardinality Join.parse_result_name Join.at_join_result
    Join.join_end Join.join_result_of Join.parse_sorting Join.parse_join_result Join.parse_join
    Select.phase_of Select.clause_name Select.late_clause Select.report_late Select.in_phase
    Select.last_expr_span Select.at_projection Select.parse_select_binder Select.parse_part
    Select.parse_late Select.next_clause Select.parse_select_tail Select.parse_select
    Write.last_set_span Write.shape_span_or Write.conflict_span_or Write.parse_write_binder
    Write.parse_set_spread Write.parse_set_sign Write.parse_of_binder Write.parse_set_to
    Write.parse_set_item Write.parse_set_clause Write.parse_conflict_action Write.parse_conflict
    Write.parse_projection Write.parse_insert_tail Write.parse_insert Write.parse_write_tail
    Write.parse_update_tail Write.parse_update Write.parse_delete_tail Write.parse_delete
    Primary.nullable Primary.parse_field Primary.outside_query Primary.parse_cast Primary.parse_leaf
    Primary.leaf_at_ident Primary.parse_name Primary.at_insert Primary.at_update Primary.at_delete
    Primary.parse_index Primary.parse_call_args Primary.parse_call Primary.next_postfix
    Primary.next_array_item Primary.parse_array_items Primary.parse_array Primary.parse_object
    Primary.parse_parens Primary.parse_word Primary.primary_at Primary.parse_primary
    Primary.parse_postfix Operators.binary_of Operators.next_binary Operators.compare_op
    Operators.parse_unary Operators.next_multiplicative Operators.parse_multiplicative
    Operators.next_additive Operators.parse_additive Operators.parse_in Operators.parse_rhs
    Operators.parse_compare Operators.parse_exists Operators.parse_negated Operators.parse_not
    Operators.next_and Operators.parse_and Operators.next_or Operators.parse_or
    Operators.parse_branches Operators.parse_ternary Operators.next_coalesce
    Operators.parse_coalesce Whole.parse_throw_args Whole.parse_or_throw Whole.parse_catch
    Whole.parse_with Whole.parse_cookie Whole.next_cookie Whole.parse_expr Control.if_end
    Control.missing_let Control.refuse_binder Control.message_at Control.parse_fails_message
    Control.parse_break Control.parse_continue Control.parse_argument Control.parse_else
    Control.parse_let Control.parse_if Control.parse_for Control.parse_while Control.parse_return
    Control.parse_throw Control.parse_dispatch Control.parse_transaction Control.parse_assert_fails
    Control.parse_assert Assign.is_target Assign.at_target Assign.target_name Assign.target_sigil
    Assign.at_op_assign Assign.assign_op Assign.path_run Assign.path_len Assign.at_field_assign
    Assign.take_path Assign.current_ident Assign.current_value Assign.parse_op_assign
    Assign.parse_assign Assign.parse_field_assign Assign.parse_context_assign Block.parse_expr_stmt
    Block.parse_plain Block.parse_worded Block.parse_stmt Block.parse_block Grammar.parsers
    Grammar.with_fuel Grammar.parse_expr Grammar.parse_type Grammar.parse_stmt Grammar.parse_block
    Tree.expr_span Tree.shape_span Tree.sort_span Tree.select_span Tree.insert_span Tree.update_span
    Tree.delete_span Tree.join_span Tree.page_span Tree.conflict_span Tree.set_span Tree.vec
    Tree.opt Token.to Token.is_word Token.shown Token.punct_text Token.dummy
    Keywords.removed_keywords encode_utf8
expr_of ts = Grammar.parse_expr (parser_of (tokens ts))

abbrev zero_span : Span
zero_span = record { start = 0; stop = 0 }

abbrev named : String → Ident
named w = record { name = codes w; span = zero_span }

abbrev node : Node Tree.expr_kind → Expr
node k = expr_at k zero_span

abbrev one : Expr
one = node (Tree.int (codes "1"))

abbrev two : Expr
two = node (Tree.int (codes "2"))

abbrev three : Expr
three = node (Tree.int (codes "3"))

-- the expression, and how many tokens are taken
abbrev value_of : Outcome Expr → Option (Expr × ℕ)
value_of (done e s) = some (e, s.i)
value_of (failed s) = none
value_of exhausted = none

abbrev num : String → Tok
num n = Tok.int (codes n)

abbrev word : String → Tok
word w = Tok.ident (codes w)

-- 1 + 2 * 3
sum_of_product :
    value_of (expr_of (num "1" ∷ Tok.plus ∷ num "2" ∷ Tok.star ∷ num "3" ∷ []))
    ≡ some (node (Tree.binary Ast.add one (node (Tree.binary Ast.mul two three))), 5)
unfolding expr_of
sum_of_product = refl

-- 1 - 2 - 3
differences_to_left :
    value_of (expr_of (num "1" ∷ Tok.minus ∷ num "2" ∷ Tok.minus ∷ num "3" ∷ []))
    ≡ some (node (Tree.binary Ast.sub (node (Tree.binary Ast.sub one two)) three), 5)
unfolding expr_of
differences_to_left = refl

-- a not in (1, 2)
not_in_list :
    value_of (
      expr_of (
        word "a"
        ∷ word "not"
        ∷ word "in"
        ∷ Tok.l_paren
        ∷ num "1"
        ∷ Tok.comma
        ∷ num "2"
        ∷ Tok.r_paren
        ∷ []))
    ≡ some (
      node (
          Tree.in_list
            (node (Tree.name (named "a")))
            (Tree.more one (Tree.more two Tree.empty))
            true),
      8,
    )
unfolding expr_of
not_in_list = refl

-- `a == b == c` is read up to the second `==`
compare_once :
    value_of (expr_of (num "1" ∷ Tok.eq_eq ∷ num "2" ∷ Tok.eq_eq ∷ num "3" ∷ []))
    ≡ some (node (Tree.binary Ast.eq one two), 3)
unfolding expr_of
compare_once = refl

-- `@a.k ? 1 : 2` is the nullable read of `k`, and stops before the `1`
field_before_question :
    value_of (
      expr_of (
        Tok.local (codes "a")
        ∷ Tok.dot
        ∷ word "k"
        ∷ Tok.question
        ∷ num "1"
        ∷ Tok.colon
        ∷ num "2"
        ∷ []))
    ≡ some (node (Tree.field (node (Tree.local (named "a"))) (named "k?")), 4)
unfolding expr_of
field_before_question = refl

operand_missing : error_codes (expr_of (num "1" ∷ Tok.plus ∷ [])) ≡ "E0014" ∷ []
unfolding expr_of
operand_missing = refl

old_word : error_codes (expr_of (word "via" ∷ [])) ≡ "E0900" ∷ []
unfolding expr_of
old_word = refl

-- a query without a binder, in a list: the depth that was raised does not stay
abbrev in_query_start : Parser
in_query_start = parser_of (
    tokens (
      word "select"
      ∷ word "U"
      ∷ word "from"
      ∷ word "App"
      ∷ Tok.dot
      ∷ word "auth"
      ∷ Tok.dot
      ∷ word "Users"
      ∷ word "where"
      ∷ Tok.plus
      ∷ []))

in_query_start-WellFormed : WellFormed in_query_start
unfolding Cursor.token_at
in_query_start-WellFormed = record { inside = omega arith; ended = refl }

query_error : error_codes (Grammar.parse_expr in_query_start) ≡ "E0014" ∷ []
unfolding expr_of
query_error = refl

parsers_return_example :
    EachParser
      (λ A m. Ends (Ahead in_query_start) (λ s'. in_query_start.i < s'.i) (m in_query_start))
parsers_return_example = parsers_return in_query_start in_query_start-WellFormed

parsers_report_example : EachParser (λ A m. Tells in_query_start (m in_query_start))
parsers_report_example = parsers_report in_query_start in_query_start-WellFormed

parsers_restore_example :
    EachParser (λ A m. Ends (SameInput in_query_start) Always (m in_query_start))
parsers_restore_example = parsers_restore in_query_start in_query_start-WellFormed

abbrev text : Bytes
text = codes "let x = @a.b ? 1 : 2;"

parsers_return_lexed_example :
    (r : Tokens) × (tokenize text ≡ some r)
    × EachParser (λ A m.
      Ends (Ahead (parser_of r.0)) (λ s'. 0 < s'.i) (m (parser_of r.0))
      × Tells (parser_of r.0) (m (parser_of r.0)))
parsers_return_lexed_example = parsers_return_lexed text (omega arith)
