-- ===== src/Parser/Decl/Table.antt =====
-- src/parser.rs: tables, enums, views, classes and errors.
use jwc_lang.Prelude.{
  ℕ, Bool, true, false, ◌&&◌, Option, none, some, List, [], ◌∷◌, ◌++◌, codes, leb,
}
use jwc_lang.Prelude.Loop.{Flow, again, break}
use jwc_lang.Token.{Tok, Span, to, int, l_paren, r_paren, l_brace, r_brace, comma, semi, colon, eq}
use jwc_lang.Ast.Tree.{Ident, Attached}
use jwc_lang.Ast.Decl.{
  RuleCall, ColumnDef, TableConstraint, IndexDef, TableDecl, EnumDecl, ViewDecl, ClassField,
  ClassDecl, Param, ErrorDecl,
}
use jwc_lang.Parser.Action.{
  Action, pure, gets, branch, ◌>>=◌, looping, both, either, given, attempt,
}
use jwc_lang.Parser.Cursor.{
  bump, at, at_eof, at_word, word_at, next_is, looking, span, attached, eat, expect, expect_ident,
  expect_word, err_note, unexpected, check_removed_keyword,
}
use jwc_lang.Parser.Names.{Parsers, items_before}
use jwc_lang.Parser.Recover.{skip_to_semi_or_rbrace, stepping, next_member}
use jwc_lang.Parser.Query.Select.{parse_select}
use jwc_lang.Parser.Types.{u16_of}
use jwc_lang.Naming.Generated.{decimal}
use jwc_lang.Ast.Tree.{type_span}
use jwc_lang.Parser.Decl.Schema.{
  parse_as_string, parse_was_string, parse_qualified_schema, parse_message,
}
use jwc_lang.Parser.Decl.Columns.{
  parse_pk_constraint, parse_fk_constraint, parse_uq_constraint, parse_check_constraint,
  parse_index, parse_column, parse_rule_call,
}

-- the members so far
pub record Members : Type 0 where
  pub columns : List ColumnDef
  pub constraints : List TableConstraint
  pub indexes : List IndexDef

unfoldable pub add_column : Members → ColumnDef → Members
add_column x c = record x { columns = x.columns ++ c ∷ [] }

unfoldable pub add_constraint : Members → TableConstraint → Members
add_constraint x c = record x { constraints = x.constraints ++ c ∷ [] }

unfoldable pub add_index : Members → IndexDef → Members
add_index x i = record x { indexes = x.indexes ++ i ∷ [] }

-- `if r.is_err() { self.skip_to_semi_or_rbrace(); }`
unfoldable pub keep_or : {A : Type 0} → A → Option A → Action A
keep_or old (some new) = pure new
keep_or old none = do _ ← skip_to_semi_or_rbrace; pure old

-- one member of an enum that is not the first
unfoldable pub next_enum_member : List Ident → Action (Flow (List Ident) (List Ident))
next_enum_member out =
    branch (at comma)
      (do
        _ ← bump
        branch (at r_brace) (pure (break out)) (do m ← expect_ident; pure (again (out ++ m ∷ []))))
      (pure (break out))

unfoldable pub parse_enum : Attached → Span → Action EnumDecl
parse_enum leading start = do
  _ ← bump
  name ← expect_ident
  schema ← given (at_word (codes "of")) (do _ ← bump; parse_qualified_schema)
  physical ← parse_as_string
  _ ← expect l_brace
  first ← expect_ident
  members ← looping next_enum_member (first ∷ [])
  close ← expect r_brace
  pure (record {
    leading = leading;
    name = name;
    schema = schema;
    physical = physical;
    members = members;
    span = to start close.span;
  })

unfoldable pub status_or_refuse : Tok → Action ℕ
status_or_refuse (int n) = do _ ← bump; pure (u16_of n)
status_or_refuse other = unexpected "E0005" (codes "an HTTP status code") other

unfoldable pub check_status : ℕ → Span → Action (Unit {0})
check_status status here =
    branch (λ s. leb 100 status && leb status 599) (pure tt)
      (err_note "E0005" here (codes "`" ++ decimal status ++ codes "` is not an HTTP status code")
        (codes "an error's default status must be in 100..=599") "errors.md §1.1")

module _ (self : Parsers) where
  unfoldable pub parse_member : Members → Action Members
  parse_member x = do
    leading ← gets attached
    start ← gets span
    branch (both (at_word (codes "primary")) (both (word_at 1 (codes "key")) (next_is 2 l_paren)))
        (do c ← parse_pk_constraint leading start; pure (add_constraint x c))
        (branch (at_word (codes "foreign"))
          (do c ← parse_fk_constraint leading start; pure (add_constraint x c))
          (branch (both (at_word (codes "unique")) (next_is 1 l_paren))
            (do c ← parse_uq_constraint self leading start; pure (add_constraint x c))
            (branch (both (at_word (codes "check")) (next_is 1 l_paren))
              (do c ← parse_check_constraint self leading start; pure (add_constraint x c))
              (branch (both (at_word (codes "index")) (word_at 1 (codes "on")))
                (do i ← parse_index self leading start; pure (add_index x i))
                (do c ← parse_column self leading start; pure (add_column x c))))))

  -- The test of the cursor behind a member stands behind a removed keyword too, where the source
  -- goes on at once: there the cursor has moved.
  unfoldable pub member_or_skip : Members → Bool → Action Members
  member_or_skip x true = do _ ← skip_to_semi_or_rbrace; pure x
  member_or_skip x false = do r ← attempt (parse_member x); keep_or x r

  unfoldable pub next_table_member : Members → Action (Flow Members Members)
  next_table_member x = branch (either (at r_brace) at_eof) (pure (break x)) (do
    x' ← stepping (do removed ← check_removed_keyword; member_or_skip x removed)
    pure (again x'))

  unfoldable pub parse_table : Attached → Span → Action TableDecl
  parse_table leading start = do
    _ ← bump
    name ← expect_ident
    _ ← expect_word (codes "of")
    schema ← parse_qualified_schema
    physical ← parse_as_string
    was ← parse_was_string
    _ ← expect l_brace
    x ← looping next_table_member (record { columns = []; constraints = []; indexes = [] })
    close ← expect r_brace
    pure (record {
      leading = leading;
      name = name;
      schema = schema;
      physical = physical;
      was = was;
      columns = x.columns;
      constraints = x.constraints;
      indexes = x.indexes;
      span = to start close.span;
    })

  unfoldable pub parse_view : Attached → Span → Action ViewDecl
  parse_view leading start = do
    _ ← bump
    name ← expect_ident
    _ ← expect_word (codes "of")
    schema ← parse_qualified_schema
    physical ← parse_as_string
    _ ← expect l_brace
    body ← parse_select self
    _ ← eat semi
    close ← expect r_brace
    pure (record {
      leading = leading;
      name = name;
      schema = schema;
      physical = physical;
      body = body;
      span = to start close.span;
    })

  -- one round of the rules of a field, and of whether it is transient
  unfoldable pub next_rule :
      List RuleCall × Bool → Action (Flow (List RuleCall × Bool) (List RuleCall × Bool))
  next_rule x = do
    _ ← eat comma
    branch (either (at semi) at_eof) (pure (break x)) (
        branch (at_word (codes "transient")) (do _ ← bump; pure (again (x.0, true)))
          (do r ← parse_rule_call self; pure (again (x.0 ++ r ∷ [], x.1))))

  unfoldable pub parse_class_field : Action ClassField
  parse_class_field = do
    leading ← gets attached
    start ← gets span
    name ← expect_ident
    ty ← self.type_of
    x ← looping next_rule ([], false)
    close ← expect semi
    pure (record {
      leading = leading;
      name = name;
      ty = ty;
      rules = x.0;
      transient = x.1;
      span = to start close.span;
    })

  unfoldable pub parse_class : Attached → Span → Action ClassDecl
  parse_class leading start = do
    _ ← bump
    name ← expect_ident
    _ ← expect l_brace
    fields ← looping (next_member parse_class_field) []
    close ← expect r_brace
    pure (record { leading = leading; name = name; fields = fields; span = to start close.span })

  unfoldable pub parse_param : Action Param
  parse_param = do
    name ← expect_ident
    _ ← expect colon
    ty ← self.type_of
    default ← given (at eq) (do _ ← bump; self.expr)
    pure (record { name = name; ty = ty; default = default; span = to name.span (type_span ty) })

  unfoldable pub parse_params : Action (List Param)
  parse_params = do
    _ ← expect l_paren
    out ← items_before r_paren parse_param
    _ ← expect r_paren
    pure out

  unfoldable pub parse_error_decl : Attached → Span → Action ErrorDecl
  parse_error_decl leading start = do
    _ ← bump
    name ← expect_ident
    params ← branch (at l_paren) parse_params (pure [])
    _ ← expect eq
    here ← gets span
    status ← looking status_or_refuse
    _ ← check_status status here
    message ← parse_message
    close ← expect semi
    pure (record {
      leading = leading;
      name = name;
      params = params;
      status = status;
      message = message;
      span = to start close.span;
    })
