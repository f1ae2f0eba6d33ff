-- ===== src/Parser/Decl/Server.antt =====
-- src/parser.rs: error handlers, mounts, constants, servers and tests.
use jwc_lang.Prelude.{ℕ, Option, none, some, List, [], ◌∷◌, ◌++◌, Bytes, codes}
use jwc_lang.Prelude.Loop.{Flow, again, break}
use jwc_lang.Token.{
  Tok, Token, Span, to, same_bytes, shown, ident, local, int, str, l_paren, r_paren, l_brace,
  r_brace, comma, semi, colon, dot, eq, arrow, eof,
}
use jwc_lang.Token
use jwc_lang.Diag.{error}
use jwc_lang.Ast.Tree.{Attached}
use jwc_lang.Ast.Decl
use jwc_lang.Ast.Decl.{
  NamespaceDecl, ImportDecl, Assignment, DatabaseDecl, SchemaDecl, QualifiedSchema, RuleCall,
  ColumnModifier, ColumnDef, RefAction, TableConstraint, IndexColumn, IndexDef, TableDecl, EnumDecl,
  ViewDecl, ClassField, ClassDecl, Param, ErrorDecl, FunctionDecl, ServiceDecl, JobDecl, Binder,
  CtxDecl, MiddlewareDecl, RouteDecl, SocketDecl, RoutesDecl, CatchArm, ErrorHandlerDecl, ConstDecl,
  StaticDecl, ServerEntry, ServerDecl, TestDecl, Program,
}
use jwc_lang.Parser.Action.{Action, pure, gets, branch, ◌>>=◌, looping, both, either, attempt}
use jwc_lang.Parser.Cursor.{
  peek, bump, at, at_eof, at_word, next_is, at_ident, looking, span, expect, expect_ident,
  expect_string, err_note, refuse_note,
}
use jwc_lang.Parser.Names.{Parsers}
use jwc_lang.Parser.Types.{unsigned_value}
use jwc_lang.Parser.Recover.{skip_to_semi_or_rbrace, stepping}
use jwc_lang.Parser.Decl.Schema.{parse_assignment, next_assignment}
use jwc_lang.Parser.Decl.Duration.{below}
use jwc_lang.Parser.Decl.Routes.{report_found}

-- a number of seconds behind `cache`, and the span from the word to it
unfoldable pub seconds_in : Bytes → Option ℕ → Span → Span → Action (ℕ × Option Span)
seconds_in text (some v) cspan here = pure (v, some (to cspan here))
seconds_in text none cspan here = do
  _ ←
      err_note "E0743" here (codes "`cache " ++ text ++ codes "` is not a number of seconds")
        (codes "the value is a whole number of seconds, at most 31536000") "routing.md §10.4"
  pure (0, some (to cspan here))

unfoldable pub age_or_refuse : Span → Tok → Action (ℕ × Option Span)
age_or_refuse cspan (int n) = do
  here ← gets span
  _ ← bump
  seconds_in n (below Token.u32_mod (unsigned_value n)) cspan here
age_or_refuse cspan other = do
  here ← gets span
  refuse_note "E0743" here
      (codes "expected a number of seconds after `cache`, found " ++ shown other)
      (codes "`cache 3600` is one hour") "routing.md §10.4"

unfoldable pub parse_max_age : Action (ℕ × Option Span)
parse_max_age =
    branch (at_word (codes "cache")) (do cspan ← gets span; _ ← bump; looking (age_or_refuse cspan))
      (pure (0, none))

unfoldable pub expect_from : Action (Unit {0})
expect_from =
    branch (at_word (codes "from")) (do _ ← bump; pure tt)
      (do
        here ← gets span
        found ← gets (λ s. (peek s).tok)
        refuse_note "E0009" here (codes "expected `from`, found " ++ shown found)
            (codes
              "a static mount names the directory it serves: `static \"/assets\" from \"public\";`")
            "routing.md §10.1")

unfoldable pub parse_static : Attached → Span → Action StaticDecl
parse_static leading start = do
  _ ← bump
  prefix ← expect_string
  _ ← expect_from
  root ← expect_string
  age ← parse_max_age
  close ← expect semi
  pure (record {
    leading = leading;
    prefix = prefix.0;
    prefix_span = prefix.1;
    root = root.0;
    root_span = root.1;
    max_age = age.0;
    max_age_span = age.1;
    span = to start close.span;
  })

module _ (self : Parsers) where
  unfoldable pub parse_arm : Span → Action CatchArm
  parse_arm start = do
    _ ← bump
    error ← branch (at l_paren) (pure none) (do e ← expect_ident; pure (some e))
    _ ← expect l_paren
    binder ← expect_ident
    _ ← expect r_paren
    body ← self.block
    pure (record { error = error; binder = binder; body = body.0; span = to start body.1 })

  unfoldable pub next_arm : List CatchArm → Action (Flow (List CatchArm) (List CatchArm))
  next_arm arms = branch (either (at r_brace) at_eof) (pure (break arms)) (
      branch (at_word (codes "catch"))
        (do start ← gets span; arm ← parse_arm start; pure (again (arms ++ arm ∷ [])))
        (do
          _ ←
              report_found "E0010" (codes "`catch`")
                (codes "an errorHandler body contains only `catch` arms") "errors.md §4.1"
          pure (break arms)))

  unfoldable pub parse_error_handler : Attached → Span → Action ErrorHandlerDecl
  parse_error_handler leading start = do
    _ ← bump
    _ ← expect l_paren
    binder ← expect_ident
    _ ← expect r_paren
    _ ← expect l_brace
    arms ← looping next_arm []
    close ← expect r_brace
    pure (record { leading = leading; binder = binder; arms = arms; span = to start close.span })

  unfoldable pub parse_const : Attached → Span → Action ConstDecl
  parse_const leading start = do
    _ ← bump
    name ← expect_ident
    _ ← expect eq
    value ← self.expr
    close ← expect semi
    pure (record { leading = leading; name = name; value = value; span = to start close.span })

  unfoldable pub parse_group : Action ServerEntry
  parse_group = do
    start ← gets span
    name ← expect_ident
    _ ← expect l_brace
    entries ← looping (next_assignment self) []
    close ← expect r_brace
    pure (Decl.group name entries (to start close.span))

  unfoldable pub add_setting : List ServerEntry → Option Assignment → Action (List ServerEntry)
  add_setting out (some a) = pure (out ++ Decl.setting a ∷ [])
  add_setting out none = do _ ← skip_to_semi_or_rbrace; pure out

  unfoldable pub next_server_entry :
      List ServerEntry → Action (Flow (List ServerEntry) (List ServerEntry))
  next_server_entry out = branch (either (at r_brace) at_eof) (pure (break out)) (
      branch (both at_ident (next_is 1 l_brace)) (do g ← parse_group; pure (again (out ++ g ∷ [])))
        (do
          out' ← stepping (do r ← attempt (parse_assignment self); add_setting out r)
          pure (again out')))

  unfoldable pub parse_server : Attached → Span → Action ServerDecl
  parse_server leading start = do
    _ ← bump
    _ ← expect l_brace
    entries ← looping next_server_entry []
    close ← expect r_brace
    pure (record { leading = leading; entries = entries; span = to start close.span })

  unfoldable pub parse_test : Attached → Span → Action TestDecl
  parse_test leading start = do
    _ ← bump
    name ← expect_string
    body ← self.block
    pure (record { leading = leading; name = name.0; body = body.0; span = to start body.1 })
