-- ===== src/Parser/Decl/Schema.antt =====
-- src/parser.rs: modules, databases and schemas, and the parts that declarations share.
use jwc_lang.Prelude.{true, false, Option, none, some, List, [], ◌∷◌, ◌++◌, Bytes, codes}
use jwc_lang.Prelude.Loop.{Flow, again, break}
use jwc_lang.Token.{Token, Span, to, str, l_paren, r_paren, l_brace, r_brace, semi, colon, dot, eq}
use jwc_lang.Ast.Tree.{Ident, DottedName, Attached}
use jwc_lang.Ast.Decl.{
  NamespaceDecl, ImportDecl, Assignment, DatabaseDecl, SchemaDecl, QualifiedSchema,
}
use jwc_lang.Parser.Action.{
  Action, Test, pure, gets, branch, ◌>>=◌, looping, both, either, given, attempt,
}
use jwc_lang.Parser.Cursor
use jwc_lang.Parser.Cursor.{
  peek, token_at, bump, at, at_eof, at_word, word_at, next_is, ident_at, at_ident, looking, span,
  attached, eat, eat_word, expect, expect_ident, expect_word, expect_string, err, err_note, refuse,
  refuse_note, unexpected, check_removed_keyword, refuse_removed,
}
use jwc_lang.Parser.Names.{Parsers, some_items}
use jwc_lang.Parser.Types.{parse_parts}

unfoldable pub parse_dotted : Action DottedName
parse_dotted = do first ← expect_ident; parse_parts first

unfoldable pub parse_qualified_schema : Action QualifiedSchema
parse_qualified_schema = do
  database ← expect_ident
  _ ← expect dot
  schema ← expect_ident
  pure (record { database = database; schema = schema; span = to database.span schema.span })

-- `matches!(self.peek_at(1).tok, Tok::Str(_))`
unfoldable pub string_next : Test
string_next s = elim (Cursor.peek_at s 1).tok [ str _ ↦ true | _ ↦ false ]

-- the word, and the string behind it
unfoldable pub parse_worded_string : Bytes → Action (Option Bytes)
parse_worded_string w =
    given (both (at_word w) string_next) (do _ ← bump; s ← expect_string; pure s.0)

unfoldable pub parse_as_string : Action (Option Bytes)
parse_as_string = parse_worded_string (codes "as")

unfoldable pub parse_was_string : Action (Option Bytes)
parse_was_string = parse_worded_string (codes "was")

unfoldable pub parse_message : Action (Option Bytes)
parse_message = given (at colon) (do _ ← bump; s ← expect_string; pure s.0)

-- names behind commas, as long as there are any
unfoldable pub parse_ident_list : Action (List Ident)
parse_ident_list = some_items expect_ident

module _ (leading : Attached) (start : Span) where
  unfoldable pub parse_namespace : Action NamespaceDecl
  parse_namespace = do
    _ ← bump
    name ← parse_dotted
    close ← expect semi
    pure (record { leading = leading; name = name; span = to start close.span })

  unfoldable pub parse_import : Action ImportDecl
  parse_import = do
    _ ← bump
    name ← parse_dotted
    close ← expect semi
    pure (record { leading = leading; name = name; span = to start close.span })

  unfoldable pub parse_schema : Action SchemaDecl
  parse_schema = do
    _ ← bump
    name ← expect_ident
    _ ← expect_word (codes "of")
    database ← expect_ident
    physical ← parse_as_string
    close ← expect semi
    pure (record {
      leading = leading;
      name = name;
      database = database;
      physical = physical;
      span = to start close.span;
    })

-- `map(|t| t.span).unwrap_or(end)`
unfoldable pub token_span_or : Option Token → Span → Span
token_span_or none other = other
token_span_or (some t) other = t.span

module _ (self : Parsers) where
  unfoldable pub parse_assignment : Action Assignment
  parse_assignment = do
    leading ← gets attached
    key ← expect_ident
    _ ← expect eq
    value ← self.expr
    close ← expect semi
    pure (record { leading = leading; key = key; value = value; span = to key.span close.span })

  -- `while !at(}) && !at_eof() { out.push(self.parse_assignment()?) }`
  unfoldable pub next_assignment :
      List Assignment → Action (Flow (List Assignment) (List Assignment))
  next_assignment out =
      branch (either (at r_brace) at_eof) (pure (break out))
        (do a ← parse_assignment; pure (again (out ++ a ∷ [])))

  unfoldable pub next_init : List Assignment → Action (Flow (List Assignment) (List Assignment))
  next_init out = branch (either (at r_brace) at_eof) (pure (break out)) (do
    _ ← expect_word (codes "init")
    _ ← expect l_paren
    _ ← expect r_paren
    _ ← expect l_brace
    out' ← looping next_assignment out
    _ ← expect r_brace
    pure (again out'))

  -- what stands behind the driver, and where it ends
  unfoldable pub parse_database_body : Span → Action (List Assignment × Span)
  parse_database_body so_far =
      branch (at l_brace)
        (do _ ← bump; init ← looping next_init []; close ← expect r_brace; pure (init, close.span))
        (do t ← attempt (expect semi); pure ([], token_span_or t so_far))

  unfoldable pub parse_database : Attached → Span → Action DatabaseDecl
  parse_database leading start = do
    _ ← bump
    name ← expect_ident
    _ ← expect colon
    driver ← expect_ident
    body ← parse_database_body driver.span
    pure (record {
      leading = leading;
      name = name;
      driver = driver;
      init = body.0;
      span = to start body.1;
    })
