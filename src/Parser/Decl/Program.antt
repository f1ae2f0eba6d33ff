-- ===== src/Parser/Decl/Program.antt =====
-- src/parser.rs: `parse_decl`, `parse_program` and `parse`.
use jwc_lang.Prelude.{Option, none, some, List, [], ◌∷◌, ◌++◌, String, Bytes, codes, length}
use jwc_lang.Prelude.Loop.{Flow, again, break}
use jwc_lang.Token.{Span}
use jwc_lang.Diag.{Diagnostic, error, with_note, with_clause}
use jwc_lang.Ast.Tree.{Attached}
use jwc_lang.Ast.Decl
use jwc_lang.Ast.Decl.{
  NamespaceDecl, ImportDecl, Assignment, DatabaseDecl, SchemaDecl, QualifiedSchema, RuleCall,
  ColumnModifier, ColumnDef, RefAction, TableConstraint, IndexColumn, IndexDef, TableDecl, EnumDecl,
  ViewDecl, ClassField, ClassDecl, Param, ErrorDecl, FunctionDecl, ServiceDecl, JobDecl, Binder,
  CtxDecl, MiddlewareDecl, RouteDecl, SocketDecl, RoutesDecl, CatchArm, ErrorHandlerDecl, ConstDecl,
  StaticDecl, ServerEntry, ServerDecl, TestDecl, Program,
}
use jwc_lang.Parser.Action.{Action, pure, gets, branch, ◌>>=◌, push_diag, looping, either, attempt}
use jwc_lang.Parser.Cursor.{at_eof, at_word, looking, span, attached, unexpected, refuse_removed}
use jwc_lang.Parser.Names.{Parsers}
use jwc_lang.Parser.Recover.{stepping}
use jwc_lang.Lexer.Tokenize.{Tokens, tokenize}
use jwc_lang.Parser.Action.{Outcome, done, failed, exhausted}
use jwc_lang.Parser.Grammar.{parsers, parser_of}
use jwc_lang.Parser.Decl.Schema.{parse_namespace, parse_import, parse_database, parse_schema}
use jwc_lang.Parser.Decl.Table.{parse_table, parse_view, parse_enum, parse_class, parse_error_decl}
use jwc_lang.Parser.Decl.Service.{parse_service, parse_function}
use jwc_lang.Parser.Decl.Job.{parse_job}
use jwc_lang.Parser.Decl.Middleware.{parse_middleware}
use jwc_lang.Parser.Decl.Recover.{recover_to_decl}
use jwc_lang.Parser.Decl.Routes.{parse_routes, parse_bare_route}
use jwc_lang.Parser.Decl.Server.{
  parse_error_handler, parse_server, parse_static, parse_const, parse_test,
}

-- what is tried in turn on the word of a declaration
unfoldable pub on_word :
    {A : Type 0} → String → (A → Decl.Decl) → Action A → Action Decl.Decl → Action Decl.Decl
on_word w kind item other = branch (at_word (codes w)) (do d ← item; pure (kind d)) other

module _ (self : Parsers) (leading : Attached) (start : Span) where
  unfoldable pub parse_other_decl : Action Decl.Decl
  parse_other_decl =
      branch (either (at_word (codes "route")) (at_word (codes "socket")))
        (do d ← parse_bare_route self leading start; pure (Decl.routes d))
        (looking λ found. unexpected "E0002" (codes "a declaration") found)

  unfoldable pub parse_behaviour : Action Decl.Decl
  parse_behaviour = on_word "service" Decl.service (parse_service self leading start) (
      on_word "middleware" Decl.middleware (parse_middleware self leading start) (
        on_word "routes" Decl.routes (parse_routes self leading start) (
          on_word "errorHandler" Decl.error_handler (parse_error_handler self leading start) (
            on_word "server" Decl.Decl.server (parse_server self leading start) (
              on_word "static" Decl.static (parse_static leading start) (
                on_word "const" Decl.const (parse_const self leading start) (
                  on_word "function" Decl.function (parse_function self leading start) (
                    on_word "job" Decl.job (parse_job self leading start) (
                      on_word "test" Decl.test (parse_test self leading start)
                        parse_other_decl)))))))))

  -- `match word.as_str() { … }`
  unfoldable pub parse_worded_decl : Action Decl.Decl
  parse_worded_decl = on_word "namespace" Decl.namespace (parse_namespace leading start) (
      on_word "import" Decl.import (parse_import leading start) (
        on_word "database" Decl.database (parse_database self leading start) (
          on_word "schema" Decl.schema (parse_schema leading start) (
            on_word "table" Decl.table (parse_table self leading start) (
              on_word "view" Decl.view (parse_view self leading start) (
                on_word "enum" Decl.enum (parse_enum leading start) (
                  on_word "class" Decl.class (parse_class self leading start) (
                    on_word "error" Decl.error (parse_error_decl self leading start)
                      parse_behaviour))))))))

-- the doc comments behind the last declaration
unfoldable pub report_trailing : List Bytes → Action (Unit {0})
report_trailing [] = pure tt
report_trailing (_ ∷ _) = do
  here ← gets span
  push_diag (
      with_clause "names.md §3" (
        with_note
          (codes
            "a `///` comment attaches to the declaration below it; there is none here, so the text would be dropped")
          (error "E0104" here (codes "this doc comment documents nothing"))))

module _ (self : Parsers) where
  unfoldable pub parse_decl : Action Decl.Decl
  parse_decl = do
    _ ← refuse_removed
    leading ← gets attached
    start ← gets span
    parse_worded_decl self leading start

  -- `Ok(Some(d)) => decls.push(d), Err(()) => self.recover_to_decl()`
  unfoldable pub keep_or_recover : List Decl.Decl → Option Decl.Decl → Action (List Decl.Decl)
  keep_or_recover out (some d) = pure (out ++ d ∷ [])
  keep_or_recover out none = do _ ← recover_to_decl; pure out

  unfoldable pub next_decl : List Decl.Decl → Action (Flow (List Decl.Decl) (List Decl.Decl))
  next_decl out =
      branch at_eof (pure (break out))
        (do out' ← stepping (do r ← attempt parse_decl; keep_or_recover out r); pure (again out'))

  unfoldable pub parse_program : Action Program
  parse_program = do
    decls ← looping next_decl []
    trailing ← gets attached
    _ ← report_trailing trailing.docs
    pure (record { decls = decls; trailing = trailing })

-- the program, and the diagnostics of the parser behind those of the scanner
abbrev pub Parsed : Type 0
Parsed = Program × List Diagnostic

unfoldable pub with_diags : List Diagnostic → Outcome Program → Option Parsed
with_diags before (done p s) = some (p, before ++ s.diags)
with_diags before (failed s) = none
with_diags before exhausted = none

unfoldable pub parse_tokens : Tokens → Option Parsed
parse_tokens r = with_diags r.1 (parse_program (parsers (length r.0)) (parser_of r.0))

-- `parse`; `none` stands for a run of the model whose fuel is used up
unfoldable pub parse : Bytes → Option Parsed
parse text = elim (tokenize text) [ none ↦ none | some r ↦ parse_tokens r ]
