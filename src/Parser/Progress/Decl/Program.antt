-- ===== src/Parser/Progress/Decl/Program.antt =====
-- src/parser.rs: a declaration takes tokens, and the loop over them ends.
use jwc_lang.Prelude.{ℕ, suc, List, [], ◌∷◌, Option, none, some, Bytes}
use jwc_lang.Token.{Span}
use jwc_lang.Ast.Tree.{Attached}
use jwc_lang.Parser.Action.{Action}
use jwc_lang.Parser.Names.{Parsers}
use jwc_lang.Parser.Progress.{Keeps, Eats, EatsHere, Turns}
use jwc_lang.Parser.Progress.Rules.{Keeps-looping, Keeps-Eats}
use jwc_lang.Parser.Progress.Expect.{before, after, Eats-after}
use jwc_lang.Parser.Progress.Names.{Calls}
use jwc_lang.Prelude.{String}
use jwc_lang.Ast.Decl
use jwc_lang.Parser.Decl.Program
use jwc_lang.Parser.Progress.Rules.{Turns-before_eof, Turns-break, EatsHere-bind}
use jwc_lang.Parser.Progress.Recover.{EatsHere-stepping}
use jwc_lang.Parser.Progress.Decl.Recover.{Keeps-recover_to_decl}
use jwc_lang.Parser.Progress.Decl.Schema
use jwc_lang.Parser.Progress.Decl.Table
use jwc_lang.Parser.Progress.Decl.Service
use jwc_lang.Parser.Progress.Decl.Job
use jwc_lang.Parser.Progress.Decl.Middleware
use jwc_lang.Parser.Progress.Decl.Routes
use jwc_lang.Parser.Progress.Decl.Server

module _ (b : ℕ) where
  Eats-on_word :
      {A : Type 0} (w : String) (kind : A → Decl.Decl) (item : Action A) (other : Action Decl.Decl)
      → EatsHere (suc b) item
      → Eats (suc b) other
      → Eats (suc b) (Program.on_word w kind item other)
  unfolding Program.on_word
  Eats-on_word w kind item other p q = search (before, after)

  Keeps-report_trailing : (docs : List Bytes) → Keeps b (Program.report_trailing docs)
  unfolding Program.report_trailing
  Keeps-report_trailing [] = search after
  Keeps-report_trailing (_ ∷ _) = search after

module _ (b : ℕ) (self : Parsers) (calls : Calls b self) where
  module _ (leading : Attached) (start : Span) where
    Eats-parse_other_decl : Eats (suc b) (Program.parse_other_decl self leading start)
    unfolding Program.parse_other_decl
    Eats-parse_other_decl = search (before, after, Routes.EatsHere-parse_bare_route) depth 12

    Eats-parse_behaviour : Eats (suc b) (Program.parse_behaviour self leading start)
    unfolding Program.parse_behaviour
    Eats-parse_behaviour =
        search
          (
            Eats-on_word, Service.EatsHere-parse_service, Middleware.EatsHere-parse_middleware,
            Routes.EatsHere-parse_routes, Server.EatsHere-parse_error_handler,
            Server.EatsHere-parse_server, Server.EatsHere-parse_static, Server.EatsHere-parse_const,
            Service.EatsHere-parse_function, Job.EatsHere-parse_job, Server.EatsHere-parse_test,
            Eats-parse_other_decl,
          )
          depth 20

    Eats-parse_worded_decl : Eats (suc b) (Program.parse_worded_decl self leading start)
    unfolding Program.parse_worded_decl
    Eats-parse_worded_decl =
        search
          (
            Eats-on_word, Schema.EatsHere-parse_namespace, Schema.EatsHere-parse_import,
            Schema.EatsHere-parse_database, Schema.EatsHere-parse_schema,
            Table.EatsHere-parse_table, Table.EatsHere-parse_view, Table.EatsHere-parse_enum,
            Table.EatsHere-parse_class, Table.EatsHere-parse_error_decl, Eats-parse_behaviour,
          )
          depth 20

  pub Eats-parse_decl : Eats (suc b) (Program.parse_decl self)
  unfolding Program.parse_decl
  Eats-parse_decl = search (before, after, Eats-parse_worded_decl) depth 12

  Keeps-parse_decl : Keeps b (Program.parse_decl self)
  Keeps-parse_decl = Keeps-Eats b _ (Eats-after b _ Eats-parse_decl)

  Keeps-keep_or_recover :
      (out : List Decl.Decl) (r : Option Decl.Decl) → Keeps b (Program.keep_or_recover self out r)
  unfolding Program.keep_or_recover
  Keeps-keep_or_recover out (some d) = search after
  Keeps-keep_or_recover out none = search (after, Keeps-recover_to_decl)

  Turns-next_decl : (out : List Decl.Decl) → Turns b (Program.next_decl self out)
  unfolding Program.next_decl
  Turns-next_decl out =
      search
        (
          Turns-before_eof, Turns-break, EatsHere-bind, EatsHere-stepping, after, Keeps-parse_decl,
          Keeps-keep_or_recover,
        )
        depth 12

  pub Keeps-parse_program : Keeps b (Program.parse_program self)
  unfolding Program.parse_program
  Keeps-parse_program =
      search (after, Keeps-looping, Turns-next_decl, Keeps-report_trailing) depth 12
