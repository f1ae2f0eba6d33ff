-- ===== src/Parser/Progress/Decl/Routes.antt =====
-- src/parser.rs: routes and sockets take tokens.
use jwc_lang.Prelude.{ℕ, suc, List, [], ◌∷◌, Bytes}
use jwc_lang.Token.{Span}
use jwc_lang.Ast.Tree.{Ident, Attached}
use jwc_lang.Parser.Names.{Parsers}
use jwc_lang.Parser.Progress.{Keeps, EatsHere, Turns}
use jwc_lang.Parser.Progress.Rules.{Keeps-looping}
use jwc_lang.Parser.Progress.Expect.{before, after, turning}
use jwc_lang.Parser.Progress.Names.{Calls}
use jwc_lang.Prelude.{String}
use jwc_lang.Ast.Decl.{RouteDecl, SocketDecl}
use jwc_lang.Parser.Decl.Routes
use jwc_lang.Parser.Decl.Routes.{Handlers}
use jwc_lang.Parser.Progress.Rules.{EatsHere-bind}
use jwc_lang.Parser.Progress.Tokens.{EatsHere-bump, Solid-at_word}
use jwc_lang.Parser.Progress.Recover.{EatsHere-stepping}
use jwc_lang.Parser.Progress.Decl.Service.{Keeps-parse_names_after}
use jwc_lang.Parser.Progress.Decl.Recover.{Keeps-recover_to_decl}

module _ (b : ℕ) where
  Keeps-parse_use_clause : Keeps b Routes.parse_use_clause
  unfolding Routes.parse_use_clause
  Keeps-parse_use_clause = Keeps-parse_names_after b _

  Keeps-check_method : (m : Ident) → Keeps b (Routes.check_method m)
  unfolding Routes.check_method
  Keeps-check_method m = search after

  pub Keeps-report_found :
      (code : String) (what note : Bytes) (clause : String)
      → Keeps b (Routes.report_found code what note clause)
  unfolding Routes.report_found
  Keeps-report_found code what note clause = search after

  Keeps-check_event : (which : Ident) (seen : List Bytes) → Keeps b (Routes.check_event which seen)
  unfolding Routes.check_event
  Keeps-check_event which seen = search after

  Keeps-check_handlers :
      (seen : List Bytes) (here : Span) → Keeps b (Routes.check_handlers seen here)
  unfolding Routes.check_handlers
  Keeps-check_handlers [] here = search after
  Keeps-check_handlers (_ ∷ _) here = search after

module _ (b : ℕ) (self : Parsers) (calls : Calls b self) where
  module _ (leading : Attached) (start : Span) where
    EatsHere-parse_route : EatsHere (suc b) (Routes.parse_route self leading start)
    unfolding Routes.parse_route
    EatsHere-parse_route =
        search (before, after, Keeps-check_method, Keeps-parse_use_clause) depth 20

    Keeps-parse_route : Keeps b (Routes.parse_route self leading start)
    unfolding Routes.parse_route
    Keeps-parse_route = search (after, Keeps-check_method, Keeps-parse_use_clause) depth 20

  Keeps-parse_on_message : (x : Handlers) → Keeps b (Routes.parse_on_message self x)
  unfolding Routes.parse_on_message
  Keeps-parse_on_message x = search after depth 12

  Keeps-parse_unknown_event :
      (which : Ident) (x : Handlers) → Keeps b (Routes.parse_unknown_event self which x)
  unfolding Routes.parse_unknown_event
  Keeps-parse_unknown_event which x = search after depth 12

  Keeps-parse_event : (which : Ident) (x : Handlers) → Keeps b (Routes.parse_event self which x)
  unfolding Routes.parse_event
  Keeps-parse_event which x =
      search (after, Keeps-parse_on_message, Keeps-parse_unknown_event) depth 12

  Turns-next_handler : (x : Handlers) → Turns b (Routes.next_handler self x)
  unfolding Routes.next_handler
  Turns-next_handler x =
      search
        (
          turning, EatsHere-bind, EatsHere-bump, Solid-at_word, after, Keeps-check_event,
          Keeps-parse_event, Keeps-report_found, Keeps-recover_to_decl,
        )
        depth 20

  module _ (leading : Attached) (start : Span) where
    EatsHere-parse_socket : EatsHere (suc b) (Routes.parse_socket self leading start)
    unfolding Routes.parse_socket
    EatsHere-parse_socket =
        search
          (
            before, after, Keeps-parse_use_clause, Keeps-looping, Turns-next_handler,
            Keeps-check_handlers,
          )
          depth 20

    Keeps-parse_socket : Keeps b (Routes.parse_socket self leading start)
    unfolding Routes.parse_socket
    Keeps-parse_socket =
        search
          (after, Keeps-parse_use_clause, Keeps-looping, Turns-next_handler, Keeps-check_handlers)
          depth 20

  Turns-next_route : (x : List RouteDecl × List SocketDecl) → Turns b (Routes.next_route self x)
  unfolding Routes.next_route
  Turns-next_route x =
      search
        (
          turning, EatsHere-bind, Solid-at_word, EatsHere-stepping, after, Keeps-parse_socket,
          Keeps-parse_route, Keeps-report_found, Keeps-recover_to_decl,
        )
        depth 20

  module _ (leading : Attached) (start : Span) where
    pub EatsHere-parse_routes : EatsHere (suc b) (Routes.parse_routes self leading start)
    unfolding Routes.parse_routes
    EatsHere-parse_routes =
        search (before, after, Keeps-parse_use_clause, Keeps-looping, Turns-next_route) depth 20

    pub EatsHere-parse_bare_route : EatsHere (suc b) (Routes.parse_bare_route self leading start)
    unfolding Routes.parse_bare_route
    EatsHere-parse_bare_route =
        search (before, after, EatsHere-parse_socket, EatsHere-parse_route) depth 12
