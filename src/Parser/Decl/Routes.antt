-- ===== src/Parser/Decl/Routes.antt =====
-- src/parser.rs: routes and sockets.
use jwc_lang.Prelude.{
  true, false, Option, none, some, List, [], ◌∷◌, ◌++◌, map, String, Bytes, codes, utf8,
}
use jwc_lang.Prelude.Loop.{Flow, again, break}
use jwc_lang.Token.{Span, to, same_bytes, shown, l_paren, r_paren, l_brace, r_brace}
use jwc_lang.Ast.Tree.{Ident, Attached, Block}
use jwc_lang.Ast.Decl.{RouteDecl, SocketDecl, RoutesDecl}
use jwc_lang.Parser.Action.{Action, pure, stop, gets, branch, ◌>>=◌, looping, either, attempt}
use jwc_lang.Parser.Cursor.{
  peek, bump, at, at_eof, at_word, span, attached, expect, expect_ident, expect_string, err_note,
}
use jwc_lang.Parser.Names.{Parsers}
use jwc_lang.Parser.Types.{is_among}
use jwc_lang.Parser.Recover.{stepping}
use jwc_lang.Parser.Decl.Recover.{recover_to_decl}
use jwc_lang.Parser.Decl.Service.{parse_names_after, add_ok}

unfoldable pub parse_use_clause : Action (List Ident)
parse_use_clause = parse_names_after (codes "use")

unfoldable pub methods : List Bytes
methods = map codes ("GET" ∷ "POST" ∷ "PUT" ∷ "PATCH" ∷ "DELETE" ∷ "HEAD" ∷ "OPTIONS" ∷ [])

unfoldable pub check_method : Ident → Action (Unit {0})
check_method method =
    branch (λ s. is_among method.name methods) (pure tt)
      (err_note "E0009" method.span (codes "`" ++ method.name ++ codes "` is not an HTTP method")
        (codes "one of GET, POST, PUT, PATCH, DELETE, HEAD, OPTIONS") "routing.md §2")

-- the token under the cursor, in the message of what stands there in its place
unfoldable pub report_found : String → Bytes → Bytes → String → Action (Unit {0})
report_found code what note clause = do
  here ← gets span
  found ← gets (λ s. (peek s).tok)
  err_note code here (codes "expected " ++ what ++ codes ", found " ++ shown found) note clause

-- the handlers of a socket, and the events that were seen
pub record Handlers : Type 0 where
  pub on_open : Option Block
  pub on_message : Option (Ident × Block)
  pub on_close : Option Block
  pub seen : List Bytes

unfoldable pub no_handlers : Handlers
no_handlers = record { on_open = none; on_message = none; on_close = none; seen = [] }

unfoldable pub check_event : Ident → List Bytes → Action (Unit {0})
check_event which seen =
    branch (λ s. is_among which.name seen)
      (err_note "E0020" which.span (codes "`on " ++ which.name ++ codes "` is declared twice")
        (codes "each of `open`, `message` and `close` may appear once") "routing.md §9.1")
      (pure tt)

unfoldable pub check_handlers : List Bytes → Span → Action (Unit {0})
check_handlers [] here =
    err_note "E0021" here (codes "this `socket` declares no handler")
      (utf8
        "add at least one of `on open`, `on message (m)`, `on close` — as it stands the endpoint accepts the upgrade and then does nothing")
      "routing.md §9.1"
check_handlers (_ ∷ _) here = pure tt

unfoldable pub saw : Bytes → Handlers → Handlers
saw event x = record x { seen = x.seen ++ event ∷ [] }

module _ (self : Parsers) where
  unfoldable pub parse_route : Attached → Span → Action RouteDecl
  parse_route leading start = do
    _ ← bump
    method ← expect_ident
    _ ← check_method method
    suffix ← expect_string
    uses ← parse_use_clause
    body ← self.block
    pure (record {
      leading = leading;
      method = method;
      suffix = suffix.0;
      suffix_span = suffix.1;
      uses = uses;
      body = body.0;
      span = to start body.1;
    })

  unfoldable pub parse_on_message : Handlers → Action Handlers
  parse_on_message x = do
    _ ← expect l_paren
    binder ← expect_ident
    _ ← expect r_paren
    body ← self.block
    pure (record x { on_message = some (binder, body.0) })

  unfoldable pub parse_unknown_event : Ident → Handlers → Action Handlers
  parse_unknown_event which x = do
    _ ←
        err_note "E0019" which.span (codes "`on " ++ which.name ++ codes "` is not a socket event")
          (codes "one of `open`, `message`, `close`") "routing.md §9.1"
    _ ← attempt self.block
    pure (saw (codes "unknown") x)

  -- `match which.name.as_str() { … }`
  unfoldable pub parse_event : Ident → Handlers → Action Handlers
  parse_event which x =
      branch (λ s. same_bytes which.name (codes "open"))
        (do body ← self.block; pure (saw (codes "open") (record x { on_open = some body.0 })))
        (branch (λ s. same_bytes which.name (codes "close"))
          (do body ← self.block; pure (saw (codes "close") (record x { on_close = some body.0 })))
          (branch (λ s. same_bytes which.name (codes "message"))
            (parse_on_message (saw (codes "message") x)) (parse_unknown_event which x)))

  unfoldable pub next_handler : Handlers → Action (Flow Handlers Handlers)
  next_handler x = branch (either (at r_brace) at_eof) (pure (break x)) (
      branch (at_word (codes "on"))
        (do
          _ ← bump
          which ← expect_ident
          _ ← check_event which x.seen
          x' ← parse_event which x
          pure (again x'))
        (do
          _ ←
              report_found "E0019" (codes "`on`")
                (codes "a `socket` block contains `on open`, `on message (m)` and `on close`")
                "routing.md §9.1"
          _ ← recover_to_decl
          pure (break x)))

  unfoldable pub parse_socket : Attached → Span → Action SocketDecl
  parse_socket leading start = do
    _ ← bump
    suffix ← expect_string
    uses ← parse_use_clause
    _ ← expect l_brace
    x ← looping next_handler no_handlers
    close ← expect r_brace
    _ ← check_handlers x.seen (to start close.span)
    pure (record {
      leading = leading;
      suffix = suffix.0;
      suffix_span = suffix.1;
      uses = uses;
      on_open = x.on_open;
      on_message = x.on_message;
      on_close = x.on_close;
      span = to start close.span;
    })

  -- one round of the members of a `routes` block
  unfoldable pub next_route :
      List RouteDecl × List SocketDecl
      → Action (Flow (List RouteDecl × List SocketDecl) (List RouteDecl × List SocketDecl))
  next_route x = branch (either (at r_brace) at_eof) (pure (break x)) (
      branch (at_word (codes "socket"))
        (do
          s ←
              stepping (do
                leading ← gets attached
                start ← gets span
                attempt (parse_socket leading start))
          pure (again (x.0, add_ok x.1 s)))
        (branch (at_word (codes "route"))
          (do
            r ←
                stepping (do
                  leading ← gets attached
                  start ← gets span
                  attempt (parse_route leading start))
            pure (again (add_ok x.0 r, x.1)))
          (do
            _ ←
                report_found "E0008" (codes "`route` or `socket`")
                  (codes
                    "a `routes` block contains only `route` and `socket` declarations; blocks do not nest")
                  "routing.md §1.1"
            _ ← recover_to_decl
            pure (break x))))

  unfoldable pub parse_routes : Attached → Span → Action RoutesDecl
  parse_routes leading start = do
    _ ← bump
    prefix ← expect_string
    uses ← parse_use_clause
    _ ← expect l_brace
    x ← looping next_route ([], [])
    close ← expect r_brace
    pure (record {
      leading = leading;
      prefix = prefix.0;
      prefix_span = prefix.1;
      uses = uses;
      routes = x.0;
      sockets = x.1;
      bare = false;
      span = to start close.span;
    })

  unfoldable pub bare_routes :
      Attached → Span → List RouteDecl → List SocketDecl → Span → RoutesDecl
  bare_routes leading start routes sockets stop = record {
    leading = leading;
    prefix = [];
    prefix_span = start;
    uses = [];
    routes = routes;
    sockets = sockets;
    bare = true;
    span = to start stop;
  }

  unfoldable pub parse_bare_route : Attached → Span → Action RoutesDecl
  parse_bare_route leading start =
      branch (at_word (codes "socket"))
        (do s ← parse_socket leading start; pure (bare_routes leading start [] (s ∷ []) s.span))
        (do r ← parse_route leading start; pure (bare_routes leading start (r ∷ []) [] r.span))
