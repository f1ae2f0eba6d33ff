-- ===== src/Parser/Progress/Decl/Middleware.antt =====
-- src/parser.rs: middleware takes tokens.
use jwc_lang.Prelude.{ℕ, suc, List, Option}
use jwc_lang.Token.{Span, Tok}
use jwc_lang.Ast.Tree.{Node, Attached}
use jwc_lang.Parser.Names.{Parsers}
use jwc_lang.Parser.Progress.{Keeps, EatsHere, Turns}
use jwc_lang.Parser.Progress.Rules.{Keeps-looping}
use jwc_lang.Parser.Progress.Expect.{before, after}
use jwc_lang.Parser.Progress.Names.{names, Calls}
use jwc_lang.Token.{local}
use jwc_lang.Parser.Progress.Expect.{Keeps-take_ident}
use jwc_lang.Parser.Progress.Tokens.{EatsHere-bump}
use jwc_lang.Ast.Tree.{Block, stmt}
use jwc_lang.Parser.Decl.Middleware
use jwc_lang.Parser.Progress.Rules.{Turns-until, Turns-break, EatsHere-bind, EatsHere-branch}
use jwc_lang.Parser.Progress.Recover.{EatsHere-stepping, Keeps-keep_or_skip}
use jwc_lang.Parser.Progress.Decl.Service.{Keeps-parse_names_after}

module _ (b : ℕ) where
  Keeps-local_or_refuse : (t : Tok) → Keeps b (Middleware.local_or_refuse t)
  unfolding Middleware.local_or_refuse
  Keeps-local_or_refuse (local n) = Keeps-take_ident b n
  Keeps-local_or_refuse _ = search after

module _ (b : ℕ) (self : Parsers) (calls : Calls b self) where
  Keeps-parse_binder : Keeps b (Middleware.parse_binder self)
  unfolding Middleware.parse_binder
  Keeps-parse_binder = search (after, Keeps-local_or_refuse) depth 12

  Keeps-parse_binders : Keeps b (Middleware.parse_binders self)
  unfolding Middleware.parse_binders
  Keeps-parse_binders = search (names, Keeps-parse_binder) depth 12

  Keeps-parse_ctx_decl : Keeps b (Middleware.parse_ctx_decl self)
  unfolding Middleware.parse_ctx_decl
  Keeps-parse_ctx_decl = search after depth 12

  Keeps-parse_provides : Keeps b (Middleware.parse_provides self)
  unfolding Middleware.parse_provides
  Keeps-parse_provides = search (names, Keeps-parse_ctx_decl) depth 12

  Turns-next_middleware_member :
      (x : List (Node stmt) × Option Block) → Turns b (Middleware.next_middleware_member self x)
  unfolding Middleware.next_middleware_member
  Turns-next_middleware_member x =
      search
        (
          Turns-until, Turns-break, EatsHere-branch, EatsHere-bump, EatsHere-bind, after,
          EatsHere-stepping, Keeps-keep_or_skip, calls.statement,
        )
        depth 20

  pub EatsHere-parse_middleware :
      (leading : Attached) (start : Span)
      → EatsHere (suc b) (Middleware.parse_middleware self leading start)
  unfolding Middleware.parse_middleware
  EatsHere-parse_middleware leading start =
      search
        (
          before, after, Keeps-parse_binders, Keeps-parse_names_after, Keeps-parse_provides,
          Keeps-looping, Turns-next_middleware_member,
        )
        depth 20
