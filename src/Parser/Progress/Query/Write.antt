-- ===== src/Parser/Progress/Query/Write.antt =====
-- src/parser.rs: `insert`, `update` and `delete` take tokens.
use jwc_lang.Prelude.{ℕ, suc}
use jwc_lang.Token.{Span}
use jwc_lang.Ast.Tree.{Ident, QualifiedTable}
use jwc_lang.Parser.Action.{Test}
use jwc_lang.Parser.Names.{Parsers}
use jwc_lang.Parser.Progress.{Keeps, Eats}
use jwc_lang.Parser.Progress.Rules.{Keeps-Eats}
use jwc_lang.Parser.Progress.Expect.{before, after, Eats-after}
use jwc_lang.Parser.Progress.Names.{names, Calls, Keeps-parse_flag}
use jwc_lang.Parser.Query.Write
use jwc_lang.Parser.Progress.Objects.{Eats-parse_object_entries}
use jwc_lang.Parser.Progress.Query.Shape.{Keeps-parse_clause}
use jwc_lang.Parser.Progress.Query.Join.{Keeps-parse_sorting}

module _ (b : ℕ) where
  Keeps-parse_write_binder : (t : Test) → Keeps b (Write.parse_write_binder t)
  unfolding Write.parse_write_binder
  Keeps-parse_write_binder t = search after depth 12

  Keeps-parse_of_binder : Keeps b Write.parse_of_binder
  unfolding Write.parse_of_binder
  Keeps-parse_of_binder = search after depth 12

  Keeps-parse_set_spread : (s : Span) → Keeps b (Write.parse_set_spread s)
  unfolding Write.parse_set_spread
  Keeps-parse_set_spread s = search names depth 12

  Keeps-parse_set_sign : Keeps b Write.parse_set_sign
  unfolding Write.parse_set_sign
  Keeps-parse_set_sign = search after depth 12

module _ (b : ℕ) (self : Parsers) (calls : Calls b self) where
  Keeps-parse_set_item : Keeps b (Write.parse_set_item self)
  unfolding Write.parse_set_item Write.parse_set_to
  Keeps-parse_set_item = search (after, Keeps-parse_set_spread, Keeps-parse_set_sign) depth 12

  Keeps-parse_set_clause : Keeps b (Write.parse_set_clause self)
  unfolding Write.parse_set_clause
  Keeps-parse_set_clause = search (names, Keeps-parse_set_item) depth 12

  Keeps-parse_conflict_action : (s : Span) → Keeps b (Write.parse_conflict_action self s)
  unfolding Write.parse_conflict_action
  Keeps-parse_conflict_action s = search (after, Keeps-parse_set_clause) depth 12

  Keeps-parse_conflict : Keeps b (Write.parse_conflict self)
  unfolding Write.parse_conflict
  Keeps-parse_conflict = search (names, Keeps-parse_conflict_action) depth 20

  Keeps-parse_projection : Keeps b (Write.parse_projection self)
  unfolding Write.parse_projection
  Keeps-parse_projection = search after depth 12

  Keeps-parse_insert_tail :
      (s : Span) (i : Ident) (t : QualifiedTable) → Keeps b (Write.parse_insert_tail self s i t)
  unfolding Write.parse_insert_tail
  Keeps-parse_insert_tail s i t =
      search
        (
          after,
          Keeps-Eats,
          Eats-after b,
          Eats-parse_object_entries,
          Keeps-parse_conflict,
          Keeps-parse_projection,
          Keeps-parse_flag,
        )
        depth 20

  Keeps-parse_write_tail : (s : Span) → Keeps b (Write.parse_write_tail self s)
  unfolding Write.parse_write_tail
  Keeps-parse_write_tail s =
      search
        (after, Keeps-parse_clause, Keeps-parse_projection, Keeps-parse_sorting, Keeps-parse_flag)
        depth 20

  Keeps-parse_update_tail :
      (s : Span) (i : Ident) (t : QualifiedTable) → Keeps b (Write.parse_update_tail self s i t)
  unfolding Write.parse_update_tail
  Keeps-parse_update_tail s i t =
      search (after, Keeps-parse_set_clause, Keeps-parse_write_tail) depth 12

  Keeps-parse_delete_tail :
      (s : Span) (i : Ident) (t : QualifiedTable) → Keeps b (Write.parse_delete_tail self s i t)
  unfolding Write.parse_delete_tail
  Keeps-parse_delete_tail s i t = search (after, Keeps-parse_write_tail) depth 12

  pub Eats-parse_insert : Eats (suc b) (Write.parse_insert self)
  unfolding Write.parse_insert
  Eats-parse_insert =
      search (before, names, Keeps-parse_write_binder, Keeps-parse_insert_tail) depth 20

  pub Eats-parse_update : Eats (suc b) (Write.parse_update self)
  unfolding Write.parse_update
  Eats-parse_update =
      search (before, names, Keeps-parse_of_binder, Keeps-parse_update_tail) depth 20

  pub Eats-parse_delete : Eats (suc b) (Write.parse_delete self)
  unfolding Write.parse_delete
  Eats-parse_delete =
      search (before, names, Keeps-parse_write_binder, Keeps-parse_delete_tail) depth 20
