-- ===== src/Parser/Progress/Query/Select.antt =====
-- src/parser.rs: `select` takes tokens.
use jwc_lang.Prelude.{ℕ, suc, refl, ltb, Bool-cases, inl, inr}
use jwc_lang.Token.{Span}
use jwc_lang.Ast.Tree.{Ident, QualifiedTable}
use jwc_lang.Parser.Action.{branch, ◌>>=◌, pure, push_diag, gets}
use jwc_lang.Parser.Cursor.{at_eof}
use jwc_lang.Parser.Progress.Tokens.{push-Reported}
use jwc_lang.Parser.Progress.{Later-refl}
use jwc_lang.Parser.Progress.Rules.{Stays, stays, InPlace, EatsHere-Stays}
use jwc_lang.Parser.Names.{Parsers}
use jwc_lang.Parser.Progress.{Keeps, Eats, EatsHere, Turns}
use jwc_lang.Parser.Progress.Rules.{Keeps-looping}
use jwc_lang.Parser.Progress.Expect.{before, after, turning, Keeps-after}
use jwc_lang.Parser.Progress.Names.{names, Calls}
use jwc_lang.Parser.Query.Select
use jwc_lang.Parser.Query.Select.{
  Clause, Clauses, join_part, where_part, group_part, having_part, projection_part, order_part,
  page_part, limit_part, first_part,
}
use jwc_lang.Parser.Progress.Query.Shape.{
  Eats-parse_order_by, EatsHere-parse_clause, Eats-parse_page,
}
use jwc_lang.Parser.Progress.Query.Join.{Eats-parse_join}

Stays-report_late : (k : Clause) (c : Clauses) → Stays (Select.report_late k c)
unfolding Select.report_late branch ◌>>=◌ pure push_diag gets at_eof
Stays-report_late k c = stays λ s w. elim (Bool-cases (ltb (Select.phase_of k) c.phase)) [
  | inl late ↦ rw (InPlace, branch, late) ((push-Reported _ s w).later, refl)
  | inr timely ↦ rw (InPlace, branch, timely) (Later-refl s w, refl)
]

module _ (b : ℕ) where
  Keeps-parse_select_binder : Keeps b Select.parse_select_binder
  unfolding Select.parse_select_binder
  Keeps-parse_select_binder = search after depth 12

module _ (b : ℕ) (self : Parsers) (calls : Calls b self) where
  EatsHere-parse_part : (k : Clause) (c : Clauses) → EatsHere (suc b) (Select.parse_part self k c)
  unfolding Select.parse_part
  EatsHere-parse_part join_part c = search (before, after, Eats-parse_join) depth 12
  EatsHere-parse_part where_part c = search (before, after, EatsHere-parse_clause) depth 12
  EatsHere-parse_part group_part c = search (before, names) depth 12
  EatsHere-parse_part having_part c = search (before, after, EatsHere-parse_clause) depth 12
  EatsHere-parse_part projection_part c = search (before, after) depth 12
  EatsHere-parse_part order_part c = search (before, after, Eats-parse_order_by) depth 12
  EatsHere-parse_part page_part c = search (before, after, Eats-parse_page) depth 12
  EatsHere-parse_part limit_part c = search (before, after, EatsHere-parse_clause) depth 12
  EatsHere-parse_part first_part c = search (before, after) depth 12

  EatsHere-parse_late : (k : Clause) (c : Clauses) → EatsHere (suc b) (Select.parse_late self k c)
  unfolding Select.parse_late
  EatsHere-parse_late k c =
      EatsHere-Stays (suc b) _ _ (Stays-report_late k c)
        λ _. search (before, after, EatsHere-parse_part)

  Turns-next_clause : (c : Clauses) → Turns (suc b) (Select.next_clause self c)
  unfolding Select.next_clause Select.at_projection
  Turns-next_clause c = search (turning, before, EatsHere-parse_late) depth 20

  Keeps-parse_select_tail :
      (start : Span) (binder : Ident) (source : QualifiedTable)
      → Keeps (suc b) (Select.parse_select_tail self start binder source)
  unfolding Select.parse_select_tail
  Keeps-parse_select_tail start binder source =
      search (after, Keeps-looping, Turns-next_clause) depth 12

  pub Eats-parse_select : Eats (suc b) (Select.parse_select self)
  unfolding Select.parse_select
  Eats-parse_select =
      search (before, names, Keeps-parse_select_binder, Keeps-after b, Keeps-parse_select_tail)
        depth 20
