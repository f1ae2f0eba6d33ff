-- ===== src/Parser/Progress/Query/Shape.antt =====
-- src/parser.rs: projections, sort keys and pages take tokens.
use jwc_lang.Prelude.{ℕ, suc, List}
use jwc_lang.Token.{Span}
use jwc_lang.Ast.Tree.{Node, Ident, proj_field}
use jwc_lang.Parser.Names.{Parsers}
use jwc_lang.Parser.Query.Shape
use jwc_lang.Parser.Progress.{Keeps, Eats, EatsHere, Turns}
use jwc_lang.Parser.Progress.Rules.{Keeps-looping}
use jwc_lang.Parser.Progress.Expect.{before, after, turning, Keeps-after}
use jwc_lang.Parser.Progress.Names.{names, Calls}

module _ (b : ℕ) where
  Keeps-parse_column_field : (name : Ident) → Keeps b (Shape.parse_column_field name)
  unfolding Shape.parse_column_field
  Keeps-parse_column_field name = search after depth 12

  Keeps-parse_direction : (so_far : Span) → Keeps b (Shape.parse_direction so_far)
  unfolding Shape.parse_direction
  Keeps-parse_direction so_far = search after depth 12

module _ (b : ℕ) (self : Parsers) (calls : Calls b self) where
  Keeps-parse_alias_field : (name : Ident) → Keeps b (Shape.parse_alias_field self name)
  unfolding Shape.parse_alias_field
  Keeps-parse_alias_field name = search after depth 12

  Eats-parse_proj_field : Eats (suc b) (Shape.parse_proj_field self)
  unfolding Shape.parse_proj_field
  Eats-parse_proj_field =
      search (before, after, Keeps-parse_column_field, Keeps-parse_alias_field) depth 12

  Turns-next_proj_field :
      (fields : List (Node proj_field)) → Turns (suc b) (Shape.next_proj_field self fields)
  unfolding Shape.next_proj_field
  Turns-next_proj_field fields = search (turning, before, after, Eats-parse_proj_field) depth 12

  pub Eats-parse_object_shape : Eats (suc b) (Shape.parse_object_shape self)
  unfolding Shape.parse_object_shape
  Eats-parse_object_shape =
      search (before, after, Keeps-after b, Keeps-looping, Turns-next_proj_field) depth 12

  Keeps-parse_sort_key : Keeps b (Shape.parse_sort_key self)
  unfolding Shape.parse_sort_key
  Keeps-parse_sort_key = search (names, Keeps-parse_direction) depth 12

  pub Eats-parse_order_by : Eats (suc b) (Shape.parse_order_by self)
  unfolding Shape.parse_order_by
  Eats-parse_order_by = search (before, names, Keeps-parse_sort_key) depth 12

  pub EatsHere-parse_clause : EatsHere (suc b) (Shape.parse_clause self)
  unfolding Shape.parse_clause
  EatsHere-parse_clause = search (before, after) depth 12

  pub Keeps-parse_clause : Keeps b (Shape.parse_clause self)
  unfolding Shape.parse_clause
  Keeps-parse_clause = search after depth 12

  pub Eats-parse_page : Eats (suc b) (Shape.parse_page self)
  unfolding Shape.parse_page
  Eats-parse_page = search (before, after, Keeps-parse_clause) depth 20
