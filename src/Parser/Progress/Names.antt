-- ===== src/Parser/Progress/Names.antt =====
-- src/parser.rs: the parsers of names and of lists, each as one of the kinds of action.
use jwc_lang.Prelude.{ℕ, suc, Option, none, some, List, Bytes}
use jwc_lang.Token.{Tok, Span, ident, local, str}
use jwc_lang.Ast.Tree.{Ident, QualifiedTable}
use jwc_lang.Parser.Action.{Action, Test}
use jwc_lang.Parser.Names
use jwc_lang.Parser.Names.{Parsers}
use jwc_lang.Parser.Progress.{Keeps, Eats, EatsHere, Turns}
use jwc_lang.Parser.Progress.Rules.{Keeps-looping, Keeps-Eats, EatsHere-Eats}
use jwc_lang.Parser.Progress.Tokens.{Eats-looking}
use jwc_lang.Parser.Progress.Expect.{
  before, after, turning, Keeps-after, Eats-after, EatsHere-take_ident, Eats-unexpected,
}

module _ {A : Type 0} (b : ℕ) (item : Action A) where
  Turns-next_item : Keeps b item → (xs : List A) → Turns (suc b) (Names.next_item item xs)
  unfolding Names.next_item
  Turns-next_item k xs = search (turning, before, after) depth 12

  pub Keeps-more_items : Keeps b item → (xs : List A) → Keeps (suc b) (Names.more_items item xs)
  unfolding Names.more_items
  Keeps-more_items k xs = Keeps-looping (suc b) (Names.next_item item) xs (Turns-next_item k)

  pub Keeps-some_items : Keeps b item → Keeps b (Names.some_items item)
  unfolding Names.some_items
  Keeps-some_items k = search (after, Keeps-after, Keeps-more_items)

  pub Keeps-items_before : Keeps b item → (t : Tok) → Keeps b (Names.items_before t item)
  unfolding Names.items_before
  Keeps-items_before k t = search (after, Keeps-some_items)

pub Eats-some_items :
    {A : Type 0} (b : ℕ) (item : Action A)
    → Eats (suc (suc b)) item
    → Keeps b item
    → Eats (suc (suc b)) (Names.some_items item)
unfolding Names.some_items
Eats-some_items b item e k = search (before, Keeps-more_items)

module _ (b : ℕ) where
  pub Eats-parse_qualified_table : Eats (suc b) Names.parse_qualified_table
  unfolding Names.parse_qualified_table
  Eats-parse_qualified_table = search (before, after) depth 20

  pub Eats-parse_ident_list_parens : Eats (suc b) Names.parse_ident_list_parens
  unfolding Names.parse_ident_list_parens
  Eats-parse_ident_list_parens = search (before, after, Keeps-some_items) depth 20

  pub Keeps-parse_flag : (t : Test) (s : Span) → Keeps b (Names.parse_flag t s)
  unfolding Names.parse_flag
  Keeps-parse_flag t s = search after depth 12

  pub Keeps-parse_nulls_order : Keeps b Names.parse_nulls_order
  unfolding Names.parse_nulls_order Names.nulls_word
  Keeps-parse_nulls_order = search after depth 20

  pub Keeps-unbound_write :
      (s : Span) (k p : Bytes) (t : QualifiedTable) → Keeps b (Names.unbound_write s k p t)
  unfolding Names.unbound_write
  Keeps-unbound_write s k p t = search after

  pub Keeps-bound_or :
      (o : Option Ident) (m : Action Ident) → Keeps b m → Keeps b (Names.bound_or o m)
  unfolding Names.bound_or
  Keeps-bound_or none m h = h
  Keeps-bound_or (some x) m h = search after

  EatsHere-spread_or_refuse : (t : Tok) → EatsHere (suc b) (Names.spread_or_refuse t)
  unfolding Names.spread_or_refuse
  EatsHere-spread_or_refuse (local n) = EatsHere-take_ident b n
  EatsHere-spread_or_refuse (ident n) = EatsHere-take_ident b n
  EatsHere-spread_or_refuse _ = search (before, after)

  pub Eats-parse_spread_source : Eats (suc b) Names.parse_spread_source
  unfolding Names.parse_spread_source Names.spread_or_refuse
  Eats-parse_spread_source =
      Eats-looking (suc b) Names.spread_or_refuse (λ t e. EatsHere-spread_or_refuse t)
        (search (before, after))

  EatsHere-key_or_refuse : (t : Tok) → EatsHere (suc b) (Names.key_or_refuse t)
  unfolding Names.key_or_refuse
  EatsHere-key_or_refuse (ident n) = EatsHere-take_ident b n
  EatsHere-key_or_refuse (str n) = EatsHere-take_ident b n
  EatsHere-key_or_refuse _ = search (EatsHere-Eats, Eats-unexpected)

  pub Eats-expect_ident_or_string_key : Eats (suc b) Names.expect_ident_or_string_key
  unfolding Names.expect_ident_or_string_key Names.key_or_refuse
  Eats-expect_ident_or_string_key =
      Eats-looking (suc b) Names.key_or_refuse (λ t e. EatsHere-key_or_refuse t)
        (search Eats-unexpected)

-- The same, where it does not matter that a token is taken.
module _ (b : ℕ) where
  pub Keeps-parse_qualified_table : Keeps b Names.parse_qualified_table
  Keeps-parse_qualified_table = Keeps-Eats b _ (Eats-after b _ (Eats-parse_qualified_table b))

  pub Keeps-parse_ident_list_parens : Keeps b Names.parse_ident_list_parens
  Keeps-parse_ident_list_parens = Keeps-Eats b _ (Eats-after b _ (Eats-parse_ident_list_parens b))

  pub Keeps-parse_spread_source : Keeps b Names.parse_spread_source
  Keeps-parse_spread_source = Keeps-Eats b _ (Eats-after b _ (Eats-parse_spread_source b))

  pub Keeps-parse_except_list : Keeps b Names.parse_except_list
  unfolding Names.parse_except_list
  Keeps-parse_except_list = search (after, Keeps-parse_ident_list_parens)

  pub Keeps-expect_ident_or_string_key : Keeps b Names.expect_ident_or_string_key
  Keeps-expect_ident_or_string_key =
      Keeps-Eats b _ (Eats-after b _ (Eats-expect_ident_or_string_key b))

pub ruleset names = (
  after, Keeps-parse_qualified_table, Keeps-parse_ident_list_parens, Keeps-parse_spread_source,
  Keeps-parse_except_list, Keeps-expect_ident_or_string_key, Keeps-parse_nulls_order,
  Keeps-unbound_write, Keeps-bound_or, Keeps-parse_flag, Keeps-some_items, Keeps-items_before,
)

-- The recursive calls may stay in place, with `b` tokens.
pub record Calls (b : ℕ) (self : Parsers) : Type 0 where
  pub expr : Keeps b self.expr
  pub ternary : Keeps b self.ternary
  pub not_expr : Keeps b self.not_expr
  pub unary : Keeps b self.unary
  pub shape : Keeps b self.shape
  pub type_of : Keeps b self.type_of
  pub block : Keeps b self.block
  pub statement : Keeps b self.statement
