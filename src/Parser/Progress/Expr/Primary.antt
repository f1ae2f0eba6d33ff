-- ===== src/Parser/Progress/Expr/Primary.antt =====
-- src/parser.rs: primary and postfix expressions take tokens.
use jwc_lang.Prelude.{ℕ, suc, List, Bytes}
use jwc_lang.Token.{Tok}
use jwc_lang.Ast.Tree.{Node, Expr, Ident}
use jwc_lang.Parser.Names.{Parsers}
use jwc_lang.Parser.Progress.{Keeps, Eats, EatsHere, Turns}
use jwc_lang.Parser.Progress.Rules.{EatsHere-Stays, Keeps-looping}
use jwc_lang.Parser.Progress.Expect.{Stays-refuse_removed, before, after, turning, Keeps-after}
use jwc_lang.Parser.Progress.Names.{names, Calls}
use jwc_lang.Token.{ident, local, int, decimal, str, raw_str, l_paren, l_brace, l_bracket}
use jwc_lang.Ast.Tree.{expr_kind}
use jwc_lang.Parser.Expr.Primary
use jwc_lang.Parser.Progress.Tokens.{Eats-looking}
use jwc_lang.Parser.Progress.Objects.{Eats-parse_object_entries}
use jwc_lang.Parser.Progress.Query.Select.{Eats-parse_select}
use jwc_lang.Parser.Progress.Query.Write.{Eats-parse_insert, Eats-parse_update, Eats-parse_delete}

module _ (b : ℕ) where
  EatsHere-parse_field : (e : Expr) → EatsHere (suc b) (Primary.parse_field e)
  unfolding Primary.parse_field
  EatsHere-parse_field e = search (before, after) depth 12

  EatsHere-parse_cast : (e : Expr) → EatsHere (suc b) (Primary.parse_cast e)
  unfolding Primary.parse_cast
  EatsHere-parse_cast e = search (before, after) depth 12

  EatsHere-parse_leaf : (k : Node expr_kind) → EatsHere (suc b) (Primary.parse_leaf k)
  unfolding Primary.parse_leaf
  EatsHere-parse_leaf k = search (before, after) depth 12

  EatsHere-leaf_at_ident :
      (k : Ident → Node expr_kind) (w : Bytes) → EatsHere (suc b) (Primary.leaf_at_ident k w)
  unfolding Primary.leaf_at_ident
  EatsHere-leaf_at_ident k w = search (before, after) depth 12

  EatsHere-parse_name : (w : Bytes) → EatsHere (suc b) (Primary.parse_name w)
  unfolding Primary.parse_name
  EatsHere-parse_name w =
      EatsHere-Stays (suc b) _ _ Stays-refuse_removed λ _. EatsHere-leaf_at_ident _ w

module _ (b : ℕ) (self : Parsers) (calls : Calls b self) where
  EatsHere-parse_index : (e : Expr) → EatsHere (suc b) (Primary.parse_index self e)
  unfolding Primary.parse_index
  EatsHere-parse_index e = search (before, after) depth 12

  Keeps-parse_call_args : Keeps b (Primary.parse_call_args self)
  unfolding Primary.parse_call_args
  Keeps-parse_call_args = search names depth 12

  EatsHere-parse_call : (e : Expr) → EatsHere (suc b) (Primary.parse_call self e)
  unfolding Primary.parse_call
  EatsHere-parse_call e = search (before, after, Keeps-parse_call_args) depth 12

  Turns-next_postfix : (e : Expr) → Turns (suc b) (Primary.next_postfix self e)
  unfolding Primary.next_postfix
  Turns-next_postfix e =
      search
        (
          turning, before, after, EatsHere-parse_field, EatsHere-parse_call, EatsHere-parse_index,
          EatsHere-parse_cast,
        )
        depth 16

  Turns-next_array_item : (items : List Expr) → Turns (suc b) (Primary.next_array_item self items)
  unfolding Primary.next_array_item
  Turns-next_array_item items = search (turning, before, after) depth 16

  Keeps-parse_array_items : Keeps b (Primary.parse_array_items self)
  unfolding Primary.parse_array_items
  Keeps-parse_array_items =
      search (after, Keeps-after b, Keeps-looping, Turns-next_array_item) depth 12

  EatsHere-parse_array : EatsHere (suc b) (Primary.parse_array self)
  unfolding Primary.parse_array
  EatsHere-parse_array = search (before, after, Keeps-parse_array_items) depth 12

  EatsHere-parse_object : EatsHere (suc b) (Primary.parse_object self)
  unfolding Primary.parse_object
  EatsHere-parse_object = search (before, after, Eats-parse_object_entries) depth 12

  EatsHere-parse_parens : EatsHere (suc b) (Primary.parse_parens self)
  unfolding Primary.parse_parens
  EatsHere-parse_parens = search (before, after) depth 12

  EatsHere-parse_word : (w : Bytes) → EatsHere (suc b) (Primary.parse_word self w)
  unfolding Primary.parse_word
  EatsHere-parse_word w =
      search
        (
          before, after, EatsHere-parse_leaf, EatsHere-parse_name, Eats-parse_select,
          Eats-parse_insert, Eats-parse_update, Eats-parse_delete,
        )
        depth 20

  EatsHere-primary_at : (t : Tok) → EatsHere (suc b) (Primary.primary_at self t)
  unfolding Primary.primary_at
  EatsHere-primary_at (int n) = EatsHere-parse_leaf b _
  EatsHere-primary_at (decimal n) = EatsHere-parse_leaf b _
  EatsHere-primary_at (str s) = EatsHere-parse_leaf b _
  EatsHere-primary_at (raw_str s) = EatsHere-parse_leaf b _
  EatsHere-primary_at (local n) = EatsHere-leaf_at_ident b _ n
  EatsHere-primary_at l_brace = EatsHere-parse_object
  EatsHere-primary_at l_bracket = EatsHere-parse_array
  EatsHere-primary_at l_paren = EatsHere-parse_parens
  EatsHere-primary_at (ident w) = EatsHere-parse_word w
  EatsHere-primary_at _ = search before

  Eats-parse_primary : Eats (suc b) (Primary.parse_primary self)
  unfolding Primary.parse_primary Primary.primary_at
  Eats-parse_primary =
      Eats-looking (suc b) (Primary.primary_at self) (λ t e. EatsHere-primary_at t) (search before)

  pub Eats-parse_postfix : Eats (suc b) (Primary.parse_postfix self)
  unfolding Primary.parse_postfix
  Eats-parse_postfix =
      search (before, after, Eats-parse_primary, Keeps-after b, Keeps-looping, Turns-next_postfix)
        depth 12
