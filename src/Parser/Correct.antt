-- ===== src/Parser/Correct.antt =====
-- src/parser.rs: what is promised of expressions, types, statements and blocks together.
use jwc_lang.Prelude.{ℕ, zero, suc, ◌≤◌, ◌<◌, ◌≡◌, length, arith}
use jwc_lang.Parser.Action.{Parser, Outcome, Action, done, failed, exhausted, spent}
use jwc_lang.Parser.Names.{Parsers}
use jwc_lang.Parser.Grammar.{parsers, with_fuel, parse_expr, parse_type, parse_stmt, parse_block}
use jwc_lang.Parser.Progress.{WellFormed, Step, Keeps, keeps, Eats}
use jwc_lang.Parser.Progress.Rules.{Keeps-Eats, of_Eats}
use jwc_lang.Parser.Progress.Names.{Calls}
use jwc_lang.Parser.Progress.Query.Shape.{Eats-parse_object_shape}
use jwc_lang.Parser.Progress.Expr.Operators.{Eats-parse_unary, Eats-parse_not, Eats-parse_ternary}
use jwc_lang.Parser.Progress.Expr.Whole.{Eats-parse_expr}
use jwc_lang.Parser.Progress.Types.{Eats-parse_type}
use jwc_lang.Parser.Progress.Stmt.Block.{Eats-parse_stmt, Eats-parse_block}

Keeps-spent : {A : Type 0} → Keeps {A = A} 0 spent
Keeps-spent = keeps (λ s w here r. absurd (omega arith))

pub Calls-parsers : (n : ℕ) → Calls n (parsers n)
unfolding parsers
Calls-parsers zero = record {
  expr = Keeps-spent;
  ternary = Keeps-spent;
  not_expr = Keeps-spent;
  unary = Keeps-spent;
  shape = Keeps-spent;
  type_of = Keeps-spent;
  block = Keeps-spent;
  statement = Keeps-spent;
}
Calls-parsers (suc n) =
    let calls : Calls n (parsers n) = Calls-parsers n in
    record {
      expr = Keeps-Eats _ _ (Eats-parse_expr n (parsers n) calls);
      ternary = Keeps-Eats _ _ (Eats-parse_ternary n (parsers n) calls);
      not_expr = Keeps-Eats _ _ (Eats-parse_not n (parsers n) calls);
      unary = Keeps-Eats _ _ (Eats-parse_unary n (parsers n) calls);
      shape = Keeps-Eats _ _ (Eats-parse_object_shape n (parsers n) calls);
      type_of = Keeps-Eats _ _ (Eats-parse_type n (parsers n) calls);
      block = Keeps-Eats _ _ (Eats-parse_block n (parsers n) calls);
      statement = Keeps-Eats _ _ (Eats-parse_stmt n (parsers n) calls);
    }

module _ {A : Type 0} (m : Parsers → Action A)
    (eat : (b : ℕ) (self : Parsers) → Calls b self → Eats (suc b) (m self)) where
  pub with_fuel-Step : (s : Parser) → WellFormed s → Step (λ _. 1) s (with_fuel m s)
  unfolding with_fuel
  with_fuel-Step s w =
      let n = length s.toks in
      of_Eats (suc n) (m (parsers n)) (eat n (parsers n) (Calls-parsers n)) s w tt (omega arith)

-- What a condition on an action says of each of the four.
abbrev pub EachParser : ((A : Type 0) → Action A → Type 0) → Type 0
EachParser P = P _ parse_expr × P _ parse_type × P _ parse_stmt × P _ parse_block

each_Step : (s : Parser) → WellFormed s → EachParser (λ A m. Step (λ _. 1) s (m s))
unfolding parse_expr parse_type parse_stmt parse_block
each_Step s w = (
  with_fuel-Step _ Eats-parse_expr s w,
  with_fuel-Step _ Eats-parse_type s w,
  with_fuel-Step _ Eats-parse_stmt s w,
  with_fuel-Step _ Eats-parse_block s w,
)

-- The outcome is a value or an error, and its parser has `P`; for a value it has `Q`.
module _ {A : Type 0} (P Q : Parser → Type 0) where
  abbrev pub Ends : Outcome A → Type 0
  Ends (done a s) = P s × Q s
  Ends (failed s) = P s
  Ends exhausted = ⊥

abbrev pub Always : Parser → Type 0
Always s = Unit

-- The cursor, in an outcome from `s`: at a token, and not before where it was.
abbrev pub Ahead : Parser → Parser → Type 0
Ahead s s' = (s.i ≤ s'.i) × (s'.i < length s.toks)

-- What stays as it is.
abbrev pub SameInput : Parser → Parser → Type 0
SameInput s s' = (s'.toks ≡ s.toks) × (s'.query_depth ≡ s.query_depth)

module _ {A : Type 0} (s : Parser) where
  pub Ends-Ahead : (o : Outcome A) → Step (λ _. 1) s o → Ends (Ahead s) (λ s'. s.i < s'.i) o
  Ends-Ahead (done a s') l = ((omega (arith, l.moved), l.inside), omega (arith, l.moved))
  Ends-Ahead (failed s') r = (omega (arith, r.later.moved), r.later.inside)
  Ends-Ahead exhausted l = l

  Ends-SameInput : (o : Outcome A) → Step (λ _. 1) s o → Ends (SameInput s) Always o
  Ends-SameInput (done a s') l = ((l.same_toks, l.depth), tt)
  Ends-SameInput (failed s') r = (r.later.same_toks, r.later.depth)
  Ends-SameInput exhausted l = l

  -- An error has a report more, and a value no report less.
  abbrev pub Tells : Outcome A → Type 0
  Tells (done a s') = length s.diags ≤ length s'.diags
  Tells (failed s') = length s.diags < length s'.diags
  Tells exhausted = ⊥

  pub Tells-Step : (o : Outcome A) → Step (λ _. 1) s o → Tells o
  Tells-Step (done a s') l = l.said
  Tells-Step (failed s') r = r.report
  Tells-Step exhausted l = l

-- From a parser whose cursor is at one of its tokens, the last of which is `eof`, the parsers of
-- expressions, types, statements and blocks all return: they never use up a fuel of one call for
-- each token. The cursor ends at one of the tokens and never goes back, and where they return a
-- value it has gone on by a token at least.
pub parsers_return :
    (s : Parser) → WellFormed s → EachParser (λ A m. Ends (Ahead s) (λ s'. s.i < s'.i) (m s))
parsers_return s w =
    let (e, t, st, b) = each_Step s w in
    (Ends-Ahead s _ e, Ends-Ahead s _ t, Ends-Ahead s _ st, Ends-Ahead s _ b)

-- Where the parser of expressions, of types, of statements or of blocks fails, it has added a
-- diagnostic at least to those there were, and where it returns a value none is taken away.
pub parsers_report : (s : Parser) → WellFormed s → EachParser (λ A m. Tells s (m s))
parsers_report s w =
    let (e, t, st, b) = each_Step s w in
    (Tells-Step s _ e, Tells-Step s _ t, Tells-Step s _ st, Tells-Step s _ b)

-- With a value or with an error, the parsers of expressions, types, statements and blocks leave the
-- tokens as they were and the depth of queries at what it was: each query that was entered has been
-- left again.
pub parsers_restore :
    (s : Parser) → WellFormed s → EachParser (λ A m. Ends (SameInput s) Always (m s))
parsers_restore s w =
    let (e, t, st, b) = each_Step s w in
    (Ends-SameInput s _ e, Ends-SameInput s _ t, Ends-SameInput s _ st, Ends-SameInput s _ b)
