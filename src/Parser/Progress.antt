-- ===== src/Parser/Progress.antt =====
-- src/parser.rs: what an action may do to the parser. It never goes back, and keeps the tokens and
-- the query depth; what it fails on has been reported; and it takes no more fuel than it is given.
pub mod Rules
pub mod Tokens
pub mod Names
pub mod Objects
pub mod Query
pub mod Expr
pub mod Types
pub mod Recover
pub mod Stmt
pub mod Decl
pub mod Expect
pub mod Unfailing
use jwc_lang.Prelude.{
  ℕ, zero, suc, ◌+◌, ◌-◌, ◌≤◌, ◌<◌, ◌≡◌, refl, ap, Bool, true, false, Option, none, some, List, [],
  ◌∷◌, ◌++◌, length, arith, Bool-cases, inl, inr,
}
use jwc_lang.Prelude.Loop.{Flow, again, break}
use jwc_lang.Token.{Token, Tok, eof}
use jwc_lang.Diag.{Diagnostic}
use jwc_lang.Parser.Action.{
  Parser, Outcome, Action, Test, done, failed, exhausted, pure, stop, spent, gets, branch, attempt,
  shallower, in_query, ◌>>=◌, push_diag, rounds, looping,
}
use jwc_lang.Parser.Cursor.{token_at, at_eof, looking, peek}

-- The last token is `eof`, and the cursor is at one of the tokens.
pub record WellFormed (s : Parser) : Type 0 where
  pub inside : s.i < length s.toks
  pub ended : (token_at s.toks (length s.toks - 1)).tok ≡ eof

-- how many tokens are under or behind the cursor, `eof` not counted
abbrev pub remaining : Parser → ℕ
remaining s = length s.toks - 1 - s.i

-- From `s` to `s'` the cursor went `k` tokens ahead, at least.
pub record Later (k : ℕ) (s s' : Parser) : Type 0 where
  pub same_toks : s'.toks ≡ s.toks
  pub moved : s.i + k ≤ s'.i
  pub inside : s'.i < length s.toks
  pub said : length s.diags ≤ length s'.diags
  pub depth : s'.query_depth ≡ s.query_depth

-- An error is a report more.
pub record Reported (s s' : Parser) : Type 0 where
  pub later : Later 0 s s'
  pub report : length s.diags < length s'.diags

module _ {A : Type 0} (grade : A → ℕ) where
  abbrev pub Step : Parser → Outcome A → Type 0
  Step s (done a s') = Later (grade a) s s'
  Step s (failed s') = Reported s s'
  Step s exhausted = ⊥

  -- What holds of an action wherever fewer than `b` tokens remain.
  abbrev pub Sound : ℕ → (Parser → Type 0) → Action A → Type 0
  Sound b P m = (s : Parser) → WellFormed s → P s → remaining s < b → Step s (m s)

abbrev pub Anywhere : Parser → Type 0
Anywhere s = Unit

abbrev pub BeforeEof : Parser → Type 0
BeforeEof s = at_eof s ≡ false

abbrev pub flow_grade : {S R : Type 0} → Flow S R → ℕ
flow_grade (again _) = 1
flow_grade (break _) = 0

abbrev pub option_grade : {A : Type 0} → Option A → ℕ
option_grade (some _) = 1
option_grade none = 0

-- The four kinds of action: it may stay in place; it takes a token; it takes one unless it is at
-- the end; it takes one before it goes round again.
module _ {A : Type 0} where
  pub data Keeps (b : ℕ) (m : Action A) : Type 0 where
    keeps : Sound (λ _. 0) b Anywhere m → Keeps b m

  pub data Eats (b : ℕ) (m : Action A) : Type 0 where
    eats : Sound (λ _. 1) b Anywhere m → Eats b m

  pub data EatsHere (b : ℕ) (m : Action A) : Type 0 where
    eats_here : Sound (λ _. 1) b BeforeEof m → EatsHere b m

pub data Turns {S R : Type 0} (b : ℕ) (m : Action (Flow S R)) : Type 0 where
  turns : Sound flow_grade b Anywhere m → Turns b m

-- a test that fails at the end
pub data Solid (t : Test) : Type 0 where
  solid : ((s : Parser) → t s ≡ true → at_eof s ≡ false) → Solid t

pub Later-refl : (s : Parser) → WellFormed s → Later 0 s s
Later-refl s w = record {
  same_toks = refl;
  moved = omega arith;
  inside = w.inside;
  said = omega arith;
  depth = refl;
}

pub Later-WellFormed : {k : ℕ} {s s' : Parser} → WellFormed s → Later k s s' → WellFormed s'
Later-WellFormed w l = record { inside = rw l.same_toks l.inside; ended = rw l.same_toks w.ended }

pub Later-trans :
    {j k m : ℕ} {s s' s'' : Parser} → m ≤ j + k → Later j s s' → Later k s' s'' → Later m s s''
Later-trans le l l' = record {
  same_toks = cc (l.same_toks, l'.same_toks);
  moved = omega (arith, l.moved, l'.moved);
  inside = rw l.same_toks at l'.inside;
  said = omega (arith, l.said, l'.said);
  depth = cc (l.depth, l'.depth);
}

pub Reported-trans : {j : ℕ} {s s' s'' : Parser} → Later j s s' → Reported s' s'' → Reported s s''
Reported-trans l r = record {
  later = Later-trans (omega arith) l r.later;
  report = omega (arith, l.said, r.report);
}

-- What is left after a step.
pub remaining-Later :
    {k b : ℕ} {s s' : Parser} → Later k s s' → remaining s < k + b → remaining s' < b
remaining-Later l r = omega (arith, l.moved, l.inside, ap length l.same_toks)

module _ {A : Type 0} where
  -- A step from a later place is a step from here.
  pub Step-from :
      {j : ℕ} (g h : A → ℕ) {s s' : Parser} (o : Outcome A)
      → ((a : A) → h a ≤ j + g a)
      → Later j s s'
      → Step g s' o
      → Step h s o
  Step-from g h (done a s'') le l st = Later-trans (le a) l st
  Step-from g h (failed s'') le l st = Reported-trans l st
  Step-from g h exhausted le l st = st

  pub Step-bind :
      {B : Type 0} (g : B → ℕ) (h : A → ℕ) (m : Action B) (f : B → Action A) (s : Parser)
      → (o : Outcome B) → m s ≡ o
      → Step g s o
      → ((a : B) (s' : Parser) → Later (g a) s s' → Step h s (f a s'))
      → Step h s ((m >>= f) s)
  unfolding ◌>>=◌
  Step-bind g h m f s (done a s') e st k = rw (Step, ◌>>=◌, e) (k a s' st)
  Step-bind g h m f s (failed s') e st k = rw (Step, ◌>>=◌, e) st
  Step-bind g h m f s exhausted e st k = absurd st
