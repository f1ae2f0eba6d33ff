-- ===== src/Parser/Action.antt =====
-- src/parser.rs, `struct Parser` and `PResult`: an action reads and changes the parser, and returns
-- a value or fails; what it changed stays changed either way. `exhausted` has no counterpart in the
-- program: it is the run of a model function whose fuel is used up.
use jwc_lang.Prelude.{
  ℕ, zero, suc, ◌+◌, ◌-◌, Bool, true, false, not, ◌&&◌, ◌||◌, Option, none, some, List, [], ◌∷◌,
  ◌++◌, length,
}
use jwc_lang.Prelude.Loop.{Flow, again, break}
use jwc_lang.Token.{Token}
use jwc_lang.Diag.{Diagnostic}

pub record Parser : Type 0 where
  pub toks : List Token
  pub i : ℕ
  pub query_depth : ℕ
  pub diags : List Diagnostic

pub data Outcome (A : Type 0) : Type 0 where
  done : A → Parser → Outcome A
  failed : Parser → Outcome A
  exhausted : Outcome A

abbrev pub Action : Type 0 → Type 0
Action A = Parser → Outcome A

-- a condition on the parser
abbrev pub Test : Type 0
Test = Parser → Bool

module _ {A : Type 0} where
  unfoldable pub pure : A → Action A
  pure a s = done a s

  -- `return Err(())`
  unfoldable pub stop : Action A
  stop s = failed s

  unfoldable pub spent : Action A
  spent s = exhausted

  unfoldable pub gets : (Parser → A) → Action A
  gets f s = done (f s) s

  -- `if t { then_do } else { else_do }`
  unfoldable pub branch : Test → Action A → Action A → Action A
  branch t then_do else_do s = elim (t s) [ true ↦ then_do s | false ↦ else_do s ]

  -- `match m { Ok(a) => Some(a), Err(()) => None }`
  unfoldable pub settled : Outcome A → Outcome (Option A)
  settled (done a s) = done (some a) s
  settled (failed s) = done none s
  settled exhausted = exhausted

  unfoldable pub attempt : Action A → Action (Option A)
  unfolding settled
  attempt m s = settled (m s)

  -- `self.query_depth += 1; let r = m; self.query_depth -= 1; r`
  unfoldable pub shallower : Outcome A → Outcome A
  shallower (done a s) = done a (record s { query_depth = s.query_depth - 1 })
  shallower (failed s) = failed (record s { query_depth = s.query_depth - 1 })
  shallower exhausted = exhausted

  unfoldable pub in_query : Action A → Action A
  unfolding shallower
  in_query m s = shallower (m (record s { query_depth = s.query_depth + 1 }))

infixl 5 ◌>>=◌ ◌>>◌
unfoldable pub ◌>>=◌ : {A B : Type 0} → Action A → (A → Action B) → Action B
◌>>=◌ m f s = elim (m s) [ done a s' ↦ f a s' | failed s' ↦ failed s' | exhausted ↦ exhausted ]

abbrev pub ◌>>◌ : {A B : Type 0} → Action A → Action B → Action B
m >> k = m >>= λ _. k

-- `match m { Ok(a) => Some(a)` where the branch is not taken: `None`
abbrev pub given : {A : Type 0} → Test → Action A → Action (Option A)
given t m = branch t (m >>= λ a. pure (some a)) (pure none)

unfoldable pub push_diag : Diagnostic → Action (Unit {0})
push_diag d s = done tt (record s { diags = s.diags ++ d ∷ [] })

-- A `loop`: its body goes on with a new value or breaks with a result. Each round takes a token,
-- so a round for each token there is, is enough.
module _ {S R : Type 0} (body : S → Action (Flow S R)) where
  unfoldable pub rounds : ℕ → S → Action R
  unfolding ◌>>=◌
  rounds zero st = spent
  rounds (suc fuel) st = body st >>= elim [ again st' ↦ rounds fuel st' | break r ↦ pure r ]

  unfoldable pub looping : S → Action R
  unfolding rounds
  looping st s = rounds (length s.toks) st s

-- the tests of a condition, read at one parser
unfoldable pub both : Test → Test → Test
both t u s = t s && u s

unfoldable pub either : Test → Test → Test
either t u s = t s || u s

unfoldable pub fails : Test → Test
fails t s = not (t s)
