-- ===== src/Parser/Progress/Expect.antt =====
-- src/parser.rs: the `expect` functions take a token or report an error.
use jwc_lang.Prelude.{
  ℕ, suc, ◌≡◌, refl, false, Option, none, some, Bytes, String, arith, Bool-cases, inl, inr,
  if◌then◌else◌,
}
use jwc_lang.Token.{Span, Tok, ident, str}
use jwc_lang.Parser.Action.{Parser, Action, ◌>>=◌, branch, pure, gets, stop, push_diag}
use jwc_lang.Parser.Cursor
use jwc_lang.Parser.Cursor.{is_eof}
use jwc_lang.Parser.Progress.{Keeps, Eats, EatsHere, WellFormed, Later-refl}
use jwc_lang.Parser.Progress.Rules.{
  Keeps-Stays, Stays, stays, InPlace, Keeps-less, Eats-less, Keeps-Eats, EatsHere-Eats, Keeps-pure,
  Keeps-gets, Keeps-branch, Eats-branch, Eats-branch_here, Keeps-branch_here, EatsHere-branch,
  Keeps-bind, Eats-first, Eats-second, EatsHere-first, EatsHere-gets, Turns-Eats, Turns-break,
  Turns-branch, Turns-branch_here, Turns-second, Keeps-looping,
}
use jwc_lang.Parser.Progress.Tokens.{
  Keeps-bump, EatsHere-bump, Keeps-push_diag, Keeps-err, Keeps-err_note, Eats-refuse, push-Reported,
  Eats-refuse_note, Keeps-looking, EatsHere-looking, Eats-looking, Keeps-attempt, Keeps-in_query,
  Solid-at, Solid-at_word, Solid-both, Solid-either,
}

module _ {A : Type 0} (b : ℕ) where
  pub Keeps-refuse :
      (code : String) (here : Span) (msg : Bytes) → Keeps b (Cursor.refuse {A = A} code here msg)
  Keeps-refuse code here msg = Keeps-Eats b _ (Eats-refuse b code here msg)

  pub Keeps-refuse_note :
      (code : String) (here : Span) (msg note : Bytes) (clause : String)
      → Keeps b (Cursor.refuse_note {A = A} code here msg note clause)
  Keeps-refuse_note code here msg note clause =
      Keeps-Eats b _ (Eats-refuse_note b code here msg note clause)

-- What is left to do may stay in place.
pub ruleset keeping = (
  Keeps-bind, Keeps-branch, Keeps-pure, Keeps-gets, Keeps-bump, Keeps-push_diag, Keeps-err,
  Keeps-err_note, Keeps-refuse, Keeps-refuse_note, Keeps-looking, Keeps-attempt, Keeps-in_query,
)

-- What is to be done must take a token.
pub ruleset eating = (
  Eats-first, Eats-second, Eats-branch_here, Eats-branch, EatsHere-first, EatsHere-gets,
  EatsHere-branch, EatsHere-bump, Eats-refuse, Eats-refuse_note, Eats-looking, EatsHere-looking,
  Solid-at, Solid-at_word, Solid-both, Solid-either, EatsHere-Eats,
)

-- What is to be done takes a token or ends the loop.
pub ruleset turning = (Turns-branch_here, Turns-branch, Turns-break, Turns-second, Turns-Eats)

module _ {A : Type 0} (b : ℕ) where
  pub Eats-unexpected :
      (code : String) (what : Bytes) (found : Tok)
      → Eats b (Cursor.unexpected {A = A} code what found)
  unfolding Cursor.unexpected
  Eats-unexpected code what found = search (keeping, eating)

-- A word that was removed is reported before the failure.
InPlace-removed :
    (s : Parser) (message : Option Bytes)
    → WellFormed s
    → InPlace s ((Cursor.report_removed message >>= λ found. if found then stop else pure tt) s)
unfolding Cursor.report_removed ◌>>=◌ stop pure gets push_diag
InPlace-removed s none w = (Later-refl s w, refl)
InPlace-removed s (some msg) w = push-Reported _ s w

pub Stays-refuse_removed : Stays Cursor.refuse_removed
unfolding Cursor.refuse_removed Cursor.check_removed_keyword Cursor.report_removed branch ◌>>=◌ stop
    pure gets push_diag Cursor.looking
Stays-refuse_removed = stays λ s w. elim (Bool-cases (Cursor.at_old_comment s)) [
  | inl old ↦ rw (InPlace, branch, old) (push-Reported _ s w)
  | inr other ↦
      rw (InPlace, branch, other) (InPlace-removed s (Cursor.removed_message (Cursor.peek s).tok) w)
]

module _ (b : ℕ) where
  pub Keeps-refuse_removed : Keeps b Cursor.refuse_removed
  Keeps-refuse_removed = Keeps-Stays b Cursor.refuse_removed Stays-refuse_removed

  Keeps-report_removed : (message : Option Bytes) → Keeps b (Cursor.report_removed message)
  unfolding Cursor.report_removed
  Keeps-report_removed none = search keeping
  Keeps-report_removed (some msg) = search keeping

  pub Keeps-check_removed_keyword : Keeps b Cursor.check_removed_keyword
  unfolding Cursor.check_removed_keyword
  Keeps-check_removed_keyword = search (keeping, Keeps-report_removed)

  pub Eats-expect : (t : Tok) → is_eof t ≡ false → Eats b (Cursor.expect t)
  unfolding Cursor.expect
  Eats-expect t h = search (eating, Keeps-refuse_removed, Eats-unexpected)

  pub Eats-expect_word : (w : Bytes) → Eats b (Cursor.expect_word w)
  unfolding Cursor.expect_word
  Eats-expect_word w = search (eating, Eats-unexpected)

  pub Keeps-eat : (t : Tok) → Keeps b (Cursor.eat t)
  unfolding Cursor.eat
  Keeps-eat t = search keeping

  pub Keeps-eat_word : (w : Bytes) → Keeps b (Cursor.eat_word w)
  unfolding Cursor.eat_word
  Keeps-eat_word t = search keeping

  pub EatsHere-take_ident : (w : Bytes) → EatsHere (suc b) (Cursor.take_ident w)
  unfolding Cursor.take_ident
  EatsHere-take_ident w = search (eating, keeping)

  pub Keeps-take_ident : (w : Bytes) → Keeps b (Cursor.take_ident w)
  unfolding Cursor.take_ident
  Keeps-take_ident w = search keeping

  EatsHere-ident_or_refuse : (t : Tok) → EatsHere (suc b) (Cursor.ident_or_refuse t)
  unfolding Cursor.ident_or_refuse
  EatsHere-ident_or_refuse (ident name) = EatsHere-take_ident name
  EatsHere-ident_or_refuse _ = search (EatsHere-Eats, Eats-unexpected)

  EatsHere-string_or_refuse : (t : Tok) → EatsHere (suc b) (Cursor.string_or_refuse t)
  unfolding Cursor.string_or_refuse
  EatsHere-string_or_refuse (str s) = search (eating, keeping)
  EatsHere-string_or_refuse _ = search (EatsHere-Eats, Eats-unexpected)

-- What holds with `b + 1` tokens holds with `b`.
pub Keeps-after : {A : Type 0} (b : ℕ) (m : Action A) → Keeps (suc b) m → Keeps b m
Keeps-after b m = Keeps-less b (suc b) m (omega arith)

pub Eats-after : {A : Type 0} (b : ℕ) (m : Action A) → Eats (suc b) m → Eats b m
Eats-after b m = Eats-less b (suc b) m (omega arith)

pub Eats-expect_ident : (b : ℕ) → Eats b Cursor.expect_ident
unfolding Cursor.expect_ident Cursor.ident_or_refuse
Eats-expect_ident b = Eats-after b _ (
    Eats-looking (suc b) Cursor.ident_or_refuse (λ t e. EatsHere-ident_or_refuse b t)
      (search Eats-unexpected))

pub Eats-expect_string : (b : ℕ) → Eats b Cursor.expect_string
unfolding Cursor.expect_string Cursor.string_or_refuse
Eats-expect_string b = Eats-after b _ (
    Eats-looking (suc b) Cursor.string_or_refuse (λ t e. EatsHere-string_or_refuse b t)
      (search Eats-unexpected))

-- The same, where it does not matter that a token is taken.
module _ (b : ℕ) where
  pub Keeps-unexpected :
      {A : Type 0} (code : String) (what : Bytes) (found : Tok)
      → Keeps b (Cursor.unexpected {A = A} code what found)
  Keeps-unexpected code what found = Keeps-Eats b _ (Eats-unexpected b code what found)

  pub Keeps-expect : (t : Tok) → is_eof t ≡ false → Keeps b (Cursor.expect t)
  Keeps-expect t h = Keeps-Eats b _ (Eats-expect b t h)

  pub Keeps-expect_word : (w : Bytes) → Keeps b (Cursor.expect_word w)
  Keeps-expect_word w = Keeps-Eats b _ (Eats-expect_word b w)

  pub Keeps-expect_ident : Keeps b Cursor.expect_ident
  Keeps-expect_ident = Keeps-Eats b _ (Eats-expect_ident b)

  pub Keeps-expect_string : Keeps b Cursor.expect_string
  Keeps-expect_string = Keeps-Eats b _ (Eats-expect_string b)

pub ruleset after = (
  keeping, Keeps-unexpected, Keeps-expect, Keeps-expect_word, Keeps-expect_ident,
  Keeps-expect_string, Keeps-eat, Keeps-eat_word, Keeps-refuse_removed,
)

pub ruleset before = (
  eating, Eats-unexpected, Eats-expect, Eats-expect_word, Eats-expect_ident, Eats-expect_string,
  EatsHere-take_ident,
)
