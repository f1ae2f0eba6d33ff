-- ===== src/Parser/Progress/Recover.antt =====
-- src/parser.rs: a loop over members takes a token in each round, also behind a member that fails.
use jwc_lang.Prelude.{ℕ, suc, false, List, Option, none, some, refl, ◌≡◌, arith}
use jwc_lang.Parser.Action.{Action}
use jwc_lang.Parser.Progress.{Keeps, EatsHere, Turns}
use jwc_lang.Parser.Progress.Rules.{Keeps-looping}
use jwc_lang.Parser.Progress.Expect.{before, after, turning, Keeps-after}
use jwc_lang.Prelude.{Bool-cases, inl, inr, ◌==◌, ◌+◌, ◌-◌, ◌<◌, ◌≤◌, ap, length}
use jwc_lang.Parser.Action.{Parser, branch, pure, ◌>>=◌, gets}
use jwc_lang.Parser.Cursor.{at_eof, bump}
use jwc_lang.Parser.Recover
use jwc_lang.Parser.Progress.{
  eats_here, Later, WellFormed, Step, Later-trans, Later-WellFormed, Step-bind,
}
use jwc_lang.Parser.Progress.Rules.{of_Keeps, Turns-break, EatsHere-bind, Turns-until}
use jwc_lang.Parser.Progress.Tokens.{advance-Later_here, at_eof-lt}

module _ (b : ℕ) where
  Turns-next_skipped : (x : Unit {0}) → Turns (suc b) (Recover.next_skipped x)
  unfolding Recover.next_skipped
  Turns-next_skipped x = search (turning, Turns-until, before, after) depth 12

  pub Keeps-skip_to_semi_or_rbrace : Keeps b Recover.skip_to_semi_or_rbrace
  unfolding Recover.skip_to_semi_or_rbrace
  Keeps-skip_to_semi_or_rbrace = search (Keeps-after b, Keeps-looping, Turns-next_skipped)

  pub Keeps-keep_or_skip :
      {A : Type 0} (out : List A) (r : Option A) → Keeps b (Recover.keep_or_skip out r)
  unfolding Recover.keep_or_skip
  Keeps-keep_or_skip out none = search (after, Keeps-skip_to_semi_or_rbrace)
  Keeps-keep_or_skip out (some x) = search after

-- Where an action did not move, the cursor is taken ahead.
Step-forced :
    {A : Type 0} (a : A) (s s' : Parser)
    → WellFormed s
    → at_eof s ≡ false
    → Later 0 s s'
    → Step
        (λ _. 1)
        s
        ((branch (λ s₁. s₁.i == s.i) (bump >>= λ _. pure tt) (pure tt) >>= λ _. pure a) s')
unfolding branch ◌>>=◌ pure bump
Step-forced a s s' w here l = elim (Bool-cases (s'.i == s.i)) [
  | inl same ↦
      let lt = at_eof-lt s w here in
      let i_same : s'.i ≡ s.i = ground arith in
      let lt' : s'.i < length s'.toks - 1 = omega (arith, lt, i_same, ap length l.same_toks) in
      rw (Step, branch, same)
        (Later-trans {k = 1} (omega arith) l (advance-Later_here s' (Later-WellFormed w l) lt'))
  | inr moved ↦
      let i_ahead : s.i + 1 ≤ s'.i = ground (arith, l.moved) in
      rw (Step, branch, moved)
        (record {
          same_toks = l.same_toks;
          moved = i_ahead;
          inside = l.inside;
          said = l.said;
          depth = l.depth;
        })
]

pub EatsHere-stepping :
    {A : Type 0} (b : ℕ) (m : Action A) → Keeps b m → EatsHere b (Recover.stepping m)
unfolding Recover.stepping gets ◌>>=◌
EatsHere-stepping b m k = eats_here λ s w here r.
    Step-bind (λ _. 0) (λ _. 1) m _ s (m s) refl (of_Keeps b m k s w tt r)
      λ a s' l. Step-forced a s s' w here l

pub Turns-next_member :
    {A : Type 0} (b : ℕ) (item : Action A)
    → Keeps b item
    → (out : List A) → Turns b (Recover.next_member item out)
unfolding Recover.next_member
Turns-next_member b item k out =
    search (Turns-until, Turns-break, EatsHere-bind, after, EatsHere-stepping, Keeps-keep_or_skip)
