-- ===== src/Parser/Progress/Rules/Loops.antt =====
-- src/parser.rs: the turns of a loop, and when the loop ends.
use jwc_lang.Prelude.{
  ℕ, zero, suc, ◌≤◌, ◌<◌, ◌≡◌, refl, false, ◌||◌, length, arith, Bool-cases, inl, inr,
}
use jwc_lang.Prelude.Loop.{Flow, again, break}
use jwc_lang.Parser.Action.{Parser, Action, Test, pure, branch, either, ◌>>=◌, rounds, looping}
use jwc_lang.Parser.Cursor.{at_eof}
use jwc_lang.Parser.Progress.{
  WellFormed, remaining, Step, Sound, Anywhere, flow_grade, Keeps, keeps, Eats, eats, EatsHere,
  eats_here, Turns, turns, Solid, solid, Later-refl, Later-WellFormed, Later-trans, remaining-Later,
  Step-from, Step-bind,
}
use jwc_lang.Parser.Progress.Rules.Sequence.{
  Sound-bind, Sound-branch, Sound-weaken, zero_grade, one_grade,
}

pub flow_grade-le : {S R : Type 0} (a : Flow S R) → flow_grade a ≤ 1
flow_grade-le (again _) = omega arith
flow_grade-le (break _) = omega arith

module _ {S R : Type 0} (b : ℕ) where
  pub of_Turns : (m : Action (Flow S R)) → Turns b m → Sound flow_grade b Anywhere m
  of_Turns m (turns p) = p

  pub Turns-Eats : (m : Action (Flow S R)) → Eats b m → Turns b m
  Turns-Eats m (eats p) = turns (Sound-weaken one_grade flow_grade m flow_grade-le p)

  pub Turns-break : (x : R) → Turns b (pure {A = Flow S R} (break x))
  unfolding pure
  Turns-break x = turns (λ s w here r. Later-refl s w)

  pub Turns-branch :
      (t : Test) (m n : Action (Flow S R)) → Turns b m → Turns b n → Turns b (branch t m n)
  Turns-branch t m n (turns p) (turns q) = turns (Sound-branch flow_grade t m n (λ s h e. h) p q)

  pub Turns-branch_here :
      (t : Test) (m n : Action (Flow S R))
      → Solid t
      → EatsHere b m
      → Turns b n
      → Turns b (branch t m n)
  Turns-branch_here t m n (solid u) (eats_here p) (turns q) = turns (
      Sound-branch flow_grade t m n (λ s h e. u s e)
        (Sound-weaken one_grade flow_grade m flow_grade-le p) q)

  pub Turns-second :
      {A : Type 0} (m : Action A) (f : A → Action (Flow S R))
      → Keeps b m
      → ((a : A) → Turns b (f a))
      → Turns b (m >>= f)
  Turns-second m f (keeps p) q = turns (
      Sound-bind b b zero_grade 0 flow_grade flow_grade m f (λ a. omega arith) (λ a. omega arith)
        (omega arith) p (λ a. of_Turns (f a) (q a)))

  -- With a round for each token that remains and one more, the loop ends.
  rounds-Keeps :
      (body : S → Action (Flow S R))
      → ((st : S) → Turns b (body st))
      → (fuel : ℕ) (st : S) (s : Parser) → WellFormed s
      → remaining s < b
      → remaining s < fuel
      → Step zero_grade s (rounds body fuel st s)
  unfolding rounds pure
  rounds-Keeps body p zero st s w r enough = absurd (omega arith)
  rounds-Keeps body p (suc fuel) st s w r enough =
      Step-bind flow_grade zero_grade (body st) _ s (body st s) refl
        (of_Turns (body st) (p st) s w tt r)
        elim [
          | again st' ↦ λ s' l.
              Step-from zero_grade zero_grade (rounds body fuel st' s') (λ a. omega arith)
                (Later-trans {k = 0} {m = 0} (omega arith) l (Later-refl s' (Later-WellFormed w l)))
                (rounds-Keeps body p fuel st' s' (Later-WellFormed w l)
                  (remaining-Later l (omega arith)) (remaining-Later l (omega arith)))
          | break x ↦ λ s' l. l
        ]

  pub Keeps-looping :
      (body : S → Action (Flow S R)) (st : S)
      → ((st : S) → Turns b (body st))
      → Keeps b (looping body st)
  unfolding looping
  Keeps-looping body st p =
      keeps (λ s w here r. rounds-Keeps body p (length s.toks) st s w r (omega (arith, w.inside)))

-- A loop that stops at the end has a token to take in its other branch.
pub Turns-before_eof :
    {S R : Type 0} (b : ℕ) (m n : Action (Flow S R))
    → Turns b m
    → EatsHere b n
    → Turns b (branch at_eof m n)
unfolding branch
Turns-before_eof b m n (turns p) (eats_here q) = turns λ s w here r. elim (Bool-cases (at_eof s)) [
  | inl over ↦ rw (Step, branch, over) (p s w tt r)
  | inr open' ↦
      rw (Step, branch, open')
        (Step-from one_grade flow_grade (n s) (λ a. omega (arith, flow_grade-le a)) (Later-refl s w)
          (q s w open' r))
]

-- The same, where it stops at another place too.
pub Turns-until :
    {S R : Type 0} (b : ℕ) (t : Test) (m n : Action (Flow S R))
    → Turns b m
    → EatsHere b n
    → Turns b (branch (either t at_eof) m n)
unfolding branch either
Turns-until b t m n (turns p) (eats_here q) = turns λ s w here r.
    elim (Bool-cases (t s || at_eof s)) [
      | inl over ↦ rw (Step, branch, over) (p s w tt r)
      | inr open' ↦
          let here' : at_eof s ≡ false = ground arith in
          rw (Step, branch, open')
            (Step-from one_grade flow_grade (n s) (λ a. omega (arith, flow_grade-le a))
              (Later-refl s w) (q s w here' r))
    ]
