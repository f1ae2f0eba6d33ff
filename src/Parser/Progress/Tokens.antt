-- ===== src/Parser/Progress/Tokens.antt =====
-- src/parser.rs: the cursor's operations, each as one of the kinds of action.
use jwc_lang.Prelude.{
  ℕ, ◌+◌, ◌-◌, min, ◌<◌, ◌≡◌, refl, true, false, [], ◌∷◌, ◌++◌, length, arith, Bool-cases, inl, inr,
  Bytes, String, ltb, length-append,
}
use jwc_lang.Token.{Token, Tok, eof, Span, is_word}
use jwc_lang.Diag.{Diagnostic}
use jwc_lang.Parser.Action.{
  Parser, Outcome, Action, Test, done, failed, exhausted, stop, attempt, settled, shallower,
  in_query, ◌>>=◌, push_diag, both, either,
}
use jwc_lang.Parser.Cursor.{
  token_at, is_eof, at_eof, looking, peek, bump, advance, at, at_word, same_tok, kind_number, err,
  err_note, refuse, refuse_note,
}
use jwc_lang.Parser.Progress.{
  WellFormed, Later, Reported, Step, Sound, Anywhere, BeforeEof, Keeps, keeps, Eats, eats, EatsHere,
  eats_here, Solid, solid,
}
use jwc_lang.Parser.Progress.Rules

is_eof-eq : (t : Tok) → is_eof t ≡ true → t ≡ eof
is_eof-eq eof h = refl
is_eof-eq _ h = cc

-- Before the end the cursor has a token behind it.
pub at_eof-lt : (s : Parser) → WellFormed s → at_eof s ≡ false → s.i < length s.toks - 1
unfolding at_eof peek
at_eof-lt s w h = elim (Bool-cases (ltb s.i (length s.toks - 1))) [
  | inl before ↦ ground arith
  | inr after ↦
      let last : min s.i (length s.toks - 1) ≡ length s.toks - 1 = ground (arith, w.inside) in
      let ended : is_eof (token_at s.toks (length s.toks - 1)).tok ≡ true = rw w.ended refl in
      let open_end : is_eof (token_at s.toks (length s.toks - 1)).tok ≡ false = rw last at h in cc
]

advance-Later : (s : Parser) → WellFormed s → Later 0 s (advance s)
unfolding advance
advance-Later s w = ground (arith, w.inside)

pub advance-Later_here :
    (s : Parser) → WellFormed s → s.i < length s.toks - 1 → Later 1 s (advance s)
unfolding advance
advance-Later_here s w lt = ground (arith, w.inside)

pub push-Reported :
    (d : Diagnostic) (s : Parser)
    → WellFormed s
    → Reported s (record s { diags = s.diags ++ d ∷ [] })
push-Reported d s w = record {
  later = record {
    same_toks = refl;
    moved = omega arith;
    inside = w.inside;
    said = omega (arith, length-append s.diags (d ∷ []));
    depth = refl;
  };
  report = omega (arith, length-append s.diags (d ∷ []));
}

module _ (b : ℕ) where
  pub Keeps-bump : Keeps b bump
  unfolding bump
  Keeps-bump = keeps (λ s w here r. advance-Later s w)

  pub EatsHere-bump : EatsHere b bump
  unfolding bump
  EatsHere-bump = eats_here (λ s w here r. advance-Later_here s w (at_eof-lt s w here))

  pub Keeps-push_diag : (d : Diagnostic) → Keeps b (push_diag d)
  unfolding push_diag
  Keeps-push_diag d = keeps (λ s w here r. (push-Reported d s w).later)

  pub Keeps-err : (code : String) (at_span : Span) (msg : Bytes) → Keeps b (err code at_span msg)
  unfolding err push_diag
  Keeps-err code at_span msg = keeps (λ s w here r. (push-Reported _ s w).later)

  pub Keeps-err_note :
      (code : String) (at_span : Span) (msg note : Bytes) (clause : String)
      → Keeps b (err_note code at_span msg note clause)
  unfolding err_note
  Keeps-err_note code at_span msg note clause = Keeps-push_diag _

-- The depth that was raised is lowered again, after an error too.
Later-shallower :
    (s s' : Parser)
    → Later 0 (record s { query_depth = s.query_depth + 1 }) s'
    → Later 0 s (record s' { query_depth = s'.query_depth - 1 })
Later-shallower s s' l = record {
  same_toks = l.same_toks;
  moved = l.moved;
  inside = l.inside;
  said = l.said;
  depth = omega (arith, l.depth);
}

module _ {A : Type 0} (b : ℕ) where
  -- A report and then a failure: all that is asked of any action.
  pub Eats-refuse :
      (code : String) (at_span : Span) (msg : Bytes) → Eats b (refuse {A = A} code at_span msg)
  unfolding refuse err push_diag ◌>>=◌ stop
  Eats-refuse code at_span msg = eats (λ s w here r. push-Reported _ s w)

  pub Eats-refuse_note :
      (code : String) (at_span : Span) (msg note : Bytes) (clause : String)
      → Eats b (refuse_note {A = A} code at_span msg note clause)
  unfolding refuse_note err_note push_diag ◌>>=◌ stop
  Eats-refuse_note code at_span msg note clause = eats (λ s w here r. push-Reported _ s w)

  -- What depends on the token under the cursor.
  Sound-looking :
      {P : Parser → Type 0} (g : A → ℕ) (k : Tok → Action A)
      → ((t : Tok) → Sound g b P (k t))
      → Sound g b P (looking k)
  unfolding looking
  Sound-looking g k p s w here r = p (peek s).tok s w here r

  pub Sound-looking_here :
      (g : A → ℕ) (k : Tok → Action A)
      → ((t : Tok) → is_eof t ≡ false → Sound g b BeforeEof (k t))
      → Sound g b Anywhere (k eof)
      → Sound g b Anywhere (looking k)
  unfolding looking at_eof
  Sound-looking_here g k p q s w here r = elim (Bool-cases (is_eof (peek s).tok)) [
    | inl over ↦ rw (is_eof-eq (peek s).tok over) (q s w tt r)
    | inr before ↦ p (peek s).tok before s w before r
  ]

  pub Keeps-looking : (k : Tok → Action A) → ((t : Tok) → Keeps b (k t)) → Keeps b (looking k)
  Keeps-looking k p = keeps (Sound-looking (λ _. 0) k (λ t. Rules.of_Keeps b (k t) (p t)))

  pub EatsHere-looking :
      (k : Tok → Action A) → ((t : Tok) → EatsHere b (k t)) → EatsHere b (looking k)
  EatsHere-looking k p = eats_here (Sound-looking (λ _. 1) k (λ t. Rules.of_EatsHere b (k t) (p t)))

  pub Eats-looking :
      (k : Tok → Action A)
      → ((t : Tok) → is_eof t ≡ false → EatsHere b (k t))
      → Eats b (k eof)
      → Eats b (looking k)
  Eats-looking k p q = eats (
      Sound-looking_here (λ _. 1) k (λ t e. Rules.of_EatsHere b (k t) (p t e))
        (Rules.of_Eats b (k eof) q))

  Step-settled : (s : Parser) (o : Outcome A) → Step (λ _. 0) s o → Step (λ _. 0) s (settled o)
  unfolding settled
  Step-settled s (done a s') h = h
  Step-settled s (failed s') h = h.later
  Step-settled s exhausted h = h

  pub Keeps-attempt : (m : Action A) → Keeps b m → Keeps b (attempt m)
  unfolding attempt
  Keeps-attempt m p = keeps (λ s w here r. Step-settled s (m s) (Rules.of_Keeps b m p s w here r))

  Step-shallower :
      (s : Parser) (o : Outcome A)
      → Step (λ _. 0) (record s { query_depth = s.query_depth + 1 }) o
      → Step (λ _. 0) s (shallower o)
  unfolding shallower
  Step-shallower s (done a s') h = Later-shallower s s' h
  Step-shallower s (failed s') h = record {
    later = Later-shallower s s' h.later;
    report = h.report;
  }
  Step-shallower s exhausted h = h

  pub Keeps-in_query : (m : Action A) → Keeps b m → Keeps b (in_query m)
  unfolding in_query
  Keeps-in_query m p = keeps λ s w here r.
      let s' : Parser = record s { query_depth = s.query_depth + 1 } in
      let w' : WellFormed s' = record { inside = w.inside; ended = w.ended } in
      Step-shallower s (m s') (Rules.of_Keeps b m p s' w' here r)

same_tok-eof : (t : Tok) → same_tok eof t ≡ true → is_eof t ≡ true
unfolding same_tok kind_number
same_tok-eof eof h = refl
same_tok-eof _ h = cc

pub Solid-at : (t : Tok) → is_eof t ≡ false → Solid (at t)
unfolding at at_eof
Solid-at t h = solid λ s e. elim (Bool-cases (is_eof (peek s).tok)) [
  | inl over ↦ let over' = same_tok-eof t (rw (is_eof-eq (peek s).tok over) at e) in cc
  | inr before ↦ before
]

is_word-is_eof : (t : Token) (w : Bytes) → is_word t w ≡ true → is_eof t.tok ≡ false
unfolding is_word
is_word-is_eof t w h = by_tok t.tok (refl {a = t.tok})
  where
    by_tok : (k : Tok) → t.tok ≡ k → is_eof t.tok ≡ false
    by_tok eof e = let no_word : false ≡ true = rw e at h in cc
    by_tok _ e = rw e

pub Solid-at_word : (w : Bytes) → Solid (at_word w)
unfolding at_word at_eof
Solid-at_word w = solid (λ s e. is_word-is_eof (peek s) w e)

pub Solid-both : (t u : Test) → Solid t → Solid (both t u)
unfolding both
Solid-both t u (solid h) = solid (λ s e. h s (ground arith))

pub Solid-either : (t u : Test) → Solid t → Solid u → Solid (either t u)
unfolding either
Solid-either t u (solid h) (solid k) =
    solid λ s e. elim (Bool-cases (t s)) [ inl yes' ↦ h s yes' | inr no' ↦ k s (rw no' at e) ]
