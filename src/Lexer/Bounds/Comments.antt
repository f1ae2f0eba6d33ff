-- ===== src/Lexer/Bounds/Comments.antt =====
-- src/lexer.rs: the end and the bounds of `skip_trivia`.
use jwc_lang.Lexer.Bounds.{
  Inside, new-SpanIn, report-Inside, advance-Inside, skip_while-Inside, skip_while_past, seen,
  seen_first,
}
use jwc_lang.Lexer.Comments.{
  is_blank, not_newline, skip_blanks, old_comment, line_comment, block_end, block_comment,
  comment_round, trivia_round, skip_trivia,
}
use jwc_lang.Lexer.{Lexer, peek, peek_at, leave, at_line_start}
use jwc_lang.Prelude.Loop.{Flow, again, Round, loop_ends}
use jwc_lang.Prelude.{
  ℕ, ◌+◌, ◌-◌, ◌≤◌, ◌<◌, Bool, true, false, ◌&&◌, some, [], ◌∷◌, ◌≡◌, refl, arith, length, drop,
  ◌==◌, if◌then◌else◌, Bytes, codes, if_rule, and_true, Bool-cases, inl, inr, length-drop,
}
use jwc_lang.Token.{u32_mod, Trivia}

-- A block comment's end lies inside the bytes, and two bytes behind its start if it is closed.
block_end_bounds :
    (depth : ℕ) (cs : Bytes)
    → ((block_end depth cs).size ≤ length cs)
      × ((block_end depth cs).closed ≡ true → 2 ≤ (block_end depth cs).size)
unfolding block_end
block_end_bounds depth [] = ground arith
block_end_bounds depth (a ∷ []) = ground arith
block_end_bounds depth (a ∷ b ∷ cs) = ground (
  arith,
  block_end_bounds (depth + 1) cs,
  block_end_bounds (depth - 1) cs,
  block_end_bounds depth (b ∷ cs),
)

leave-Inside : {n lo : ℕ} {s : Lexer} (t : Trivia) → Inside n lo s → Inside n lo (leave t s)
leave-Inside t h = record {
  length_is = h.length_is;
  behind = h.behind;
  inside = h.inside;
  diags_in = h.diags_in;
}

module _ (n : ℕ) (fits : n + 1 < u32_mod) where
  skip_blanks-Inside : (lo : ℕ) (s : Lexer) → Inside n lo s → Inside n lo (skip_blanks s)
  unfolding skip_blanks
  skip_blanks-Inside lo s h =
      if_rule (Inside n lo) _ _ _ (λ _. leave-Inside Trivia.blank (skip_while-Inside is_blank h))
        (λ _. skip_while-Inside is_blank h)

  marker_fits :
      (i : ℕ) (b : Bool)
      → i + 1 < n
      → (b ≡ true → i + 2 < n)
      → i + length (if b then codes "---" else codes "--") ≤ n + 1
  marker_fits i true h k = omega (arith, k refl)
  marker_fits i false h k = omega arith

  old_comment-Inside :
      (lo : ℕ) (s : Lexer)
      → Inside n lo s
      → (peek s == b'-') ≡ true
      → (peek_at s 1 == b'-') ≡ true
      → Inside n (s.i + 1) (old_comment s)
  unfolding old_comment
  old_comment-Inside lo s h p q =
      let second = seen 1 b'-' h (omega arith) q in
      let third = λ (t : (peek_at s 2 == b'-') ≡ true). seen 2 b'-' h (omega arith) t in
      skip_while_past not_newline
        (report-Inside _ h (record {
          span = new-SpanIn (n + 1) s.i _ fits (omega arith) (marker_fits s.i _ second third);
        }))
        (omega arith) (ground arith)

  line_comment-Inside :
      (lo : ℕ) (s : Lexer)
      → Inside n lo s
      → (peek_at s 1 == b'/') ≡ true
      → Inside n (s.i + 1) (line_comment s)
  unfolding line_comment
  line_comment-Inside lo s h q = elim (Bool-cases (peek_at s 2 == b'/')) [
    | inl doc ↦ rw doc (
        let third = seen 2 b'/' h (omega arith) doc in
        leave-Inside _ (
          skip_while-Inside not_newline (advance-Inside 3 (s.i + 1) h (omega arith) (omega arith))))
    | inr plain ↦ rw plain (
        let second = seen 1 b'/' h (omega arith) q in
        leave-Inside _ (
          skip_while-Inside not_newline (advance-Inside 2 (s.i + 1) h (omega arith) (omega arith))))
  ]

  block_comment-Inside :
      (lo : ℕ) (s : Lexer)
      → Inside n lo s
      → (peek_at s 1 == b'*') ≡ true
      → Inside n (s.i + 1) (block_comment s)
  unfolding block_comment
  block_comment-Inside lo s h q =
      let second = seen 1 b'*' h (omega arith) q in
      let e = block_end 1 (drop (s.i + 2) s.src) in
      let stop : s.i + (2 + e.size) ≤ n = omega (
        arith,
        (block_end_bounds 1 (drop (s.i + 2) s.src)).0,
        length-drop (s.i + 2) s.src,
        h.length_is,
      ) in
      let moved = advance-Inside (2 + e.size) (s.i + 1) h (omega arith) (omega arith) in
      leave-Inside _ (
        if_rule (Inside n (s.i + 1)) e.closed _ _ (λ _. moved)
          (λ _. report-Inside _ moved (record {
            span = new-SpanIn (n + 1) s.i (s.i + (2 + e.size)) fits (omega arith) (omega arith);
          })))

  abbrev Goes : ℕ → Lexer → Flow Lexer Lexer → Type 0
  Goes lo start f = Round (Inside n lo) (Inside n lo) (λ t. n + 2 - t.i) start (some f)

  -- Behind a comment the loop has come closer to the end.
  Goes-again :
      (lo : ℕ) (start s t : Lexer)
      → Inside n lo s
      → start.i ≤ s.i
      → s.i < n
      → Inside n (s.i + 1) t
      → Goes lo start (again t)
  Goes-again lo start s t h le lt k = (
    record {
      length_is = k.length_is;
      behind = omega arith;
      inside = k.inside;
      diags_in = k.diags_in;
    },
    omega (arith, k.behind, k.inside),
  )

  -- A round of `skip_trivia` ends where it is, or goes on behind a comment.
  comment_round-Goes :
      (lo : ℕ) (start s : Lexer) → Inside n lo s → start.i ≤ s.i → Goes lo start (comment_round s)
  unfolding comment_round
  comment_round-Goes lo start s h le =
      if_rule (Goes lo start) (peek s == b'-' && peek_at s 1 == b'-' && at_line_start s) _ _
        (λ t.
          let (dashes, _) = and_true (peek s == b'-' && peek_at s 1 == b'-') _ t in
          let (p, q) = and_true _ (peek_at s 1 == b'-') dashes in
          Goes-again lo start s _ h le (seen_first b'-' h (omega arith) p)
            (old_comment-Inside lo s h p q))
        λ _.
          if_rule (Goes lo start) (peek s == b'/' && peek_at s 1 == b'/') _ _
            (λ t.
              let (p, q) = and_true _ (peek_at s 1 == b'/') t in
              Goes-again lo start s _ h le (seen_first b'/' h (omega arith) p)
                (line_comment-Inside lo s h q))
            λ _.
              if_rule (Goes lo start) (peek s == b'/' && peek_at s 1 == b'*') _ _
                (λ t.
                  let (p, q) = and_true _ (peek_at s 1 == b'*') t in
                  Goes-again lo start s _ h le (seen_first b'/' h (omega arith) p)
                    (block_comment-Inside lo s h q))
                (λ _. h)

  blanks_behind : (s : Lexer) → s.i ≤ (skip_blanks s).i
  unfolding skip_blanks
  blanks_behind s = ground arith

  -- Skipping trivia always ends, at the same place or behind it, with its diagnostics in bounds.
  pub skip_trivia_ends :
      (lo : ℕ) (s : Lexer) → Inside n lo s → (t : Lexer) × (skip_trivia s ≡ some t) × Inside n lo t
  unfolding skip_trivia
  skip_trivia_ends lo s h =
      loop_ends (Inside n lo) (Inside n lo) (λ t. n + 2 - t.i) (λ t. some (trivia_round t))
        (λ t k.
          comment_round-Goes lo t (skip_blanks t) (skip_blanks-Inside lo t k) (blanks_behind t))
        _ s (omega (arith, h.length_is)) h
