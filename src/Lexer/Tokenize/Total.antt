-- ===== src/Lexer/Tokenize/Total.antt =====
-- src/lexer.rs: the end of `tokenize`, the order of its tokens, and `Eof`.
use jwc_lang.Lexer.Bounds.Comments.{skip_trivia_ends}
use jwc_lang.Lexer.Bounds.Scan.{scan_one-Reads}
use jwc_lang.Lexer.Bounds.{DiagIn, Inside}
use jwc_lang.Lexer.Strings.{Scanned}
use jwc_lang.Lexer.Tokenize.{Output, Tokens, accept, finish, token_at, token_round, tokenize}
use jwc_lang.Lexer.{Lexer}
use jwc_lang.Lexer
use jwc_lang.Prelude.Loop.{Flow, Round, loop_ends}
use jwc_lang.Prelude.{
  ℕ, ◌+◌, ◌-◌, ◌≤◌, ◌<◌, Option, none, some, List, [], ◌∷◌, ◌++◌, ◌≡◌, refl, arith, length, leb,
  leb→le, leb→lt, Bytes, All, Bool-cases, inl, inr,
}
use jwc_lang.Token
use jwc_lang.Token.{Tok, Token, u32_mod}

-- Spans that hold at least a byte each, one behind the other, from `lo` up to `hi`.
abbrev pub Ordered : ℕ → List Token → ℕ → Type 0
Ordered lo [] hi = lo ≤ hi
Ordered lo (t ∷ ts) hi =
    (lo ≤ t.span.start) × (t.span.start < t.span.stop) × Ordered t.span.stop ts hi

Ordered-push :
    (lo : ℕ) (ts : List Token) (t : Token) (mid hi : ℕ)
    → Ordered lo ts mid
    → mid ≤ t.span.start
    → t.span.start < t.span.stop
    → t.span.stop ≤ hi
    → Ordered lo (ts ++ t ∷ []) hi
Ordered-push lo [] t mid hi o h k l = (omega arith, k, l)
Ordered-push lo (u ∷ ts) t mid hi o h k l =
    (o.0, o.1, Ordered-push u.span.stop ts t mid hi o.2 h k l)

Ordered-le :
    (lo : ℕ) (ts : List Token) (mid hi : ℕ) → Ordered lo ts mid → mid ≤ hi → Ordered lo ts hi
Ordered-le lo [] mid hi o h = omega arith
Ordered-le lo (t ∷ ts) mid hi o h = (o.0, o.1, Ordered-le t.span.stop ts mid hi o.2 h)

-- What `tokenize` returns for `n` bytes.
pub record Finished (n : ℕ) (r : Tokens) : Type 0 where
  pub before : List Token
  pub last : Token
  pub splits : r.0 ≡ before ++ last ∷ []
  pub ordered : Ordered 0 before last.span.start
  pub is_eof : last.tok ≡ Tok.eof
  pub is_empty : last.span.start ≡ last.span.stop
  pub from_end : n ≤ last.span.start
  pub to_end : last.span.start ≤ n + 1
  pub diags_in : All (DiagIn (n + 1)) r.1

pub new_bounds :
    (a b : ℕ) → a < u32_mod → b < u32_mod → ((Token.new a b).start ≡ a) × ((Token.new a b).stop ≡ b)
unfolding Token.new
new_bounds a b h k = omega arith

module _ (n : ℕ) (fits : n + 1 < u32_mod) where
  record IsGood (o : Output) : Type 0 where
    inside : Inside n 0 o.lexer
    ordered : Ordered 0 o.out o.lexer.i

  abbrev Goes : Output → Option (Flow Output Tokens) → Type 0
  Goes o = Round IsGood (Finished n) (λ p. n + 2 - p.lexer.i) o

  -- The token or the diagnostic that begins at `start`, behind the tokens so far.
  accept-Goes :
      (o : Output) (start : ℕ) (out : List Token) (r : Scanned)
      → Ordered 0 out start
      → start < n
      → o.lexer.i ≤ start
      → Inside n (start + 1) r.1
      → Goes o (some (accept start out r))
  unfolding accept
  accept-Goes o start out (some tok, s) k lt le h =
      let bounds = new_bounds start s.i (omega arith) (omega (arith, h.inside)) in
      (
        record {
          inside = record {
            length_is = h.length_is;
            behind = omega arith;
            inside = h.inside;
            diags_in = h.diags_in;
          };
          ordered =
              Ordered-push 0 out _ start s.i k (omega (arith, bounds.0))
                (omega (arith, bounds.0, bounds.1, h.behind)) (omega (arith, bounds.1));
        },
        omega (arith, h.behind, h.inside),
      )
  accept-Goes o start out (none, s) k lt le h = (
    record {
      inside = record {
        length_is = h.length_is;
        behind = omega arith;
        inside = h.inside;
        diags_in = h.diags_in;
      };
      ordered = Ordered-le 0 out start s.i k (omega (arith, h.behind));
    },
    omega (arith, h.behind, h.inside),
  )

  finish-Finished :
      (o : Output) (out : List Token) (s : Lexer)
      → Ordered 0 out s.i
      → n ≤ s.i
      → Inside n 0 s
      → Goes o (some (finish s out))
  unfolding finish
  finish-Finished o out s k le h =
      let bounds = new_bounds s.i s.i (omega (arith, h.inside)) (omega (arith, h.inside)) in
      record {
        before = out;
        last = record { tok = Tok.eof; span = Token.new s.i s.i; leading = s.pending };
        splits = refl;
        ordered = Ordered-le 0 out s.i _ k (omega (arith, bounds.0));
        is_eof = refl;
        is_empty = omega (arith, bounds.0, bounds.1);
        from_end = omega (arith, bounds.0);
        to_end = omega (arith, bounds.0, h.inside);
        diags_in = h.diags_in;
      }

  token_at-Goes :
      (o : Output) (out : List Token) (s : Lexer)
      → Ordered 0 out s.i
      → o.lexer.i ≤ s.i
      → Inside n 0 s
      → Goes o (token_at out s)
  unfolding token_at
  token_at-Goes o out s k le h = elim (Bool-cases (leb (length s.src) s.i)) [
    | inl end ↦ rw end (finish-Finished o out s k (omega (arith, leb→le _ _ end, h.length_is)) h)
    | inr more ↦
        let lt : s.i < n = omega (arith, leb→lt _ _ more, h.length_is) in
        let (r, e, i) = scan_one-Reads n fits 0 s h lt in
        rw (more, e, token_at) (accept-Goes o s.i out r k lt le i)
  ]

  token_round-Goes : (o : Output) → IsGood o → Goes o (token_round o)
  unfolding token_round
  token_round-Goes o g =
      let (s, e, i) = skip_trivia_ends n fits o.lexer.i o.lexer (record {
        length_is = g.inside.length_is;
        behind = omega arith;
        inside = g.inside.inside;
        diags_in = g.inside.diags_in;
      }) in
      rw (e, token_round)
        (token_at-Goes o o.out s (Ordered-le 0 o.out _ _ g.ordered i.behind) i.behind (record {
          length_is = i.length_is;
          behind = omega arith;
          inside = i.inside;
          diags_in = i.diags_in;
        }))

-- The scanner returns on every text below 4 GiB. The spans of its tokens hold a byte at least, follow
-- one another, and end before an empty `Eof` that stands at the end of the text or one byte behind
-- it. No diagnostic has a span that ends further behind.
pub tokenize_total :
    (text : Bytes)
    → length text + 1 < u32_mod
    → (r : Tokens) × (tokenize text ≡ some r) × Finished (length text) r
unfolding tokenize
tokenize_total text fits =
    loop_ends (IsGood (length text) fits) (Finished (length text))
      (λ o. length text + 2 - o.lexer.i) token_round (token_round-Goes (length text) fits) _
      (record { lexer = Lexer.new text; out = [] }) (omega arith)
      (record {
        inside = record {
          length_is = refl;
          behind = omega arith;
          inside = omega arith;
          diags_in = tt;
        };
        ordered = omega arith;
      })
