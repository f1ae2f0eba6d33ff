-- ===== src/Lexer/Bounds.antt =====
-- src/lexer.rs: the bounds of the position and of the diagnostics.
pub mod Comments
pub mod Strings
pub mod Scan
use jwc_lang.Diag.{Diagnostic}
use jwc_lang.Lexer.{Lexer, report, run, advance, skip_while, peek, peek_at}
use jwc_lang.Prelude.{
  ℕ, ◌+◌, ◌-◌, ◌≤◌, ◌<◌, max, Bool, true, [], ◌∷◌, ◌≡◌, refl, sym, subst, arith, length, drop, All,
  All-append, run_length, run_bound, run_pos, byte_at-inside, ◌==◌,
}
use jwc_lang.Token
use jwc_lang.Token.{Span, u32_mod}

-- A span between two positions, none of them past `n`.
pub record SpanIn (n : ℕ) (s : Span) : Type 0 where
  pub ordered : s.start ≤ s.stop
  pub within : s.stop ≤ n

pub record DiagIn (n : ℕ) (d : Diagnostic) : Type 0 where
  pub span : SpanIn n d.span

-- A scanner over `n` bytes, at `lo` or behind it.
pub record Inside (n lo : ℕ) (s : Lexer) : Type 0 where
  pub length_is : length s.src ≡ n
  pub behind : lo ≤ s.i
  pub inside : s.i ≤ n + 1
  pub diags_in : All (DiagIn (n + 1)) s.diags

-- Below `2 ^ 32` the casts lose nothing.
pub new-SpanIn :
    (n start stop : ℕ) → n < u32_mod → start ≤ stop → stop ≤ n → SpanIn n (Token.new start stop)
unfolding Token.new
new-SpanIn n start stop fits h k = omega arith

pub report-Inside :
    {n lo : ℕ} {s : Lexer} (d : Diagnostic)
    → Inside n lo s
    → DiagIn (n + 1) d
    → Inside n lo (report d s)
report-Inside d h k = record {
  length_is = h.length_is;
  behind = h.behind;
  inside = h.inside;
  diags_in = All-append (DiagIn _) _ _ h.diags_in (k, tt);
}

-- `self.i += k`, up to the end or one past it.
pub advance-Inside :
    {n lo : ℕ} {s : Lexer} (k lo' : ℕ)
    → Inside n lo s
    → lo' ≤ s.i + k
    → s.i + k ≤ n + 1
    → Inside n lo' (advance k s)
advance-Inside k lo' h p q = record {
  length_is = h.length_is;
  behind = p;
  inside = q;
  diags_in = h.diags_in;
}

pub run-Inside :
    {n lo : ℕ} {s : Lexer} (test : ℕ → Bool) → Inside n lo s → s.i + run test s ≤ max s.i n
run-Inside {s = s} test h = omega (arith, run_bound test s.i s.src, h.length_is)

pub skip_while-Inside :
    {n lo : ℕ} {s : Lexer} (test : ℕ → Bool) → Inside n lo s → Inside n lo (skip_while test s)
skip_while-Inside {n} {lo} test h =
    advance-Inside _ lo h (omega arith) (omega (arith, run-Inside test h))

-- A run whose first byte passes the test moves on.
pub skip_while_past :
    {n lo : ℕ} {s : Lexer} (test : ℕ → Bool)
    → Inside n lo s
    → s.i < n
    → test (peek s) ≡ true
    → Inside n (s.i + 1) (skip_while test s)
skip_while_past {s = s} test h lt p =
    advance-Inside _ (s.i + 1) h
      (omega (arith, run_pos test s.i s.src (omega (arith, h.length_is)) p))
      (omega (arith, run-Inside test h))

-- A byte that is seen is there.
pub seen :
    {n lo : ℕ} {s : Lexer} (k b : ℕ)
    → Inside n lo s
    → 0 < b
    → (peek_at s k == b) ≡ true
    → s.i + k < n
seen {s = s} k b h pos p = omega (arith, byte_at-inside s.src (s.i + k) b pos p, h.length_is)

pub seen_first :
    {n lo : ℕ} {s : Lexer} (b : ℕ) → Inside n lo s → 0 < b → (peek s == b) ≡ true → s.i < n
seen_first {s = s} b h pos p = omega (arith, byte_at-inside s.src s.i b pos p, h.length_is)

-- A diagnostic that ends at the position.
pub report_here :
    {n lo : ℕ} {s : Lexer} (a : ℕ) (d : Diagnostic)
    → n + 1 < u32_mod
    → Inside n lo s
    → a ≤ s.i
    → d.span ≡ Token.new a s.i
    → Inside n lo (report d s)
report_here {n} {s = s} a d fits h le e =
    report-Inside d h
      (record { span = subst (SpanIn (n + 1)) (sym e) (new-SpanIn (n + 1) a s.i fits le h.inside) })
