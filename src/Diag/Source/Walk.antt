-- ===== src/Diag/Source/Walk.antt =====
-- src/diag.rs: `line_col` against a walk over the text.
use jwc_lang.Diag.Source.{
  new, starts_from, clamp, count_chars, err, binary_search, line_index, start_of, line_col,
}
use jwc_lang.Lexer.Scan.{is_continuation}
use jwc_lang.Prelude.{
  ℕ, zero, suc, ◌+◌, ◌-◌, ◌≤◌, ◌<◌, min, true, false, List, [], ◌∷◌, ◌++◌, ◌≡◌, refl, ap, sym, ◌∙◌,
  subst, ap₂, arith, length, ◌==◌, if◌then◌else◌, Bytes, slice, take, drop, drop_add, Bool-cases,
  inl, inr,
}

-- Line and column behind a text, for a reader who starts at a position: a newline begins a line, and
-- a byte that begins a character takes a column.
abbrev pub walk : ℕ × ℕ → Bytes → ℕ × ℕ
walk p [] = p
walk (line, col) (b ∷ bs) =
    if b == b'\n'
    then walk (line + 1, 1) bs
    else walk (line, (if is_continuation b then 0 else 1) + col) bs

count_chars-append : (a b : Bytes) → count_chars (a ++ b) ≡ count_chars a + count_chars b
unfolding count_chars
count_chars-append [] b = omega arith
count_chars-append (c ∷ a) b = omega (arith, count_chars-append a b)

take_snoc :
    (n : ℕ) (xs : Bytes) (b : ℕ) (rest : Bytes)
    → drop n xs ≡ b ∷ rest
    → take (suc n) xs ≡ take n xs ++ b ∷ []
take_snoc zero [] b rest e = cc
take_snoc zero (x ∷ xs) b rest e = ground arith
take_snoc (suc n) [] b rest e = cc
take_snoc (suc n) (x ∷ xs) b rest e = ap (◌∷◌ x) (take_snoc n xs b rest e)

-- A slice that takes one more byte.
count_slice :
    (start stop : ℕ) (text : Bytes) (b : ℕ) (rest : Bytes)
    → start ≤ stop
    → drop stop text ≡ b ∷ rest
    → count_chars (slice start (suc stop) text)
      ≡ (if is_continuation b then 0 else 1) + count_chars (slice start stop text)
unfolding count_chars
count_slice start stop text b rest le e =
    let k = stop - start in
    let more : suc stop - start ≡ suc k = omega arith in
    let next : drop k (drop start text) ≡ b ∷ rest =
      sym (drop_add start k text) ∙ ap (λ i. drop i text) (omega arith) ∙ e in
    rw (more, take_snoc k (drop start text) b rest next)
      (omega (arith, count_chars-append (take k (drop start text)) (b ∷ [])))

-- Every line that starts behind the position is passed over.
later_starts : (bs : Bytes) (k v n : ℕ) → v ≤ k → binary_search n (starts_from k bs) v ≡ err n
unfolding starts_from binary_search
later_starts [] k v n le = refl
later_starts (b ∷ bs) k v n le = ground (arith, later_starts bs (suc k) v n)

search_first :
    (n v : ℕ) (bs : Bytes) (start : ℕ)
    → start ≤ v
    → line_index (binary_search n (start ∷ starts_from v bs) v) ≡ n
unfolding binary_search line_index
search_first n v bs start le = ground (arith, later_starts bs v v (suc n))

search_later :
    (n x v : ℕ) (xs : List ℕ) → x < v → binary_search n (x ∷ xs) v ≡ binary_search (suc n) xs v
unfolding binary_search
search_later n x v xs lt = ground arith

starts_newline :
    (k b : ℕ) (bs : Bytes)
    → (b == b'\n') ≡ true
    → starts_from k (b ∷ bs) ≡ suc k ∷ starts_from (suc k) bs
unfolding starts_from
starts_newline k b bs h = rw h refl

starts_other :
    (k b : ℕ) (bs : Bytes) → (b == b'\n') ≡ false → starts_from k (b ∷ bs) ≡ starts_from (suc k) bs
unfolding starts_from
starts_other k b bs h = rw h refl

clamp-le : (text : Bytes) (n : ℕ) → clamp text n ≤ n
unfolding clamp
clamp-le text zero = omega arith
clamp-le text (suc n) = ground (arith, clamp-le text n)

drop_next :
    (k : ℕ) (text : Bytes) (b : ℕ) (bs : Bytes) → drop k text ≡ b ∷ bs → drop (suc k) text ≡ bs
drop_next k text b bs e =
    let more : suc k ≡ k + 1 = omega arith in
    ap (λ i. drop i text) more ∙ drop_add k 1 text ∙ ap (drop 1) e

count_empty : (i : ℕ) (text : Bytes) → count_chars (slice i i text) ≡ 0
unfolding count_chars
count_empty i text = let none_taken : i - i ≡ 0 = omega arith in rw none_taken refl

module _ (text : Bytes) where
  -- Where the search among the starts of the lines ends, and where a walk ends.
  record IsLocated (n start k o : ℕ) (bs read : Bytes) : Type 0 where
    lines : ℕ
    found : line_index (binary_search n (start ∷ starts_from k bs) o) ≡ n + lines
    walked : walk (n + 1, count_chars (slice start k text) + 1) read ≡ (
      n + lines + 1,
      count_chars (slice (start_of (start ∷ starts_from k bs) lines) o text) + 1,
    )

  module _ (b : ℕ) (bs : Bytes) (n start k o : ℕ) (read : Bytes) where
    -- A newline is read: the search passes the start of its line.
    newline_IsLocated :
        (b == b'\n') ≡ true
        → start < o
        → IsLocated (suc n) (suc k) (suc k) o bs read
        → IsLocated n start k o (b ∷ bs) (b ∷ read)
    unfolding start_of
    newline_IsLocated newline lt r =
        let next : n + 1 + 1 ≡ suc n + 1 = omega arith in
        let first : 1 ≡ count_chars (slice (suc k) (suc k) text) + 1 =
          omega (arith, count_empty (suc k) text) in
        let sum : suc n + r.lines ≡ n + suc r.lines = omega arith in
        let stop =
          count_chars (slice (start_of (suc k ∷ starts_from (suc k) bs) r.lines) o text) + 1 in
        record {
          lines = suc r.lines;
          found =
              rw (starts_newline k b bs newline)
                (ap line_index (search_later n start o _ lt) ∙ r.found ∙ sum);
          walked =
              rw (starts_newline k b bs newline, newline)
                (ap₂ (λ a v. walk (a, v) read) next first ∙ r.walked ∙ ap (λ a. (a + 1, stop)) sum);
        }

    -- Another byte is read on the same line.
    other_IsLocated :
        (b == b'\n') ≡ false
        → start ≤ k
        → drop k text ≡ b ∷ bs
        → IsLocated n start (suc k) o bs read
        → IsLocated n start k o (b ∷ bs) (b ∷ read)
    other_IsLocated other le e r =
        let col : (if is_continuation b then 0 else 1) + (count_chars (slice start k text) + 1)
            ≡ count_chars (slice start (suc k) text) + 1 =
          omega (arith, count_slice start k text b bs le e) in
        record {
          lines = r.lines;
          found = rw (starts_other k b bs other) r.found;
          walked =
              rw (starts_other k b bs other, other) (ap (λ v. walk (n + 1, v) read) col ∙ r.walked);
        }

  located :
      (bs : Bytes) (n start k j o : ℕ)
      → start ≤ k
      → drop k text ≡ bs
      → j ≤ length bs
      → o ≡ k + j
      → IsLocated n start k o bs (take j bs)
  unfolding start_of
  located bs n start k zero o le e h at =
      let here : k ≡ o = omega arith in
      record {
        lines = 0;
        found =
            subst (λ v. line_index (binary_search n (start ∷ starts_from k bs) v) ≡ n + 0) here
              (search_first n k bs start le ∙ omega arith);
        walked = ap₂ (λ a v. (a, count_chars (slice start v text) + 1)) (omega arith) here;
      }
  located [] n start k (suc j) o le e h at = absurd (omega arith)
  located (b ∷ bs) n start k (suc j) o le e h at =
      let next = drop_next k text b bs e in
      elim (Bool-cases (b == b'\n')) [
        | inl newline ↦
            newline_IsLocated b bs n start k o (take j bs) newline (omega arith) (
              located bs (suc n) (suc k) (suc k) j o (omega arith) next (omega arith) (omega arith))
        | inr other ↦
            other_IsLocated b bs n start k o (take j bs) other le e
              (located bs n start (suc k) j o (omega arith) next (omega arith) (omega arith))
      ]

  -- The answer of `line_col` at a boundary that is located.
  located_line_col :
      (o : ℕ)
      → IsLocated 0 0 0 o text (take o text)
      → ◌≡◌ {A = ℕ × ℕ}
          (
            line_index (binary_search 0 (0 ∷ starts_from 0 text) o) + 1,
            count_chars (
                  slice
                    (start_of
                      (0 ∷ starts_from 0 text)
                      (line_index (binary_search 0 (0 ∷ starts_from 0 text) o)))
                    o
                    text)
                + 1,
          )
          (walk (1, 1) (take o text))
  located_line_col o r =
      let first : 1 ≡ count_chars (slice 0 0 text) + 1 = omega (arith, count_empty 0 text) in
      let sum : 0 + r.lines ≡ r.lines = omega arith in
      let stop = count_chars (slice (start_of (0 ∷ starts_from 0 text) r.lines) o text) + 1 in
      rw (r.found, sum)
        (sym (ap (λ v. walk (1, v) (take o text)) first ∙ r.walked ∙ ap (λ a. (a + 1, stop)) sum))

  -- The line and the column of an offset are those of a walk over the bytes before the boundary that
  -- the offset is clamped to.
  pub line_col-walk :
      (path : Bytes) (offset : ℕ)
      → line_col (new path text) offset
        ≡ walk (1, 1) (take (clamp text (min offset (length text))) text)
  unfolding line_col new
  line_col-walk path offset =
      let o = clamp text (min offset (length text)) in
      located_line_col o (
        located text 0 0 0 o o (omega arith) refl
          (omega (arith, clamp-le text (min offset (length text)))) (omega arith))
