-- ===== src/Diag/Source/Characters.antt =====
-- src/diag.rs: `line_col` against a walk over the characters of the text.
use jwc_lang.Diag.Source.{new, clamp, line_col}
use jwc_lang.Diag.Source.Walk.{walk, line_col-walk}
use jwc_lang.Lexer.Scan.{is_continuation}
use jwc_lang.Prelude.{
  ℕ, suc, ◌+◌, ◌-◌, min, true, false, List, [], ◌∷◌, ◌++◌, ◌≡◌, refl, ap, ◌∙◌, arith, length, ltb,
  ◌==◌, if◌then◌else◌, Bytes, take, encode_utf8, length-append, All, Bool-cases, inl, inr,
}
use jwc_lang.Diag.Source.Boundary.{text_of, whole, Continues, encode_utf8-IsCharacter, clamp-whole}

-- The line and the column behind a character: a newline begins a line, and every other character
-- takes a column.
abbrev pub behind : ℕ → ℕ × ℕ → ℕ × ℕ
behind c (line, col) = if c == b'\n' then (line + 1, 1) else (line, col + 1)

-- The line and the column behind the characters that are whole in the first `n` bytes.
abbrev pub position : ℕ × ℕ → ℕ → List ℕ → ℕ × ℕ
position p n [] = p
position p n (c ∷ cs) =
    let later = position (behind c p) (n - length (encode_utf8 c)) cs in
    if ltb n (length (encode_utf8 c)) then p else later

take-append : (a b : Bytes) (k : ℕ) → take (length a + k) (a ++ b) ≡ a ++ take k b
take-append [] b k = ap (λ n. take n b) (omega arith)
take-append (x ∷ a) b k =
    let more : length (x ∷ a) + k ≡ suc (length a + k) = omega arith in
    ap (λ n. take n (x ∷ (a ++ b))) more ∙ ap (◌∷◌ x) (take-append a b k)

walk-append : (p : ℕ × ℕ) (a b : Bytes) → walk p (a ++ b) ≡ walk (walk p a) b
walk-append p [] b = refl
walk-append (line, col) (x ∷ a) b = elim (Bool-cases (x == b'\n')) [
  | inl newline ↦ rw newline (walk-append (line + 1, 1) a b)
  | inr other ↦ rw other (walk-append (line, (if is_continuation x then 0 else 1) + col) a b)
]

walk-Continues : (p : ℕ × ℕ) (xs : Bytes) → All Continues xs → walk p xs ≡ p
walk-Continues p [] h = refl
walk-Continues (line, col) (x ∷ xs) h =
    let other : (x == b'\n') ≡ false = ground (arith, h.0) in
    rw (other, h.0) (walk-Continues (line, 0 + col) xs h.1 ∙ ap (λ v. (line, v)) (omega arith))

walk-behind : (p : ℕ × ℕ) (c : ℕ) → walk p (encode_utf8 c) ≡ behind c p
walk-behind (line, col) c =
    let char = encode_utf8-IsCharacter c in
    elim (Bool-cases (c == b'\n')) [
      | inl newline ↦
          let first : (char.first == b'\n') ≡ true = char.newline ∙ newline in
          rw (char.bytes, newline, first) (walk-Continues (line + 1, 1) char.others char.continue)
      | inr other ↦
          let first : (char.first == b'\n') ≡ false = char.newline ∙ other in
          rw (char.bytes, other, first, char.begins)
            (walk-Continues (line, 1 + col) char.others char.continue
              ∙ ap (λ v. (line, v)) (omega arith))
    ]

walk-position :
    (p : ℕ × ℕ) (n : ℕ) (cs : List ℕ) → walk p (take (whole n cs) (text_of cs)) ≡ position p n cs
walk-position p n [] = refl
walk-position p n (c ∷ cs) = elim (Bool-cases (ltb n (length (encode_utf8 c)))) [
  | inl inside ↦ rw inside refl
  | inr past ↦
      let char = encode_utf8 c in
      rw past (
        ap (walk p) (take-append char (text_of cs) (whole (n - length char) cs))
        ∙ walk-append p char (take (whole (n - length char) cs) (text_of cs))
        ∙ ap (λ q. walk q (take (whole (n - length char) cs) (text_of cs))) (walk-behind p c)
        ∙ walk-position (behind c p) (n - length char) cs)
]

-- An offset behind the text is one at its end.
position-min :
    (p : ℕ × ℕ) (n : ℕ) (cs : List ℕ)
    → position p (min n (length (text_of cs))) cs ≡ position p n cs
position-min p n [] = refl
position-min p n (c ∷ cs) =
    let char = encode_utf8 c in
    let size = length-append char (text_of cs) in
    elim (Bool-cases (ltb n (length char))) [
      | inl inside ↦
          let same : min n (length (char ++ text_of cs)) ≡ n = ground arith in
          rw (same, inside) refl
      | inr past ↦
          let far : ltb (min n (length (char ++ text_of cs))) (length char) ≡ false =
            ground arith in
          let less : min n (length (char ++ text_of cs)) - length char
              ≡ min (n - length char) (length (text_of cs)) =
            ground arith in
          rw (far, past, less) (position-min (behind c p) (n - length char) cs)
    ]

-- In a text of characters the line and the column of an offset are those behind the characters that
-- are whole in the bytes before it, for a reader who starts at line 1 and column 1: a newline begins
-- a line, and every other character takes a column.
pub line_col-position :
    (path : Bytes) (cs : List ℕ) (offset : ℕ)
    → line_col (new path (text_of cs)) offset ≡ position (1, 1) offset cs
line_col-position path cs offset =
    let n = min offset (length (text_of cs)) in
    let clamped : clamp (text_of cs) n ≡ whole n cs =
      ap (clamp (text_of cs)) (omega arith) ∙ clamp-whole [] cs n (omega arith) ∙ omega arith in
    line_col-walk (text_of cs) path offset
    ∙ ap (λ k. walk (1, 1) (take k (text_of cs))) clamped
    ∙ walk-position (1, 1) n cs
    ∙ position-min (1, 1) offset cs
