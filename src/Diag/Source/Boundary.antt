-- ===== src/Diag/Source/Boundary.antt =====
-- src/diag.rs: the boundaries of the characters of a text, and the clamping of an offset to one.
use jwc_lang.Diag.Source.{is_char_boundary, clamp}
use jwc_lang.Lexer.Scan.{is_continuation}
use mathlib.Core.List.{append_assoc}
use jwc_lang.Prelude.{
  ℕ, zero, suc, ◌+◌, ◌-◌, ◌/◌, ◌%◌, ◌≤◌, ◌<◌, true, false, List, [], ◌∷◌, ◌++◌, ◌≡◌, refl, ◌∙◌,
  arith, length, ltb, ◌==◌, if◌then◌else◌, Bytes, byte_at, encode_utf8, length-append, All,
  byte_behind, first_behind, Bool-cases, inl, inr,
}

-- The text of a list of characters.
abbrev pub text_of : List ℕ → Bytes
text_of [] = []
text_of (c ∷ cs) = encode_utf8 c ++ text_of cs

-- The number of bytes of the characters that are whole in the first `n` bytes.
abbrev pub whole : ℕ → List ℕ → ℕ
whole n [] = 0
whole n (c ∷ cs) =
    let later = length (encode_utf8 c) + whole (n - length (encode_utf8 c)) cs in
    if ltb n (length (encode_utf8 c)) then 0 else later

abbrev pub Continues : ℕ → Type 0
Continues b = is_continuation b ≡ true

-- A character's first byte and those that continue it.
pub record IsCharacter (c : ℕ) : Type 0 where
  pub first : ℕ
  pub others : Bytes
  pub bytes : encode_utf8 c ≡ first ∷ others
  pub begins : is_continuation first ≡ false
  pub newline : (first == b'\n') ≡ (c == b'\n')
  pub continue : All Continues others

continues : (x : ℕ) → Continues (128 + x % 64)
continues x = ground arith

pub encode_utf8-IsCharacter : (c : ℕ) → IsCharacter c
unfolding encode_utf8
encode_utf8-IsCharacter c = elim (Bool-cases (ltb c 128)) [
  | inl one ↦ record {
    first = c;
    others = [];
    bytes = rw (encode_utf8, one) refl;
    begins = ground arith;
    newline = refl;
    continue = tt;
  }
  | inr more ↦ elim (Bool-cases (ltb c 2048)) [
    | inl two ↦ record {
      first = 192 + c / 64;
      others = (128 + c % 64) ∷ [];
      bytes = rw (encode_utf8, more, two) refl;
      begins = ground arith;
      newline = ground arith;
      continue = (continues c, tt);
    }
    | inr more' ↦ elim (Bool-cases (ltb c 65536)) [
      | inl three ↦ record {
        first = 224 + c / 4096;
        others = (128 + c / 64 % 64) ∷ (128 + c % 64) ∷ [];
        bytes = rw (encode_utf8, more, more', three) refl;
        begins = ground arith;
        newline = ground arith;
        continue = (continues (c / 64), (continues c, tt));
      }
      | inr four ↦ record {
        first = 240 + c / 262144;
        others = (128 + c / 4096 % 64) ∷ (128 + c / 64 % 64) ∷ (128 + c % 64) ∷ [];
        bytes = rw (encode_utf8, more, more', four) refl;
        begins = ground arith;
        newline = ground arith;
        continue = (continues (c / 4096), (continues (c / 64), (continues c, tt)));
      }
    ]
  ]
]

byte_at-Continues :
    (xs rest : Bytes) (m : ℕ)
    → All Continues xs
    → m < length xs
    → Continues (byte_at (xs ++ rest) m)
byte_at-Continues [] rest m h lt = absurd (omega arith)
byte_at-Continues (x ∷ xs) rest zero h lt = h.0
byte_at-Continues (x ∷ xs) rest (suc m) h lt = byte_at-Continues xs rest m h.1 (omega arith)

-- A character begins at a boundary.
boundary_here :
    (before : Bytes) (cs : List ℕ) → is_char_boundary (before ++ text_of cs) (length before) ≡ true
unfolding is_char_boundary
boundary_here before [] = let len = length-append before [] in ground arith
boundary_here before (c ∷ cs) =
    let char = encode_utf8-IsCharacter c in
    let rest = encode_utf8 c ++ text_of cs in
    let here : byte_at (before ++ rest) (length before) ≡ char.first =
      first_behind before rest ∙ rw char.bytes refl in
    let begins = char.begins in
    let size : length rest ≡ suc (length (char.others ++ text_of cs)) = rw char.bytes refl in
    let len = length-append before rest in rw here (ground arith)

-- The other bytes of a character are no boundaries.
no_boundary :
    (before : Bytes) (c : ℕ) (cs : List ℕ) (m : ℕ)
    → suc m < length (encode_utf8 c)
    → is_char_boundary (before ++ text_of (c ∷ cs)) (length before + suc m) ≡ false
unfolding is_char_boundary
no_boundary before c cs m lt =
    let char = encode_utf8-IsCharacter c in
    let rest = encode_utf8 c ++ text_of cs in
    let size : length (encode_utf8 c) ≡ suc (length char.others) = rw char.bytes refl in
    let there : byte_at (before ++ rest) (length before + suc m)
        ≡ byte_at (char.others ++ text_of cs) m =
      byte_behind before rest (suc m) ∙ rw char.bytes refl in
    let inside = byte_at-Continues char.others (text_of cs) m char.continue (omega arith) in
    let len = length-append before rest in
    let len' = length-append (encode_utf8 c) (text_of cs) in rw there (ground arith)

clamp_boundary : (text : Bytes) (k : ℕ) → is_char_boundary text k ≡ true → clamp text k ≡ k
unfolding clamp
clamp_boundary text zero h = refl
clamp_boundary text (suc k) h = rw h refl

clamp_inside :
    (before : Bytes) (c : ℕ) (cs : List ℕ) (n : ℕ)
    → n < length (encode_utf8 c)
    → clamp (before ++ text_of (c ∷ cs)) (length before + n) ≡ length before
unfolding clamp
clamp_inside before c cs zero lt =
    let here : length before + 0 ≡ length before = omega arith in
    rw here
      (clamp_boundary (before ++ text_of (c ∷ cs)) (length before) (boundary_here before (c ∷ cs)))
clamp_inside before c cs (suc n) lt =
    let next : length before + suc n ≡ suc (length before + n) = omega arith in
    let inside = rw next at (no_boundary before c cs n lt) in
    rw (next, inside) (clamp_inside before c cs n (omega arith))

-- The offset is clamped to the end of the last character that is whole.
pub clamp-whole :
    (before : Bytes) (cs : List ℕ) (n : ℕ)
    → n ≤ length (text_of cs)
    → clamp (before ++ text_of cs) (length before + n) ≡ length before + whole n cs
clamp-whole before [] n le =
    let none_left : n ≡ 0 = omega arith in
    let here : length before + 0 ≡ length before = omega arith in
    rw (none_left, here) (clamp_boundary (before ++ []) (length before) (boundary_here before []))
clamp-whole before (c ∷ cs) n le = elim (Bool-cases (ltb n (length (encode_utf8 c)))) [
  | inl inside ↦ rw inside (clamp_inside before c cs n (ground arith) ∙ omega arith)
  | inr past ↦
      let char = encode_utf8 c in
      let k = n - length char in
      let len = length-append char (text_of cs) in
      let len' = length-append before char in
      let ih = clamp-whole (before ++ char) cs k (ground arith) in
      let at : length (before ++ char) + k ≡ length before + n = ground arith in
      rw (past, ← at, ← append_assoc before char (text_of cs)) (ih ∙ omega (arith, len'))
]
