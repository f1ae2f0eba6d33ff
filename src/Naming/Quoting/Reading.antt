-- ===== src/Naming/Quoting/Reading.antt =====
-- src/naming.rs: a reader of identifiers by the lexical rules of SQL, and `quote_ident`.
use mathlib.Core.List.{append_assoc}
use jwc_lang.Naming.Quoting.{
  is_reserved_sql, plain_char, all_plain, starts_plain, double_quotes, quote_ident,
}
use jwc_lang.Naming.{Text, ascii_lower}
use jwc_lang.Prelude.{
  ℕ, Bool, true, false, not, ◌&&◌, ◌||◌, Option, none, some, [], ◌∷◌, ◌++◌, ◌≡◌, refl, arith, ◌==◌,
  if◌then◌else◌, Bool-cases, inl, inr, is_lower, and_true, is_word, is_alpha, leb, ap, ◌∙◌,
}

-- How Postgres reads an identifier at the front of a text, with what is left of the text. Behind a `"`
-- it is everything up to a single `"`, where `""` stands for a quote.
put : ℕ → Option (Text × Text) → Option (Text × Text)
put c none = none
put c (some (name, rest)) = some (c ∷ name, rest)

unfoldable pub quoted_part : Text → Option (Text × Text)
unfolding put
quoted_part [] = none
quoted_part (a ∷ []) = if a == b'"' then some ([], []) else none
quoted_part (a ∷ b ∷ cs) =
    let pair = quoted_part cs in
    let more = quoted_part (b ∷ cs) in
    if a == b'"' then (if b == b'"' then put b'"' pair else some ([], b ∷ cs)) else put a more

-- Else it is a run of letters, digits, `_`, `$` and what is not ASCII, its capitals folded.
abbrev pub ident_char : ℕ → Bool
ident_char c = is_word c || c == b'$' || leb 128 c

unfoldable pub bare_part : Text → Text × Text
bare_part [] = ([], [])
bare_part (c ∷ cs) =
    let more = bare_part cs in
    if ident_char c then (ascii_lower c ∷ more.0, more.1) else ([], c ∷ cs)

-- A reserved word is no identifier, and a digit or a `$` does not begin one.
unfoldable pub read_ident : Text → Option (Text × Text)
unfolding quoted_part bare_part
read_ident [] = none
read_ident (c ∷ cs) =
    let bare = bare_part (c ∷ cs) in
    if c == b'"'
    then quoted_part cs
    else if is_alpha c || c == b'_' || leb 128 c
    then (if is_reserved_sql bare.0 then none else some bare)
    else none

-- What does not go on with an identifier.
abbrev pub Ends : Text → Type 0
Ends [] = Unit
Ends (c ∷ _) = (ident_char c ≡ false) × ((c == b'"') ≡ false)

quoted_part-end : (rest : Text) → Ends rest → quoted_part (b'"' ∷ rest) ≡ some ([], rest)
unfolding quoted_part
quoted_part-end [] h = refl
quoted_part-end (c ∷ cs) h = rw h.1

-- one character of the name
quoted_part-cons :
    (c : ℕ) (s : Text) → (c == b'"') ≡ false → quoted_part (c ∷ s) ≡ put c (quoted_part s)
unfolding quoted_part
quoted_part-cons c [] h = rw h
quoted_part-cons c (d ∷ s) h = rw h

quoted_part-pair : (s : Text) → quoted_part (b'"' ∷ b'"' ∷ s) ≡ put b'"' (quoted_part s)
unfolding quoted_part
quoted_part-pair s = refl

quoted_part-double_quotes :
    (name rest : Text)
    → Ends rest
    → quoted_part (double_quotes name ++ (b'"' ∷ rest)) ≡ some (name, rest)
unfolding double_quotes put
quoted_part-double_quotes [] rest h = quoted_part-end rest h
quoted_part-double_quotes (c ∷ cs) rest h = elim (Bool-cases (c == b'"')) [
  | inl quote ↦
      let e : b'"' ≡ c = ground arith in
      rw quote (
        quoted_part-pair _
        ∙ ap (put b'"') (quoted_part-double_quotes cs rest h)
        ∙ ap (λ x. some (x ∷ cs, rest)) e)
  | inr other ↦
      rw other (quoted_part-cons c _ other ∙ ap (put c) (quoted_part-double_quotes cs rest h))
]

plain_char_lem : (c : ℕ) → plain_char c ≡ true → (ident_char c ≡ true) × (ascii_lower c ≡ c)
unfolding ascii_lower
plain_char_lem c h = ground arith

starts_plain_lem :
    (c : ℕ)
    → (is_lower c || c == b'_') ≡ true
    → ((c == b'"') ≡ false) × ((is_alpha c || c == b'_' || leb 128 c) ≡ true)
starts_plain_lem c h = ground arith

-- A plain name is read whole and unchanged.
bare_part-plain :
    (name rest : Text) → all_plain name ≡ true → Ends rest → bare_part (name ++ rest) ≡ (name, rest)
unfolding bare_part
bare_part-plain [] [] p h = refl
bare_part-plain [] (c ∷ cs) p h = rw h.0
bare_part-plain (c ∷ name) rest p h =
    let (first, others) = and_true (plain_char c) _ p in
    let (is_ident, same) = plain_char_lem c first in
    rw (is_ident, same, bare_part-plain name rest others h)

read_plain :
    (name rest : Text)
    → (starts_plain name && all_plain name && not (is_reserved_sql name)) ≡ true
    → Ends rest
    → read_ident (name ++ rest) ≡ some (name, rest)
unfolding read_ident
read_plain [] rest p h = cc
read_plain (c ∷ cs) rest p h =
    let (plain, free) = and_true (starts_plain (c ∷ cs) && all_plain (c ∷ cs)) _ p in
    let (first, all) = and_true (starts_plain (c ∷ cs)) _ plain in
    let (no_quote, starts) = starts_plain_lem c first in
    let reserved : is_reserved_sql (c ∷ cs) ≡ false = ground arith in
    rw (no_quote, starts, bare_part-plain (c ∷ cs) rest all h, reserved)

-- Whatever the name, a reader of identifiers, for whom the words of `is_reserved_sql` are reserved,
-- takes it back from its quoted form, and stops behind it, where no identifier goes on.
pub read_ident-quote_ident :
    (name rest : Text) → Ends rest → read_ident (quote_ident name ++ rest) ≡ some (name, rest)
unfolding quote_ident
read_ident-quote_ident name rest h =
    elim (Bool-cases (starts_plain name && all_plain name && not (is_reserved_sql name))) [
      | inl plain ↦ rw plain (read_plain name rest plain h)
      | inr other ↦
          rw other (unfold read_ident in rw append_assoc (quoted_part-double_quotes name rest h))
    ]
