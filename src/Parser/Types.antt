-- ===== src/Parser/Types.antt =====
-- src/parser.rs, `parse_type`: a type, with its arguments and its suffixes.
use jwc_lang.Prelude.{
  ℕ, ◌+◌, ◌-◌, ◌*◌, ◌%◌, Bool, true, false, ◌&&◌, Option, none, some, List, [], ◌∷◌, ◌++◌, map,
  Bytes, codes, if◌then◌else◌, ltb, leb,
}
use jwc_lang.Prelude.Loop.{Flow, again, break}
use jwc_lang.Token.{
  Tok, Span, to, same_bytes, int, l_paren, r_paren, l_brace, r_brace, l_bracket, r_bracket, colon,
  dot, question, u32_mod,
}
use jwc_lang.Ast.Tree.{
  Node, Ident, DottedName, type_ref, type_kind, record_field, type_at, scalar, record_type, named,
  typed, vec,
}
use jwc_lang.Parser.Action.{Parser, Action, pure, gets, branch, ◌>>=◌, looping, both}
use jwc_lang.Parser.Cursor.{
  token_at, bump, at, next_is, looking, span, eat, expect, expect_ident, unexpected,
}
use jwc_lang.Parser.Names.{Parsers, some_items, items_before, parse_flag}

-- SCALARS
unfoldable pub scalars : List Bytes
scalars = map codes (
    "bigint" ∷ "int" ∷ "smallint" ∷ "numeric" ∷ "varchar" ∷ "text" ∷ "boolean" ∷ "timestamptz"
    ∷ "date" ∷ "time" ∷ "interval" ∷ "uuid" ∷ "jsonb" ∷ "inet" ∷ "bytea" ∷ [])

-- `list.contains(&w)`
unfoldable pub is_among : Bytes → List Bytes → Bool
is_among w [] = false
is_among w (x ∷ xs) = if same_bytes x w then true else is_among w xs

abbrev is_digit : ℕ → Bool
is_digit c = leb b'0' c && leb c b'9'

unfoldable pub digits_value : ℕ → Bytes → Option ℕ
digits_value n [] = some n
digits_value n (c ∷ cs) =
    let rest = digits_value (n * 10 + (c - b'0')) cs in if is_digit c then rest else none

unfoldable pub unsigned_value : Bytes → Option ℕ
unfolding digits_value
unsigned_value [] = none
unsigned_value (c ∷ cs) = digits_value 0 (c ∷ cs)

unfoldable pub u32_or_zero : Option ℕ → ℕ
u32_or_zero none = 0
u32_or_zero (some n) = if ltb n u32_mod then n else 0

-- `n.parse::<u32>().unwrap_or(0)`; the text of an `Int` token has no sign
unfoldable pub u32_of : Bytes → ℕ
unfolding unsigned_value u32_or_zero
u32_of text = u32_or_zero (unsigned_value text)

-- `n.parse::<u16>().unwrap_or(0)`
unfoldable pub u16_of : Bytes → ℕ
unfolding unsigned_value
u16_of text = elim (unsigned_value text) [ none ↦ 0 | some n ↦ if ltb n 65536 then n else 0 ]

unfoldable pub type_arg_or_refuse : Tok → Action ℕ
type_arg_or_refuse (int n) = do _ ← bump; pure (u32_of n)
type_arg_or_refuse other = unexpected "E0011" (codes "a type argument") other

unfoldable pub parse_type_arg : Action ℕ
parse_type_arg = looking type_arg_or_refuse

-- `(…)`, if it is there
unfoldable pub parse_type_args : Action (List ℕ)
parse_type_args =
    branch (at l_paren)
      (do _ ← bump; args ← some_items parse_type_arg; _ ← expect r_paren; pure args) (pure [])

-- one more part of a dotted name
unfoldable pub next_part : DottedName → Action (Flow DottedName DottedName)
next_part d =
    branch (at dot)
      (do
        _ ← bump
        p ← expect_ident
        pure (again (record { parts = d.parts ++ p ∷ []; span = to d.span p.span })))
      (pure (break d))

unfoldable pub parse_parts : Ident → Action DottedName
parse_parts first = looping next_part (record { parts = first ∷ []; span = first.span })

-- what the name of a type, which is read, begins
unfoldable pub parse_named_type : Ident → Action (Node type_kind)
parse_named_type first =
    branch (λ s. is_among first.name scalars)
      (do args ← parse_type_args; pure (scalar first.name args))
      (do d ← parse_parts first; pure (named d))

-- `self.toks[self.i.saturating_sub(1)].span`
unfoldable pub last_end : Parser → Span
last_end s = (token_at s.toks (s.i - 1)).span

-- the `[]` suffixes: how many, in a `u8`, which of them are optional, and where they end
pub record Suffixes : Type 0 where
  pub depth : ℕ
  pub optional : List Bool
  pub stop : Span

unfoldable pub next_suffix : Suffixes → Action (Flow Suffixes Suffixes)
next_suffix x =
    branch (both (at l_bracket) (next_is 1 r_bracket))
      (do
        _ ← bump
        close ← bump
        mark ← parse_flag (at question) close.span
        pure (
            again (record {
              depth = (x.depth + 1) % 256;
              optional = x.optional ++ mark.0 ∷ [];
              stop = mark.1;
            })))
      (pure (break x))

module _ (self : Parsers) where
  unfoldable pub parse_record_field : Action (Node record_field)
  parse_record_field = do
    name ← expect_ident
    _ ← expect colon
    ty ← self.type_of
    pure (typed name ty)

  unfoldable pub parse_record_type : Action (Node type_kind)
  parse_record_type = do
    _ ← bump
    fields ← items_before r_brace parse_record_field
    _ ← expect r_brace
    pure (record_type (vec fields))

  unfoldable pub parse_type_kind : Action (Node type_kind)
  parse_type_kind =
      branch (at l_brace) parse_record_type (do first ← expect_ident; parse_named_type first)

  unfoldable pub parse_type : Action (Node type_ref)
  parse_type = do
    start ← gets span
    kind ← parse_type_kind
    optional ← eat question
    stop ← gets last_end
    x ← looping next_suffix (record { depth = 0; optional = []; stop = stop })
    pure (type_at kind x.depth optional x.optional (to start x.stop))
