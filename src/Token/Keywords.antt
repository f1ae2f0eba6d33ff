-- ===== src/Token/Keywords.antt =====
-- src/token.rs: the words of the grammar, and the search among them.
pub mod Search
mod Tests
use jwc_lang.Prelude.{
  ℕ, zero, suc, ◌+◌, ◌-◌, ◌/◌, Bool, true, false, ◌&&◌, ◌||◌, List, [], ◌∷◌, map, String, length,
  ltb, leb, ◌==◌, if◌then◌else◌, Bytes, codes, utf8, encode_utf8,
}
use jwc_lang.Token.{same_bytes}

unfoldable pub keywords : List Bytes
keywords = map codes (
    "after" ∷ "and" ∷ "as" ∷ "asc" ∷ "assert" ∷ "by" ∷ "cascade" ∷ "catch" ∷ "check" ∷ "class"
    ∷ "conflict" ∷ "cross" ∷ "database" ∷ "default" ∷ "delete" ∷ "desc" ∷ "do" ∷ "else" ∷ "enum"
    ∷ "error" ∷ "errorHandler" ∷ "except" ∷ "exists" ∷ "false" ∷ "first" ∷ "for" ∷ "foreign"
    ∷ "from" ∷ "full" ∷ "function" ∷ "group" ∷ "having" ∷ "identity" ∷ "if" ∷ "ilike" ∷ "import"
    ∷ "in" ∷ "index" ∷ "inner" ∷ "insert" ∷ "into" ∷ "join" ∷ "key" ∷ "left" ∷ "let" ∷ "like"
    ∷ "limit" ∷ "max" ∷ "middleware" ∷ "namespace" ∷ "no" ∷ "not" ∷ "nothing" ∷ "null" ∷ "nulls"
    ∷ "of" ∷ "on" ∷ "or" ∷ "orderby" ∷ "page" ∷ "primary" ∷ "private" ∷ "provides" ∷ "raises"
    ∷ "references" ∷ "requires" ∷ "restrict" ∷ "return" ∷ "right" ∷ "route" ∷ "routes" ∷ "schema"
    ∷ "select" ∷ "server" ∷ "service" ∷ "set" ∷ "size" ∷ "table" ∷ "test" ∷ "throw" ∷ "transaction"
    ∷ "transient" ∷ "true" ∷ "under" ∷ "unique" ∷ "update" ∷ "use" ∷ "using" ∷ "view" ∷ "was"
    ∷ "where" ∷ "with" ∷ [])

-- the words of the old language, and what to write
unfoldable pub removed_keywords : List (Bytes × Bytes)
unfolding encode_utf8
removed_keywords =
    (codes "entity", utf8 "'entity' was removed in 1.0 — write 'table Accounts of App.auth { … }'")
    ∷ (
      codes "dbcontext",
      utf8
          "'dbcontext' was removed in 1.0 — write 'database App : Postgres' + 'schema auth of App;'",
    )
    ∷ (codes "via", utf8 "'via' was removed in 1.0 — write the join's 'on' clause")
    ∷ (
      codes "nav",
      utf8 "'nav' was removed in 1.0 — joins are written in the query, never declared on the table",
    )
    ∷ (
      codes "validate",
      utf8 "'validate body' was removed in 1.0 — write 'request.body() as ClassName'",
    )
    ∷ (
      codes "new",
      utf8 "'new X from Y' was removed in 1.0 — write 'insert X into App.s.X { ...@y }'",
    )
    ∷ (codes "patch", utf8 "'patch' was removed in 1.0 — write 'update X of App.s.X set …'")
    ∷ (codes "mount", utf8 "'mount' was removed in 1.0 — every route declares its full path")
    ∷ (codes "dome", utf8 "'dome' was removed in 1.0 — it has no replacement")
    ∷ (
      codes "dbset",
      utf8 "'dbset' was removed in 1.0 — a table is declared with 'table T of App.s { … }'",
    )
    ∷ []

-- the order of `str`, by bytes
unfoldable pub bytes_lt : Bytes → Bytes → Bool
bytes_lt [] [] = false
bytes_lt [] (b ∷ bs) = true
bytes_lt (a ∷ as') [] = false
bytes_lt (a ∷ as') (b ∷ bs) = ltb a b || (a == b && bytes_lt as' bs)

unfoldable pub word_at : List Bytes → ℕ → Bytes
word_at [] i = []
word_at (w ∷ ws) zero = w
word_at (w ∷ ws) (suc i) = word_at ws i

-- The loop of `binary_search`: the half that can hold the word, until one place is left. The fuel
-- bounds the rounds, each of which makes the size smaller.
unfoldable pub narrow : List Bytes → Bytes → ℕ → ℕ → ℕ → ℕ
narrow ws s zero base size = base
narrow ws s (suc fuel) base size =
    let half = size / 2 in
    let middle = base + half in
    let rest =
      narrow ws s fuel (if bytes_lt s (word_at ws middle) then base else middle) (size - half) in
    if leb size 1 then base else rest

-- `binary_search(&s).is_ok()`
unfoldable pub is_found : List Bytes → Bytes → Bool
is_found [] s = false
is_found (w ∷ ws) s =
    let size = length (w ∷ ws) in same_bytes (word_at (w ∷ ws) (narrow (w ∷ ws) s size 0 size)) s

unfoldable pub is_keyword : Bytes → Bool
unfolding keywords is_found
is_keyword s = is_found keywords s
